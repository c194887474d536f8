-- ===== src/Lib.antt =====
-- A verification of the core of the academia backend API, a NestJS service in which departments of a
-- university run their capstone projects: students form project groups, groups are reviewed, projects
-- are supervised and graded.
--
-- How the code is modelled. A handler of a service is a function from the database to its outcome: a
-- result and a new database, or an exception and the database as the handler left it (Base/Effect).
-- Its body is a do block with the same steps in the same order: the guards, the reads, the early
-- returns, the writes. `transaction` is Prisma's `$transaction`: an exception inside puts the database
-- back. A handler is taken as one step; what concurrent requests do between its reads and its writes is
-- not modelled. A table of `src/prisma/schema.prisma` is the list of its rows (Base/Table), a `where`
-- clause a condition on rows, a `data` clause a new row; the unique constraints that the handlers can
-- run into are checked where rows are created. Identifiers are numbers, since they are only compared,
-- and dates are numbers of milliseconds. What comes from outside is an argument: the caller, the time,
-- the identifier that the database draws, random tokens, JavaScript's `trim` and `toLowerCase`. There
-- is no fuel: every loop runs over a list, or counts its three attempts.
--
-- Base: tests, tables, effects, exceptions, and the rules by which a handler is proved correct step by
-- step (Base/Outcome, Base/Compose). Accounts: roles, principals and user rows
-- (src/common/constants/roles.constants.ts, src/prisma/schema.prisma).
--
-- Groups: src/modules/project-group/project-group.service.ts with its repository, and
-- src/modules/group-leader-request. Schema has the tables; Access the guards `requireDbUser`,
-- `requireStudentInDepartment`, `requireApprovedGroupLeader` and `requireDepartmentReviewer`; Queries
-- the repository, whose queries the service repeats on the client of a transaction; JoinRequests,
-- Invitations, Review and Leaders the handlers; System the choice of a handler by a request. Contracts
-- says what each handler does on every branch, Invariant what holds between two requests, Lifecycle how
-- the status of a group moves. Tests follows one group from its leader's application to its approval.
--
-- Evaluation: src/modules/evaluation, the part that coordinators, evaluators, advisors and
-- department heads write. Grades has the arithmetic of coordinator-project-evaluation.service.ts in
-- hundredths, over a rounding that is an argument; Schema the tables; Queries the repositories'
-- conditions, the contexts of the callers and `normalizeStudents`; Weights `updateWeights`; Scoring
-- the evaluators' drafts and submissions; Advising the advisors'; Finalization
-- `buildProjectDetailState` and `finalizeProject`; Decision `approveProject` and `rejectProject`;
-- System the choice of a handler by a request. Bounds is about the arithmetic, Contracts and
-- Submission about single handlers, Invariant about what holds between two requests, Locking about
-- what is final.
--
-- Auth: src/modules/auth, the part about one-time codes, passwords and login. Schema has the tables and, as
-- the record `Outside`, what the service takes from Node's crypto, bcrypt, the JWT library and JavaScript's
-- strings; Codes one table of one-time codes and the check of a code; Recovery `requestForgotPassword`,
-- `resendForgotPasswordOtp`, `verifyForgotPasswordOtp`, `resetForgottenPassword` and `changePassword`;
-- Verification `requestEmailVerification` and `verifyEmailVerificationOtp`; Login `validateUser` and `login`;
-- System the requests with a clock that only goes on. A code in the model is a text, its hash whatever
-- `Outside` says; that a mail of a resent code fails is an argument. The tokens of a login, their refresh, the
-- registration of an institution and two-factor secrets are not modelled. Latest is about the most recent
-- code, Guessing about the bound on guesses, Verify, Reset, Relogin and Delivery about what the handlers
-- promise, alone and one after another.
--
-- Calls: src/modules/chat/chat-call-presence.service.ts. Store has the keys of Redis and the commands that a
-- transaction queues; Operations what `startCall`, `joinCall`, `leaveCall` and `endCall` plan from what they
-- read; Retry `executeWithOptimisticRetry` with its three attempts; Hangup `leaveAllCallsForUser`; System the
-- requests, overlapping or in turn. All requests of a process share one connection, on which another
-- request's `EXEC` or `UNWATCH` ends a watch. So no promise about watched keys is assumed: an attempt may
-- read at any moments, meet any change of others, and get any answer of `EXEC`. Keys do not expire, and
-- commands do not fail. Attempts is about the retries, Covered about what every transaction keeps even if it
-- was planned from stale reads, Invariant about what each operation keeps with nobody else around, Reachable
-- about all requests, Contracts about the answers.
--
-- Invitations: src/modules/invitations/invitations.service.ts, with `revokeInvitation` and
-- `resendInvitation` of src/modules/tenant/tenant.service.ts. Schema has the tables; Sending
-- `createInvitation`, what became of the mail being an argument; Accept `previewAcceptInvitation` and
-- `acceptInvitation`; Manage the revocation and the resending; System the choice of a handler by a request.
-- The loop over the departments is one update of those that wait for the head. Settling and Outcome are about
-- an acceptance, Pending and Reachable about what holds between two requests.
--
-- Not modelled: the text and the sending of mails and notifications, the listings and dashboards, analytics,
-- projects with their proposals and milestones, chat messages, the records of tenants and departments, the
-- console of administrators, and the wiring of the framework.
pub mod Base
pub mod Accounts
pub mod Groups
pub mod Auth
pub mod Calls
pub mod Evaluation
pub mod Invitations
