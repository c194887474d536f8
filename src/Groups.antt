-- ===== src/Groups.antt =====
-- Project groups: src/modules/project-group, group-leader-request and the group sizes of a
-- department. The children hold the tables, the guards, one module for each family of handlers, and
-- the proofs.
pub mod Schema
pub mod Access
pub mod Queries
pub mod JoinRequests
pub mod Invitations
pub mod Review
pub mod Leaders
pub mod System
pub mod Guards
pub mod Contracts
pub mod Invariant
pub mod Lifecycle
mod Tests
