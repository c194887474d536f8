-- ===== src/Calls.antt =====
-- Calls in chat rooms (modules/chat/chat-call-presence.service.ts).
mod Store
mod Operations
mod Retry
mod Attempts
mod Sets
mod Invariant
mod System
mod Covered
mod Reachable
mod Contracts
mod Hangup
mod Tests
