-- ===== src/Groups/Contracts.antt =====
-- What each project-group handler does, on every branch: the state that it leaves, and what must
-- have held for it to return.
pub mod Approve
pub mod Accept
pub mod Closing
pub mod Review
pub mod Reject
pub mod Offers
pub mod Undone
