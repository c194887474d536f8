-- ===== src/Invitations.antt =====
-- Invitations to a tenant (modules/invitations, and their revocation and resending in modules/tenant).
mod Schema
mod Sending
mod Accept
mod Manage
mod Settling
mod Outcome
mod Pending
mod System
mod Reachable
mod Tests
