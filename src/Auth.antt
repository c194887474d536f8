-- ===== src/Auth.antt =====
-- Login, one-time codes and passwords (modules/auth).
mod Schema
mod Codes
mod Recovery
mod Verification
mod Login
mod System
mod Guessing
mod Latest
mod Verify
mod Reset
mod Relogin
mod Delivery
mod Tests
