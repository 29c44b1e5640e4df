-- ===== src/Meetings.antt =====
-- src/meetings: where a lesson is held online.
pub mod Providers
pub mod Cipher
pub mod Accounts
pub mod Endpoints
