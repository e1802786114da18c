-- ===== src/Accounts.antt =====
-- The fleet's own accounts: src/services/data_service.js (sessions, sign-in, TOTP) and
-- src/controllers/auth.js.
pub mod State
pub mod Sessions
pub mod Totp
pub mod Requests
pub mod Rows
pub mod Gating
pub mod Accounting
pub mod Recovery
pub mod Signup
pub mod Promotion
pub mod Passkeys
pub mod Ceremonies
pub mod CeremonyTests
pub mod Tests
