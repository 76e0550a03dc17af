-- ===== src/Auth.antt =====
-- backend/app/services/auth_service.py: accounts, refresh tokens and password resets.
pub mod Model
pub mod Sessions
pub mod Accounts
pub mod Families
pub mod Counting
pub mod Steps
pub mod Heads
pub mod Ending
pub mod Racing
pub mod Resetting
