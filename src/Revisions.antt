-- ===== src/Revisions.antt =====
-- backend/app/services/receipt_revision_service.py: drafts, confirmations and corrections of receipts.
pub mod Model
pub mod Reconciling
pub mod Qualifying
pub mod Writing
pub mod Applying
pub mod Preparing
pub mod Cases
pub mod Retrying
pub mod Current
pub mod Publishing
pub mod History
pub mod Versions
pub mod Racing
