-- ===== src/OcrOutbox.antt =====
-- backend/app/services/ocr_outbox.py: the jobs that read receipts.
pub mod Receipts
pub mod Model
pub mod Stores
pub mod Jobs
pub mod Choosing
pub mod Publishing
pub mod Worker
pub mod Steps
pub mod Moving
pub mod Overlaps
pub mod Runs
pub mod Fencing
pub mod Leases
pub mod Completion
pub mod Outcomes
pub mod Missing
