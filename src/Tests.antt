-- ===== src/Tests.antt =====
-- Tests, and the theorems at concrete inputs.
mod ShoppingLists
mod Syncs
mod Copying
mod OcrJobs
mod Pages
mod Limits
mod Prices
mod Corrections
mod Logins
