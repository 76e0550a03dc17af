-- ===== src/Prices.antt =====
-- backend/app/domain/money.py, pricing.py and price_history.py: from receipt lines to the prices
-- that are compared.
pub mod Money
pub mod Pricing
pub mod Qualification
pub mod Raising
pub mod History
pub mod Latest
