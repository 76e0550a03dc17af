-- ===== src/OcrOutbox/Receipts.antt =====
-- The states of a receipt (backend/app/models/receipt.py), as the outbox tests and sets them.
use prislapp.Prelude.{Bool, false, true}
use prislapp.ShoppingList.Model.{
  ReceiptStatus, confirmed, failed, processing, ready_for_review, uploaded,
}

abbrev pub receipt_uploaded : ReceiptStatus
receipt_uploaded = uploaded

abbrev pub receipt_processing : ReceiptStatus
receipt_processing = processing

abbrev pub receipt_ready : ReceiptStatus
receipt_ready = ready_for_review

abbrev pub receipt_failed : ReceiptStatus
receipt_failed = failed

-- `status in {READY_FOR_REVIEW, CONFIRMED}`
abbrev pub is_read : ReceiptStatus → Bool
is_read ready_for_review = true
is_read confirmed = true
is_read _ = false

abbrev pub is_processing : ReceiptStatus → Bool
is_processing processing = true
is_processing _ = false

abbrev pub is_uploaded : ReceiptStatus → Bool
is_uploaded uploaded = true
is_uploaded _ = false
