-- ===== src/Revisions/Versions.antt =====
-- backend/app/services/receipt_revision_service.py: versions, totals and the two kinds of calls.
use prislapp.Prelude.{Bool, In, false, if◌then◌else◌, true, ℕ, ◌+◌, ◌≡◌}
use prislapp.Prelude.Decimal.{Decimal}
use prislapp.Prelude.Table.{replace}
use prislapp.Revisions.Applying.{ApplyCall}
use prislapp.Revisions.Model.{
  ReconciliationStatus, RevisedReceipt, RevisionDb, RevisionResponse, gap,
}
use prislapp.Revisions.Writing.{confirmed_receipt, price_data_version_of}
use prislapp.ShoppingList.Model.{receipt_status_code}

abbrev one_if : Bool → ℕ
one_if true = 1
one_if false = 0

abbrev pub is_gap : ReconciliationStatus → Bool
is_gap gap = true
is_gap _ = false

-- What a successful call has done to a receipt.
abbrev pub IsApplied : ApplyCall → RevisionDb → RevisionResponse → RevisionDb → Type 0
IsApplied call db response after =
    (receipt : RevisedReceipt) × In receipt db.receipts
    × (receipt.id ≡ call.receipt_id)
    × (receipt.user_id ≡ call.user_id)
    × (receipt.version ≡ call.request.expected_version)
    × (receipt_status_code receipt.status ≡ receipt_status_code call.allowed_status)
    × (response.revision ≡ receipt.version + 1)
    × (response.price_data_version
        ≡ price_data_version_of call.user_id db.ledgers + one_if call.confirming)
    × (after.receipts ≡ (
        if call.confirming
        then replace (λ (r : RevisedReceipt). r.id)
            (confirmed_receipt call.request response.revision receipt) db.receipts
        else db.receipts))
    × (call.confirming ≡ true → is_gap response.reconciliation.status ≡ false)
