-- ===== src/Revisions/Qualifying.antt =====
-- backend/app/services/receipt_revision_service.py: the checks of a request and `_qualify`.
use prislapp.Prelude.{
  Bool, List, Option, [], any, false, find?, is_some, map, none, not, some, suc, ℕ, ◌&&◌, ◌++◌,
  ◌==◌, ◌||◌, ◌∷◌,
}
use prislapp.Prelude.Decimal.{Decimal}
use prislapp.Prelude.Text.{Text}
use prislapp.Prices.History.{RankingExclusion, of_line, unknown_store}
use prislapp.Prices.Money.{Computed, computed, invalid_operation, value_error}
use prislapp.Prices.Pricing.{
  DatePrecision, IdentityStatus, PricingLine, PricingResult, evaluate_line,
}
use prislapp.Revisions.Model.{
  Answer, OwnedProduct, ReceiptLineInput, RevisedReceipt, RevisionDb, UserStore, arithmetic_error,
  not_found, ok, refused, ◌>>=◌,
}
use prislapp.Units.{QuantityUnit, unknown}

abbrev pub owns_receipt : ℕ → ℕ → RevisedReceipt → Bool
owns_receipt user_id receipt_id receipt = receipt.id == receipt_id && receipt.user_id == user_id

abbrev pub found_or_refused : {A : Type 0} → Option A → Answer A
found_or_refused none = refused not_found
found_or_refused (some a) = ok a

-- `_owned_receipt`
abbrev pub owned_receipt : RevisionDb → ℕ → ℕ → Answer RevisedReceipt
owned_receipt db user_id receipt_id =
    found_or_refused (find? (owns_receipt user_id receipt_id) db.receipts)

-- `_owned_store`
abbrev pub owned_store : RevisionDb → ℕ → Option ℕ → Answer (Option UserStore)
owned_store db user_id none = ok none
owned_store db user_id (some store_id) =
    elim (find? (λ (store : UserStore). store.id == store_id && store.user_id == user_id)
      db.stores) [ none ↦ refused not_found | some store ↦ ok (some store) ]

-- The user's product of an id, if the line names one.
abbrev pub identity_of : RevisionDb → ℕ → Option ℕ → Option OwnedProduct
identity_of db user_id none = none
identity_of db user_id (some id) =
    find? (λ (row : OwnedProduct). row.id == id && row.user_id == user_id) db.products

-- A line that names a product which is not the user's, for `_owned_identities`.
abbrev pub is_foreign : RevisionDb → ℕ → ReceiptLineInput → Bool
is_foreign db user_id line =
    is_some line.user_product_id && not (is_some (identity_of db user_id line.user_product_id))

-- `len(set(line_ids)) != len(line_ids)`
abbrev pub has_duplicate : List ReceiptLineInput → Bool
has_duplicate [] = false
has_duplicate (line ∷ lines) =
    any (λ (other : ReceiptLineInput). other.id == line.id) lines || has_duplicate lines

pub record QualifiedLine : Type 0 where
  pub position : ℕ
  pub result : PricingResult
  pub exclusion_reasons : List RankingExclusion
  pub eligible : Bool

abbrev pub nok : Text
nok = 78 ∷ 79 ∷ 75 ∷ []

abbrev unit_of : Option OwnedProduct → QuantityUnit
unit_of none = unknown
unit_of (some row) = row.pack_unit

abbrev status_of : Option OwnedProduct → Option IdentityStatus
status_of none = none
status_of (some row) = some row.identity_status

abbrev content_of : Option OwnedProduct → Option Decimal
content_of none = none
content_of (some row) = row.pack_content

abbrev pub pricing_line : DatePrecision → ReceiptLineInput → Option OwnedProduct → PricingLine
pricing_line dating line identity = record {
  line_type = line.line_type;
  currency = some nok;
  quantity = line.quantity;
  quantity_unit = line.quantity_unit;
  package_count = none;
  net_line_total = line.net_line_total;
  printed_unit_price = line.printed_unit_price;
  condition = line.condition;
  user_product_id = line.user_product_id;
  identity_status = status_of identity;
  date_precision = dating;
  pack_content = content_of identity;
  pack_unit = unit_of identity;
}

abbrev store_reasons : Option UserStore → List RankingExclusion
store_reasons none = unknown_store ∷ []
store_reasons (some _) = []

abbrev pub qualified_line : ℕ → Option UserStore → PricingResult → QualifiedLine
qualified_line position store result = record {
  position = position;
  result = result;
  exclusion_reasons = map of_line result.exclusion_reasons ++ store_reasons store;
  eligible = result.eligible && is_some store;
}

abbrev pub evaluated_line : Computed PricingResult → Answer PricingResult
evaluated_line (computed result) = ok result
evaluated_line value_error = arithmetic_error
evaluated_line invalid_operation = arithmetic_error

-- `_qualify` from a position on; each line stands with its qualification, as the later loops zip them.
abbrev pub qualify :
    RevisionDb
    → ℕ
    → DatePrecision
    → Option UserStore
    → ℕ
    → List ReceiptLineInput
    → Answer (List (ReceiptLineInput × QualifiedLine))
qualify db user_id dating store position [] = ok []
qualify db user_id dating store position (line ∷ lines) = do
  result ←
      evaluated_line
        (evaluate_line (pricing_line dating line (identity_of db user_id line.user_product_id)))
  others ← qualify db user_id dating store (suc position) lines
  ok ((line, qualified_line position store result) ∷ others)
