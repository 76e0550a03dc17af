-- ===== src/Revisions/Reconciling.antt =====
-- backend/app/services/receipt_revision_service.py: `reconcile`.
use prislapp.Prelude.{
  Bool, List, Option, [], any, false, filter, if◌then◌else◌, is_some, none, not, some, true, ◌∷◌,
}
use prislapp.ListCopy.{LineType, unknown_type}
use prislapp.Prelude.Arithmetic.{add, decimal_le, quantize_even, subtract}
use prislapp.Prelude.Decimal.{Decimal, whole}
use prislapp.Revisions.Model.{
  Answer, ReceiptLineInput, Reconciliation, ReconciliationReason, ReconciliationStatus,
  arithmetic_error, balanced, gap, gap_accepted, missing_printed_total, ok, reconciliation_gap,
  refused, unresolved_line_amounts, unverifiable, ◌>>=◌,
}

-- `line.line_type in RECONCILED_LINE_TYPES`
abbrev pub is_reconciled : LineType → Bool
is_reconciled unknown_type = false
is_reconciled _ = true

abbrev sum_from : Decimal → List ReceiptLineInput → Decimal
sum_from total [] = total
sum_from total (line ∷ lines) = elim line.net_line_total [
  | none ↦ sum_from total lines
  | some amount ↦ sum_from (add total amount) lines
]

abbrev pub included : List ReceiptLineInput → List ReceiptLineInput
included lines = filter (λ line. is_reconciled line.line_type) lines

-- `quantize(NOK_QUANTUM)`
abbrev pub to_ore : Decimal → Answer Decimal
to_ore d = elim (quantize_even 2 d) [ none ↦ arithmetic_error | some q ↦ ok q ]

-- `computed`
abbrev pub computed_total : List ReceiptLineInput → Answer Decimal
computed_total lines = to_ore (sum_from (whole 0) (included lines))

abbrev unresolved_reason : List ReceiptLineInput → Option ReconciliationReason
unresolved_reason lines =
    if any (λ line. not (is_some line.net_line_total)) (included lines)
    then some unresolved_line_amounts
    else none

-- `abs(difference) <= RECONCILIATION_TOLERANCE`
abbrev pub is_within_tolerance : Decimal → Bool
is_within_tolerance difference =
    decimal_le (record difference { negative = false })
      (record { negative = false; digits = 1; places = 2 })

abbrev pub reconciled_status : Decimal → Bool → Bool → Answer ReconciliationStatus
reconciled_status difference accept_gap enforce_gap =
    if is_within_tolerance difference
    then ok balanced
    else (if accept_gap
        then ok gap_accepted
        else (if enforce_gap then refused (reconciliation_gap difference) else ok gap))

abbrev is_gap_accepted : ReconciliationStatus → Bool
is_gap_accepted gap_accepted = true
is_gap_accepted _ = false

abbrev pub reconcile_with :
    List ReceiptLineInput → Option Decimal → Bool → Bool → Decimal → Answer Reconciliation
reconcile_with lines none accept_gap enforce_gap sum = ok (record {
  status = unverifiable;
  printed_total = none;
  computed_total = sum;
  difference = none;
  gap_accepted_by_user = false;
  reason = some missing_printed_total;
})
reconcile_with lines (some printed) accept_gap enforce_gap sum = do
  difference ← to_ore (subtract sum printed)
  status ← reconciled_status difference accept_gap enforce_gap
  ok (record {
    status = status;
    printed_total = some printed;
    computed_total = sum;
    difference = some difference;
    gap_accepted_by_user = is_gap_accepted status;
    reason = unresolved_reason lines;
  })

unfoldable pub reconcile :
    List ReceiptLineInput → Option Decimal → Bool → Bool → Answer Reconciliation
reconcile lines printed_total accept_gap enforce_gap = do
  sum ← computed_total lines
  reconcile_with lines printed_total accept_gap enforce_gap sum
