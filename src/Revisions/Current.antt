-- ===== src/Revisions/Current.antt =====
-- backend/app/services/receipt_revision_service.py: which observations are current.
use mathlib.Core.Path.{subst}
use prislapp.Prelude.{
  All, All-append, All-imp, Bool, In, List, Option, [], arith, false, if-both, if◌then◌else◌, inl,
  inr, map, none, refl, some, sym, true, ℕ, ◌&&◌, ◌==◌, ◌∙◌, ◌∷◌, ◌≡◌, ◌≢◌,
}
use prislapp.Prelude.Decimal.{Decimal}
use prislapp.Prelude.Table.{Distinct, Distinct-replace, In-replace, In-replace_other, replace}
use prislapp.Revisions.Applying.{
  ApplyCall, alone, apply, draft_in, new_revision, next_number, upserted_in, written,
}
use prislapp.Revisions.Cases.{IsLeft, Result, apply_cases, upserted_only}
use prislapp.Revisions.Model.{
  PriceObservationV2, ReceiptDraftRequest, ReceiptLineInput, RevisedReceipt, Revision, RevisionDb,
  UserStore, ok,
}
use prislapp.Revisions.Preparing.{IsPrepared-owned}
use prislapp.Revisions.Qualifying.{QualifiedLine}
use prislapp.Revisions.Writing.{
  Fresh, Prepared, confirm_writes, confirmed_receipt, observation_row, published_price,
  published_rows, retired, rows_to_publish, with_row,
}
use prislapp.ShoppingList.Model.{confirmed}

-- A confirmed receipt whose version is the revision of the observation.
abbrev pub IsPublished : List RevisedReceipt → PriceObservationV2 → Type 0
IsPublished receipts row =
    (receipt : RevisedReceipt) × In receipt receipts
    × (receipt.id ≡ row.receipt_id)
    × (receipt.version ≡ row.revision)
    × (receipt.status ≡ confirmed)

-- Every current observation is of the revision that its receipt is at.
abbrev pub IsCurrent : RevisionDb → Type 0
IsCurrent db =
    Distinct (λ (receipt : RevisedReceipt). receipt.id) db.receipts
    × All (λ row. row.is_current ≡ true → IsPublished db.receipts row) db.observations

retired-IsPublished :
    (receipt_id : ℕ) (receipts receipts' : List RevisedReceipt) (rows : List PriceObservationV2)
    → ((r : RevisedReceipt) → In r receipts → r.id ≢ receipt_id → In r receipts')
    → All (λ row. row.is_current ≡ true → IsPublished receipts row) rows
    → All (λ row. row.is_current ≡ true → IsPublished receipts' row) (map (retired receipt_id) rows)
retired-IsPublished receipt_id receipts receipts' [] keep h = tt
retired-IsPublished receipt_id receipts receipts' (row ∷ rows) keep (h, hs) = (
  if-both (λ (r : PriceObservationV2). r.is_current ≡ true → IsPublished receipts' r)
      (row.receipt_id == receipt_id && row.is_current) (λ t. λ c. cc c)
      (λ f. λ c.
        let (receipt, i, same, at, status) = h c in
        (
          receipt,
          keep receipt i (λ e. other_receipt row.receipt_id row.is_current f c (sym same ∙ e)),
          same,
          at,
          status,
        )),
  retired-IsPublished receipt_id receipts receipts' rows keep hs,
)
  where
    other_receipt : (m : ℕ) (b : Bool) → (m == receipt_id && b) ≡ false → b ≡ true → m ≢ receipt_id
    other_receipt m b f c e = ground (arith, f, c, e)

-- An observation that a revision publishes for one of its lines.
abbrev pub IsOfLine :
    Revision → List (ReceiptLineInput × QualifiedLine) → PriceObservationV2 → Type 0
IsOfLine revision lines row =
    (row.receipt_id ≡ revision.receipt_id)
    × (row.revision_id ≡ revision.id)
    × (row.revision ≡ revision.revision)
    × ((pair : ReceiptLineInput × QualifiedLine) × In pair lines
        × (row.line_id ≡ pair.0.id)
        × (pair.1.eligible ≡ true)
        × (pair.1.result.comparison_price ≡ some row.price))

IsOfLine-later :
    (revision : Revision) (pair : ReceiptLineInput × QualifiedLine)
    (lines : List (ReceiptLineInput × QualifiedLine)) (row : PriceObservationV2)
    → IsOfLine revision lines row
    → IsOfLine revision (pair ∷ lines) row
IsOfLine-later revision pair lines row (a, b, c, (source, i, d, e, f)) =
    (a, b, c, (source, inr i, d, e, f))

published_price-eligible :
    (q : QualifiedLine) {price : Decimal}
    → published_price q ≡ some price
    → (q.eligible ≡ true) × (q.result.comparison_price ≡ some price)
published_price-eligible q e = go q.eligible e
  where
    go :
        (b : Bool) {price : Decimal}
        → (if b then q.result.comparison_price else none) ≡ some price
        → (b ≡ true) × (q.result.comparison_price ≡ some price)
    go true k = (refl, k)
    go false k = cc k

with_row-All :
    (P : PriceObservationV2 → Type 0) (make : Decimal → PriceObservationV2) (o : Option Decimal)
    (rows : List PriceObservationV2)
    → ((price : Decimal) → o ≡ some price → P (make price))
    → All P rows
    → All P (with_row make o rows)
with_row-All P make none rows h k = k
with_row-All P make (some price) rows h k = (h price refl, k)

published_rows-All :
    (ids : ℕ → ℕ) (revision : Revision) (store : UserStore) (request : ReceiptDraftRequest)
    (lines : List (ReceiptLineInput × QualifiedLine))
    → All (IsOfLine revision lines) (published_rows ids revision store request lines)
published_rows-All ids revision store request [] = tt
published_rows-All ids revision store request ((line, qualification) ∷ lines) =
    with_row-All (IsOfLine revision ((line, qualification) ∷ lines))
      (observation_row ids revision store request line qualification)
      (published_price qualification) (published_rows ids revision store request lines)
      (λ price. λ e.
        let (eligible, priced) = published_price-eligible qualification e in
        (refl, refl, refl, ((line, qualification), inl refl, refl, eligible, priced)))
      (All-imp (IsOfLine revision lines) (IsOfLine revision ((line, qualification) ∷ lines))
        (published_rows ids revision store request lines)
        (IsOfLine-later revision (line, qualification) lines)
        (published_rows-All ids revision store request lines))

pub rows_to_publish-All :
    (ids : ℕ → ℕ) (revision : Revision) (store : Option UserStore) (request : ReceiptDraftRequest)
    (lines : List (ReceiptLineInput × QualifiedLine))
    → All (IsOfLine revision lines) (rows_to_publish ids revision store request lines)
rows_to_publish-All ids revision none request lines = tt
rows_to_publish-All ids revision (some store) request lines =
    published_rows-All ids revision store request lines

confirmed-IsCurrent :
    (fresh : Fresh) (revision : Revision) (prepared : Prepared) (request : ReceiptDraftRequest)
    (db : RevisionDb)
    → revision.receipt_id ≡ prepared.receipt.id
    → In prepared.receipt db.receipts
    → IsCurrent db
    → IsCurrent (confirm_writes fresh revision prepared request db)
confirmed-IsCurrent fresh revision prepared request db same i (distinct, current) = (
  Distinct-replace (λ (r : RevisedReceipt). r.id) after db.receipts distinct,
  All-append (λ row. row.is_current ≡ true → IsPublished receipts row)
      (map (retired revision.receipt_id) db.observations) rows
      (retired-IsPublished revision.receipt_id db.receipts receipts db.observations
        (λ r. λ j. λ apart.
          In-replace_other (λ (x : RevisedReceipt). x.id) r after db.receipts j
            (λ e. apart (e ∙ sym same)))
        current)
      (All-imp (IsOfLine revision prepared.qualified)
        (λ row. row.is_current ≡ true → IsPublished receipts row) rows
        (λ row. λ (of_receipt, of_revision, of_number, rest). λ c. (
          after,
          In-replace (λ (x : RevisedReceipt). x.id) prepared.receipt after db.receipts i refl,
          sym (of_receipt ∙ same),
          sym of_number,
          refl,
        ))
        (rows_to_publish-All fresh.observation_id revision prepared.store request
          prepared.qualified)),
)
  where
    after : RevisedReceipt
    after = confirmed_receipt request revision.revision prepared.receipt

    receipts : List RevisedReceipt
    receipts = replace (λ (r : RevisedReceipt). r.id) after db.receipts

    rows : List PriceObservationV2
    rows = rows_to_publish fresh.observation_id revision prepared.store request prepared.qualified

written-IsCurrent :
    (call : ApplyCall) (fresh : Fresh) (prepared : Prepared) (revision : Revision) (db : RevisionDb)
    → revision.receipt_id ≡ prepared.receipt.id
    → In prepared.receipt db.receipts
    → IsCurrent db
    → IsCurrent (written call fresh prepared revision db)
written-IsCurrent call fresh prepared revision db same i current =
    if-both IsCurrent call.confirming
      (λ t. confirmed-IsCurrent fresh revision prepared call.request db same i current)
      (λ f. current)

-- Without other sessions in between, a call keeps it that every current observation is of the
-- revision that its receipt is at, and that the receipt is confirmed.
pub apply-IsCurrent :
    (call : ApplyCall) (fresh : Fresh) (db : RevisionDb)
    → IsCurrent db
    → IsCurrent (apply call fresh alone db).1
apply-IsCurrent call fresh db current =
    apply_cases call fresh alone db (λ (result : Result). IsCurrent result.1)
      (λ answer. λ k. current) (λ answer. λ left. λ f. λ l. left_alone left l)
      (λ is_race. λ left. λ l. left_alone left l)
      (λ prepared. λ upserted. λ h. λ u. λ new.
        written-IsCurrent call fresh prepared
          (new_revision call fresh prepared (draft_in db prepared)) upserted refl
          (subst (λ (up : RevisionDb). In prepared.receipt up.receipts)
            (sym (upserted_keeps prepared u)) (IsPrepared-owned call db h).0)
          (subst IsCurrent (sym (upserted_keeps prepared u)) current))
  where
    upserted_keeps :
        (prepared : Prepared) {up : RevisionDb}
        → upserted_in call fresh prepared db ≡ ok up
        → up ≡ record db { revisions = up.revisions; lines = up.lines }
    upserted_keeps prepared u =
        upserted_only (draft_in db prepared) prepared.receipt.id (next_number prepared)
          (new_revision call fresh prepared (draft_in db prepared)) db u

    left_alone : (left : RevisionDb) → IsLeft alone db left → IsCurrent left
    left_alone left (inl e) = subst IsCurrent (sym e) current
    left_alone left (inr (inl e)) = subst IsCurrent (sym e) current
    left_alone left (inr (inr e)) = subst IsCurrent (sym e) current
