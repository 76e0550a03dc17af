-- ===== src/Revisions/Publishing.antt =====
-- backend/app/services/receipt_revision_service.py: what a successful call has written.
use mathlib.Core.Path.{subst}
use prislapp.Prelude.{
  All, All-In, All-append, All-imp, Bool, In, List, Option, [], ap, arith, false, if-both,
  if◌then◌else◌, inl, inr, is_some, map, none, refl, suc, sym, true, ℕ, ◌&&◌, ◌++◌, ◌==◌, ◌∙◌, ◌∷◌,
  ◌≡◌, ◌≢◌,
}
use prislapp.Prices.Money.{Computed, computed, invalid_operation, value_error}
use prislapp.Prices.Pricing.{DatePrecision, PricingResult, evaluate_line}
use prislapp.Prices.Qualification.{evaluate_line-Decided, qualifies}
use prislapp.Revisions.Applying.{
  ApplyCall, alone, apply, draft_in, failed_commit, new_revision, replay, response_of,
  unless_replayed, upserted_in, written,
}
use prislapp.Revisions.Cases.{IsLeft, Result, apply_cases, result_of}
use prislapp.Revisions.Current.{IsOfLine, rows_to_publish-All}
use prislapp.Revisions.Model.{
  Answer, PriceObservationV2, ReceiptLineInput, Revision, RevisionDb, RevisionResponse, UserStore,
  ok,
}
use prislapp.Revisions.Preparing.{IsPrepared, IsPrepared-owned, bind_ok}
use prislapp.Revisions.Qualifying.{
  QualifiedLine, evaluated_line, identity_of, pricing_line, qualified_line, qualify,
}
use prislapp.Revisions.Retrying.{fails_not_ok, unless_replayed-not_ok}
use prislapp.Revisions.Writing.{Fresh, Prepared, retired, rows_to_publish}

-- The revision of a call without other sessions.
abbrev pub revision_in : ApplyCall → Fresh → RevisionDb → Prepared → Revision
revision_in call fresh db prepared = new_revision call fresh prepared (draft_in db prepared)

-- A success that is not a replay has passed the checks and written everything.
abbrev pub IsSuccess : ApplyCall → Fresh → RevisionDb → Result → Type 0
IsSuccess call fresh db result =
    (prepared : Prepared) × (upserted : RevisionDb) × IsPrepared call db prepared
    × (upserted_in call fresh prepared db ≡ ok upserted)
    × (result_of call fresh prepared (revision_in call fresh db prepared) upserted ≡ result)

pub left_alone : (db left : RevisionDb) → IsLeft alone db left → left ≡ db
left_alone db left (inl e) = e
left_alone db left (inr (inl e)) = e
left_alone db left (inr (inr e)) = e

not_lost :
    (call : ApplyCall) (db left : RevisionDb) (is_race : Bool) (response : RevisionResponse)
    → replay call db ≡ none
    → IsLeft alone db left
    → failed_commit call is_race left ≢ ok response
not_lost call db left is_race response k l f =
    let none_left : replay call left ≡ none = ap (replay call) (left_alone db left l) ∙ k in
    unless_replayed-not_ok call is_race left response
      (sym (ap (unless_replayed call is_race left) none_left) ∙ f)

pub apply-IsSuccess :
    (call : ApplyCall) (fresh : Fresh) (db : RevisionDb) {response : RevisionResponse}
    {after : RevisionDb}
    → replay call db ≡ none
    → apply call fresh alone db ≡ (ok response, after)
    → IsSuccess call fresh db (ok response, after)
apply-IsSuccess call fresh db {response} {after} k =
    apply_cases call fresh alone db
      (λ (result : Result).
        result ≡ (ok response, after) → IsSuccess call fresh db (ok response, after))
      (λ answer. λ stored. λ e. cc (k, stored))
      (λ answer.
        λ left. λ f. λ l. λ e. absurd (fails_not_ok answer response f (ap (λ (r : Result). r.0) e)))
      (λ is_race. λ left.
        λ l. λ e. absurd (not_lost call db left is_race response k l (ap (λ (r : Result). r.0) e)))
      (λ prepared. λ upserted. λ h. λ u. λ new. λ e. (prepared, upserted, h, u, e))

evaluated_line-ok :
    (c : Computed PricingResult) {result : PricingResult}
    → evaluated_line c ≡ ok result
    → c ≡ computed result
evaluated_line-ok (computed r) e = cc e
evaluated_line-ok value_error e = cc e
evaluated_line-ok invalid_operation e = cc e

-- A line of the request, eligible if it qualifies and the receipt has a store.
abbrev IsQualified :
    RevisionDb
    → ℕ
    → DatePrecision
    → Option UserStore
    → List ReceiptLineInput
    → ReceiptLineInput × QualifiedLine
    → Type 0
IsQualified db user_id dating store lines (line, qualification) =
    In line lines
    × (qualification.eligible ≡ (
        qualifies (pricing_line dating line (identity_of db user_id line.user_product_id))
        && is_some store))

qualify-All :
    (db : RevisionDb) (user_id : ℕ) (dating : DatePrecision) (store : Option UserStore) (n : ℕ)
    (lines : List ReceiptLineInput) {qualified : List (ReceiptLineInput × QualifiedLine)}
    → qualify db user_id dating store n lines ≡ ok qualified
    → All (IsQualified db user_id dating store lines) qualified
qualify-All db user_id dating store n [] {qualified} e =
    let same : [] ≡ qualified = cc e in subst (All (IsQualified db user_id dating store [])) same tt
qualify-All db user_id dating store n (line ∷ lines) {qualified} e =
    let priced = pricing_line dating line (identity_of db user_id line.user_product_id) in
    let (result, e1, f1) = bind_ok (evaluated_line (evaluate_line priced)) _ e in
    let (others, e2, f2) =
      bind_ok (qualify db user_id dating store (suc n) lines)
        (λ rest. ok ((line, qualified_line n store result) ∷ rest)) f1 in
    let same : (line, qualified_line n store result) ∷ others ≡ qualified = cc f2 in
    let (eligible, _, _, _) = evaluate_line-Decided priced (evaluated_line-ok _ e1) in
    subst (All (IsQualified db user_id dating store (line ∷ lines))) same (
      (inl refl, ap (λ (b : Bool). b && is_some store) eligible),
      All-imp (IsQualified db user_id dating store lines)
          (IsQualified db user_id dating store (line ∷ lines)) others (λ pair. λ (i, h). (inr i, h))
          (qualify-All db user_id dating store (suc n) lines e2),
    )

-- A current observation of the receipt is of the new revision and of a line that qualifies.
abbrev pub IsPublishedBy : ApplyCall → RevisionDb → RevisionResponse → PriceObservationV2 → Type 0
IsPublishedBy call db response row =
    row.is_current ≡ true
    → row.receipt_id ≡ call.receipt_id
    → (row.revision ≡ response.revision)
      × ((line : ReceiptLineInput) × In line call.request.lines
          × (row.line_id ≡ line.id)
          × (qualifies (
                pricing_line call.request.date_precision line
                  (identity_of db call.user_id line.user_product_id))
              ≡ true))

retired-other :
    (receipt_id : ℕ) (rows : List PriceObservationV2)
    → All
        (λ row. row.is_current ≡ true → row.receipt_id ≢ receipt_id)
        (map (retired receipt_id) rows)
retired-other receipt_id [] = tt
retired-other receipt_id (row ∷ rows) = (
  if-both (λ (r : PriceObservationV2). r.is_current ≡ true → r.receipt_id ≢ receipt_id)
      (row.receipt_id == receipt_id && row.is_current) (λ t. λ c. cc c)
      (λ f. λ c. λ e. ground (arith, f, c, e)),
  retired-other receipt_id rows,
)

both_left : (b c : Bool) → (b && c) ≡ true → b ≡ true
both_left true c h = refl
both_left false c h = cc h

published-IsPublishedBy :
    (call : ApplyCall) (fresh : Fresh) (db upserted : RevisionDb) (prepared : Prepared)
    → IsPrepared call db prepared
    → All
        (IsPublishedBy call db
          (response_of call prepared (revision_in call fresh db prepared) upserted))
        (map (retired prepared.receipt.id) upserted.observations
          ++ rows_to_publish fresh.observation_id
              (revision_in call fresh db prepared)
              prepared.store
              call.request
              prepared.qualified)
published-IsPublishedBy call fresh db upserted prepared h =
    All-append P (map (retired prepared.receipt.id) upserted.observations) rows
      (All-imp (λ row. row.is_current ≡ true → row.receipt_id ≢ prepared.receipt.id) P
        (map (retired prepared.receipt.id) upserted.observations)
        (λ row. λ other. λ c. λ same. absurd (other c (same ∙ sym (IsPrepared-owned call db h).1)))
        (retired-other prepared.receipt.id upserted.observations))
      (All-imp (IsOfLine revision prepared.qualified) P rows
        (λ row. λ (_, _, number, (pair, i, line_id, eligible, _)). λ c. λ same.
          let (j, test) =
            All-In
              (IsQualified db call.user_id call.request.date_precision prepared.store
                call.request.lines)
              pair prepared.qualified
              (qualify-All db call.user_id call.request.date_precision prepared.store 0
                call.request.lines h.qualifies)
              i in
          (number, (pair.0, j, line_id, both_left _ _ (sym test ∙ eligible))))
        (rows_to_publish-All fresh.observation_id revision prepared.store call.request
          prepared.qualified))
  where
    revision : Revision
    revision = revision_in call fresh db prepared

    rows : List PriceObservationV2
    rows =
        rows_to_publish fresh.observation_id revision prepared.store call.request prepared.qualified

    P : PriceObservationV2 → Type 0
    P = IsPublishedBy call db (response_of call prepared revision upserted)

pub ok_injective : {A : Type 0} {a b : A} → Path (Answer A) (ok a) (ok b) → a ≡ b
ok_injective e = cc e

pub if_true : {A : Type 0} (b : Bool) (x y : A) → b ≡ true → x ≡ (if b then x else y)
if_true true x y h = refl
if_true false x y h = cc h

-- After a confirmation that is not a replay, the current observations of the receipt are all of the
-- new revision, and each is of a line of the request that qualifies for comparison.
pub apply-published :
    (call : ApplyCall) (fresh : Fresh) (db : RevisionDb) {response : RevisionResponse}
    {after : RevisionDb}
    → call.confirming ≡ true
    → replay call db ≡ none
    → apply call fresh alone db ≡ (ok response, after)
    → All (IsPublishedBy call db response) after.observations
apply-published call fresh db {response} {after} confirming k e =
    let (prepared, upserted, h, u, same) = apply-IsSuccess call fresh db k e in
    let revision = revision_in call fresh db prepared in
    let wrote : (map (retired prepared.receipt.id) upserted.observations
          ++ rows_to_publish fresh.observation_id revision prepared.store call.request
              prepared.qualified)
        ≡ (written call fresh prepared revision upserted).observations =
      ap (λ (d : RevisionDb). d.observations) (if_true call.confirming _ _ confirming) in
    let answered : response_of call prepared revision
          (written call fresh prepared revision upserted)
        ≡ response =
      ok_injective (ap (λ (r : Result). r.0) same) in
    subst (λ (r : RevisionResponse). All (IsPublishedBy call db r) after.observations) answered
      (subst
        (All (
          IsPublishedBy call db
            (response_of call prepared revision (written call fresh prepared revision upserted))))
        (wrote ∙ ap (λ (r : Result). r.1.observations) same)
        (published-IsPublishedBy call fresh db upserted prepared h))
