-- ===== src/Revisions/Preparing.antt =====
-- backend/app/services/receipt_revision_service.py: what the checks of `_apply` have found.
use mathlib.Core.Path.{subst}
use prislapp.Prelude.{
  Bool, In, Option, any, arith, false, find?, find?-In, find?-holds, none, not, refl, some, true, ℕ,
  ◌==◌, ◌≡◌,
}
use prislapp.ListCopy.{owned}
use prislapp.Prices.Qualification.{qualifies}
use prislapp.Revisions.Applying.{
  ApplyCall, is_stale, is_wrong_status, prepare, prepare_receipt, prepare_request, qualify_call,
  reconcile_call,
}
use prislapp.Revisions.Model.{
  Answer, ApiError, RevisedReceipt, RevisionDb, UserStore, arithmetic_error, duplicate_line_id,
  integrity_error, not_found, ok, receipt_state_conflict, refuse_if, refused, version_conflict,
  ◌>>=◌, ◌>>◌,
}
use prislapp.Revisions.Qualifying.{
  found_or_refused, has_duplicate, is_foreign, owned_receipt, owned_store, owns_receipt, qualify,
}
use prislapp.Revisions.Reconciling.{reconcile}
use prislapp.Revisions.Writing.{Prepared}
use prislapp.ShoppingList.Model.{receipt_status_code}

module _ {A B : Type 0} where
  pub bind_ok :
      (m : Answer A) (f : A → Answer B) {b : B}
      → (m >>= f) ≡ ok b
      → (a : A) × (m ≡ ok a) × (f a ≡ ok b)
  bind_ok (ok a) f e = (a, refl, e)
  bind_ok (refused r) f e = cc e
  bind_ok integrity_error f e = cc e
  bind_ok arithmetic_error f e = cc e

guard_ok :
    {B : Type 0} (b : Bool) (e : ApiError) (m : Answer B) {x : B}
    → (refuse_if b e >> m) ≡ ok x
    → (b ≡ false) × (m ≡ ok x)
guard_ok true e m h = cc h
guard_ok false e m h = (refl, h)

-- The request passed every check, and these are the values that they gave.
pub record IsPrepared (call : ApplyCall) (db : RevisionDb) (prepared : Prepared) : Type 0 where
  pub owned : owned_receipt db call.user_id call.receipt_id ≡ ok prepared.receipt
  pub allowed :
      receipt_status_code prepared.receipt.status ≡ receipt_status_code call.allowed_status
  pub expected : call.request.expected_version ≡ prepared.receipt.version
  pub store_owned : owned_store db call.user_id call.request.store_id ≡ ok prepared.store
  pub no_foreign : any (is_foreign db call.user_id) call.request.lines ≡ false
  pub no_duplicate : has_duplicate call.request.lines ≡ false
  pub reconciled :
      reconcile call.request.lines call.request.printed_total call.accept_gap call.confirming
      ≡ ok prepared.reconciliation
  pub qualifies :
      qualify db call.user_id call.request.date_precision prepared.store 0 call.request.lines
      ≡ ok prepared.qualified

same_code : (m n : ℕ) → not (m == n) ≡ false → m ≡ n
same_code m n h = ground (arith, h)

prepare_request-IsPrepared :
    (call : ApplyCall) (db : RevisionDb) (receipt : RevisedReceipt) (store : Option UserStore)
    {prepared : Prepared}
    → owned_receipt db call.user_id call.receipt_id ≡ ok receipt
    → is_wrong_status call receipt ≡ false
    → is_stale call receipt ≡ false
    → owned_store db call.user_id call.request.store_id ≡ ok store
    → prepare_request call db receipt store ≡ ok prepared
    → IsPrepared call db prepared
prepare_request-IsPrepared call db receipt store {prepared} owned allowed expected stored e =
    let (no_foreign, e1) =
      guard_ok (any (is_foreign db call.user_id) call.request.lines) not_found _ e in
    let (no_duplicate, e2) = guard_ok (has_duplicate call.request.lines) duplicate_line_id _ e1 in
    let (reconciliation, reconciled, e3) = bind_ok (reconcile_call call) _ e2 in
    let (qualified, qualifies, e4) = bind_ok (qualify_call call db store) _ e3 in
    let result : Prepared = record {
      receipt = receipt;
      store = store;
      reconciliation = reconciliation;
      qualified = qualified;
    } in
    let same : result ≡ prepared = cc e4 in
    subst (IsPrepared call db) same (record {
      owned = owned;
      allowed = same_code _ _ allowed;
      expected = same_code _ _ expected;
      store_owned = stored;
      no_foreign = no_foreign;
      no_duplicate = no_duplicate;
      reconciled = reconciled;
      qualifies = qualifies;
    })

pub prepare-IsPrepared :
    (call : ApplyCall) (db : RevisionDb) {prepared : Prepared}
    → prepare call db ≡ ok prepared
    → IsPrepared call db prepared
prepare-IsPrepared call db e =
    let (receipt, owned, e1) =
      bind_ok (owned_receipt db call.user_id call.receipt_id) (prepare_receipt call db) e in
    let (allowed, e2) =
      guard_ok (is_wrong_status call receipt) (receipt_state_conflict receipt.status) _ e1 in
    let (expected, e3) = guard_ok (is_stale call receipt) (version_conflict receipt.version) _ e2 in
    let (store, stored, e4) =
      bind_ok (owned_store db call.user_id call.request.store_id) (prepare_request call db receipt)
        e3 in
    prepare_request-IsPrepared call db receipt store owned allowed expected stored e4

owned_receipt-found :
    (db : RevisionDb) (user_id receipt_id : ℕ) {receipt : RevisedReceipt}
    → owned_receipt db user_id receipt_id ≡ ok receipt
    → find? (owns_receipt user_id receipt_id) db.receipts ≡ some receipt
owned_receipt-found db user_id receipt_id = go (find? (owns_receipt user_id receipt_id) db.receipts)
  where
    go :
        (o : Option RevisedReceipt) {receipt : RevisedReceipt}
        → found_or_refused o ≡ ok receipt
        → o ≡ some receipt
    go none e = cc e
    go (some r) e = cc e

-- The receipt of the call is a row of its user.
pub IsPrepared-owned :
    (call : ApplyCall) (db : RevisionDb) {prepared : Prepared}
    → IsPrepared call db prepared
    → In prepared.receipt db.receipts
      × (prepared.receipt.id ≡ call.receipt_id)
      × (prepared.receipt.user_id ≡ call.user_id)
IsPrepared-owned call db {prepared} h =
    let found = owned_receipt-found db call.user_id call.receipt_id h.owned in
    let owns : owns_receipt call.user_id call.receipt_id prepared.receipt ≡ true =
      find?-holds (owns_receipt call.user_id call.receipt_id) db.receipts found in
    (
      find?-In (owns_receipt call.user_id call.receipt_id) db.receipts found,
      ground (arith, owns),
      ground (arith, owns),
    )
