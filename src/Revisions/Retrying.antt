-- ===== src/Revisions/Retrying.antt =====
-- backend/app/services/receipt_revision_service.py: repeated and failing calls of `_apply`.
use mathlib.Core.Path.{subst}
use prislapp.Prelude.{
  Bool, List, Option, any, ap, arith, false, find?, find?-any, find?-append_none, if-both, inl,
  none, refl, some, true, ◌&&◌, ◌==◌, ◌∙◌, ◌≡◌, ◌≢◌,
}
use prislapp.Revisions.Applying.{
  ApplyCall, Commit, Others, apply, apply_unless_replayed, committed, draft_in, failed_commit,
  finished, integrity_failure, is_mutation_of, lost_revision, mutation_row, new_revision,
  next_number, recorded, replay, replay_found, replayed, response_of, unless_replayed, written,
}
use prislapp.Revisions.Cases.{IsLeft, Result, apply_cases, is_ok, result_of, upserted_only}
use prislapp.Revisions.Model.{
  Answer, ReceiptMutation, RevisedReceipt, Revision, RevisionDb, RevisionResponse, arithmetic_error,
  integrity_error, ok, refused, version_conflict, ◌>>=◌,
}
use prislapp.Revisions.Preparing.{IsPrepared-owned}
use prislapp.Revisions.Qualifying.{owned_receipt}
use prislapp.Revisions.Writing.{Fresh, Prepared}

-- What a retry finds in the tables after an answer.
abbrev IsStored : ApplyCall → Result → Type 0
IsStored call (answer, db) =
    (response : RevisionResponse) → answer ≡ ok response → replay call db ≡ some (ok response)

own_mutation :
    (call : ApplyCall) (prepared : Prepared) (response : RevisionResponse)
    → is_mutation_of call (mutation_row call prepared response) ≡ true
own_mutation call prepared response = ground arith

own_answer :
    (call : ApplyCall) (prepared : Prepared) (response : RevisionResponse)
    → prepared.receipt.id ≡ call.receipt_id
    → replayed call (mutation_row call prepared response) ≡ ok response
own_answer call prepared response same =
    let test : (call.digest == call.digest && prepared.receipt.id == call.receipt_id) ≡ true =
      ground (arith, same) in
    rw test refl

replay-recorded :
    (call : ApplyCall) (prepared : Prepared) (response : RevisionResponse) (db : RevisionDb)
    → find? (is_mutation_of call) db.mutations ≡ none
    → prepared.receipt.id ≡ call.receipt_id
    → replay call (recorded call prepared response db) ≡ some (ok response)
replay-recorded call prepared response db none_before same =
    ap (replay_found call) (
      find?-append_none (is_mutation_of call) db.mutations (mutation_row call prepared response)
        none_before (own_mutation call prepared response))
    ∙ ap (λ (a : Answer RevisionResponse). some a) (own_answer call prepared response same)

lost_revision-not_ok :
    (call : ApplyCall) (db : RevisionDb) (response : RevisionResponse)
    → lost_revision call db ≢ ok response
lost_revision-not_ok call db response = go (owned_receipt db call.user_id call.receipt_id)
  where
    go :
        (a : Answer RevisedReceipt)
        → (a >>= λ current. refused (version_conflict current.version)) ≢ ok response
    go (ok receipt) e = cc e
    go (refused r) e = cc e
    go integrity_error e = cc e
    go arithmetic_error e = cc e

pub unless_replayed-not_ok :
    (call : ApplyCall) (is_race : Bool) (db : RevisionDb) (response : RevisionResponse)
    → unless_replayed call is_race db none ≢ ok response
unless_replayed-not_ok call true db response e = lost_revision-not_ok call db response e
unless_replayed-not_ok call false db response e = cc e

failed_commit-IsStored :
    (call : ApplyCall) (is_race : Bool) (db : RevisionDb)
    → IsStored call (failed_commit call is_race db, db)
failed_commit-IsStored call is_race db = go (replay call db) refl
  where
    go :
        (o : Option (Answer RevisionResponse))
        → replay call db ≡ o
        → (r : RevisionResponse) → unless_replayed call is_race db o ≡ ok r
        → replay call db ≡ some (ok r)
    go (some answer) k r e = k ∙ ap (λ (a : Answer RevisionResponse). some a) e
    go none k r e = absurd (unless_replayed-not_ok call is_race db r e)

finished-IsStored :
    (call : ApplyCall) (commit : Commit) (prepared : Prepared) (before after : RevisionDb)
    (response : RevisionResponse)
    → prepared.receipt.id ≡ call.receipt_id
    → after.mutations ≡ before.mutations
    → IsStored call (finished call commit response before (recorded call prepared response after))
finished-IsStored call (integrity_failure is_race others) prepared before after response same kept =
    failed_commit-IsStored call is_race (others before)
finished-IsStored call committed prepared before after response same kept =
    if-both (IsStored call) (any (is_mutation_of call) before.mutations)
      (λ t. failed_commit-IsStored call false before)
      (λ f. λ r. λ e.
        let none_before : find? (is_mutation_of call) after.mutations ≡ none =
          rw kept (find?-any (is_mutation_of call) before.mutations f) in
        replay-recorded call prepared response after none_before same
        ∙ ap (λ (a : Answer RevisionResponse). some a) e)

written-mutations :
    (call : ApplyCall) (fresh : Fresh) (prepared : Prepared) (revision : Revision) (db : RevisionDb)
    → (written call fresh prepared revision db).mutations ≡ db.mutations
written-mutations call fresh prepared revision db =
    if-both (λ (after : RevisionDb). after.mutations ≡ db.mutations) call.confirming (λ t. refl)
      (λ f. refl)

result-IsStored :
    (call : ApplyCall) (fresh : Fresh) (prepared : Prepared) (revision : Revision)
    (upserted : RevisionDb) {mutations : List ReceiptMutation}
    → find? (is_mutation_of call) mutations ≡ none
    → upserted.mutations ≡ mutations
    → prepared.receipt.id ≡ call.receipt_id
    → IsStored call (result_of call fresh prepared revision upserted)
result-IsStored call fresh prepared revision upserted none_before kept same r e =
    let all_kept = written-mutations call fresh prepared revision upserted ∙ kept in
    replay-recorded call prepared
      (response_of call prepared revision (written call fresh prepared revision upserted))
      (written call fresh prepared revision upserted)
      (ap (find? (is_mutation_of call)) all_kept ∙ none_before) same
    ∙ ap (λ (a : Answer RevisionResponse). some a) e

pub fails_not_ok : (a : Answer RevisionResponse) (r : RevisionResponse) → is_ok a ≡ false → a ≢ ok r
fails_not_ok (ok x) r f e = cc f
fails_not_ok (refused x) r f e = cc e
fails_not_ok integrity_error r f e = cc e
fails_not_ok arithmetic_error r f e = cc e

apply-IsStored :
    (call : ApplyCall) (fresh : Fresh) (others : Others) (db : RevisionDb)
    → IsStored call (apply call fresh others db)
apply-IsStored call fresh others db =
    apply_cases call fresh others db (IsStored call)
      (λ answer. λ k. λ r. λ e. k ∙ ap (λ (a : Answer RevisionResponse). some a) e)
      (λ answer. λ left. λ f. λ l. λ r. λ e. absurd (fails_not_ok answer r f e))
      (λ is_race. λ left. λ l. failed_commit-IsStored call is_race left)
      (λ prepared. λ upserted. λ h. λ u. λ new.
        result-IsStored call fresh prepared
          (new_revision call fresh prepared (draft_in (others.before_write db) prepared)) upserted
          (find?-any (is_mutation_of call) (others.before_write db).mutations new)
          (ap (λ (d : RevisionDb). d.mutations)
            (upserted_only (draft_in (others.before_write db) prepared) prepared.receipt.id
              (next_number prepared)
              (new_revision call fresh prepared (draft_in (others.before_write db) prepared))
              (others.before_write db) u))
          (IsPrepared-owned call db h).1)

-- A call that succeeded can be repeated: the retry gets the same answer and writes nothing.
pub apply-retry :
    (call : ApplyCall) (fresh fresh' : Fresh) (others others' : Others) (db : RevisionDb)
    {response : RevisionResponse} {after : RevisionDb}
    → apply call fresh others db ≡ (ok response, after)
    → apply call fresh' others' after ≡ (ok response, after)
unfolding apply
apply-retry call fresh fresh' others others' db {response} {after} e =
    let stored : replay call after ≡ some (ok response) =
      subst (IsStored call) e (apply-IsStored call fresh others db) response refl in
    ap (apply_unless_replayed call fresh' others' after) stored

-- Only an answer that is a success comes with tables that this call has written: any other one
-- leaves what the other sessions have committed.
pub apply_atomic :
    (call : ApplyCall) (fresh : Fresh) (others : Others) (db : RevisionDb)
    → is_ok (apply call fresh others db).0 ≡ false
    → IsLeft others db (apply call fresh others db).1
apply_atomic call fresh others db =
    apply_cases call fresh others db
      (λ (result : Result). is_ok result.0 ≡ false → IsLeft others db result.1)
      (λ answer. λ k. λ f. inl refl) (λ answer. λ left. λ f. λ l. λ f'. l)
      (λ is_race. λ left. λ l. λ f. l) (λ prepared. λ upserted. λ h. λ u. λ new. λ f. cc f)
