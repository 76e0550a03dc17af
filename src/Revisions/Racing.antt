-- ===== src/Revisions/Racing.antt =====
-- backend/app/services/receipt_revision_service.py: two sessions that write the same revision.
use prislapp.Prelude.{Option, any, ap, none, refl, some, true, ◌∙◌, ◌≡◌}
use prislapp.Revisions.Applying.{
  ApplyCall, Others, apply, apply_unless_replayed, draft_in, new_revision, next_number, prepare,
  replay, write_all, write_if_prepared,
}
use prislapp.Revisions.Model.{Revision, RevisionDb, integrity_error, ok}
use prislapp.Revisions.Writing.{Fresh, Prepared, has_number, upsert_revision}

-- If another session confirms the next revision after the checks of a call, and the receipt has no
-- draft that the call would write over, the flush of the call's
-- revision raises `IntegrityError`, and the call ends with it and writes nothing.
pub apply-race :
    (call : ApplyCall) (fresh : Fresh) (others : Others) (db : RevisionDb) {prepared : Prepared}
    → replay call db ≡ none
    → prepare call db ≡ ok prepared
    → draft_in (others.before_write db) prepared ≡ none
    → any (has_number prepared.receipt.id (next_number prepared)) (others.before_write db).revisions
      ≡ true
    → apply call fresh others db ≡ (integrity_error, others.before_write db)
unfolding apply
apply-race call fresh others db {prepared} k p d taken =
    ap (apply_unless_replayed call fresh others db) k
    ∙ (ap (write_if_prepared call fresh others db) p
        ∙ lost (draft_in (others.before_write db) prepared) d)
  where
    lost :
        (o : Option Revision)
        → o ≡ none
        → write_all call fresh others.commit prepared
            (others.before_write db)
            (new_revision call fresh prepared o)
            (upsert_revision o prepared.receipt.id
              (next_number prepared)
              (new_revision call fresh prepared o)
              (others.before_write db))
          ≡ (integrity_error, others.before_write db)
    lost (some row) e = cc e
    lost none e = rw taken refl
