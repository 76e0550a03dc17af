-- ===== src/OcrOutbox/Moving/Claims.antt =====
-- How `claim_ocr_job` of ocr_outbox.py moves the jobs on.
use prislapp.Prelude.{
  Bool, Option, arith, false, find?-holds, if◌then◌else◌, leb, none, not, refl, some, true, ℕ, ◌≡◌,
}
use prislapp.OcrOutbox.Jobs.{
  active_job, claim_job, claim_ocr_job, claim_receipt, claimed_job, closed_job, is_active_for,
  is_leased, is_live, is_terminal, receipt_of, save_job, set_receipt_status,
}
use prislapp.OcrOutbox.Model.{
  ClaimedOcrJob, JobOutbox, OcrDb, OcrReceipt, Settings, account_deleted, done, max_attempts,
  receipt_missing,
}
use prislapp.OcrOutbox.Moving.{DbMoves, Moved, active_is_live, save_quiet}
use prislapp.OcrOutbox.Receipts.{is_read, receipt_failed, receipt_processing}
use prislapp.OcrOutbox.Steps.{IsSound, Moves-refl, Moves-save}

module _ (settings : Settings) (db : OcrDb) (sound : IsSound settings db.jobs) where
  claim_receipt-Moves :
      (time attempt_id receipt_id : ℕ) (job : JobOutbox) (receipt : OcrReceipt)
      → active_job receipt_id db ≡ some job
      → Moved settings db (claim_receipt settings time attempt_id job receipt db)
  claim_receipt-Moves time attempt_id receipt_id job receipt e =
      go (is_read receipt.status) (leb settings.outbox_max_attempts job.attempt_count) refl
    where
      live : is_terminal job.status ≡ false
      live = active_is_live receipt_id job (find?-holds (is_active_for receipt_id) db.jobs e)

      go :
          (done_before spent : Bool)
          → leb settings.outbox_max_attempts job.attempt_count ≡ spent
          → Moved settings {A = Option ClaimedOcrJob} db (
              if done_before
              then (none, save_job (record job { status = done }) db)
              else if spent
              then (
                none,
                set_receipt_status receipt receipt_failed
                    (save_job (closed_job job max_attempts) db),
              )
              else (
                some (record {
                  outbox_id = job.id;
                  attempt_id = attempt_id;
                  image_path = receipt.image_path;
                }),
                set_receipt_status receipt receipt_processing
                    (save_job (claimed_job settings time attempt_id job) db),
              ))
      go true _ _ = save_quiet settings _ job _ db.jobs sound e live refl refl refl refl
      go false true _ = save_quiet settings _ job _ db.jobs sound e live refl refl refl refl
      go false false left =
          Moves-save settings _ job _ db.jobs sound e live refl refl refl (omega arith)
            (ground arith)

  claim_job-Moves :
      (time attempt_id receipt_id : ℕ) (job : JobOutbox)
      → active_job receipt_id db ≡ some job
      → Moved settings db (claim_job settings time attempt_id receipt_id job db)
  claim_job-Moves time attempt_id receipt_id job e =
      go (is_leased time job) (not (is_live job.user_id db)) (receipt_of receipt_id db)
    where
      live : is_terminal job.status ≡ false
      live = active_is_live receipt_id job (find?-holds (is_active_for receipt_id) db.jobs e)

      go :
          (leased orphaned : Bool) (found : Option OcrReceipt)
          → Moved settings {A = Option ClaimedOcrJob} db (
              if leased
              then (none, db)
              else if orphaned
              then (none, save_job (closed_job job account_deleted) db)
              else elim found [
                | none ↦ (none, save_job (closed_job job receipt_missing) db)
                | some receipt ↦ claim_receipt settings time attempt_id job receipt db
              ])
      go true _ _ = Moves-refl settings db.jobs sound
      go false true _ = save_quiet settings _ job _ db.jobs sound e live refl refl refl refl
      go false false none = save_quiet settings _ job _ db.jobs sound e live refl refl refl refl
      go false false (some receipt) = claim_receipt-Moves time attempt_id receipt_id job receipt e

  pub claim_ocr_job-Moves :
      (time attempt_id receipt_id : ℕ)
      → DbMoves settings db (claim_ocr_job settings time attempt_id receipt_id db).1
  unfolding claim_ocr_job
  claim_ocr_job-Moves time attempt_id receipt_id = go (active_job receipt_id db) refl
    where
      go :
          (active : Option JobOutbox)
          → active_job receipt_id db ≡ active
          → Moved settings {A = Option ClaimedOcrJob} db (elim active [
            | none ↦ (none, db)
            | some job ↦ claim_job settings time attempt_id receipt_id job db
          ])
      go none _ = Moves-refl settings db.jobs sound
      go (some job) e = claim_job-Moves time attempt_id receipt_id job e
