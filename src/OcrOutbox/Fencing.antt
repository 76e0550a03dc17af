-- ===== src/OcrOutbox/Fencing.antt =====
-- What a worker's claim in ocr_outbox.py grants: the lease, the fence and the completion.
use prislapp.Prelude.{
  Bool, Option, ap, arith, false, find?-holds, if◌then◌else◌, leb, none, not, refl, some, true, ℕ,
  ◌+◌, ◌<◌, ◌∙◌, ◌≡◌, ◌≢◌,
}
use prislapp.OcrOutbox.Jobs.{
  active_job, attempted_job, claim_job, claim_ocr_job, claim_receipt, claimed_job, closed_job,
  is_active_for, is_attempt_on, is_leased, is_live, receipt_of, save_job, set_receipt_status,
}
use prislapp.OcrOutbox.Model.{
  ClaimedOcrJob, JobOutbox, OcrDb, OcrReceipt, Settings, account_deleted, done, max_attempts,
  receipt_missing,
}
use prislapp.OcrOutbox.Receipts.{is_read, receipt_failed, receipt_processing}
use prislapp.OcrOutbox.Steps.{IsSound}
use prislapp.Prelude.Lookup.{find?-replace-none}
use prislapp.Prelude.Table.{find?-replace}

-- What stands after a claim that was granted.
pub record Claimed (settings : Settings) (time attempt_id receipt_id : ℕ) (db : OcrDb)
    (claimed : ClaimedOcrJob) (b : OcrDb) : Type 0 where
  pub job : JobOutbox
  pub receipt : OcrReceipt
  pub was_active : active_job receipt_id db ≡ some job
  pub live : is_live job.user_id db ≡ true
  pub stored : receipt_of receipt_id db ≡ some receipt
  pub answer :
      claimed
      ≡ record { outbox_id = job.id; attempt_id = attempt_id; image_path = receipt.image_path }
  pub result :
      b
      ≡ set_receipt_status receipt receipt_processing
          (save_job (claimed_job settings time attempt_id job) db)

module _ (settings : Settings) (time attempt_id receipt_id : ℕ) (db : OcrDb)
    (claimed : ClaimedOcrJob) where
  abbrev Granted : Option ClaimedOcrJob × OcrDb → Type 0
  Granted out = out.0 ≡ some claimed → Claimed settings time attempt_id receipt_id db claimed out.1

  not-Granted : (b : OcrDb) → Granted (none, b)
  not-Granted b e = cc e

  pub claim_ocr_job-Claimed :
      (claim_ocr_job settings time attempt_id receipt_id db).0 ≡ some claimed
      → Claimed settings time attempt_id receipt_id db claimed
          (claim_ocr_job settings time attempt_id receipt_id db).1
  unfolding claim_ocr_job
  claim_ocr_job-Claimed = on_active (active_job receipt_id db) refl
    where
      on_receipt :
          (done_before spent : Bool) (job : JobOutbox) (receipt : OcrReceipt)
          → active_job receipt_id db ≡ some job
          → is_live job.user_id db ≡ true
          → receipt_of receipt_id db ≡ some receipt
          → Granted (
              if done_before
              then (none, save_job (record job { status = done }) db)
              else if spent
              then (
                none,
                set_receipt_status receipt receipt_failed
                    (save_job (closed_job job max_attempts) db),
              )
              else (
                some (record {
                  outbox_id = job.id;
                  attempt_id = attempt_id;
                  image_path = receipt.image_path;
                }),
                set_receipt_status receipt receipt_processing
                    (save_job (claimed_job settings time attempt_id job) db),
              ))
      on_receipt true _ job receipt e live stored h = not-Granted _ h
      on_receipt false true job receipt e live stored h = not-Granted _ h
      on_receipt false false job receipt e live stored h = record {
        job = job;
        receipt = receipt;
        was_active = e;
        live = live;
        stored = stored;
        answer = cc h;
        result = refl;
      }

      on_job :
          (leased alive : Bool) (found_receipt : Option OcrReceipt) (job : JobOutbox)
          → active_job receipt_id db ≡ some job
          → is_live job.user_id db ≡ alive
          → receipt_of receipt_id db ≡ found_receipt
          → Granted (
              if leased
              then (none, db)
              else if not alive
              then (none, save_job (closed_job job account_deleted) db)
              else elim found_receipt [
                | none ↦ (none, save_job (closed_job job receipt_missing) db)
                | some receipt ↦ claim_receipt settings time attempt_id job receipt db
              ])
      on_job true _ _ job e live stored = not-Granted _
      on_job false false _ job e live stored = not-Granted _
      on_job false true none job e live stored = not-Granted _
      on_job false true (some receipt) job e live stored =
          on_receipt (is_read receipt.status) (leb settings.outbox_max_attempts job.attempt_count)
            job receipt e live stored

      on_active :
          (active_row : Option JobOutbox)
          → active_job receipt_id db ≡ active_row
          → Granted (elim active_row [
            | none ↦ (none, db)
            | some job ↦ claim_job settings time attempt_id receipt_id job db
          ])
      on_active none _ = not-Granted _
      on_active (some job) e =
          on_job (is_leased time job) (is_live job.user_id db) (receipt_of receipt_id db) job e refl
            refl

-- A claim goes on with the active job.
claim_of :
    (settings : Settings) (time attempt_id receipt_id : ℕ) (db : OcrDb) {job : JobOutbox}
    → active_job receipt_id db ≡ some job
    → claim_ocr_job settings time attempt_id receipt_id db
      ≡ claim_job settings time attempt_id receipt_id job db
claim_of settings time attempt_id receipt_id db e =
    unfold claim_ocr_job in
    ap
      (λ (active_row : Option JobOutbox). elim active_row [
        | none ↦ (none, db)
        | some job ↦ claim_job settings time attempt_id receipt_id job db
      ])
      e

module _ {settings : Settings} {time attempt_id receipt_id : ℕ} {db b : OcrDb}
    {claimed : ClaimedOcrJob}
    (grant : Claimed settings time attempt_id receipt_id db claimed b) where
  pub still_active :
      is_active_for receipt_id (claimed_job settings time attempt_id grant.job) ≡ true
  still_active = go (find?-holds (is_active_for receipt_id) db.jobs grant.was_active)
    where
      go :
          is_active_for receipt_id grant.job ≡ true
          → is_active_for receipt_id (claimed_job settings time attempt_id grant.job) ≡ true
      go h = ground arith

  pub granted_job : active_job receipt_id b ≡ some (claimed_job settings time attempt_id grant.job)
  granted_job = rw grant.result (
      find?-replace (λ j. j.id) (is_active_for receipt_id) grant.job _ db.jobs grant.was_active refl
        still_active)

  pub leased_claim :
      (later other : ℕ)
      → later < time + settings.outbox_lease_seconds
      → claim_ocr_job settings later other receipt_id b ≡ (none, b)
  leased_claim later other early =
      claim_of settings later other receipt_id b granted_job ∙ rw leased refl
    where
      leased : is_leased later (claimed_job settings time attempt_id grant.job) ≡ true
      leased = ground arith

  pub fenced :
      (other : ℕ)
      → IsSound settings db.jobs
      → other ≢ attempt_id
      → attempted_job receipt_id other b ≡ none
  fenced other sound differs = rw grant.result (
      find?-replace-none (λ j. j.id) (is_active_for receipt_id) (is_attempt_on receipt_id other)
        grant.job _ db.jobs narrow (sound.single_active receipt_id) grant.was_active refl refused)
    where
      narrow :
          (x : JobOutbox)
          → is_active_for receipt_id x ≡ false
          → is_attempt_on receipt_id other x ≡ false
      narrow x h = rw h refl

      refused :
          is_attempt_on receipt_id other (claimed_job settings time attempt_id grant.job) ≡ false
      refused = ground arith
