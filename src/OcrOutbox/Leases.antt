-- ===== src/OcrOutbox/Leases.antt =====
-- Two workers on one receipt, and what ends its job (ocr_outbox.py).
use prislapp.Prelude.{
  Bool, Option, ap, false, if◌then◌else◌, leb, none, not, some, ℕ, ◌+◌, ◌<◌, ◌||◌, ◌≡◌, ◌≢◌,
}
use prislapp.OcrOutbox.Fencing.{claim_ocr_job-Claimed, fenced, leased_claim}
use prislapp.OcrOutbox.Jobs.{
  attempted_job, claim_ocr_job, closed_job, complete_ocr_result, fail_ocr_job, finish, given_up,
  is_live, receipt_of, retried, save_job,
}
use prislapp.OcrOutbox.Model.{ClaimedOcrJob, ErrorCode, JobOutbox, OcrDb, Settings, account_deleted}
use prislapp.OcrOutbox.Steps.{IsSound}
use prislapp.OcrOutbox.Stores.{ParsedReceipt}
use prislapp.Prelude.Text.{Text}

-- Until the lease of a claim runs out, every other claim of the receipt gets nothing and changes
-- nothing.
pub claim_ocr_job-exclusive :
    (settings : Settings) (time attempt_id receipt_id : ℕ) (db : OcrDb) (claimed : ClaimedOcrJob)
    → (claim_ocr_job settings time attempt_id receipt_id db).0 ≡ some claimed
    → (later other : ℕ) → later < time + settings.outbox_lease_seconds
    → claim_ocr_job settings later other receipt_id
        (claim_ocr_job settings time attempt_id receipt_id db).1
      ≡ (none, (claim_ocr_job settings time attempt_id receipt_id db).1)
claim_ocr_job-exclusive settings time attempt_id receipt_id db claimed e later other early =
    leased_claim (claim_ocr_job-Claimed settings time attempt_id receipt_id db claimed e) later
      other early

complete_without :
    (fold : Text → Text) (fresh receipt_id attempt_id : ℕ) (store : Option ℕ)
    (parsed : ParsedReceipt) (b : OcrDb)
    → attempted_job receipt_id attempt_id b ≡ none
    → complete_ocr_result fold fresh receipt_id attempt_id store parsed b ≡ (some false, b)
complete_without fold fresh receipt_id attempt_id store parsed b e =
    unfold complete_ocr_result in
    ap
      (λ (held : Option JobOutbox). elim held [
        | none ↦ (some false, b)
        | some job ↦
            if not (is_live job.user_id b)
            then (some false, save_job (closed_job job account_deleted) b)
            else finish fold fresh receipt_id store parsed job b
      ])
      e

fail_without :
    (settings : Settings) (receipt_id attempt_id : ℕ) (code : ErrorCode) (permanent : Bool)
    (b : OcrDb)
    → attempted_job receipt_id attempt_id b ≡ none
    → fail_ocr_job settings receipt_id attempt_id code permanent b ≡ b
fail_without settings receipt_id attempt_id code permanent b e =
    unfold fail_ocr_job in
    ap
      (λ (held : Option JobOutbox). elim held [
        | none ↦ b
        | some job ↦
            if permanent || leb settings.outbox_max_attempts job.attempt_count
            then given_up job code (receipt_of receipt_id b) b
            else retried job code (receipt_of receipt_id b) b
      ])
      e

-- Once a claim is granted on sound jobs, a worker with another attempt, as one whose lease ran out, can neither
-- complete nor fail the receipt's job: both change nothing, and the completion says so.
pub claim_ocr_job-fences :
    (settings : Settings) (time attempt_id receipt_id : ℕ) (db : OcrDb) (claimed : ClaimedOcrJob)
    → IsSound settings db.jobs
    → (claim_ocr_job settings time attempt_id receipt_id db).0 ≡ some claimed
    → (other : ℕ) → other ≢ attempt_id
    → (fold : Text → Text) (fresh : ℕ) (store : Option ℕ) (parsed : ParsedReceipt)
      (code : ErrorCode) (permanent : Bool)
    → (complete_ocr_result fold fresh receipt_id other store parsed
          (claim_ocr_job settings time attempt_id receipt_id db).1
        ≡ (some false, (claim_ocr_job settings time attempt_id receipt_id db).1))
      × (fail_ocr_job settings receipt_id other code permanent
            (claim_ocr_job settings time attempt_id receipt_id db).1
          ≡ (claim_ocr_job settings time attempt_id receipt_id db).1)
claim_ocr_job-fences settings time attempt_id receipt_id db claimed sound e other differs fold fresh
      store parsed code permanent =
    let closed_off =
      fenced (claim_ocr_job-Claimed settings time attempt_id receipt_id db claimed e) other sound
        differs in
    (
      complete_without fold fresh receipt_id other store parsed _ closed_off,
      fail_without settings receipt_id other code permanent _ closed_off,
    )
