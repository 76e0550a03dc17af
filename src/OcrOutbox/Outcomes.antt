-- ===== src/OcrOutbox/Outcomes.antt =====
-- What one run of `process_receipt_with_db` (backend/app/worker/tasks.py) makes of a claimed job.
use mathlib.Core.Path.{subst}
use prislapp.Prelude.{
  Bool, In, Option, ap, count, false, find?, find?-In, find?-holds, if◌then◌else◌, leb, none, refl,
  some, sym, true, ℕ, ◌==◌, ◌||◌, ◌∙◌, ◌≡◌, ◌≤◌,
}
use prislapp.OcrOutbox.Completion.{
  IsRead, complete_ocr_result-claim_ocr_job, granted_receipt, held_job,
}
use prislapp.OcrOutbox.Fencing.{Claimed, claim_ocr_job-Claimed}
use prislapp.OcrOutbox.Jobs.{
  attempted_job, claim_ocr_job, closed_job, complete_ocr_result, fail_ocr_job, given_up,
  is_attempt_on, receipt_of, retried, save_job, set_receipt_status, waiting_job,
}
use prislapp.OcrOutbox.Model.{
  ClaimedOcrJob, ErrorCode, JobOutbox, OcrDb, OcrReceipt, Settings, failed_permanent, pending,
}
use prislapp.OcrOutbox.Receipts.{is_processing, is_read, receipt_failed, receipt_uploaded}
use prislapp.OcrOutbox.Steps.{IsSound}
use prislapp.OcrOutbox.Stores.{is_named}
use prislapp.OcrOutbox.Worker.{
  Draws, Reading, Work, after_completion, after_first_claim, process_claimed,
  process_receipt_with_db, read, unread,
}
use prislapp.Prelude.Table.{In-replace, find?-replace, replace}
use prislapp.Prelude.Text.{Text}
use prislapp.ShoppingList.Model.{ReceiptStatus}

abbrev is_final : Settings → Bool → JobOutbox → Bool
is_final settings permanent job = permanent || leb settings.outbox_max_attempts job.attempt_count

-- A failed attempt: the job waits again, with its receipt as uploaded, or both are given up, if the
-- failure is for good or the job has no attempt left.
pub record IsFailed (settings : Settings) (claimed : ClaimedOcrJob) (receipt_id : ℕ)
    (code : ErrorCode) (permanent : Bool) (b : OcrDb) : Type 0 where
  pub job : JobOutbox
  pub receipt : OcrReceipt
  pub there : In job b.jobs
  pub stored : receipt_of receipt_id b ≡ some receipt
  pub same_job : job.id ≡ claimed.outbox_id
  pub reason : job.last_error_code ≡ some code
  pub job_status :
      job.status ≡ (if is_final settings permanent job then failed_permanent else pending)
  pub receipt_status :
      receipt.status
      ≡ (if is_final settings permanent job then receipt_failed else receipt_uploaded)

-- A run ends with what was read, or with the failure of the attempt: for a reading that failed, with
-- its code; for an exception of the database in the completion, with that one's code, not for good.
abbrev pub IsEnded :
    Settings → (Text → Text) → ClaimedOcrJob → ℕ → Reading → Option ErrorCode → OcrDb → Type 0
IsEnded settings fold claimed receipt_id (read parsed) none b = IsRead fold none receipt_id parsed b
IsEnded settings fold claimed receipt_id (read parsed) (some code) b =
    IsFailed settings claimed receipt_id code false b
IsEnded settings fold claimed receipt_id (unread code permanent) raised b =
    IsFailed settings claimed receipt_id code permanent b

fail-IsFailed :
    (settings : Settings) (claimed : ClaimedOcrJob) (receipt_id attempt_id : ℕ) (code : ErrorCode)
    (permanent : Bool) (b : OcrDb) (job : JobOutbox) (receipt : OcrReceipt)
    → attempted_job receipt_id attempt_id b ≡ some job
    → receipt_of receipt_id b ≡ some receipt
    → is_processing receipt.status ≡ true
    → job.id ≡ claimed.outbox_id
    → IsFailed settings claimed receipt_id code permanent
        (fail_ocr_job settings receipt_id attempt_id code permanent b)
unfolding fail_ocr_job
fail-IsFailed settings claimed receipt_id attempt_id code permanent b job receipt e stored working
      same =
    subst (IsFailed settings claimed receipt_id code permanent) (sym whole)
      (go (is_final settings permanent job) refl)
  where
    failed_db : OcrDb
    failed_db = set_receipt_status receipt receipt_failed (save_job (closed_job job code) b)

    waiting_db : OcrDb
    waiting_db = set_receipt_status receipt receipt_uploaded (save_job (waiting_job job code) b)

    whole :
        fail_ocr_job settings receipt_id attempt_id code permanent b
        ≡ (if is_final settings permanent job then failed_db else waiting_db)
    whole =
        ap
          (λ (held : Option JobOutbox). elim held [
            | none ↦ b
            | some job ↦
                if permanent || leb settings.outbox_max_attempts job.attempt_count
                then given_up job code (receipt_of receipt_id b) b
                else retried job code (receipt_of receipt_id b) b
          ])
          e
        ∙ (ap
              (λ (r : Option OcrReceipt).
                if is_final settings permanent job
                then given_up job code r b
                else retried job code r b)
              stored
            ∙ rw working refl)

    put_receipt :
        (status : ReceiptStatus)
        → find?
            (λ r. r.id == receipt_id)
            (replace (λ r. r.id) (record receipt { status = status }) b.receipts)
          ≡ some (record receipt { status = status })
    put_receipt status =
        find?-replace (λ r. r.id) (λ r. r.id == receipt_id) receipt _ b.receipts stored refl
          (find?-holds (λ (r : OcrReceipt). r.id == receipt_id) b.receipts stored)

    held : In job b.jobs
    held = find?-In (is_attempt_on receipt_id attempt_id) b.jobs e

    go :
        (final : Bool)
        → is_final settings permanent job ≡ final
        → IsFailed settings claimed receipt_id code permanent
            (if final then failed_db else waiting_db)
    go true f = record {
      job = closed_job job code;
      receipt = record receipt { status = receipt_failed };
      there = In-replace (λ j. j.id) job (closed_job job code) b.jobs held refl;
      stored = put_receipt receipt_failed;
      same_job = same;
      reason = refl;
      job_status = rw f refl;
      receipt_status = rw f refl;
    }
    go false f = record {
      job = waiting_job job code;
      receipt = record receipt { status = receipt_uploaded };
      there = In-replace (λ j. j.id) job (waiting_job job code) b.jobs held refl;
      stored = put_receipt receipt_uploaded;
      same_job = same;
      reason = refl;
      job_status = rw f refl;
      receipt_status = rw f refl;
    }

module _ (settings : Settings) (work : Work) (draws : Draws) (receipt_id : ℕ) (db : OcrDb) where
  abbrev claim : Option ClaimedOcrJob × OcrDb
  claim = claim_ocr_job settings draws.claim_time draws.attempt_id receipt_id db

  claimed-IsEnded :
      (claimed : ClaimedOcrJob)
      → IsSound settings db.jobs
      → ((name : Text) → count (is_named name) db.stores ≤ 1)
      → claim.0 ≡ some claimed
      → (reading : Reading) (raised : Option ErrorCode)
      → IsEnded settings work.fold claimed receipt_id reading raised (elim reading as (λ _. OcrDb) [
        | read parsed ↦
            after_completion settings receipt_id claimed.attempt_id raised
              (complete_ocr_result work.fold draws.store_id receipt_id claimed.attempt_id none
                parsed claim.1)
              claim.1
        | unread code permanent ↦
            fail_ocr_job settings receipt_id claimed.attempt_id code permanent claim.1
      ])
  claimed-IsEnded claimed sound distinct e = go
    where
      grant : Claimed settings draws.claim_time draws.attempt_id receipt_id db claimed claim.1
      grant =
          claim_ocr_job-Claimed settings draws.claim_time draws.attempt_id receipt_id db claimed e

      failed :
          (code : ErrorCode) (permanent : Bool)
          → IsFailed settings claimed receipt_id code permanent
              (fail_ocr_job settings receipt_id claimed.attempt_id code permanent claim.1)
      failed code permanent =
          fail-IsFailed settings claimed receipt_id claimed.attempt_id code permanent claim.1 _ _
            (ap (λ (c : ClaimedOcrJob). attempted_job receipt_id c.attempt_id claim.1) grant.answer
              ∙ held_job grant)
            (granted_receipt grant) refl
            (sym (ap (λ (c : ClaimedOcrJob). c.outbox_id) grant.answer))

      go :
          (reading : Reading) (raised : Option ErrorCode)
          → IsEnded settings work.fold claimed receipt_id reading raised
              (elim reading as (λ _. OcrDb) [
                | read parsed ↦
                    after_completion settings receipt_id claimed.attempt_id raised
                      (complete_ocr_result work.fold draws.store_id receipt_id claimed.attempt_id
                        none parsed claim.1)
                      claim.1
                | unread code permanent ↦
                    fail_ocr_job settings receipt_id claimed.attempt_id code permanent claim.1
              ])
      go (unread code permanent) raised = failed code permanent
      go (read parsed) (some code) = failed code false
      go (read parsed) none =
          let (answered, is_read) =
            complete_ocr_result-claim_ocr_job settings draws.claim_time draws.attempt_id receipt_id
              db claimed sound distinct e work.fold draws.store_id none parsed in
          done_with _ answered is_read
        where
          done_with :
              (out : Option Bool × OcrDb)
              → out.0 ≡ some true
              → IsRead work.fold none receipt_id parsed out.1
              → IsRead work.fold none receipt_id parsed
                  (after_completion settings receipt_id claimed.attempt_id none out claim.1)
          done_with (none, c) a r = cc a
          done_with (some _, c) a r = r

  pub process_claimed-IsEnded :
      (claimed : ClaimedOcrJob)
      → IsSound settings db.jobs
      → ((name : Text) → count (is_named name) db.stores ≤ 1)
      → claim.0 ≡ some claimed
      → work.others claim.1 ≡ claim.1
      → IsEnded settings work.fold claimed receipt_id
          (work.reading claimed)
          work.raised
          (process_claimed settings work draws.store_id receipt_id claimed claim.1)
  unfolding process_claimed
  process_claimed-IsEnded claimed sound distinct e alone =
      subst
        (λ (c : OcrDb).
          IsEnded settings work.fold claimed receipt_id (work.reading claimed) work.raised
            (elim (work.reading claimed) as (λ _. OcrDb) [
              | read parsed ↦
                  after_completion settings receipt_id claimed.attempt_id work.raised
                    (complete_ocr_result work.fold draws.store_id receipt_id claimed.attempt_id none
                      parsed c)
                    c
              | unread code permanent ↦
                  fail_ocr_job settings receipt_id claimed.attempt_id code permanent c
            ]))
        (sym alone) (claimed-IsEnded claimed sound distinct e (work.reading claimed) work.raised)

  -- A worker's run that claims a job on sound jobs, while no other session commits and no two stores
  -- share a normalized name, ends with the receipt as it was read, or, if the image is not read or the
  -- database raises in the completion, with the failure of the attempt: the job has the code, and it
  -- and its receipt wait again, or are given up if the failure is for good or no attempt is left.
  pub process_receipt_with_db-IsEnded :
      (claimed : ClaimedOcrJob)
      → IsSound settings db.jobs
      → ((name : Text) → count (is_named name) db.stores ≤ 1)
      → claim.0 ≡ some claimed
      → work.others claim.1 ≡ claim.1
      → IsEnded settings work.fold claimed receipt_id
          (work.reading claimed)
          work.raised
          (process_receipt_with_db settings work draws receipt_id db)
  unfolding process_receipt_with_db
  process_receipt_with_db-IsEnded claimed sound distinct e alone =
      subst
        (λ (o : Option ClaimedOcrJob).
          IsEnded settings work.fold claimed receipt_id (work.reading claimed) work.raised
            (after_first_claim settings work draws receipt_id (o, claim.1)))
        (sym e) (process_claimed-IsEnded claimed sound distinct e alone)
