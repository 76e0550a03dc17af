-- ===== src/OcrOutbox/Worker.antt =====
-- `process_receipt_with_db` of backend/app/worker/tasks.py: one delivery of a job to a worker.
use prislapp.Prelude.{
  Bool, List, Option, [], any, false, filter, if◌then◌else◌, none, not, some, true, ℕ, ◌==◌, ◌||◌,
}
use prislapp.OcrOutbox.Jobs.{
  claim_ocr_job, complete_ocr_result, enqueue_ocr_job, fail_ocr_job, is_live, receipt_of,
}
use prislapp.OcrOutbox.Model.{
  ClaimedOcrJob, ErrorCode, JobOutbox, JobOutboxStatus, OcrDb, Settings, account_deleted,
  failed_permanent, ocr_failed,
}
use prislapp.OcrOutbox.Receipts.{is_uploaded}
use prislapp.OcrOutbox.Stores.{ParsedReceipt}
use prislapp.Prelude.Text.{Text}

-- What became of the image: what was read, or an error code and whether it is for good.
pub data Reading : Type 0 where
  read : ParsedReceipt → Reading
  unread : ErrorCode → Bool → Reading

-- What a worker draws from the clock and from `uuid4`.
pub record Draws : Type 0 where
  pub claim_time : ℕ
  pub attempt_id : ℕ
  pub job_id : ℕ
  pub enqueue_time : ℕ
  pub second_time : ℕ
  pub second_attempt_id : ℕ
  pub store_id : ℕ

-- What a worker takes from outside: the reading of a claimed image, what other sessions commit while
-- it is read, and the code of an exception of the database in the completion, if it raises one.
pub record Work : Type 0 where
  pub fold : Text → Text
  pub reading : ClaimedOcrJob → Reading
  pub others : OcrDb → OcrDb
  pub raised : Option ErrorCode

abbrev is_closed : JobOutbox → Bool
is_closed job = is_failed job.status || is_orphaned job.last_error_code
  where
    is_failed : JobOutboxStatus → Bool
    is_failed failed_permanent = true
    is_failed _ = false

    is_orphaned : Option ErrorCode → Bool
    is_orphaned (some account_deleted) = true
    is_orphaned _ = false

abbrev jobs_of : ℕ → OcrDb → List JobOutbox
jobs_of receipt_id db = filter (λ job. job.aggregate_id == receipt_id) db.jobs

-- `_should_enqueue_missing_ocr_job`
abbrev pub should_enqueue_missing_ocr_job : ℕ → OcrDb → Bool
should_enqueue_missing_ocr_job receipt_id db = elim (receipt_of receipt_id db) [
  | none ↦ false
  | some receipt ↦
      if not (is_uploaded receipt.status)
      then false
      else if not (is_live receipt.user_id db)
      then false
      else if any is_closed (jobs_of receipt_id db)
      then false
      else is_empty_list (jobs_of receipt_id db)
]
  where
    is_empty_list : List JobOutbox → Bool
    is_empty_list [] = true
    is_empty_list _ = false

-- The end of the `try` block: after an exception and the rollback the attempt is failed. The code of
-- `MultipleResultsFound` is OCR_FAILED.
abbrev pub after_completion :
    Settings → ℕ → ℕ → Option ErrorCode → Option Bool × OcrDb → OcrDb → OcrDb
after_completion settings receipt_id attempt_id (some code) out db =
    fail_ocr_job settings receipt_id attempt_id code false db
after_completion settings receipt_id attempt_id none (none, after) db =
    fail_ocr_job settings receipt_id attempt_id ocr_failed false db
after_completion settings receipt_id attempt_id none (some _, after) db = after

-- From the claim on: the image is read, and the attempt is completed or failed.
unfoldable pub process_claimed : Settings → Work → ℕ → ℕ → ClaimedOcrJob → OcrDb → OcrDb
unfolding complete_ocr_result fail_ocr_job
process_claimed settings work store_id receipt_id claimed db = elim (work.reading claimed) [
  | read parsed ↦
      after_completion settings receipt_id claimed.attempt_id work.raised
        (complete_ocr_result work.fold store_id receipt_id claimed.attempt_id none parsed
          (work.others db))
        (work.others db)
  | unread code permanent ↦
      fail_ocr_job settings receipt_id claimed.attempt_id code permanent (work.others db)
]

abbrev pub process_if_claimed : Settings → Work → ℕ → ℕ → Option ClaimedOcrJob × OcrDb → OcrDb
process_if_claimed settings work store_id receipt_id (none, db) = db
process_if_claimed settings work store_id receipt_id (some claimed, db) =
    process_claimed settings work store_id receipt_id claimed db

-- The second claim, after a receipt without any job got one. An enqueue that the database refuses
-- raises, and nothing of it stays.
abbrev pub process_enqueued : Settings → Work → Draws → ℕ → Option JobOutbox × OcrDb → OcrDb
process_enqueued settings work draws receipt_id (none, db) = db
process_enqueued settings work draws receipt_id (some job, db) =
    process_if_claimed settings work draws.store_id receipt_id
      (claim_ocr_job settings draws.second_time draws.second_attempt_id receipt_id db)

abbrev pub process_unclaimed : Settings → Work → Draws → ℕ → OcrDb → OcrDb
process_unclaimed settings work draws receipt_id db =
    if not (should_enqueue_missing_ocr_job receipt_id db)
    then db
    else elim (receipt_of receipt_id db) [
      | none ↦ db
      | some receipt ↦
          process_enqueued settings work draws receipt_id
            (enqueue_ocr_job draws.job_id draws.enqueue_time receipt.user_id receipt.id db)
    ]

abbrev pub after_first_claim : Settings → Work → Draws → ℕ → Option ClaimedOcrJob × OcrDb → OcrDb
after_first_claim settings work draws receipt_id (none, db) =
    process_unclaimed settings work draws receipt_id db
after_first_claim settings work draws receipt_id (some claimed, db) =
    process_claimed settings work draws.store_id receipt_id claimed db

-- `process_receipt_with_db`
unfoldable pub process_receipt_with_db : Settings → Work → Draws → ℕ → OcrDb → OcrDb
unfolding process_claimed
process_receipt_with_db settings work draws receipt_id db =
    after_first_claim settings work draws receipt_id
      (claim_ocr_job settings draws.claim_time draws.attempt_id receipt_id db)
