-- ===== src/OcrOutbox/Missing.antt =====
-- worker/tasks.py: a receipt that was uploaded but has no job gets one, and is read.
use mathlib.Core.Path.{subst}
use prislapp.Prelude.{
  ==→eq, List, Option, [], any, ap, arith, count, false, filter, find?, find?-holds, leb, none,
  refl, some, sym, true, ℕ, ◌++◌, ◌==◌, ◌∙◌, ◌∷◌, ◌≡◌, ◌≤◌,
}
use prislapp.OcrOutbox.Jobs.{
  active_job, claim_job, claim_ocr_job, enqueue_ocr_job, insert_job, is_active_for, is_live,
  new_job, receipt_of,
}
use prislapp.OcrOutbox.Model.{ClaimedOcrJob, JobOutbox, OcrDb, OcrReceipt, Settings}
use prislapp.OcrOutbox.Moving.{enqueue_ocr_job-Moves}
use prislapp.OcrOutbox.Outcomes.{IsEnded, process_claimed-IsEnded}
use prislapp.OcrOutbox.Receipts.{is_read, is_uploaded}
use prislapp.OcrOutbox.Steps.{IsSound}
use prislapp.OcrOutbox.Stores.{is_named}
use prislapp.OcrOutbox.Worker.{
  Draws, Work, process_if_claimed, process_receipt_with_db, should_enqueue_missing_ocr_job,
}
use prislapp.Prelude.Text.{Text}
use prislapp.ShoppingList.Model.{ReceiptStatus}

no_job :
    (receipt_id : ℕ) (jobs : List JobOutbox)
    → any (λ job. job.aggregate_id == receipt_id) jobs ≡ false
    → find? (is_active_for receipt_id) jobs ≡ none
no_job receipt_id [] h = refl
no_job receipt_id (job ∷ jobs) h =
    let other : (job.aggregate_id == receipt_id) ≡ false = ground (arith, h) in
    rw other (no_job receipt_id jobs (ground (arith, h)))

no_rows :
    (receipt_id : ℕ) (jobs : List JobOutbox)
    → any (λ job. job.aggregate_id == receipt_id) jobs ≡ false
    → filter (λ job. job.aggregate_id == receipt_id) jobs ≡ []
no_rows receipt_id [] h = refl
no_rows receipt_id (job ∷ jobs) h =
    let other : (job.aggregate_id == receipt_id) ≡ false = ground (arith, h) in
    rw other (no_rows receipt_id jobs (ground (arith, h)))

last_found :
    (receipt_id : ℕ) (jobs : List JobOutbox) (job : JobOutbox)
    → any (λ job. job.aggregate_id == receipt_id) jobs ≡ false
    → is_active_for receipt_id job ≡ true
    → find? (is_active_for receipt_id) (jobs ++ job ∷ []) ≡ some job
last_found receipt_id [] job h t = rw t refl
last_found receipt_id (x ∷ xs) job h t =
    let other : (x.aggregate_id == receipt_id) ≡ false = ground (arith, h) in
    rw other (last_found receipt_id xs job (ground (arith, h)) t)

unread_yet : (status : ReceiptStatus) → is_uploaded status ≡ true → is_read status ≡ false
unread_yet status h = ground (arith, h)

module _ (settings : Settings) (work : Work) (draws : Draws) (receipt_id : ℕ) (db : OcrDb)
    (receipt : OcrReceipt) where
  -- The tables with the receipt's new job, and its claim.
  abbrev enqueued : OcrDb
  enqueued = record db {
    jobs = db.jobs ++ new_job draws.job_id receipt.user_id receipt_id draws.enqueue_time ∷ [];
  }

  abbrev new_claim : ClaimedOcrJob
  new_claim = record {
    outbox_id = draws.job_id;
    attempt_id = draws.second_attempt_id;
    image_path = receipt.image_path;
  }

  enqueue_missing :
      receipt_of receipt_id db ≡ some receipt
      → any (λ job. job.aggregate_id == receipt_id) db.jobs ≡ false
      → any (λ old. old.id == draws.job_id) db.jobs ≡ false
      → enqueue_ocr_job draws.job_id draws.enqueue_time receipt.user_id receipt.id db
        ≡ (some (new_job draws.job_id receipt.user_id receipt_id draws.enqueue_time), enqueued)
  unfolding enqueue_ocr_job
  enqueue_missing stored none_there free =
      let same : receipt.id ≡ receipt_id =
        ==→eq receipt.id receipt_id
          (find?-holds (λ (r : OcrReceipt). r.id == receipt_id) db.receipts stored) in
      ap (λ (n : ℕ). enqueue_ocr_job draws.job_id draws.enqueue_time receipt.user_id n db) same
      ∙ (ap
            (λ (row : Option JobOutbox). elim row as (λ _. Option JobOutbox × OcrDb) [
              | some existing ↦ (some existing, db)
              | none ↦
                  insert_job (new_job draws.job_id receipt.user_id receipt_id draws.enqueue_time) db
            ])
            (no_job receipt_id db.jobs none_there)
          ∙ rw free refl)

  claim_new :
      receipt_of receipt_id db ≡ some receipt
      → is_uploaded receipt.status ≡ true
      → is_live receipt.user_id db ≡ true
      → any (λ job. job.aggregate_id == receipt_id) db.jobs ≡ false
      → 1 ≤ settings.outbox_max_attempts
      → (claim_ocr_job settings draws.second_time draws.second_attempt_id receipt_id enqueued).0
        ≡ some new_claim
  unfolding claim_ocr_job
  claim_new stored sent live none_there attempts =
      ap
        (λ (row : Option JobOutbox).
          (elim row as (λ _. Option ClaimedOcrJob × OcrDb) [
            | none ↦ (none, enqueued)
            | some job ↦
                claim_job settings draws.second_time draws.second_attempt_id receipt_id job enqueued
          ]).0)
        found
      ∙ rw (live, stored, unread_yet receipt.status sent, left_over) refl
    where
      added : JobOutbox
      added = new_job draws.job_id receipt.user_id receipt_id draws.enqueue_time

      found : active_job receipt_id enqueued ≡ some added
      found = last_found receipt_id db.jobs added none_there (ground arith)

      left_over : leb settings.outbox_max_attempts 0 ≡ false
      left_over = ground (arith, attempts)

  missing_is_due :
      receipt_of receipt_id db ≡ some receipt
      → is_uploaded receipt.status ≡ true
      → is_live receipt.user_id db ≡ true
      → any (λ job. job.aggregate_id == receipt_id) db.jobs ≡ false
      → should_enqueue_missing_ocr_job receipt_id db ≡ true
  missing_is_due stored sent live none_there =
      rw (should_enqueue_missing_ocr_job, stored, sent, live, no_rows receipt_id db.jobs none_there)
        refl

  -- The run up to the second claim.
  second_claim :
      receipt_of receipt_id db ≡ some receipt
      → is_uploaded receipt.status ≡ true
      → is_live receipt.user_id db ≡ true
      → any (λ job. job.aggregate_id == receipt_id) db.jobs ≡ false
      → any (λ old. old.id == draws.job_id) db.jobs ≡ false
      → process_receipt_with_db settings work draws receipt_id db
        ≡ process_if_claimed settings work draws.store_id receipt_id
            (claim_ocr_job settings draws.second_time draws.second_attempt_id receipt_id enqueued)
  unfolding process_receipt_with_db
  second_claim stored sent live none_there free =
      rw
        (
          nothing,
          missing_is_due stored sent live none_there,
          stored,
          enqueue_missing stored none_there free,
        )
        refl
    where
      nothing : claim_ocr_job settings draws.claim_time draws.attempt_id receipt_id db ≡ (none, db)
      nothing =
          unfold claim_ocr_job in
          ap
            (λ (active_row : Option JobOutbox).
              elim active_row as (λ _. Option ClaimedOcrJob × OcrDb) [
                | none ↦ (none, db)
                | some job ↦ claim_job settings draws.claim_time draws.attempt_id receipt_id job db
              ])
            (no_job receipt_id db.jobs none_there)

  -- A receipt that is uploaded, of a user who is not deleted, but without any job, is read by a
  -- worker's run all the same: it gets a job, and while no other session commits and no two stores
  -- share a normalized name, the run ends with the receipt as it was read, or with the failure of the
  -- new job's first attempt.
  pub process_receipt_with_db-missing :
      IsSound settings db.jobs
      → ((name : Text) → count (is_named name) db.stores ≤ 1)
      → receipt_of receipt_id db ≡ some receipt
      → is_uploaded receipt.status ≡ true
      → is_live receipt.user_id db ≡ true
      → any (λ job. job.aggregate_id == receipt_id) db.jobs ≡ false
      → any (λ old. old.id == draws.job_id) db.jobs ≡ false
      → 1 ≤ settings.outbox_max_attempts
      → ((c : OcrDb) → work.others c ≡ c)
      → IsEnded settings work.fold new_claim receipt_id
          (work.reading new_claim)
          work.raised
          (process_receipt_with_db settings work draws receipt_id db)
  process_receipt_with_db-missing sound distinct stored sent live none_there free attempts alone =
      subst Ended (sym (second_claim stored sent live none_there free)) (
        subst
          (λ (o : Option ClaimedOcrJob).
            Ended (process_if_claimed settings work draws.store_id receipt_id (o, claimed_db)))
          (sym granted)
          (process_claimed-IsEnded settings work second_draws receipt_id enqueued new_claim after
            distinct granted (alone claimed_db)))
    where
      Ended : OcrDb → Type 0
      Ended = IsEnded settings work.fold new_claim receipt_id (work.reading new_claim) work.raised

      second_draws : Draws
      second_draws = record draws {
        claim_time = draws.second_time;
        attempt_id = draws.second_attempt_id;
      }

      claimed_db : OcrDb
      claimed_db =
          (claim_ocr_job settings draws.second_time draws.second_attempt_id receipt_id enqueued).1

      granted :
          (claim_ocr_job settings draws.second_time draws.second_attempt_id receipt_id enqueued).0
          ≡ some new_claim
      granted = claim_new stored sent live none_there attempts

      after : IsSound settings enqueued.jobs
      after =
          subst (λ (out : Option JobOutbox × OcrDb). IsSound settings out.1.jobs)
            (enqueue_missing stored none_there free)
            (enqueue_ocr_job-Moves settings draws.job_id draws.enqueue_time receipt.user_id
              receipt.id db sound).sound
