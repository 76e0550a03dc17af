-- ===== src/Tests/OcrJobs.antt =====
-- backend/app/services/ocr_outbox.py on one receipt with one job.
use prislapp.Prelude.{
  [], arith, count, false, if◌then◌else◌, leb, map, none, refl, some, true, ℕ, ◌&&◌, ◌+◌, ◌∷◌, ◌≡◌,
  ◌≤◌,
}
use prislapp.OcrOutbox.Completion.{IsRead, complete_ocr_result-claim_ocr_job}
use prislapp.OcrOutbox.Jobs.{claim_ocr_job, complete_ocr_result, fail_ocr_job, new_job}
use prislapp.OcrOutbox.Leases.{claim_ocr_job-exclusive, claim_ocr_job-fences}
use prislapp.OcrOutbox.Missing.{process_receipt_with_db-missing}
use prislapp.OcrOutbox.Model.{
  ClaimedOcrJob, JobOutbox, OcrDb, OcrReceipt, Store, default_settings, empty_ocr, failed_permanent,
  ocr_failed, published,
}
use prislapp.OcrOutbox.Moving.Publishes.{reconcile_job_outbox-Moves}
use prislapp.OcrOutbox.Outcomes.{process_receipt_with_db-IsEnded}
use prislapp.OcrOutbox.Publishing.{Delivery, commit_published, reconcile_job_outbox}
use prislapp.OcrOutbox.Receipts.{receipt_uploaded}
use prislapp.OcrOutbox.Runs.{Reaches, Reaches-Moves, at_start, claims, fails, then_step}
use prislapp.OcrOutbox.Steps.{IsSound, Moves, Moves-refl}
use prislapp.OcrOutbox.Stores.{ParsedReceipt, is_named, normalize_store_name}
use prislapp.OcrOutbox.Worker.{Draws, Work, process_receipt_with_db, read}
use prislapp.Prelude.Decimal.{whole}
use prislapp.Prelude.Text.{Text}

abbrev waiting : JobOutbox
waiting = new_job 1 7 20 50

abbrev photo : OcrReceipt
photo = record {
  id = 20;
  user_id = 7;
  status = receipt_uploaded;
  image_path = 55 ∷ [];
  raw_ocr_text = none;
  store_id = none;
  purchase_date = none;
  total = none;
  ocr_extraction_json = none;
  ocr_quality = none;
  ocr_pipeline_version = none;
}

abbrev queued : OcrDb
queued = record {
  jobs = waiting ∷ [];
  users = record { id = 7; deleted_at = none } ∷ [];
  receipts = photo ∷ [];
  receipt_lines = [];
  stores = [];
}

queued-IsSound : IsSound default_settings queued.jobs
queued-IsSound = record {
  job_ids = (tt, tt);
  single_active = λ r. ground arith;
  bounded = (omega arith, tt);
}

abbrev first_claim : ClaimedOcrJob
first_claim = record { outbox_id = 1; attempt_id = 900; image_path = 55 ∷ [] }

claim_granted : (claim_ocr_job default_settings 100 900 20 queued).0 ≡ some first_claim
unfolding claim_ocr_job
claim_granted = refl

abbrev claimed_db : OcrDb
claimed_db = (claim_ocr_job default_settings 100 900 20 queued).1

abbrev reading_of_photo : ParsedReceipt
reading_of_photo = record {
  raw_text = 65 ∷ [];
  store_name = some (75 ∷ 73 ∷ []);
  store_chain = none;
  purchase_date = some 40;
  total = some (whole 12);
  items = [];
  extraction_json = none;
  quality = none;
  pipeline_version = none;
}

-- A form of the name in lower case, for capital letters of ASCII.
abbrev lower : Text → Text
lower = map (λ c. if leb 65 c && leb c 90 then c + 32 else c)

claim_ocr_job-exclusive_example :
    claim_ocr_job default_settings 399 901 20 claimed_db ≡ (none, claimed_db)
claim_ocr_job-exclusive_example =
    claim_ocr_job-exclusive default_settings 100 900 20 queued first_claim claim_granted 399 901
      (omega arith)

-- The lease is over at 400.
reclaimed :
    (claim_ocr_job default_settings 400 901 20 claimed_db).0
    ≡ some (record { outbox_id = 1; attempt_id = 901; image_path = 55 ∷ [] })
unfolding claim_ocr_job
reclaimed = refl

claim_ocr_job-fences_example :
    (complete_ocr_result lower 70 20 899 none reading_of_photo claimed_db
      ≡ (some false, claimed_db))
    × (fail_ocr_job default_settings 20 899 ocr_failed true claimed_db ≡ claimed_db)
claim_ocr_job-fences_example =
    claim_ocr_job-fences default_settings 100 900 20 queued first_claim queued-IsSound claim_granted
      899 (omega arith) lower 70 none reading_of_photo ocr_failed true

no_stores : (name : Text) → count (is_named name) queued.stores ≤ 1
no_stores name = omega arith

complete_ocr_result-claim_ocr_job_example :
    ((complete_ocr_result lower 70 20 900 none reading_of_photo claimed_db).0 ≡ some true)
    × IsRead lower none 20 reading_of_photo
        (complete_ocr_result lower 70 20 900 none reading_of_photo claimed_db).1
complete_ocr_result-claim_ocr_job_example =
    complete_ocr_result-claim_ocr_job default_settings 100 900 20 queued first_claim queued-IsSound
      no_stores claim_granted lower 70 none reading_of_photo

-- Two stores with the name of the reading: the completion raises.
abbrev twin : ℕ → Store
twin id = record { id = id; name = 75 ∷ []; normalized_name = 107 ∷ 105 ∷ []; chain = none }

ambiguous :
    (complete_ocr_result lower 70 20 900 none reading_of_photo
      (record claimed_db { stores = twin 1 ∷ twin 2 ∷ [] })).0
    ≡ none
unfolding claim_ocr_job complete_ocr_result
ambiguous = refl

-- A claim, and its failure for good.
abbrev given_up_db : OcrDb
given_up_db = fail_ocr_job default_settings 20 900 empty_ocr true claimed_db

two_steps : Reaches default_settings false queued given_up_db
two_steps =
    then_step (then_step at_start (claims 100 900 20 queued))
      (fails 20 900 empty_ocr true claimed_db)

Reaches-Moves_example : Moves default_settings queued.jobs given_up_db.jobs
Reaches-Moves_example = Reaches-Moves default_settings two_steps queued-IsSound

-- A publish that read the job as pending before it was claimed and given up.
abbrev republished_db : OcrDb
republished_db = (commit_published 1 300 given_up_db).1

-- The job that was given up is published again.
reopened :
    (map (λ job. job.status) given_up_db.jobs ≡ failed_permanent ∷ [])
    × (map (λ job. job.status) republished_db.jobs ≡ published ∷ [])
unfolding claim_ocr_job fail_ocr_job commit_published
reopened = (refl, refl)

abbrev quiet_work : Work
quiet_work = record {
  fold = lower;
  reading = λ claimed. read reading_of_photo;
  others = λ db. db;
  raised = none;
}

abbrev draws : Draws
draws = record {
  claim_time = 100;
  attempt_id = 900;
  job_id = 2;
  enqueue_time = 101;
  second_time = 102;
  second_attempt_id = 901;
  store_id = 70;
}

process_receipt_with_db-IsEnded_example :
    IsRead lower none 20 reading_of_photo
      (process_receipt_with_db default_settings quiet_work draws 20 queued)
process_receipt_with_db-IsEnded_example =
    process_receipt_with_db-IsEnded default_settings quiet_work draws 20 queued first_claim
      queued-IsSound no_stores claim_granted refl

-- The receipt without a job.
abbrev jobless : OcrDb
jobless = record queued { jobs = [] }

jobless-IsSound : IsSound default_settings jobless.jobs
jobless-IsSound = record { job_ids = tt; single_active = λ r. omega arith; bounded = tt }

process_receipt_with_db-missing_example :
    IsRead lower none 20 reading_of_photo
      (process_receipt_with_db default_settings quiet_work draws 20 jobless)
process_receipt_with_db-missing_example =
    process_receipt_with_db-missing default_settings quiet_work draws 20 jobless photo
      jobless-IsSound no_stores refl refl refl refl refl (omega arith) (λ c. refl)

-- "KI" is kept as "ki".
kept_name : normalize_store_name lower (75 ∷ 73 ∷ 46 ∷ 32 ∷ []) ≡ 107 ∷ 105 ∷ []
unfolding normalize_store_name
kept_name = refl

-- A broker that takes every job while nothing else happens.
abbrev take_all_jobs : JobOutbox → Delivery
take_all_jobs job = record { delivered = true; others = λ db. db; time = 60 }

reconcile_job_outbox-Moves_example :
    Moves default_settings queued.jobs
      (reconcile_job_outbox default_settings take_all_jobs none 60 queued).1.jobs
reconcile_job_outbox-Moves_example =
    reconcile_job_outbox-Moves default_settings take_all_jobs
      (λ job b sound. Moves-refl default_settings b.jobs sound) none 60 queued queued-IsSound

-- At 55 the job of 50 is due, at 54 it is not.
due_at_age : (reconcile_job_outbox default_settings take_all_jobs none 55 queued).0 ≡ some 1
unfolding reconcile_job_outbox
due_at_age = refl

young : (reconcile_job_outbox default_settings take_all_jobs none 54 queued).0 ≡ some 0
unfolding reconcile_job_outbox
young = refl
