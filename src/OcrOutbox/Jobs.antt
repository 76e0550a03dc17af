-- ===== src/OcrOutbox/Jobs.antt =====
-- `enqueue_ocr_job`, `claim_ocr_job`, `complete_ocr_result` and `fail_ocr_job` of ocr_outbox.py. Each
-- takes the instant and the new ids that it would draw.
use prislapp.Prelude.{
  Bool, Option, [], any, false, find?, if◌then◌else◌, is_some, leb, ltb, none, not, or_default,
  some, true, ℕ, ◌&&◌, ◌++◌, ◌+◌, ◌==◌, ◌||◌, ◌∷◌,
}
use prislapp.OcrOutbox.Model.{
  ClaimedOcrJob, ErrorCode, JobOutbox, JobOutboxStatus, OcrDb, OcrReceipt, Settings,
  account_deleted, done, failed_permanent, max_attempts, pending, processing, receipt_missing,
}
use prislapp.OcrOutbox.Receipts.{
  is_processing, is_read, receipt_failed, receipt_processing, receipt_uploaded,
}
use prislapp.OcrOutbox.Stores.{ParsedReceipt, get_or_create_store, save_parsed_receipt}
use prislapp.Prelude.Table.{replace}
use prislapp.Prelude.Text.{Text}
use prislapp.ShoppingList.Model.{ReceiptStatus}

-- `_TERMINAL`
abbrev pub is_terminal : JobOutboxStatus → Bool
is_terminal done = true
is_terminal failed_permanent = true
is_terminal _ = false

abbrev pub is_active_for : ℕ → JobOutbox → Bool
is_active_for receipt_id job = job.aggregate_id == receipt_id && not (is_terminal job.status)

-- `_active_job`, and `_lock_active_job` without an attempt. The unique index admits one row at most.
abbrev pub active_job : ℕ → OcrDb → Option JobOutbox
active_job receipt_id db = find? (is_active_for receipt_id) db.jobs

abbrev pub has_attempt : ℕ → Option ℕ → Bool
has_attempt attempt_id none = false
has_attempt attempt_id (some held) = held == attempt_id

abbrev pub is_attempt_on : ℕ → ℕ → JobOutbox → Bool
is_attempt_on receipt_id attempt_id job =
    is_active_for receipt_id job && has_attempt attempt_id job.attempt_id

-- `_lock_active_job` with an attempt.
abbrev pub attempted_job : ℕ → ℕ → OcrDb → Option JobOutbox
attempted_job receipt_id attempt_id db = find? (is_attempt_on receipt_id attempt_id) db.jobs

abbrev pub save_job : JobOutbox → OcrDb → OcrDb
save_job job db = record db { jobs = replace (λ j. j.id) job db.jobs }

abbrev pub receipt_of : ℕ → OcrDb → Option OcrReceipt
receipt_of receipt_id db = find? (λ r. r.id == receipt_id) db.receipts

abbrev pub set_receipt_status : OcrReceipt → ReceiptStatus → OcrDb → OcrDb
set_receipt_status receipt status db = record db {
  receipts = replace (λ r. r.id) (record receipt { status = status }) db.receipts;
}

-- The user is there and not deleted, as after `_lock_user`.
abbrev pub is_live : ℕ → OcrDb → Bool
is_live user_id db = elim (find? (λ u. u.id == user_id) db.users) [
  | none ↦ false
  | some user ↦ not (is_some user.deleted_at)
]

abbrev pub new_job : ℕ → ℕ → ℕ → ℕ → JobOutbox
new_job id user_id receipt_id time = record {
  id = id;
  user_id = user_id;
  aggregate_id = receipt_id;
  status = pending;
  attempt_id = none;
  lease_expires_at = none;
  attempt_count = 0;
  last_error_code = none;
  created_at = time;
  published_at = none;
}

-- The flush of a new row, which the database refuses (`none`) if the primary key is taken.
abbrev pub insert_job : JobOutbox → OcrDb → Option JobOutbox × OcrDb
insert_job job db =
    if any (λ old. old.id == job.id) db.jobs
    then (none, db)
    else (some job, record db { jobs = db.jobs ++ job ∷ [] })

-- `enqueue_ocr_job`
unfoldable pub enqueue_ocr_job : ℕ → ℕ → ℕ → ℕ → OcrDb → Option JobOutbox × OcrDb
enqueue_ocr_job id time user_id receipt_id db = elim (active_job receipt_id db) [
  | some existing ↦ (some existing, db)
  | none ↦ insert_job (new_job id user_id receipt_id time) db
]

-- The lease of a job that is worked on has not run out.
abbrev pub is_leased : ℕ → JobOutbox → Bool
is_leased time job = is_working job.status && runs job.lease_expires_at
  where
    is_working : JobOutboxStatus → Bool
    is_working processing = true
    is_working _ = false

    runs : Option ℕ → Bool
    runs none = false
    runs (some lease) = ltb time lease

abbrev pub closed_job : JobOutbox → ErrorCode → JobOutbox
closed_job job code = record job { status = failed_permanent; last_error_code = some code }

abbrev pub claimed_job : Settings → ℕ → ℕ → JobOutbox → JobOutbox
claimed_job settings time attempt_id job = record job {
  status = processing;
  attempt_id = some attempt_id;
  lease_expires_at = some (time + settings.outbox_lease_seconds);
  attempt_count = job.attempt_count + 1;
}

abbrev pub claim_receipt :
    Settings → ℕ → ℕ → JobOutbox → OcrReceipt → OcrDb → Option ClaimedOcrJob × OcrDb
claim_receipt settings time attempt_id job receipt db =
    if is_read receipt.status
    then (none, save_job (record job { status = done }) db)
    else if leb settings.outbox_max_attempts job.attempt_count
    then (
      none,
      set_receipt_status receipt receipt_failed (save_job (closed_job job max_attempts) db),
    )
    else (
      some
          (record { outbox_id = job.id; attempt_id = attempt_id; image_path = receipt.image_path }),
      set_receipt_status receipt receipt_processing
          (save_job (claimed_job settings time attempt_id job) db),
    )

abbrev pub claim_job : Settings → ℕ → ℕ → ℕ → JobOutbox → OcrDb → Option ClaimedOcrJob × OcrDb
claim_job settings time attempt_id receipt_id job db =
    if is_leased time job
    then (none, db)
    else if not (is_live job.user_id db)
    then (none, save_job (closed_job job account_deleted) db)
    else elim (receipt_of receipt_id db) [
      | none ↦ (none, save_job (closed_job job receipt_missing) db)
      | some receipt ↦ claim_receipt settings time attempt_id job receipt db
    ]

-- `claim_ocr_job`
unfoldable pub claim_ocr_job : Settings → ℕ → ℕ → ℕ → OcrDb → Option ClaimedOcrJob × OcrDb
claim_ocr_job settings time attempt_id receipt_id db = elim (active_job receipt_id db) [
  | none ↦ (none, db)
  | some job ↦ claim_job settings time attempt_id receipt_id job db
]

-- `store` is the store that the caller knows, or the one that the receipt names; `none` is raised.
abbrev pub chosen_store :
    (Text → Text) → ℕ → Option ℕ → ParsedReceipt → OcrDb → Option (Option ℕ × OcrDb)
chosen_store fold fresh (some store) parsed db = some (some store, db)
chosen_store fold fresh none parsed db = elim parsed.store_name [
  | none ↦ some (none, db)
  | some [] ↦ some (none, db)
  | some (c ∷ cs) ↦ elim (get_or_create_store fold fresh (c ∷ cs) parsed.store_chain db) [
    | none ↦ none
    | some chosen ↦ some (some chosen.0, chosen.1)
  ]
]

abbrev pub finish_with :
    ℕ → ParsedReceipt → JobOutbox → OcrDb → Option (Option ℕ × OcrDb) → Option Bool × OcrDb
finish_with receipt_id parsed job db none = (none, db)
finish_with receipt_id parsed job db (some (store_id, db')) = (
  some true,
  or_default
      (save_parsed_receipt receipt_id store_id parsed (save_job (record job { status = done }) db'))
      db,
)

abbrev pub finish :
    (Text → Text) → ℕ → ℕ → Option ℕ → ParsedReceipt → JobOutbox → OcrDb → Option Bool × OcrDb
finish fold fresh receipt_id store parsed job db =
    finish_with receipt_id parsed job db (chosen_store fold fresh store parsed db)

-- `complete_ocr_result`; without an answer (`none`) it raised, and the tables are as before.
unfoldable pub complete_ocr_result :
    (Text → Text) → ℕ → ℕ → ℕ → Option ℕ → ParsedReceipt → OcrDb → Option Bool × OcrDb
unfolding save_parsed_receipt get_or_create_store
complete_ocr_result fold fresh receipt_id attempt_id store parsed db =
    elim (attempted_job receipt_id attempt_id db) [
      | none ↦ (some false, db)
      | some job ↦
          if not (is_live job.user_id db)
          then (some false, save_job (closed_job job account_deleted) db)
          else finish fold fresh receipt_id store parsed job db
    ]

abbrev pub given_up : JobOutbox → ErrorCode → Option OcrReceipt → OcrDb → OcrDb
given_up job code none db = save_job (closed_job job code) db
given_up job code (some receipt) db =
    set_receipt_status receipt receipt_failed (save_job (closed_job job code) db)

abbrev pub waiting_job : JobOutbox → ErrorCode → JobOutbox
waiting_job job code = record job {
  status = pending;
  lease_expires_at = none;
  last_error_code = some code;
}

abbrev pub retried : JobOutbox → ErrorCode → Option OcrReceipt → OcrDb → OcrDb
retried job code none db = save_job (waiting_job job code) db
retried job code (some receipt) db =
    if is_processing receipt.status
    then set_receipt_status receipt receipt_uploaded (save_job (waiting_job job code) db)
    else save_job (waiting_job job code) db

-- `fail_ocr_job`
unfoldable pub fail_ocr_job : Settings → ℕ → ℕ → ErrorCode → Bool → OcrDb → OcrDb
fail_ocr_job settings receipt_id attempt_id code permanent db =
    elim (attempted_job receipt_id attempt_id db) [
      | none ↦ db
      | some job ↦
          if permanent || leb settings.outbox_max_attempts job.attempt_count
          then given_up job code (receipt_of receipt_id db) db
          else retried job code (receipt_of receipt_id db) db
    ]
