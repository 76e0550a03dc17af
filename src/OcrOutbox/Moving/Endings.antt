-- ===== src/OcrOutbox/Moving/Endings.antt =====
-- How `complete_ocr_result` and `fail_ocr_job` of ocr_outbox.py move the jobs on.
use prislapp.Prelude.{
  Bool, Bool-cases, Option, false, filter, find?, find?-holds, if◌then◌else◌, inl, inr, leb, map,
  none, not, or_default, refl, some, true, ℕ, ◌++◌, ◌==◌, ◌||◌, ◌≡◌,
}
use prislapp.OcrOutbox.Choosing.{Choice, chosen_store-Choice}
use prislapp.OcrOutbox.Jobs.{
  attempted_job, chosen_store, closed_job, complete_ocr_result, fail_ocr_job, finish, finish_with,
  given_up, is_attempt_on, is_live, is_terminal, receipt_of, retried, save_job, waiting_job,
}
use prislapp.OcrOutbox.Model.{ErrorCode, JobOutbox, OcrDb, OcrReceipt, Settings, account_deleted}
use prislapp.OcrOutbox.Moving.{DbMoves, Moved, active_is_live, attempt_is_active, save_quiet}
use prislapp.OcrOutbox.Receipts.{is_processing}
use prislapp.OcrOutbox.Steps.{IsSound, Moves, Moves-refl}
use prislapp.OcrOutbox.Stores.{ParsedReceipt, read_receipt, save_parsed_receipt}
use prislapp.Prelude.Table.{replace}
use prislapp.Prelude.Text.{Text}

module _ (settings : Settings) (db : OcrDb) (sound : IsSound settings db.jobs) where
  attempt_is_live :
      (receipt_id attempt_id : ℕ) (job : JobOutbox)
      → attempted_job receipt_id attempt_id db ≡ some job
      → is_terminal job.status ≡ false
  attempt_is_live receipt_id attempt_id job e = active_is_live receipt_id job (
      attempt_is_active receipt_id attempt_id job
        (find?-holds (is_attempt_on receipt_id attempt_id) db.jobs e))

  save_parsed-Moves :
      (receipt_id : ℕ) (store_id : Option ℕ) (parsed : ParsedReceipt) (b : OcrDb)
      → Moves settings db.jobs b.jobs
      → DbMoves settings db (or_default (save_parsed_receipt receipt_id store_id parsed b) db)
  unfolding save_parsed_receipt
  save_parsed-Moves receipt_id store_id parsed b moves =
      go (find? (λ r. r.id == receipt_id) b.receipts)
    where
      go :
          (found : Option OcrReceipt)
          → DbMoves settings db (
              or_default
                (elim found [
                  | none ↦ none
                  | some receipt ↦ some (record b {
                    receipts =
                        replace (λ r. r.id) (read_receipt receipt store_id parsed) b.receipts;
                    receipt_lines =
                        filter (λ l. not (l.receipt_id == receipt_id)) b.receipt_lines
                        ++ map
                            (λ line. record { receipt_id = receipt_id; line = line })
                            parsed.items;
                  })
                ])
                db)
      go none = Moves-refl settings db.jobs sound
      go (some receipt) = moves

  pub complete_ocr_result-Moves :
      (fold : Text → Text) (fresh receipt_id attempt_id : ℕ) (store : Option ℕ)
      (parsed : ParsedReceipt)
      → DbMoves settings db (complete_ocr_result fold fresh receipt_id attempt_id store parsed db).1
  unfolding complete_ocr_result
  complete_ocr_result-Moves fold fresh receipt_id attempt_id store parsed =
      go (attempted_job receipt_id attempt_id db) refl
    where
      chosen_with :
          (job : JobOutbox) (choice : Option (Option ℕ × OcrDb))
          → attempted_job receipt_id attempt_id db ≡ some job
          → Choice fold fresh db store parsed choice
          → Moved settings {A = Option Bool} db (finish_with receipt_id parsed job db choice)
      chosen_with job none e c = Moves-refl settings db.jobs sound
      chosen_with job (some (store_id, b)) e c = save_parsed-Moves receipt_id _ parsed _ (
          rw c.jobs (
            save_quiet settings _ job _ db.jobs sound e
              (attempt_is_live receipt_id attempt_id job e) refl refl refl refl))

      closed :
          (orphaned : Bool) (job : JobOutbox)
          → attempted_job receipt_id attempt_id db ≡ some job
          → Moved settings {A = Option Bool} db (
              if orphaned
              then (some false, save_job (closed_job job account_deleted) db)
              else finish fold fresh receipt_id store parsed job db)
      closed true job e =
          save_quiet settings _ job _ db.jobs sound e (attempt_is_live receipt_id attempt_id job e)
            refl refl refl refl
      closed false job e =
          chosen_with job (chosen_store fold fresh store parsed db) e
            (chosen_store-Choice fold fresh db store parsed)

      go :
          (held : Option JobOutbox)
          → attempted_job receipt_id attempt_id db ≡ held
          → Moved settings {A = Option Bool} db (elim held [
            | none ↦ (some false, db)
            | some job ↦
                if not (is_live job.user_id db)
                then (some false, save_job (closed_job job account_deleted) db)
                else finish fold fresh receipt_id store parsed job db
          ])
      go none _ = Moves-refl settings db.jobs sound
      go (some job) e = closed (not (is_live job.user_id db)) job e

  pub fail_ocr_job-Moves :
      (receipt_id attempt_id : ℕ) (code : ErrorCode) (permanent : Bool)
      → DbMoves settings db (fail_ocr_job settings receipt_id attempt_id code permanent db)
  unfolding fail_ocr_job
  fail_ocr_job-Moves receipt_id attempt_id code permanent =
      go (attempted_job receipt_id attempt_id db) refl
    where
      ended :
          (final : Bool) (job : JobOutbox) (receipt : Option OcrReceipt)
          → attempted_job receipt_id attempt_id db ≡ some job
          → DbMoves settings db
              (if final then given_up job code receipt db else retried job code receipt db)
      ended true job none e =
          save_quiet settings _ job _ db.jobs sound e (attempt_is_live receipt_id attempt_id job e)
            refl refl refl refl
      ended true job (some receipt) e =
          save_quiet settings _ job _ db.jobs sound e (attempt_is_live receipt_id attempt_id job e)
            refl refl refl refl
      ended false job none e =
          save_quiet settings _ job _ db.jobs sound e (attempt_is_live receipt_id attempt_id job e)
            refl refl refl refl
      ended false job (some receipt) e = elim (Bool-cases (is_processing receipt.status)) [
        | inl p ↦ rw p (
            save_quiet settings _ job (waiting_job job code) db.jobs sound e
              (attempt_is_live receipt_id attempt_id job e) refl refl refl refl)
        | inr p ↦ rw p (
            save_quiet settings _ job (waiting_job job code) db.jobs sound e
              (attempt_is_live receipt_id attempt_id job e) refl refl refl refl)
      ]

      go :
          (held : Option JobOutbox)
          → attempted_job receipt_id attempt_id db ≡ held
          → DbMoves settings db (elim held [
            | none ↦ db
            | some job ↦
                if permanent || leb settings.outbox_max_attempts job.attempt_count
                then given_up job code (receipt_of receipt_id db) db
                else retried job code (receipt_of receipt_id db) db
          ])
      go none _ = Moves-refl settings db.jobs sound
      go (some job) e =
          ended (permanent || leb settings.outbox_max_attempts job.attempt_count) job
            (receipt_of receipt_id db) e
