-- ===== src/OcrOutbox/Moving.antt =====
-- How `enqueue_ocr_job` and the mark of `_try_publish` (ocr_outbox.py) move the jobs on.
pub mod Claims
pub mod Endings
pub mod Publishes
use prislapp.Prelude.{
  ==→eq, All-append, Bool, Bool-cases, List, Option, [], any, arith, count, count-append, false,
  find?, find?-All, if◌then◌else◌, inl, inr, none, refl, some, true, ℕ, ◌++◌, ◌==◌, ◌∷◌, ◌≡◌, ◌≤◌,
}
use prislapp.OcrOutbox.Jobs.{
  active_job, enqueue_ocr_job, insert_job, is_active_for, is_attempt_on, is_terminal, new_job,
  save_job,
}
use prislapp.OcrOutbox.Model.{JobOutbox, OcrDb, Settings}
use prislapp.OcrOutbox.Publishing.{is_pending, mark_published, published_job}
use prislapp.OcrOutbox.Steps.{IsSound, JobStep, JobStep-refl, Moves, Moves-refl, Moves-save}
use prislapp.Prelude.Table.{Distinct-insert, Grows-insert, replace}
use prislapp.ShoppingList.Model.{active}

pub active_is_live :
    (r : ℕ) (job : JobOutbox) → is_active_for r job ≡ true → is_terminal job.status ≡ false
active_is_live r job h = ground arith

pub attempt_is_active :
    (r a : ℕ) (job : JobOutbox) → is_attempt_on r a job ≡ true → is_active_for r job ≡ true
attempt_is_active r a job h = ground arith

module _ (settings : Settings) where
  -- The tables' jobs moved on.
  abbrev pub DbMoves : OcrDb → OcrDb → Type 0
  DbMoves a b = Moves settings a.jobs b.jobs

  abbrev pub Moved : {A : Type 0} → OcrDb → A × OcrDb → Type 0
  Moved a out = Moves settings a.jobs out.1.jobs

  -- An update of the active job that leaves its attempts as they are.
  pub save_quiet :
      (q : JobOutbox → Bool) (old row : JobOutbox) (jobs : List JobOutbox)
      → IsSound settings jobs
      → find? q jobs ≡ some old
      → is_terminal old.status ≡ false
      → row.id ≡ old.id
      → row.aggregate_id ≡ old.aggregate_id
      → row.user_id ≡ old.user_id
      → row.attempt_count ≡ old.attempt_count
      → Moves settings jobs (replace (λ j. j.id) row jobs)
  save_quiet q old row jobs sound e live id receipt owner same =
      let bound =
        find?-All (λ j. j.attempt_count ≤ settings.outbox_max_attempts) q jobs sound.bounded e in
      Moves-save settings q old row jobs sound e live id receipt owner (omega (arith, same))
        (omega (arith, same, bound))

  inactive : (q : JobOutbox → Bool) (jobs : List JobOutbox) → find? q jobs ≡ none → count q jobs ≡ 0
  inactive q [] e = refl
  inactive q (x ∷ xs) e = ground (arith, inactive q xs)

  insert_job-Moves :
      (id time user_id receipt_id : ℕ) (db : OcrDb)
      → IsSound settings db.jobs
      → active_job receipt_id db ≡ none
      → DbMoves db (insert_job (new_job id user_id receipt_id time) db).1
  insert_job-Moves id time user_id receipt_id db sound free =
      go (any (λ old. old.id == id) db.jobs) refl
    where
      added : JobOutbox
      added = new_job id user_id receipt_id time

      few : (r : ℕ) → count (is_active_for r) (db.jobs ++ added ∷ []) ≤ 1
      few r = elim (Bool-cases (receipt_id == r)) [
        | inl e ↦
            let same : receipt_id ≡ r = ==→eq receipt_id r e in
            let zero_active = inactive (is_active_for receipt_id) db.jobs free in
            rw (count-append (is_active_for r) db.jobs (added ∷ []), ← same, zero_active)
              (ground arith)
        | inr e ↦
            let bound = sound.single_active r in
            rw (count-append (is_active_for r) db.jobs (added ∷ []), e) (omega (arith, bound))
      ]

      go :
          (taken : Bool)
          → any (λ old. old.id == id) db.jobs ≡ taken
          → Moved {A = Option JobOutbox} db (
              if taken
              then (none, db)
              else (some added, record db { jobs = db.jobs ++ added ∷ [] }))
      go true _ = Moves-refl settings db.jobs sound
      go false e = record {
        grows = Grows-insert (λ j. j.id) JobStep (λ _. Unit) JobStep-refl db.jobs added tt;
        sound = record {
          job_ids = Distinct-insert (λ j. j.id) added db.jobs e sound.job_ids;
          single_active = few;
          bounded = All-append _ db.jobs (added ∷ []) sound.bounded (omega arith, tt);
        };
      }

  pub enqueue_ocr_job-Moves :
      (id time user_id receipt_id : ℕ) (db : OcrDb)
      → IsSound settings db.jobs
      → DbMoves db (enqueue_ocr_job id time user_id receipt_id db).1
  unfolding enqueue_ocr_job
  enqueue_ocr_job-Moves id time user_id receipt_id db sound = go (active_job receipt_id db) refl
    where
      go :
          (active : Option JobOutbox)
          → active_job receipt_id db ≡ active
          → Moved {A = Option JobOutbox} db (elim active [
            | some existing ↦ (some existing, db)
            | none ↦ insert_job (new_job id user_id receipt_id time) db
          ])
      go (some existing) _ = Moves-refl settings db.jobs sound
      go none e = insert_job-Moves id time user_id receipt_id db sound e

  pub mark_published-Moves :
      (id time : ℕ) (db : OcrDb)
      → IsSound settings db.jobs
      → DbMoves db (mark_published id time db).1
  unfolding mark_published
  mark_published-Moves id time db sound = go (find? (λ j. j.id == id) db.jobs) refl
    where
      marked :
          (job : JobOutbox) (b : Bool)
          → find? (λ j. j.id == id) db.jobs ≡ some job
          → is_pending job.status ≡ b
          → Moved {A = Option Bool} db
              (if b then (some true, save_job (published_job time job) db) else (some true, db))
      marked job true e waiting =
          save_quiet (λ j. j.id == id) job (published_job time job) db.jobs sound e (ground arith)
            refl refl refl refl
      marked job false e waiting = Moves-refl settings db.jobs sound

      go :
          (row : Option JobOutbox)
          → find? (λ j. j.id == id) db.jobs ≡ row
          → Moved {A = Option Bool} db (elim row [
            | none ↦ (none, db)
            | some job ↦
                if is_pending job.status
                then (some true, save_job (published_job time job) db)
                else (some true, db)
          ])
      go none _ = Moves-refl settings db.jobs sound
      go (some job) e = marked job (is_pending job.status) e refl
