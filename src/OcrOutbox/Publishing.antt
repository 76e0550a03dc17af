-- ===== src/OcrOutbox/Publishing.antt =====
-- `_try_publish`, `reconcile_job_outbox` and `check_readiness` of ocr_outbox.py.
use prislapp.Prelude.{
  Bool, List, Option, [], any, count, false, filter, find?, if◌then◌else◌, leb, none, not,
  or_default, some, true, ℕ, ◌&&◌, ◌+◌, ◌==◌, ◌||◌, ◌∷◌,
}
use prislapp.OcrOutbox.Jobs.{active_job, is_active_for, save_job}
use prislapp.OcrOutbox.Model.{
  JobOutbox, JobOutboxStatus, OcrDb, Settings, pending, processing, published,
}

-- What a delivery comes to: the broker took it or raised; what other sessions had committed when it
-- was over; and the instant after it.
pub record Delivery : Type 0 where
  pub delivered : Bool
  pub others : OcrDb → OcrDb
  pub time : ℕ

abbrev pub is_pending : JobOutboxStatus → Bool
is_pending pending = true
is_pending _ = false

abbrev pub published_job : ℕ → JobOutbox → JobOutbox
published_job time job = record job { status = published; published_at = some time }

-- The refresh of the row, which raises (`none`) if it is gone, and the mark if it is still pending,
-- with no other commit in between.
unfoldable pub mark_published : ℕ → ℕ → OcrDb → Option Bool × OcrDb
mark_published id time db = elim (find? (λ j. j.id == id) db.jobs) [
  | none ↦ (none, db)
  | some job ↦
      if is_pending job.status
      then (some true, save_job (published_job time job) db)
      else (some true, db)
]

abbrev pub is_rival : JobOutbox → JobOutbox → Bool
is_rival job other = is_active_for job.aggregate_id other && not (other.id == job.id)

-- The UPDATE that the commit of `_try_publish` sends for the row that it read as pending, on tables
-- that others have changed since, as the refresh takes no lock. It fails (`none`) on a row that is
-- gone, and on the unique index of active jobs.
unfoldable pub commit_published : ℕ → ℕ → OcrDb → Option Bool × OcrDb
commit_published id time db = elim (find? (λ j. j.id == id) db.jobs) [
  | none ↦ (none, db)
  | some job ↦
      if any (is_rival job) db.jobs
      then (none, db)
      else (some true, save_job (published_job time job) db)
]

-- `_try_publish`
unfoldable pub try_publish : Delivery → JobOutbox → OcrDb → Option Bool × OcrDb
unfolding mark_published
try_publish delivery job db =
    if delivery.delivered
    then mark_published job.id delivery.time (delivery.others db)
    else (some false, delivery.others db)

-- `publish_pending_for_receipt`
unfoldable pub publish_pending_for_receipt :
    (JobOutbox → Delivery) → ℕ → OcrDb → Option Bool × OcrDb
unfolding try_publish
publish_pending_for_receipt deliver receipt_id db = elim (active_job receipt_id db) [
  | none ↦ (some false, db)
  | some job ↦ try_publish (deliver job) job db
]

abbrev is_at_most : Option ℕ → ℕ → Bool
is_at_most none time = false
is_at_most (some instant) time = leb instant time

-- The `WHERE` of `reconcile_job_outbox`; an age is added to the instant instead of taken from now.
abbrev pub is_due : ℕ → ℕ → JobOutbox → Bool
is_due min_age time job = due job.status
  where
    aged : Option ℕ → Bool
    aged none = false
    aged (some instant) = leb (instant + min_age) time

    due : JobOutboxStatus → Bool
    due pending = leb min_age 0 || leb (job.created_at + min_age) time
    due published = leb min_age 0 || aged job.published_at
    due processing = is_at_most job.lease_expires_at time
    due _ = false

-- What a round of the loop makes of the count of the later ones; an exception ends the loop.
abbrev pub after_try : Option Bool × OcrDb → Option ℕ × OcrDb → Option ℕ × OcrDb
after_try (none, db) rest = (none, db)
after_try (some true, db) (none, rest) = (none, rest)
after_try (some true, db) (some n, rest) = (some (n + 1), rest)
after_try (some false, db) rest = rest

-- The loop over the jobs that are due, with the number of those that were published.
unfoldable pub publish_all : (JobOutbox → Delivery) → List JobOutbox → OcrDb → Option ℕ × OcrDb
unfolding try_publish
publish_all deliver [] db = (some 0, db)
publish_all deliver (job ∷ jobs) db =
    let tried = try_publish (deliver job) job db in
    after_try tried (publish_all deliver jobs tried.1)

-- `reconcile_job_outbox`
unfoldable pub reconcile_job_outbox :
    Settings → (JobOutbox → Delivery) → Option ℕ → ℕ → OcrDb → Option ℕ × OcrDb
unfolding publish_all
reconcile_job_outbox settings deliver min_age time db =
    let age = or_default min_age settings.outbox_reconcile_min_age_seconds in
    publish_all deliver (filter (is_due age time) db.jobs) db

-- `_has_stale_pending`
abbrev pub has_stale_pending : Settings → ℕ → OcrDb → Bool
has_stale_pending settings time db = any is_stale db.jobs
  where
    threshold : ℕ
    threshold = settings.ready_stale_pending_seconds

    is_stale : JobOutbox → Bool
    is_stale job =
        is_pending job.status && (leb threshold 0 || leb (job.created_at + threshold) time)

-- `check_readiness`, which reads the clock three times.
unfoldable pub check_readiness :
    Settings → (JobOutbox → Delivery) → ℕ → ℕ → ℕ → OcrDb → Option Bool × OcrDb
unfolding reconcile_job_outbox
check_readiness settings deliver first second third db =
    if not (has_stale_pending settings first db)
    then (some true, db)
    else let (count, db') =
        reconcile_job_outbox settings deliver (some settings.ready_stale_pending_seconds) second
          db in
      elim count [
        | none ↦ (none, db')
        | some _ ↦ (some (not (has_stale_pending settings third db')), db')
      ]
