-- ===== src/OcrOutbox/Runs.antt =====
-- The outbox over any number of steps, in any order, and one run of a worker.
use prislapp.Prelude.{Bool, Option, false, if◌then◌else◌, none, not, some, true, ℕ, ◌≡◌}
use prislapp.OcrOutbox.Jobs.{
  claim_ocr_job, complete_ocr_result, enqueue_ocr_job, fail_ocr_job, receipt_of,
}
use prislapp.OcrOutbox.Model.{
  ClaimedOcrJob, ErrorCode, JobOutbox, OcrDb, OcrReceipt, Settings, ocr_failed,
}
use prislapp.OcrOutbox.Moving.{DbMoves, enqueue_ocr_job-Moves, mark_published-Moves}
use prislapp.OcrOutbox.Moving.Claims.{claim_ocr_job-Moves}
use prislapp.OcrOutbox.Moving.Endings.{complete_ocr_result-Moves, fail_ocr_job-Moves}
use prislapp.OcrOutbox.Publishing.{commit_published, mark_published}
use prislapp.OcrOutbox.Steps.{IsSound, Moves, Moves-refl, Moves-trans}
use prislapp.OcrOutbox.Stores.{ParsedReceipt}
use prislapp.OcrOutbox.Worker.{
  Draws, Reading, Work, after_completion, after_first_claim, process_claimed, process_enqueued,
  process_if_claimed, process_receipt_with_db, process_unclaimed, read,
  should_enqueue_missing_ocr_job, unread,
}
use prislapp.Prelude.Text.{Text}

-- One committed step of a session or a worker. A publish is here the mark after the delivery. If
-- steps may overlap, others commit between the refresh of a publish and its UPDATE.
pub data Step (settings : Settings) (overlapping : Bool) : OcrDb → OcrDb → Type 0 where
  enqueues :
      (id time user_id receipt_id : ℕ) (db : OcrDb)
      → Step settings overlapping db (enqueue_ocr_job id time user_id receipt_id db).1
  publishes :
      (id time : ℕ) (db : OcrDb) → Step settings overlapping db (mark_published id time db).1
  publishes_late :
      (id time : ℕ) (db : OcrDb)
      → overlapping ≡ true
      → Step settings overlapping db (commit_published id time db).1
  claims :
      (time attempt_id receipt_id : ℕ) (db : OcrDb)
      → Step settings overlapping db (claim_ocr_job settings time attempt_id receipt_id db).1
  completes :
      (fold : Text → Text) (fresh receipt_id attempt_id : ℕ) (store : Option ℕ)
      (parsed : ParsedReceipt) (db : OcrDb)
      → Step settings overlapping db
          (complete_ocr_result fold fresh receipt_id attempt_id store parsed db).1
  fails :
      (receipt_id attempt_id : ℕ) (code : ErrorCode) (permanent : Bool) (db : OcrDb)
      → Step settings overlapping db (fail_ocr_job settings receipt_id attempt_id code permanent db)

-- Any number of steps.
pub data Reaches (settings : Settings) (overlapping : Bool) (a : OcrDb) : OcrDb → Type 0 where
  at_start : Reaches settings overlapping a a
  then_step :
      {b c : OcrDb}
      → Reaches settings overlapping a b
      → Step settings overlapping b c
      → Reaches settings overlapping a c

module _ (settings : Settings) where
  Step-Moves :
      {a b : OcrDb} → Step settings false a b → IsSound settings a.jobs → DbMoves settings a b
  Step-Moves (enqueues id time user_id receipt_id db) sound =
      enqueue_ocr_job-Moves settings id time user_id receipt_id db sound
  Step-Moves (publishes id time db) sound = mark_published-Moves settings id time db sound
  Step-Moves (publishes_late id time db late) sound = cc late
  Step-Moves (claims time attempt_id receipt_id db) sound =
      claim_ocr_job-Moves settings db sound time attempt_id receipt_id
  Step-Moves (completes fold fresh receipt_id attempt_id store parsed db) sound =
      complete_ocr_result-Moves settings db sound fold fresh receipt_id attempt_id store parsed
  Step-Moves (fails receipt_id attempt_id code permanent db) sound =
      fail_ocr_job-Moves settings db sound receipt_id attempt_id code permanent

  -- If nothing is committed between the refresh of a publish and its update, then from sound jobs, in
  -- whatever order the steps are committed, a job that is done or given up does not change any more,
  -- beside what holds in any case.
  pub Reaches-Moves :
      {a b : OcrDb}
      → Reaches settings false a b
      → IsSound settings a.jobs
      → Moves settings a.jobs b.jobs
  Reaches-Moves {a} at_start sound = Moves-refl settings a.jobs sound
  Reaches-Moves {a} (then_step {b} {c} before step) sound =
      let first = Reaches-Moves before sound in
      Moves-trans settings a.jobs b.jobs c.jobs first (Step-Moves step first.sound)

  module _ (work : Work)
      (others_move : (b : OcrDb)
        → IsSound settings b.jobs
        → DbMoves settings b (work.others b)) where
    process_claimed-Moves :
        (store_id receipt_id : ℕ) (claimed : ClaimedOcrJob) (db : OcrDb)
        → IsSound settings db.jobs
        → DbMoves settings db (process_claimed settings work store_id receipt_id claimed db)
    unfolding process_claimed
    process_claimed-Moves store_id receipt_id claimed db sound = go (work.reading claimed)
      where
        after : DbMoves settings db (work.others db)
        after = others_move db sound

        completed :
            (raised : Option ErrorCode) (out : Option Bool × OcrDb)
            → DbMoves settings (work.others db) out.1
            → DbMoves settings (work.others db) (
                after_completion settings receipt_id claimed.attempt_id raised out (work.others db))
        completed (some code) out moves =
            fail_ocr_job-Moves settings (work.others db) after.sound receipt_id claimed.attempt_id
              code false
        completed none (none, b) moves =
            fail_ocr_job-Moves settings (work.others db) after.sound receipt_id claimed.attempt_id
              ocr_failed false
        completed none (some _, b) moves = moves

        go :
            (reading : Reading)
            → DbMoves settings db (elim reading [
              | read parsed ↦
                  after_completion settings receipt_id claimed.attempt_id work.raised
                    (complete_ocr_result work.fold store_id receipt_id claimed.attempt_id none
                      parsed
                      (work.others db))
                    (work.others db)
              | unread code permanent ↦
                  fail_ocr_job settings receipt_id claimed.attempt_id code permanent
                    (work.others db)
            ])
        go (read parsed) = Moves-trans settings db.jobs _ _ after (
            completed work.raised _ (
              complete_ocr_result-Moves settings (work.others db) after.sound work.fold store_id
                receipt_id claimed.attempt_id none parsed))
        go (unread code permanent) = Moves-trans settings db.jobs _ _ after (
            fail_ocr_job-Moves settings (work.others db) after.sound receipt_id claimed.attempt_id
              code permanent)

    process_if_claimed-Moves :
        (store_id receipt_id : ℕ) (db : OcrDb) (out : Option ClaimedOcrJob × OcrDb)
        → DbMoves settings db out.1
        → DbMoves settings db (process_if_claimed settings work store_id receipt_id out)
    process_if_claimed-Moves store_id receipt_id db (none, b) moves = moves
    process_if_claimed-Moves store_id receipt_id db (some claimed, b) moves =
        Moves-trans settings db.jobs b.jobs _ moves
          (process_claimed-Moves store_id receipt_id claimed b moves.sound)

    process_enqueued-Moves :
        (draws : Draws) (receipt_id : ℕ) (db : OcrDb) (out : Option JobOutbox × OcrDb)
        → DbMoves settings db out.1
        → DbMoves settings db (process_enqueued settings work draws receipt_id out)
    process_enqueued-Moves draws receipt_id db (none, b) moves = moves
    process_enqueued-Moves draws receipt_id db (some job, b) moves =
        Moves-trans settings db.jobs b.jobs _ moves (
          process_if_claimed-Moves draws.store_id receipt_id b _ (
            claim_ocr_job-Moves settings b moves.sound draws.second_time draws.second_attempt_id
              receipt_id))

    process_unclaimed-Moves :
        (draws : Draws) (receipt_id : ℕ) (db : OcrDb)
        → IsSound settings db.jobs
        → DbMoves settings db (process_unclaimed settings work draws receipt_id db)
    process_unclaimed-Moves draws receipt_id db sound =
        go (not (should_enqueue_missing_ocr_job receipt_id db)) (receipt_of receipt_id db)
      where
        go :
            (b : Bool) (found : Option OcrReceipt)
            → DbMoves settings db (
                if b then db else elim found [
                  | none ↦ db
                  | some receipt ↦ process_enqueued settings work draws receipt_id (
                      enqueue_ocr_job draws.job_id draws.enqueue_time receipt.user_id receipt.id db)
                ])
        go true _ = Moves-refl settings db.jobs sound
        go false none = Moves-refl settings db.jobs sound
        go false (some receipt) = process_enqueued-Moves draws receipt_id db _ (
            enqueue_ocr_job-Moves settings draws.job_id draws.enqueue_time receipt.user_id
              receipt.id db sound)

    -- A worker's run, whatever it reads, keeps the outbox sound and its closed jobs as they are, if
    -- what other sessions commit while the image is read does so.
    pub process_receipt_with_db-Moves :
        (draws : Draws) (receipt_id : ℕ) (db : OcrDb)
        → IsSound settings db.jobs
        → Moves settings db.jobs (process_receipt_with_db settings work draws receipt_id db).jobs
    unfolding process_receipt_with_db
    process_receipt_with_db-Moves draws receipt_id db sound =
        go (claim_ocr_job settings draws.claim_time draws.attempt_id receipt_id db)
          (claim_ocr_job-Moves settings db sound draws.claim_time draws.attempt_id receipt_id)
      where
        go :
            (out : Option ClaimedOcrJob × OcrDb)
            → DbMoves settings db out.1
            → DbMoves settings db (after_first_claim settings work draws receipt_id out)
        go (none, b) moves =
            Moves-trans settings db.jobs b.jobs _ moves
              (process_unclaimed-Moves draws receipt_id b moves.sound)
        go (some claimed, b) moves =
            Moves-trans settings db.jobs b.jobs _ moves
              (process_claimed-Moves draws.store_id receipt_id claimed b moves.sound)
