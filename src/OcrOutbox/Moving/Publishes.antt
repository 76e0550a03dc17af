-- ===== src/OcrOutbox/Moving/Publishes.antt =====
-- How `_try_publish` and `reconcile_job_outbox` of ocr_outbox.py move the jobs on.
use prislapp.Prelude.{Bool, List, Option, [], false, if◌then◌else◌, none, some, true, ℕ, ◌∷◌}
use prislapp.OcrOutbox.Model.{JobOutbox, OcrDb, Settings}
use prislapp.OcrOutbox.Moving.{DbMoves, Moved, mark_published-Moves}
use prislapp.OcrOutbox.Publishing.{
  Delivery, after_try, mark_published, publish_all, reconcile_job_outbox, try_publish,
}
use prislapp.OcrOutbox.Steps.{IsSound, Moves, Moves-refl, Moves-trans}

module _ (settings : Settings) (deliver : JobOutbox → Delivery)
    (others_move : (job : JobOutbox) (b : OcrDb)
      → IsSound settings b.jobs
      → DbMoves settings b ((deliver job).others b)) where
  try_publish-Moves :
      (job : JobOutbox) (db : OcrDb)
      → IsSound settings db.jobs
      → Moved settings db (try_publish (deliver job) job db)
  unfolding try_publish
  try_publish-Moves job db sound = go (deliver job).delivered
    where
      after : DbMoves settings db ((deliver job).others db)
      after = others_move job db sound

      go :
          (b : Bool)
          → Moved settings {A = Option Bool} db (
              if b
              then mark_published job.id (deliver job).time ((deliver job).others db)
              else (some false, (deliver job).others db))
      go true = Moves-trans settings db.jobs _ _ after (
          mark_published-Moves settings job.id (deliver job).time ((deliver job).others db)
            after.sound)
      go false = after

  publish_all-Moves :
      (jobs : List JobOutbox) (db : OcrDb)
      → IsSound settings db.jobs
      → Moved settings db (publish_all deliver jobs db)
  unfolding publish_all
  publish_all-Moves [] db sound = Moves-refl settings db.jobs sound
  publish_all-Moves (job ∷ jobs) db sound =
      joined (try_publish (deliver job) job db)
        (publish_all deliver jobs (try_publish (deliver job) job db).1)
        (try_publish-Moves job db sound)
        (publish_all-Moves jobs (try_publish (deliver job) job db).1
          (try_publish-Moves job db sound).sound)
    where
      joined :
          (tried : Option Bool × OcrDb) (rest : Option ℕ × OcrDb)
          → DbMoves settings db tried.1
          → DbMoves settings tried.1 rest.1
          → DbMoves settings db (after_try tried rest).1
      joined (none, b) rest first later = first
      joined (some true, b) (none, c) first later =
          Moves-trans settings db.jobs b.jobs c.jobs first later
      joined (some true, b) (some n, c) first later =
          Moves-trans settings db.jobs b.jobs c.jobs first later
      joined (some false, b) rest first later =
          Moves-trans settings db.jobs b.jobs rest.1.jobs first later

  -- A reconciliation keeps the outbox sound and its closed jobs as they are, whatever deliveries fail
  -- and whatever age is asked for, if what other sessions commit during a delivery does so, and none
  -- commits between the refresh of a job and its update.
  pub reconcile_job_outbox-Moves :
      (min_age : Option ℕ) (time : ℕ) (db : OcrDb)
      → IsSound settings db.jobs
      → Moves settings db.jobs (reconcile_job_outbox settings deliver min_age time db).1.jobs
  reconcile_job_outbox-Moves min_age time db sound =
      unfold reconcile_job_outbox in publish_all-Moves _ db sound
