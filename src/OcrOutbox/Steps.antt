-- ===== src/OcrOutbox/Steps.antt =====
-- The outbox as a state machine: its invariant, and the steps that sessions and workers make.
use prislapp.Prelude.{
  All, Bool, List, ap, arith, count, false, find?, refl, some, true, ℕ, ◌∙◌, ◌≡◌, ◌≤◌,
}
use prislapp.OcrOutbox.Jobs.{is_active_for, is_terminal}
use prislapp.OcrOutbox.Model.{JobOutbox, Settings}
use prislapp.Prelude.Lookup.{found-IsOnly}
use prislapp.Prelude.Table.{
  All-replace, Distinct, Distinct-replace, Grows, Grows-refl, Grows-replace, Grows-trans,
  count-replace-le, replace,
}

-- No two jobs share an id, a receipt has one active job at most, and no job has been claimed more
-- often than the settings allow.
pub record IsSound (settings : Settings) (jobs : List JobOutbox) : Type 0 where
  pub job_ids : Distinct (λ j. j.id) jobs
  pub single_active : (receipt_id : ℕ) → count (is_active_for receipt_id) jobs ≤ 1
  pub bounded : All (λ job. job.attempt_count ≤ settings.outbox_max_attempts) jobs

-- What may happen to a job: its receipt and its owner stay, attempts are only added, and a job that
-- is done or given up does not change.
pub record JobStep (x y : JobOutbox) : Type 0 where
  pub id : y.id ≡ x.id
  pub receipt : y.aggregate_id ≡ x.aggregate_id
  pub owner : y.user_id ≡ x.user_id
  pub frozen : is_terminal x.status ≡ true → y ≡ x
  pub counted : x.attempt_count ≤ y.attempt_count

abbrev pub JobsGrow : List JobOutbox → List JobOutbox → Type 0
JobsGrow = Grows (λ j. j.id) JobStep (λ y. Unit)

pub JobStep-refl : (x : JobOutbox) → JobStep x x
JobStep-refl x = record {
  id = refl;
  receipt = refl;
  owner = refl;
  frozen = λ _. refl;
  counted = omega arith;
}

JobStep-trans : (x y z : JobOutbox) → JobStep x y → JobStep y z → JobStep x z
JobStep-trans x y z p q = record {
  id = q.id ∙ p.id;
  receipt = q.receipt ∙ p.receipt;
  owner = q.owner ∙ p.owner;
  frozen = λ t.
      let same : y ≡ x = p.frozen t in
      q.frozen (ap (λ (j : JobOutbox). is_terminal j.status) same ∙ t) ∙ same;
  counted = omega (arith, p.counted, q.counted);
}

-- The jobs moved on, and are sound.
pub record Moves (settings : Settings) (a b : List JobOutbox) : Type 0 where
  pub grows : JobsGrow a b
  pub sound : IsSound settings b

pub Moves-refl :
    (settings : Settings) (a : List JobOutbox) → IsSound settings a → Moves settings a a
Moves-refl settings a sound = record {
  grows = Grows-refl (λ j. j.id) JobStep (λ _. Unit) JobStep-refl a;
  sound = sound;
}

pub Moves-trans :
    (settings : Settings) (a b c : List JobOutbox)
    → Moves settings a b
    → Moves settings b c
    → Moves settings a c
Moves-trans settings a b c p q = record {
  grows =
      Grows-trans (λ j. j.id) JobStep (λ _. Unit) JobStep-trans (λ _ _ _ _. tt) a b c p.grows
        q.grows;
  sound = q.sound;
}

-- An update of one row that a query found, and that was not terminal.
pub Moves-save :
    (settings : Settings) (q : JobOutbox → Bool) (old row : JobOutbox) (jobs : List JobOutbox)
    → IsSound settings jobs
    → find? q jobs ≡ some old
    → is_terminal old.status ≡ false
    → row.id ≡ old.id
    → row.aggregate_id ≡ old.aggregate_id
    → row.user_id ≡ old.user_id
    → old.attempt_count ≤ row.attempt_count
    → row.attempt_count ≤ settings.outbox_max_attempts
    → Moves settings jobs (replace (λ j. j.id) row jobs)
Moves-save settings q old row jobs sound e live id receipt owner counted bounded =
    let only = found-IsOnly (λ j. j.id) q jobs sound.job_ids e in
    record {
      grows =
          Grows-replace (λ j. j.id) JobStep (λ _. Unit) JobStep-refl old row jobs only id
            (record {
              id = id;
              receipt = receipt;
              owner = owner;
              frozen = λ t. absurd (clash t);
              counted = counted;
            });
      sound = record {
        job_ids = Distinct-replace (λ j. j.id) row jobs sound.job_ids;
        single_active = λ r.
            let few =
              count-replace-le (λ j. j.id) (is_active_for r) old row jobs only id (was_active r) in
            omega (arith, few, sound.single_active r);
        bounded = All-replace (λ j. j.id) _ row jobs sound.bounded bounded;
      };
    }
  where
    clash : is_terminal old.status ≡ true → ⊥
    clash t = cc (t, live)

    was_active : (r : ℕ) → is_active_for r row ≡ true → is_active_for r old ≡ true
    was_active r h = ground (arith, live, receipt)
