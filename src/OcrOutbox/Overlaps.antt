-- ===== src/OcrOutbox/Overlaps.antt =====
-- ocr_outbox.py: what holds of the jobs also when others commit between the refresh and the UPDATE of
-- `_try_publish`.
use mathlib.Core.Path.{subst}
use prislapp.Prelude.{
  ==→eq, All, Bool, Bool-cases, List, Option, [], any, arith, count, false, find?, find?-All,
  if-both, if◌then◌else◌, inl, inr, none, not, refl, some, true, ℕ, ◌&&◌, ◌==◌, ◌∙◌, ◌∷◌, ◌≡◌, ◌≢◌,
  ◌≤◌,
}
use prislapp.OcrOutbox.Jobs.{is_active_for, save_job}
use prislapp.OcrOutbox.Model.{JobOutbox, OcrDb, Settings}
use prislapp.OcrOutbox.Publishing.{commit_published, is_rival, published_job}
use prislapp.OcrOutbox.Steps.{IsSound, JobStep, JobsGrow, Moves}
use prislapp.Prelude.Lookup.{found-IsOnly}
use prislapp.Prelude.Table.{
  All-replace, Distinct, Distinct-replace, Grows, Grows-refl, Grows-replace, Grows-trans, IsOnly,
  count-replace-le, replace,
}

-- What may happen to a job in any case: its receipt and its owner stay, and attempts are only added.
pub record JobKept (x y : JobOutbox) : Type 0 where
  pub id : y.id ≡ x.id
  pub receipt : y.aggregate_id ≡ x.aggregate_id
  pub owner : y.user_id ≡ x.user_id
  pub counted : x.attempt_count ≤ y.attempt_count

abbrev pub JobsKept : List JobOutbox → List JobOutbox → Type 0
JobsKept = Grows (λ j. j.id) JobKept (λ y. Unit)

-- No job is lost, and the jobs are sound.
pub record Keeps (settings : Settings) (a b : List JobOutbox) : Type 0 where
  pub kept : JobsKept a b
  pub sound : IsSound settings b

JobKept-refl : (x : JobOutbox) → JobKept x x
JobKept-refl x = record { id = refl; receipt = refl; owner = refl; counted = omega arith }

JobKept-trans : (x y z : JobOutbox) → JobKept x y → JobKept y z → JobKept x z
JobKept-trans x y z p q = record {
  id = q.id ∙ p.id;
  receipt = q.receipt ∙ p.receipt;
  owner = q.owner ∙ p.owner;
  counted = omega (arith, p.counted, q.counted);
}

JobStep-JobKept : (x y : JobOutbox) → JobStep x y → JobKept x y
JobStep-JobKept x y p = record {
  id = p.id;
  receipt = p.receipt;
  owner = p.owner;
  counted = p.counted;
}

JobsGrow-JobsKept : (xs ys : List JobOutbox) → JobsGrow xs ys → JobsKept xs ys
JobsGrow-JobsKept [] ys g = g
JobsGrow-JobsKept (x ∷ xs) [] g = absurd g
JobsGrow-JobsKept (x ∷ xs) (y ∷ ys) (p, g) = (JobStep-JobKept x y p, JobsGrow-JobsKept xs ys g)

module _ (settings : Settings) where
  pub Keeps-refl : (a : List JobOutbox) → IsSound settings a → Keeps settings a a
  Keeps-refl a sound = record {
    kept = Grows-refl (λ j. j.id) JobKept (λ _. Unit) JobKept-refl a;
    sound = sound;
  }

  pub Keeps-trans :
      (a b c : List JobOutbox) → Keeps settings a b → Keeps settings b c → Keeps settings a c
  Keeps-trans a b c p q = record {
    kept =
        Grows-trans (λ j. j.id) JobKept (λ _. Unit) JobKept-trans (λ _ _ _ _. tt) a b c p.kept
          q.kept;
    sound = q.sound;
  }

  pub Moves-Keeps : (a b : List JobOutbox) → Moves settings a b → Keeps settings a b
  Moves-Keeps a b p = record { kept = JobsGrow-JobsKept a b p.grows; sound = p.sound }

-- Rows apart from one that an UPDATE puts in, none of which meets the condition.
count-replace_none :
    (p : JobOutbox → Bool) (row : JobOutbox) (xs : List JobOutbox)
    → All (λ y. row.id ≢ y.id) xs
    → any (λ other. p other && not (other.id == row.id)) xs ≡ false
    → count p (replace (λ j. j.id) row xs) ≡ 0
count-replace_none p row [] apart none_left = refl
count-replace_none p row (x ∷ xs) (ax, apart) none_left =
    let other : (x.id == row.id) ≡ false = ground (arith, ax) in
    let out : p x ≡ false = ground (arith, none_left, other) in
    rw (other, out) (count-replace_none p row xs apart (ground (arith, none_left)))

count-replace_one :
    (p : JobOutbox → Bool) (row : JobOutbox) (xs : List JobOutbox)
    → Distinct (λ j. j.id) xs
    → any (λ other. p other && not (other.id == row.id)) xs ≡ false
    → count p (replace (λ j. j.id) row xs) ≤ 1
count-replace_one p row [] d none_left = omega arith
count-replace_one p row (x ∷ xs) (fresh, d) none_left = elim (Bool-cases (x.id == row.id)) [
  | inl hit ↦
      let same : x.id ≡ row.id = ==→eq x.id row.id hit in
      let rest : count p (replace (λ j. j.id) row xs) ≡ 0 =
        count-replace_none p row xs
          (subst (λ (n : ℕ). All (λ (y : JobOutbox). n ≢ y.id) xs) same fresh)
          (ground (arith, none_left)) in
      rw (hit, rest) (if-both (λ (n : ℕ). n ≤ 1) (p row) (λ _. omega arith) (λ _. omega arith))
  | inr miss ↦
      let out : p x ≡ false = ground (arith, none_left, miss) in
      rw (miss, out) (count-replace_one p row xs d (ground (arith, none_left)))
]

module _ (settings : Settings) (id time : ℕ) (db : OcrDb) (sound : IsSound settings db.jobs) where
  updated-Keeps :
      (job : JobOutbox)
      → find? (λ j. j.id == id) db.jobs ≡ some job
      → any (is_rival job) db.jobs ≡ false
      → Keeps settings db.jobs (replace (λ j. j.id) (published_job time job) db.jobs)
  updated-Keeps job e free =
      let only = found-IsOnly (λ j. j.id) (λ j. j.id == id) db.jobs sound.job_ids e in
      record {
        kept =
            Grows-replace (λ j. j.id) JobKept (λ _. Unit) JobKept-refl job (published_job time job)
              db.jobs only refl
              (record { id = refl; receipt = refl; owner = refl; counted = omega arith });
        sound = record {
          job_ids = Distinct-replace (λ j. j.id) (published_job time job) db.jobs sound.job_ids;
          single_active = few only;
          bounded =
              All-replace (λ j. j.id) _ (published_job time job) db.jobs sound.bounded
                (find?-All (λ j. j.attempt_count ≤ settings.outbox_max_attempts) (λ j. j.id == id)
                  db.jobs sound.bounded e);
        };
      }
    where
      few :
          IsOnly (λ j. j.id) job db.jobs
          → (r : ℕ)
          → count (is_active_for r) (replace (λ j. j.id) (published_job time job) db.jobs) ≤ 1
      few only r = elim (Bool-cases (job.aggregate_id == r)) [
        | inl same ↦
            let here : job.aggregate_id ≡ r = ==→eq job.aggregate_id r same in
            count-replace_one (is_active_for r) (published_job time job) db.jobs sound.job_ids (
              subst
                (λ (n : ℕ).
                  any (λ other. is_active_for n other && not (other.id == job.id)) db.jobs ≡ false)
                here free)
        | inr elsewhere ↦
            let bound =
              count-replace-le (λ j. j.id) (is_active_for r) job (published_job time job) db.jobs
                only refl (λ h. ground (arith, h, elsewhere)) in
            omega (arith, bound, sound.single_active r)
      ]

  pub commit_published-Keeps : Keeps settings db.jobs (commit_published id time db).1.jobs
  unfolding commit_published
  commit_published-Keeps = go (find? (λ j. j.id == id) db.jobs) refl
    where
      go :
          (row : Option JobOutbox)
          → find? (λ j. j.id == id) db.jobs ≡ row
          → Keeps settings db.jobs
              (elim row as (λ _. Option Bool × OcrDb) [
                | none ↦ (none, db)
                | some job ↦
                    if any (is_rival job) db.jobs
                    then (none, db)
                    else (some true, save_job (published_job time job) db)
              ]).1.jobs
      go none _ = Keeps-refl settings db.jobs sound
      go (some job) e =
          if-both (λ (out : Option Bool × OcrDb). Keeps settings db.jobs out.1.jobs)
            (any (is_rival job) db.jobs) (λ _. Keeps-refl settings db.jobs sound)
            (λ free. updated-Keeps job e free)
