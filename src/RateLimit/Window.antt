-- ===== src/RateLimit/Window.antt =====
-- The window of `_allow_memory` in rate_limit.py over any sequence of calls.
use prislapp.Prelude.{
  Bool, Bool-cases, List, [], arith, count, count-append, false, filter, if◌then◌else◌, inl, inr,
  leb, length, ltb, refl, true, ℕ, ◌&&◌, ◌++◌, ◌+◌, ◌==◌, ◌∷◌, ◌≡◌, ◌≤◌,
}
use prislapp.RateLimit.{RateLimiter, allow_memory, is_recent}

pub record Call : Type 0 where
  pub key : ℕ
  pub time : ℕ

-- The calls that are let through, in order.
abbrev pub let_through : ℕ → ℕ → List Call → RateLimiter → List Call
let_through limit window [] limiter = []
let_through limit window (call ∷ calls) limiter =
    let (allowed, limiter') = allow_memory limit window call.key call.time limiter in
    let rest = let_through limit window calls limiter' in if allowed then call ∷ rest else rest

-- The clock does not go back.
abbrev pub IsTimed : ℕ → List Call → Type 0
IsTimed instant [] = Unit
IsTimed instant (call ∷ calls) = (instant ≤ call.time) × IsTimed call.time calls

-- A call of the key that is in the window that ends at `time`.
abbrev pub is_within : ℕ → ℕ → ℕ → Call → Bool
is_within window key time call =
    call.key == key && leb call.time time && ltb time (call.time + window)

abbrev is_open : ℕ → ℕ → ℕ → Call → Bool
is_open window key time call = call.key == key && ltb time (call.time + window)

count-le :
    (p q : Call → Bool) (xs : List Call)
    → ((x : Call) → p x ≡ true → q x ≡ true)
    → count p xs ≤ count q xs
count-le p q [] imp = omega arith
count-le p q (x ∷ xs) imp = ground (arith, imp x, count-le p q xs imp)

length-filter-later :
    (window : ℕ) (instant later : ℕ) (stamps : List ℕ)
    → instant ≤ later
    → length (filter (is_recent window later) stamps)
      ≤ length (filter (is_recent window instant) stamps)
length-filter-later window instant later [] le = omega arith
length-filter-later window instant later (s ∷ stamps) le =
    ground (arith, length-filter-later window instant later stamps le)

length-filter-twice :
    (window : ℕ) (instant later : ℕ) (stamps : List ℕ)
    → instant ≤ later
    → length (filter (is_recent window later) (filter (is_recent window instant) stamps))
      ≡ length (filter (is_recent window later) stamps)
length-filter-twice window instant later [] le = refl
length-filter-twice window instant later (s ∷ stamps) le =
    ground (arith, length-filter-twice window instant later stamps le)

length-filter-added :
    (window later instant : ℕ) (stamps : List ℕ)
    → length (filter (is_recent window later) (stamps ++ instant ∷ []))
      ≡ length (filter (is_recent window later) stamps)
        + (if is_recent window later instant then 1 else 0)
length-filter-added window later instant [] = ground arith
length-filter-added window later instant (s ∷ stamps) =
    ground (arith, length-filter-added window later instant stamps)

module _ (limit window key : ℕ) where
  -- What the log of the calls that were let through and the stamps of the key have in common.
  pub record Agrees (log : List Call) (stamps : List ℕ) (instant : ℕ) : Type 0 where
    pub bounded : (time : ℕ) → count (is_within window key time) log ≤ limit
    pub kept :
        (later : ℕ)
        → instant ≤ later
        → count (is_open window key later) log ≤ length (filter (is_recent window later) stamps)

  pub Agrees-refused :
      (log : List Call) (stamps : List ℕ) (instant time : ℕ)
      → instant ≤ time
      → Agrees log stamps instant
      → Agrees log (filter (is_recent window time) stamps) time
  Agrees-refused log stamps instant time le agrees = record {
    bounded = agrees.bounded;
    kept = λ later after.
        let same = length-filter-twice window time later stamps after in
        let before = agrees.kept later (omega (arith, le, after)) in omega (arith, same, before);
  }

  pub Agrees-allowed :
      (log : List Call) (stamps : List ℕ) (instant : ℕ) (call : Call)
      → instant ≤ call.time
      → call.key ≡ key
      → leb limit (length (filter (is_recent window call.time) stamps)) ≡ false
      → Agrees log stamps instant
      → Agrees
          (log ++ call ∷ [])
          (filter (is_recent window call.time) stamps ++ call.time ∷ [])
          call.time
  Agrees-allowed log stamps instant call le mine room agrees = record {
    bounded = λ time. rw (count-append (is_within window key time) log (call ∷ [])) (within time);
    kept = λ later after.
        let same = length-filter-twice window call.time later stamps after in
        let before = agrees.kept later (omega (arith, le, after)) in
        rw
          (
            count-append (is_open window key later) log (call ∷ []),
            length-filter-added window later call.time (filter (is_recent window call.time) stamps),
          )
          (grown later same before);
  }
    where
      within :
          (time : ℕ)
          → count (is_within window key time) log + count (is_within window key time) (call ∷ [])
            ≤ limit
      within time = elim (Bool-cases (is_within window key time call)) [
        | inl t ↦
            let after : call.time ≤ time = ground arith in
            let few =
              count-le (is_within window key time) (is_open window key time) log
                (λ x h. ground arith) in
            let before = agrees.kept time (omega (arith, le, after)) in
            let shrunk = length-filter-later window call.time time stamps after in
            rw t (ground (arith, few, before, shrunk))
        | inr t ↦ let old = agrees.bounded time in rw t (omega (arith, old))
      ]

      grown :
          (later : ℕ)
          → length (filter (is_recent window later) (filter (is_recent window call.time) stamps))
            ≡ length (filter (is_recent window later) stamps)
          → count (is_open window key later) log ≤ length (filter (is_recent window later) stamps)
          → count (is_open window key later) log + count (is_open window key later) (call ∷ [])
            ≤ length (filter (is_recent window later) (filter (is_recent window call.time) stamps))
              + (if is_recent window later call.time then 1 else 0)
      grown later same before = ground (arith, mine)

  -- Time passes without a call of the key.
  pub Agrees-later :
      (log : List Call) (stamps : List ℕ) (instant time : ℕ)
      → instant ≤ time
      → Agrees log stamps instant
      → Agrees log stamps time
  Agrees-later log stamps instant time le agrees = record {
    bounded = agrees.bounded;
    kept = λ later after. agrees.kept later (omega (arith, le, after));
  }

  pub Agrees-foreign :
      (log : List Call) (stamps : List ℕ) (instant : ℕ) (call : Call)
      → (call.key == key) ≡ false
      → Agrees log stamps instant
      → Agrees (log ++ call ∷ []) stamps instant
  Agrees-foreign log stamps instant call other agrees = record {
    bounded = λ time.
        rw (count-append (is_within window key time) log (call ∷ []), other)
          (unchanged (agrees.bounded time));
    kept = λ later after.
        rw (count-append (is_open window key later) log (call ∷ []), other)
          (unchanged (agrees.kept later after));
  }
    where
      unchanged : {a b : ℕ} → a ≤ b → a + 0 ≤ b
      unchanged le = omega (arith, le)
