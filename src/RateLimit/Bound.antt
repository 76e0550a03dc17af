-- ===== src/RateLimit/Bound.antt =====
-- The calls that `_allow_memory` of rate_limit.py lets through, in any window.
use mathlib.Core.Path.{subst}
use prislapp.Prelude.{
  ==→eq, Bool, Bool-cases, List, [], arith, count, count-append, false, filter, if◌then◌else◌, inl,
  inr, leb, length, refl, sym, true, ℕ, ◌++◌, ◌==◌, ◌∷◌, ◌≡◌, ◌≤◌,
}
use prislapp.RateLimit.{RateLimiter, is_recent, set_hits}
use prislapp.RateLimit.Window.{
  Agrees, Agrees-allowed, Agrees-foreign, Agrees-later, Agrees-refused, Call, IsTimed, is_within,
  let_through,
}

module _ (limit window key : ℕ) where
  refused_step :
      (log : List Call) (limiter : RateLimiter) (instant : ℕ) (call : Call)
      → instant ≤ call.time
      → Agrees limit window key log (limiter.hits key) instant
      → Agrees limit window key log
          ((set_hits call.key
              (filter (is_recent window call.time) (limiter.hits call.key))
              limiter).hits
            key)
          call.time
  refused_step log limiter instant call le agrees = elim (Bool-cases (key == call.key)) [
    | inl e ↦ rw e (
        subst
          (λ k.
            Agrees limit window key log (filter (is_recent window call.time) (limiter.hits k))
              call.time)
          (==→eq key call.key e)
          (Agrees-refused limit window key log (limiter.hits key) instant call.time le agrees))
    | inr e ↦
        rw e (Agrees-later limit window key log (limiter.hits key) instant call.time le agrees)
  ]

  allowed_step :
      (log : List Call) (limiter : RateLimiter) (instant : ℕ) (call : Call)
      → instant ≤ call.time
      → leb limit (length (filter (is_recent window call.time) (limiter.hits call.key))) ≡ false
      → Agrees limit window key log (limiter.hits key) instant
      → Agrees limit window key
          (log ++ call ∷ [])
          ((set_hits call.key
              (filter (is_recent window call.time) (limiter.hits call.key) ++ call.time ∷ [])
              limiter).hits
            key)
          call.time
  allowed_step log limiter instant call le room agrees = elim (Bool-cases (key == call.key)) [
    | inl e ↦
        let same : key ≡ call.key = ==→eq key call.key e in
        rw e (
          subst
            (λ k.
              Agrees limit window key (log ++ call ∷ [])
                (filter (is_recent window call.time) (limiter.hits k) ++ call.time ∷ []) call.time)
            same
            (Agrees-allowed limit window key log (limiter.hits key) instant call le (sym same)
              (subst
                (λ k.
                  leb limit (length (filter (is_recent window call.time) (limiter.hits k))) ≡ false)
                (sym same) room)
              agrees))
    | inr e ↦ rw e (
        Agrees-foreign limit window key log (limiter.hits key) call.time call (flipped e)
          (Agrees-later limit window key log (limiter.hits key) instant call.time le agrees))
  ]
    where
      flipped : (key == call.key) ≡ false → (call.key == key) ≡ false
      flipped e = ground arith

  count-moved :
      (p : Call → Bool) (log : List Call) (call : Call) (rest : List Call)
      → count p ((log ++ call ∷ []) ++ rest) ≡ count p (log ++ call ∷ rest)
  count-moved p [] call rest = refl
  count-moved p (x ∷ log) call rest = ground (arith, count-moved p log call rest)

  let_through-bounded :
      (calls log : List Call) (limiter : RateLimiter) (instant : ℕ)
      → IsTimed instant calls
      → Agrees limit window key log (limiter.hits key) instant
      → (time : ℕ)
      → count (is_within window key time) (log ++ let_through limit window calls limiter) ≤ limit
  let_through-bounded [] log limiter instant timed agrees time =
      let old = agrees.bounded time in
      rw (count-append (is_within window key time) log []) (omega (arith, old))
  let_through-bounded (call ∷ calls) log limiter instant (le, timed) agrees time =
      go (leb limit (length recent)) refl
        (λ log' limiter' fine. let_through-bounded calls log' limiter' call.time timed fine time)
    where
      recent : List ℕ
      recent = filter (is_recent window call.time) (limiter.hits call.key)

      p : Call → Bool
      p = is_within window key time

      go :
          (full : Bool)
          → leb limit (length recent) ≡ full
          → ((log' : List Call) (limiter' : RateLimiter)
              → Agrees limit window key log' (limiter'.hits key) call.time
              → count p (log' ++ let_through limit window calls limiter') ≤ limit)
          → count p (
              log
              ++ (let (allowed, limiter') =
                    if◌then◌else◌ {A = Bool × RateLimiter} full
                      (false, set_hits call.key recent limiter)
                      (true, set_hits call.key (recent ++ call.time ∷ []) limiter) in
                  let rest = let_through limit window calls limiter' in
                  if allowed then call ∷ rest else rest))
            ≤ limit
      go true e later = later log _ (refused_step log limiter instant call le agrees)
      go false e later =
          let kept_later =
            later (log ++ call ∷ []) (set_hits call.key (recent ++ call.time ∷ []) limiter)
              (allowed_step log limiter instant call le e agrees) in
          rw
            (count-moved p log call (
              let_through limit window calls
                (set_hits call.key (recent ++ call.time ∷ []) limiter)))
            at kept_later

abbrev pub empty_limiter : RateLimiter
empty_limiter = record { hits = λ key. []; redis_failed = false }

-- Whatever calls come, of whatever keys, if the clock does not go back: in every window of the given
-- length at most `limit` calls of a key are let through.
pub let_through-limit :
    (limit window key : ℕ) (calls : List Call)
    → IsTimed 0 calls
    → (time : ℕ)
    → count (is_within window key time) (let_through limit window calls empty_limiter) ≤ limit
let_through-limit limit window key calls timed time =
    let_through-bounded limit window key calls [] empty_limiter 0 timed
      (record { bounded = λ t. omega arith; kept = λ later after. omega arith }) time
