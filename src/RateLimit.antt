-- ===== src/RateLimit.antt =====
-- backend/app/services/rate_limit.py: Redis in production, and else a window in the process.
pub mod Window
pub mod Bound
use prislapp.Prelude.{
  Bool, List, Option, [], count, false, filter, if◌then◌else◌, leb, length, ltb, none, not, some,
  true, ℕ, ◌&&◌, ◌++◌, ◌+◌, ◌==◌, ◌∷◌,
}

-- A key is a number, and the clock counts ticks. The last instants at which a key was let through; a
-- key without any has the empty list.
pub record RateLimiter : Type 0 where
  pub hits : ℕ → List ℕ
  pub redis_failed : Bool

-- A stamp that is later than the start of the window that ends now.
abbrev pub is_recent : ℕ → ℕ → ℕ → Bool
is_recent window instant stamp = ltb instant (stamp + window)

abbrev pub set_hits : ℕ → List ℕ → RateLimiter → RateLimiter
set_hits key stamps limiter = record limiter {
  hits = λ other. if other == key then stamps else limiter.hits other;
}

-- `_allow_memory`
abbrev pub allow_memory : ℕ → ℕ → ℕ → ℕ → RateLimiter → Bool × RateLimiter
allow_memory limit window key instant limiter =
    let recent = filter (is_recent window instant) (limiter.hits key) in
    if leb limit (length recent)
    then (false, set_hits key recent limiter)
    else (true, set_hits key (recent ++ instant ∷ []) limiter)

-- `allow`. `configured` is `_should_try_redis` without the failure, and `count` what Redis counts, or
-- `none` if it raises.
unfoldable pub allow : Bool → Option ℕ → ℕ → ℕ → ℕ → ℕ → RateLimiter → Bool × RateLimiter
allow configured count limit window key instant limiter =
    if configured && not limiter.redis_failed
    then answered count
    else allow_memory limit window key instant limiter
  where
    answered : Option ℕ → Bool × RateLimiter
    answered (some n) = (leb n limit, limiter)
    answered none = allow_memory limit window key instant (record limiter { redis_failed = true })
