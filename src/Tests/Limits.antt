-- ===== src/Tests/Limits.antt =====
-- backend/app/services/rate_limit.py with two calls in ten ticks.
use prislapp.Prelude.{List, [], arith, count, map, refl, ◌∷◌, ◌≡◌, ◌≤◌}
use prislapp.RateLimit.Bound.{empty_limiter, let_through-limit}
use prislapp.RateLimit.Window.{Call, IsTimed, is_within, let_through}

abbrev busy : List Call
busy =
    record { key = 1; time = 0 }
    ∷ record { key = 1; time = 4 }
    ∷ record { key = 1; time = 8 }
    ∷ record { key = 2; time = 9 }
    ∷ record { key = 1; time = 10 }
    ∷ []

busy-IsTimed : IsTimed 0 busy
busy-IsTimed = (omega arith, (omega arith, (omega arith, (omega arith, (omega arith, tt)))))

let_through-limit_example : count (is_within 10 1 9) (let_through 2 10 busy empty_limiter) ≤ 2
let_through-limit_example = let_through-limit 2 10 1 busy busy-IsTimed 9

-- The third call of key 1 is refused; at 10 the first one is out of the window.
times : map (λ c. c.time) (let_through 2 10 busy empty_limiter) ≡ 0 ∷ 4 ∷ 9 ∷ 10 ∷ []
times = refl
