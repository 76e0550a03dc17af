-- ===== src/Prelude/Decimal.antt =====
-- Python's finite `Decimal` with an exponent that is not positive: (-1)^negative * digits / 10^places.
-- Requests and numeric columns produce no other values.
use native.Mathlib.Nat.{pow-suc}
use prislapp.Prelude.{
  Bool, Option, arith, false, if◌then◌else◌, leb, ltb, none, some, suc, true, zero, ℕ, ◌*◌, ◌+◌,
  ◌-◌, ◌/◌, ◌<◌, ◌==◌, ◌^◌, ◌||◌, ◌≡◌,
}

pub record Decimal : Type 0 where
  pub negative : Bool
  pub digits : ℕ
  pub places : ℕ

abbrev pub whole : ℕ → Decimal
whole n = record { negative = false; digits = n; places = 0 }

-- `value <= 0`
abbrev pub not_positive : Decimal → Bool
not_positive d = d.negative || d.digits == 0

-- The precision of Python's default context.
abbrev pub precision : ℕ
precision = 28

-- Division by a power of ten, a half rounded away from zero.
abbrev pub half_up : ℕ → ℕ → ℕ
half_up n d = (2 * n + d) / (2 * d)

-- `value.quantize(10^-places, ROUND_HALF_UP)`. `none` is `InvalidOperation`: the result has more
-- digits than the context allows.
unfoldable pub quantize : ℕ → Decimal → Option Decimal
quantize to d =
    let n =
      if leb d.places to
      then d.digits * 10 ^ (to - d.places)
      else half_up d.digits (10 ^ (d.places - to)) in
    if ltb n (10 ^ precision) then some (record d { digits = n; places = to }) else none

pub pow10_pos : (k : ℕ) → 0 < 10 ^ k
pow10_pos zero = omega arith
pow10_pos (suc k) = rw pow-suc (omega (arith, pow10_pos k))

mul_pos : (a b : ℕ) → (a == 0) ≡ false → 0 < b → ((a * b) == 0) ≡ false
mul_pos a b h k = grind arith

-- Padding a positive decimal to more places keeps its value and its sign.
pub quantize-padded :
    (to : ℕ) (d : Decimal) {q : Decimal}
    → leb d.places to ≡ true
    → not_positive d ≡ false
    → quantize to d ≡ some q
    → (not_positive q ≡ false) × (q.places ≡ to) × (q.digits ≡ d.digits * 10 ^ (to - d.places))
unfolding quantize
quantize-padded to d {q} fits pos e =
    ground (arith, mul_pos d.digits (10 ^ (to - d.places)), pow10_pos (to - d.places))
