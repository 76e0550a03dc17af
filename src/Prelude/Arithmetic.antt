-- ===== src/Prelude/Arithmetic.antt =====
-- Arithmetic of Python's `Decimal` in the default context: results have at most 28 significant
-- digits, rounded half to even. A result whose exponent Python keeps positive stands here with its
-- zeros written out, as the same number.
use Prim.Native.Nat.{max}
use mathlib.Core.Path.{subst}
use prislapp.Prelude.{
  Bool, Option, arith, false, if◌then◌else◌, leb, ltb, none, not, refl, some, suc, true, zero, ℕ,
  ◌%◌, ◌&&◌, ◌*◌, ◌+◌, ◌-◌, ◌/◌, ◌==◌, ◌^◌, ◌||◌, ◌≡◌,
}
use prislapp.Prelude.Decimal.{Decimal, not_positive, precision}

-- Exclusive or, the sign of a product.
abbrev differ : Bool → Bool → Bool
differ true b = not b
differ false b = b

-- `a <= b` of two numbers with a sign.
abbrev pub signed_le : Bool → ℕ → Bool → ℕ → Bool
signed_le false m false n = leb m n
signed_le false m true n = m == 0 && n == 0
signed_le true m false n = true
signed_le true m true n = leb n m

-- The number of decimal digits; the number itself is enough fuel.
digits_on : ℕ → ℕ → ℕ
digits_on zero n = 1
digits_on (suc fuel) n = elim (ltb n 10) [ true ↦ 1 | false ↦ suc (digits_on fuel (n / 10)) ]

unfoldable pub digit_count : ℕ → ℕ
unfolding digits_on
digit_count n = digits_on n n

-- Division, a half rounded to the even neighbour.
unfoldable pub half_even : ℕ → ℕ → ℕ
half_even n d =
    let q = n / d in
    let r = n % d in
    if ltb (2 * r) d
    then q
    else (if ltb d (2 * r) then suc q else (if (q % 2) == 0 then q else suc q))

-- Rounding to the precision, dropping `extra` digits.
abbrev dropped : ℕ → Decimal → Decimal
dropped extra d =
    let r = half_even d.digits (10 ^ extra) in
    if leb extra d.places
    then record d { digits = r; places = d.places - extra }
    else record d { digits = r * 10 ^ (extra - d.places); places = 0 }

unfoldable pub to_context : Decimal → Decimal
unfolding digit_count half_even
to_context d =
    let size = digit_count d.digits in
    if leb size precision then d else dropped (size - precision) d

-- `a / b` for a `b` that is not zero. Enough digits of the quotient are computed to round it, and a
-- last digit that could pass for a tie is moved on when there is a remainder.
sticky : ℕ → ℕ → ℕ
sticky q zero = q
sticky q (suc _) = if (q % 5) == 0 then suc q else q

unfoldable pub divide : Decimal → Decimal → Decimal
unfolding to_context sticky
divide a b =
    let shift = (digit_count b.digits + precision + 1) - digit_count a.digits in
    let n = a.digits * 10 ^ (shift + b.places) in
    to_context (record {
      negative = differ a.negative b.negative;
      digits = sticky (n / b.digits) (n % b.digits);
      places = a.places + shift;
    })

-- The sum of two numbers with a sign.
signed_sum : ℕ → Bool → ℕ → Bool → ℕ → Decimal
signed_sum places s m t n =
    if differ s t
    then (if ltb m n
        then record { negative = t; digits = n - m; places = places }
        else record { negative = s && ltb n m; digits = m - n; places = places })
    else record { negative = s; digits = m + n; places = places }

aligned : ℕ → Decimal → ℕ
aligned to d = d.digits * 10 ^ (to - d.places)

-- `a + b`
unfoldable pub add : Decimal → Decimal → Decimal
unfolding to_context signed_sum aligned
add a b =
    let to = max a.places b.places in
    to_context (signed_sum to a.negative (aligned to a) b.negative (aligned to b))

-- `a - b`
abbrev pub subtract : Decimal → Decimal → Decimal
subtract a b = add a (record b { negative = not b.negative })

-- `a * b`
unfoldable pub multiply : Decimal → Decimal → Decimal
unfolding to_context
multiply a b = to_context (record {
  negative = differ a.negative b.negative;
  digits = a.digits * b.digits;
  places = a.places + b.places;
})

-- `a <= b`
unfoldable pub decimal_le : Decimal → Decimal → Bool
decimal_le a b =
    signed_le a.negative (a.digits * 10 ^ b.places) b.negative (b.digits * 10 ^ a.places)

-- `value.quantize(10^-places)`, in the context's rounding.
unfoldable pub quantize_even : ℕ → Decimal → Option Decimal
unfolding half_even
quantize_even to d =
    let n =
      if leb d.places to
      then d.digits * 10 ^ (to - d.places)
      else half_even d.digits (10 ^ (d.places - to)) in
    if ltb n (10 ^ precision) then some (record d { digits = n; places = to }) else none

-- A product with zero is zero.
pub multiply_zero : (a b : Decimal) → b.digits ≡ 0 → not_positive (multiply a b) ≡ true
unfolding multiply to_context digit_count
multiply_zero a b z =
    let nothing : 0 ≡ a.digits * b.digits = rw z (omega arith) in
    subst
      (λ (k : ℕ).
        not_positive (
          to_context (record {
            negative = differ a.negative b.negative;
            digits = k;
            places = a.places + b.places;
          }))
        ≡ true)
      nothing (or_true (differ a.negative b.negative))
  where
    or_true : (s : Bool) → (s || true) ≡ true
    or_true true = refl
    or_true false = refl
