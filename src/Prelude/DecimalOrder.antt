-- ===== src/Prelude/DecimalOrder.antt =====
-- The order of Python's `Decimal` is total and transitive.
use native.Mathlib.Nat.{mul-le-mul_right, le_of_mul-le-mul_right, mul_right_comm}
use prislapp.Prelude.{
  Bool, Bool-cases, arith, false, inl, inr, leb→le, le→leb, refl, suc, true, zero, ℕ, ◌&&◌, ◌*◌,
  ◌<◌, ◌==◌, ◌^◌, ◌≡◌, ◌≤◌,
}
use prislapp.Prelude.Arithmetic.{decimal_le, signed_le}
use prislapp.Prelude.Decimal.{Decimal, pow10_pos}

-- Fractions compared by cross multiplication.
cross_trans : (a b c x y z : ℕ) → 0 < y → a * y ≤ b * x → b * z ≤ c * y → a * z ≤ c * x
cross_trans a b c x y z pos h k =
    let one : a * y * z ≤ b * x * z = mul-le-mul_right z h in
    let two : b * z * x ≤ c * y * x = mul-le-mul_right x k in
    let three : a * z * y ≤ c * x * y =
      rw (mul_right_comm a z y, mul_right_comm c x y)
        (omega (arith, one, two, mul_right_comm b x z)) in
    le_of_mul-le-mul_right three pos

zero_mul_pos : (a y : ℕ) → 0 < y → a * y ≡ 0 → a ≡ 0
zero_mul_pos zero y pos h = refl
zero_mul_pos (suc a) y pos h = omega (arith, pos, h)

zero_times : (a z : ℕ) → a ≡ 0 → a * z ≡ 0
zero_times a z h = rw h (omega arith)

both_zero : (m n : ℕ) → (m == 0 && n == 0) ≡ true → (m ≡ 0) × (n ≡ 0)
both_zero m n h = (ground (arith, h), ground (arith, h))

zero_both : (m n : ℕ) → m ≡ 0 → n ≡ 0 → (m == 0 && n == 0) ≡ true
zero_both m n h k = ground (arith, h, k)

signed_trans :
    (s t u : Bool) (a b c x y z : ℕ)
    → 0 < x
    → 0 < y
    → 0 < z
    → signed_le s (a * y) t (b * x) ≡ true
    → signed_le t (b * z) u (c * y) ≡ true
    → signed_le s (a * z) u (c * x) ≡ true
signed_trans false false false a b c x y z px py pz h k =
    le→leb _ _ (cross_trans a b c x y z py (leb→le _ _ h) (leb→le _ _ k))
signed_trans false false true a b c x y z px py pz h k =
    let (zb, zc) = both_zero (b * z) (c * y) k in
    let b_zero = zero_mul_pos b z pz zb in
    let a_zero = zero_mul_pos a y py (omega (arith, leb→le _ _ h, zero_times b x b_zero)) in
    zero_both _ _ (zero_times a z a_zero) (zero_times c x (zero_mul_pos c y py zc))
signed_trans false true false a b c x y z px py pz h k =
    let (za, zb) = both_zero (a * y) (b * x) h in
    le→leb _ _ (omega (arith, zero_times a z (zero_mul_pos a y py za)))
signed_trans false true true a b c x y z px py pz h k =
    let (za, zb) = both_zero (a * y) (b * x) h in
    let b_zero = zero_mul_pos b x px zb in
    let c_zero = zero_mul_pos c y py (omega (arith, leb→le _ _ k, zero_times b z b_zero)) in
    zero_both _ _ (zero_times a z (zero_mul_pos a y py za)) (zero_times c x c_zero)
signed_trans true false false a b c x y z px py pz h k = refl
signed_trans true false true a b c x y z px py pz h k =
    let (zb, zc) = both_zero (b * z) (c * y) k in
    le→leb _ _ (omega (arith, zero_times c x (zero_mul_pos c y py zc)))
signed_trans true true false a b c x y z px py pz h k = refl
signed_trans true true true a b c x y z px py pz h k =
    le→leb _ _ (cross_trans c b a z y x py (leb→le _ _ k) (leb→le _ _ h))

pub decimal_le_trans :
    (a b c : Decimal) → decimal_le a b ≡ true → decimal_le b c ≡ true → decimal_le a c ≡ true
unfolding decimal_le
decimal_le_trans a b c =
    signed_trans a.negative b.negative c.negative a.digits b.digits c.digits (10 ^ a.places)
      (10 ^ b.places) (10 ^ c.places) (pow10_pos a.places) (pow10_pos b.places) (pow10_pos c.places)

signed_total : (s t : Bool) (m n : ℕ) → signed_le s m t n ≡ false → signed_le t n s m ≡ true
signed_total false false m n h = ground (arith, h)
signed_total false true m n h = refl
signed_total true false m n h = cc h
signed_total true true m n h = ground (arith, h)

pub decimal_le_total : (a b : Decimal) → decimal_le a b ≡ false → decimal_le b a ≡ true
unfolding decimal_le
decimal_le_total a b =
    signed_total a.negative b.negative (a.digits * 10 ^ b.places) (b.digits * 10 ^ a.places)

pub decimal_le_refl : (a : Decimal) → decimal_le a a ≡ true
decimal_le_refl a = elim (Bool-cases (decimal_le a a)) [
  | inl t ↦ t
  | inr f ↦ decimal_le_total a a f
]
