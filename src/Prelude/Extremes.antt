-- ===== src/Prelude/Extremes.antt =====
-- Python's `min` and `max` by an order: the first of the elements that no other one beats.
use mathlib.Core.Path.{subst}
use prislapp.Prelude.{
  All, Bool, Bool-cases, In, List, [], arith, false, if◌then◌else◌, inl, inr, leb, refl, true, ◌∷◌,
  ◌≡◌,
}

module _ {A : Type 0} (le : A → A → Bool) where
  abbrev pub least : A → List A → A
  least best [] = best
  least best (x ∷ xs) = if le best x then least best xs else least x xs

  -- The order is total and transitive.
  abbrev pub IsOrder : Type 0
  IsOrder =
      ((a b : A) → le a b ≡ false → le b a ≡ true)
      × ((a b c : A) → le a b ≡ true → le b c ≡ true → le a c ≡ true)

  pub le_refl : IsOrder → (a : A) → le a a ≡ true
  le_refl (total, _) a = elim (Bool-cases (le a a)) [ inl t ↦ t | inr f ↦ total a a f ]

  least-left : (x y : A) (ys : List A) → le x y ≡ true → least x ys ≡ least x (y ∷ ys)
  least-left x y ys t = rw t refl

  least-right : (x y : A) (ys : List A) → le x y ≡ false → least y ys ≡ least x (y ∷ ys)
  least-right x y ys f = rw f refl

  pub least-All : IsOrder → (x : A) (xs : List A) → All (λ y. le (least x xs) y ≡ true) (x ∷ xs)
  least-All order x [] = (le_refl order x, tt)
  least-All order x (y ∷ ys) = elim (Bool-cases (le x y)) [
    | inl t ↦
        let (low, rest) = least-All order x ys in
        subst (λ m. All (λ z. le m z ≡ true) (x ∷ y ∷ ys)) (least-left x y ys t)
          (low, (order.1 (least x ys) x y low t, rest))
    | inr f ↦
        let (low, rest) = least-All order y ys in
        subst (λ m. All (λ z. le m z ≡ true) (x ∷ y ∷ ys)) (least-right x y ys f)
          (order.1 (least y ys) y x low (order.0 x y f), (low, rest))
  ]

  pub In-least : (x : A) (xs : List A) → In (least x xs) (x ∷ xs)
  In-least x [] = inl refl
  In-least x (y ∷ ys) = elim (Bool-cases (le x y)) [
    | inl t ↦ subst (λ m. In m (x ∷ y ∷ ys)) (least-left x y ys t) (kept (In-least x ys))
    | inr f ↦ subst (λ m. In m (x ∷ y ∷ ys)) (least-right x y ys f) (inr (In-least y ys))
  ]
    where
      kept : In (least x ys) (x ∷ ys) → In (least x ys) (x ∷ y ∷ ys)
      kept (inl e) = inl e
      kept (inr i) = inr (inr i)

-- The order the other way round.
abbrev pub reversed : {A : Type 0} → (A → A → Bool) → A → A → Bool
reversed le a b = le b a

abbrev pub greatest : {A : Type 0} → (A → A → Bool) → A → List A → A
greatest le = least (reversed le)

pub reversed-IsOrder : {A : Type 0} (le : A → A → Bool) → IsOrder le → IsOrder (reversed le)
reversed-IsOrder le (total, trans) =
    ((λ a. λ b. λ h. total b a h), (λ a. λ b. λ c. λ h. λ k. trans c b a k h))

pub leb-IsOrder : IsOrder leb
leb-IsOrder = ((λ a. λ b. λ h. ground (arith, h)), (λ a. λ b. λ c. λ h. λ k. ground (arith, h, k)))
