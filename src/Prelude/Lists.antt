-- ===== src/Prelude/Lists.antt =====
-- Lists measured and filtered over the native numbers and `Bool`, and predicates on all elements.
use Prim.Native.Nat.{ℕ, zero, suc, ◌+◌, ◌-◌, ◌≤◌}
use mathlib.Core.Path.{◌≡◌, refl, ap, subst}
use mathlib.Core.Logic.{inl, inr}
use mathlib.Core.Bool.{Bool, true, false, ◌&&◌, ◌||◌}
use mathlib.Core.Option.{Option, none, some}
use mathlib.Core.List.{List, [], ◌∷◌, ◌++◌, map}
use native.Mathlib.Omega.{arith}
use prislapp.Prelude.Tests.{if◌then◌else◌, Bool-cases, leb}

module _ {ℓ} {A : Type ℓ} where
  abbrev pub length : List A → ℕ
  length [] = 0
  length (x ∷ xs) = suc (length xs)

  abbrev pub take : ℕ → List A → List A
  take zero xs = []
  take (suc n) [] = []
  take (suc n) (x ∷ xs) = x ∷ take n xs

  abbrev pub drop : ℕ → List A → List A
  drop zero xs = xs
  drop (suc n) [] = []
  drop (suc n) (x ∷ xs) = drop n xs

  -- A list comprehension with a condition.
  abbrev pub filter : (A → Bool) → List A → List A
  filter p [] = []
  filter p (x ∷ xs) = if p x then x ∷ filter p xs else filter p xs

  -- The first element that meets a condition.
  abbrev pub find? : (A → Bool) → List A → Option A
  find? p [] = none
  find? p (x ∷ xs) = if p x then some x else find? p xs

  -- How many elements meet a condition.
  abbrev pub count : (A → Bool) → List A → ℕ
  count p [] = 0
  count p (x ∷ xs) = if p x then suc (count p xs) else count p xs

  abbrev pub any : (A → Bool) → List A → Bool
  any p [] = false
  any p (x ∷ xs) = if p x then true else any p xs

  pub length-append : (xs ys : List A) → length (xs ++ ys) ≡ length xs + length ys
  length-append [] ys = omega arith
  length-append (x ∷ xs) ys = omega (arith, length-append xs ys)

  pub count-append : (p : A → Bool) (xs ys : List A) → count p (xs ++ ys) ≡ count p xs + count p ys
  count-append p [] ys = omega arith
  count-append p (x ∷ xs) ys = ground (arith, count-append p xs ys)

  pub any-append : (p : A → Bool) (xs ys : List A) → any p (xs ++ ys) ≡ (any p xs || any p ys)
  any-append p [] ys = refl
  any-append p (x ∷ xs) ys = ground (arith, any-append p xs ys)

  pub length-filter-le : (p : A → Bool) (xs : List A) → length (filter p xs) ≤ length xs
  length-filter-le p [] = omega arith
  length-filter-le p (x ∷ xs) = ground (arith, length-filter-le p xs)

  -- A filter that keeps the length keeps the list.
  pub filter_full :
      (p : A → Bool) (xs : List A) → length (filter p xs) ≡ length xs → filter p xs ≡ xs
  filter_full p [] h = refl
  filter_full p (x ∷ xs) h = elim (Bool-cases (p x)) [
    | inl t ↦
        let same : suc (length (filter p xs)) ≡ suc (length xs) = rw t at h in
        rw t (ap (λ (r : List A). x ∷ r) (filter_full p xs (omega (arith, same))))
    | inr f ↦
        let shorter : length (filter p xs) ≡ suc (length xs) = rw f at h in
        absurd (omega (arith, shorter, length-filter-le p xs))
  ]

  pub find?-holds : (p : A → Bool) (xs : List A) {a : A} → find? p xs ≡ some a → p a ≡ true
  find?-holds p [] h = ground arith
  find?-holds p (x ∷ xs) {a} h = ground (arith, find?-holds p xs {a = a})

module _ {ℓ} {A : Type ℓ} where
  pub length-drop : (n : ℕ) (xs : List A) → length (drop n xs) ≡ length xs - n
  length-drop zero xs = omega arith
  length-drop (suc n) [] = omega arith
  length-drop (suc n) (x ∷ xs) = omega (arith, length-drop n xs)

  pub take_all : (n : ℕ) (xs : List A) → length xs ≤ n → take n xs ≡ xs
  take_all zero [] h = refl
  take_all zero (x ∷ xs) h = absurd (omega (arith, h))
  take_all (suc n) [] h = refl
  take_all (suc n) (x ∷ xs) h = ap (λ (r : List A). x ∷ r) (take_all n xs (omega (arith, h)))

  pub take-take : (n : ℕ) (xs : List A) → take n (take (suc n) xs) ≡ take n xs
  take-take zero xs = refl
  take-take (suc n) [] = refl
  take-take (suc n) (x ∷ xs) = ap (λ (r : List A). x ∷ r) (take-take n xs)

  -- One element more than `n` shows whether there are more than `n`.
  pub leb-length-take : (n : ℕ) (xs : List A) → leb (length (take (suc n) xs)) n ≡ leb (length xs) n
  leb-length-take zero [] = refl
  leb-length-take zero (x ∷ xs) = ground arith
  leb-length-take (suc n) [] = refl
  leb-length-take (suc n) (x ∷ xs) = ground (arith, leb-length-take n xs)

  pub filter-filter :
      (p q r : A → Bool) (xs : List A)
      → ((x : A) → r x ≡ (p x && q x))
      → filter q (filter p xs) ≡ filter r xs
  filter-filter p q r [] same = refl
  filter-filter p q r (x ∷ xs) same = ground (arith, same x, filter-filter p q r xs same)

module _ {ℓ κ} {A : Type ℓ} {B : Type κ} (f : A → B) where
  pub map-take-drop : (n : ℕ) (xs : List A) → map f (take n xs) ++ map f (drop n xs) ≡ map f xs
  map-take-drop zero xs = refl
  map-take-drop (suc n) [] = refl
  map-take-drop (suc n) (x ∷ xs) = ap (λ (r : List B). f x ∷ r) (map-take-drop n xs)

module _ {ℓ κ} {A : Type ℓ} where
  abbrev pub All : (A → Type κ) → List A → Type κ
  All P [] = Unit
  All P (x ∷ xs) = P x × All P xs

  pub All-take : (P : A → Type κ) (n : ℕ) (xs : List A) → All P xs → All P (take n xs)
  All-take P zero xs h = tt
  All-take P (suc n) [] h = tt
  All-take P (suc n) (x ∷ xs) (hx, h) = (hx, All-take P n xs h)

  module _ (P : A → Type κ) where
    pub All-append : (xs ys : List A) → All P xs → All P ys → All P (xs ++ ys)
    All-append [] ys h k = k
    All-append (x ∷ xs) ys (hx, h) k = (hx, All-append xs ys h k)

    All-if : (b : Bool) (x : A) (xs : List A) → P x → All P xs → All P (if b then x ∷ xs else xs)
    All-if true x xs hx h = (hx, h)
    All-if false x xs hx h = h

    pub All-filter : (p : A → Bool) (xs : List A) → All P xs → All P (filter p xs)
    All-filter p [] h = tt
    All-filter p (x ∷ xs) (hx, h) = All-if (p x) x (filter p xs) hx (All-filter p xs h)

module _ {ℓ} {A : Type ℓ} (p : A → Bool) where
  pub filter-All : (xs : List A) → All (λ x. p x ≡ true) (filter p xs)
  filter-All [] = tt
  filter-All (x ∷ xs) = elim (Bool-cases (p x)) [
    | inl t ↦ rw t (t, filter-All xs)
    | inr t ↦ rw t (filter-All xs)
  ]

module _ {ℓ κ μ} {A : Type ℓ} (P : A → Type κ) (Q : A → Type μ) where
  pub All-imp : (xs : List A) → ((x : A) → P x → Q x) → All P xs → All Q xs
  All-imp [] f h = tt
  All-imp (x ∷ xs) f (hx, h) = (f x hx, All-imp xs f h)

module _ {ℓ κ} {A : Type ℓ} (P : A → Type κ) where
  -- What holds of all elements holds of the one that is found.
  pub find?-All : (q : A → Bool) (xs : List A) {a : A} → All P xs → find? q xs ≡ some a → P a
  find?-All q [] h e = cc
  find?-All q (x ∷ xs) {a} (hx, h) e = elim (Bool-cases (q x)) [
    | inl t ↦
        let found : some x ≡ some a = rw t at e in let same : x ≡ a = cc found in subst P same hx
    | inr t ↦ find?-All q xs h (rw t at e)
  ]

module _ {ℓ} {A : Type ℓ} (q : A → Bool) where
  pub find?-append_none :
      (xs : List A) (a : A) → find? q xs ≡ none → q a ≡ true → find? q (xs ++ a ∷ []) ≡ some a
  find?-append_none [] a e h = ground arith
  find?-append_none (x ∷ xs) a e h = ground (arith, find?-append_none xs a)

module _ {ℓ} {A : Type ℓ} (q : A → Bool) where
  -- What was found is found after more is appended.
  pub find?-append_some :
      (xs ys : List A) {a : A} → find? q xs ≡ some a → find? q (xs ++ ys) ≡ some a
  find?-append_some [] ys e = ground arith
  find?-append_some (x ∷ xs) ys {a} e = elim (Bool-cases (q x)) [
    | inl t ↦ rw t (rw t at e)
    | inr t ↦ rw t (find?-append_some xs ys (rw t at e))
  ]
