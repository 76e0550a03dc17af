-- ===== src/Prelude/Members.antt =====
-- Elements of a list.
use mathlib.Core.Path.{◌≡◌, refl, ap, ◌∙◌, subst}
use mathlib.Core.Logic.{◌⊎◌, inl, inr}
use mathlib.Core.Bool.{Bool, true, false}
use mathlib.Core.List.{List, [], ◌∷◌, ◌++◌, map}
use native.Mathlib.Omega.{arith}
use prislapp.Prelude.Tests.{Bool-cases}
use mathlib.Core.Option.{none, some}
use prislapp.Prelude.Lists.{All, any, filter, find?}

module _ {A : Type 0} where
  -- `x` is an element.
  abbrev pub In : A → List A → Type 0
  In x [] = ⊥
  In x (y ∷ ys) = (y ≡ x) ⊎ In x ys

  pub In-filter : (p : A → Bool) (x : A) (xs : List A) → In x xs → p x ≡ true → In x (filter p xs)
  In-filter p x [] i h = absurd i
  In-filter p x (y ∷ ys) (inl e) h = rw (ap p e ∙ h) (inl e)
  In-filter p x (y ∷ ys) (inr i) h = elim (Bool-cases (p y)) [
    | inl t ↦ rw t (inr (In-filter p x ys i h))
    | inr t ↦ rw t (In-filter p x ys i h)
  ]

  pub All-In {κ} : (P : A → Type κ) (x : A) (xs : List A) → All P xs → In x xs → P x
  All-In P x [] h i = absurd i
  All-In P x (y ∷ ys) (hy, h) (inl e) = subst P e hy
  All-In P x (y ∷ ys) (hy, h) (inr i) = All-In P x ys h i

module _ {A B : Type 0} where
  pub In-map : (f : A → B) (x : A) (xs : List A) → In x xs → In (f x) (map f xs)
  In-map f x [] i = absurd i
  In-map f x (y ∷ ys) (inl e) = inl (ap f e)
  In-map f x (y ∷ ys) (inr i) = inr (In-map f x ys i)

module _ {A : Type 0} where
  pub In-append : (x : A) (xs ys : List A) → In x xs → In x (xs ++ ys)
  In-append x [] ys i = absurd i
  In-append x (z ∷ zs) ys (inl e) = inl e
  In-append x (z ∷ zs) ys (inr i) = inr (In-append x zs ys i)

  pub In-append_last : (x : A) (xs : List A) → In x (xs ++ x ∷ [])
  In-append_last x [] = inl refl
  In-append_last x (z ∷ zs) = inr (In-append_last x zs)

  pub any-In : (p : A → Bool) (xs : List A) → any p xs ≡ true → (x : A) × In x xs × (p x ≡ true)
  any-In p [] h = cc h
  any-In p (x ∷ xs) h = elim (Bool-cases (p x)) [
    | inl t ↦ (x, inl refl, t)
    | inr f ↦ let (y, i, t) = any-In p xs (rw f at h) in (y, inr i, t)
  ]

  pub All-of_In {κ} : (P : A → Type κ) (xs : List A) → ((x : A) → In x xs → P x) → All P xs
  All-of_In P [] h = tt
  All-of_In P (x ∷ xs) h = (h x (inl refl), All-of_In P xs (λ y. λ i. h y (inr i)))

  abbrev pub has_any : List A → Bool
  has_any [] = false
  has_any (_ ∷ _) = true

  pub any-filter : (p : A → Bool) (xs : List A) → any p xs ≡ has_any (filter p xs)
  any-filter p [] = refl
  any-filter p (x ∷ xs) = elim (Bool-cases (p x)) [
    | inl t ↦ rw t refl
    | inr f ↦ rw f (any-filter p xs)
  ]

  pub not_any-All : (p : A → Bool) (xs : List A) → any p xs ≡ false → All (λ x. p x ≡ false) xs
  not_any-All p [] h = tt
  not_any-All p (x ∷ xs) h = (ground (arith, h), not_any-All p xs (ground (arith, h)))

  pub any-of_In : (p : A → Bool) (x : A) (xs : List A) → In x xs → p x ≡ true → any p xs ≡ true
  any-of_In p x [] i h = absurd i
  any-of_In p x (y ∷ ys) (inl e) h = rw (ap p e ∙ h) refl
  any-of_In p x (y ∷ ys) (inr i) h = ground (arith, any-of_In p x ys i h)

  In-tail : (x y : A) (xs ys : List A) → (In x xs → In x ys) → In x (y ∷ xs) → In x (y ∷ ys)
  In-tail x y xs ys h (inl e) = inl e
  In-tail x y xs ys h (inr i) = inr (h i)

  pub filter-In : (p : A → Bool) (x : A) (xs : List A) → In x (filter p xs) → In x xs
  filter-In p x [] i = absurd i
  filter-In p x (y ∷ ys) i = elim (Bool-cases (p y)) [
    | inl t ↦ In-tail x y (filter p ys) ys (filter-In p x ys) (rw t at i)
    | inr f ↦ inr (filter-In p x ys (rw f at i))
  ]

module _ {A B : Type 0} where
  pub map-In : (f : A → B) (z : B) (xs : List A) → In z (map f xs) → (y : A) × In y xs × (f y ≡ z)
  map-In f z [] i = absurd i
  map-In f z (x ∷ xs) (inl e) = (x, inl refl, e)
  map-In f z (x ∷ xs) (inr i) = let (y, j, e) = map-In f z xs i in (y, inr j, e)

module _ {A : Type 0} where
  pub find?-In : (p : A → Bool) (xs : List A) {a : A} → find? p xs ≡ some a → In a xs
  find?-In p [] e = cc e
  find?-In p (x ∷ xs) {a} e = elim (Bool-cases (p x)) [
    | inl t ↦ let same : some x ≡ some a = rw t at e in inl (cc same)
    | inr f ↦ inr (find?-In p xs (rw f at e))
  ]

  -- What is not counted is not found.
  pub find?-any : (p : A → Bool) (xs : List A) → any p xs ≡ false → find? p xs ≡ none
  find?-any p [] h = refl
  find?-any p (x ∷ xs) h =
      let no : p x ≡ false = ground (arith, h) in rw no (find?-any p xs (ground (arith, h)))
