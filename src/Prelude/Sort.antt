-- ===== src/Prelude/Sort.antt =====
-- Python's `sorted(rows, key=…)`: a stable insertion sort by a Boolean order.
use mathlib.Core.List.Perm
use prislapp.Prelude.{
  All, All-filter, All-imp, Bool, Bool-cases, In, List, Perm, [], arith, false, filter,
  if◌then◌else◌, inl, inr, length, refl, sym, true, ◌+◌, ◌∙◌, ◌∷◌, ◌≡◌,
}

module _ {ℓ} {A : Type ℓ} (le : A → A → Bool) where
  unfoldable pub insert_by : A → List A → List A
  insert_by x [] = x ∷ []
  insert_by x (y ∷ ys) = if le x y then x ∷ y ∷ ys else y ∷ insert_by x ys

  unfoldable pub sort_by : List A → List A
  unfolding insert_by
  sort_by [] = []
  sort_by (x ∷ xs) = insert_by x (sort_by xs)

  perm-if :
      (b : Bool) (x y : A) (ys zs : List A)
      → Perm zs (x ∷ ys)
      → Perm (if b then x ∷ y ∷ ys else y ∷ zs) (x ∷ y ∷ ys)
  perm-if true x y ys zs h = Perm.refl (x ∷ y ∷ ys)
  perm-if false x y ys zs h = Perm.trans (Perm.cons y h) (Perm.swap x y ys)

  insert_by-perm : (x : A) (ys : List A) → Perm (insert_by x ys) (x ∷ ys)
  unfolding insert_by
  insert_by-perm x [] = Perm.refl (x ∷ [])
  insert_by-perm x (y ∷ ys) = perm-if (le x y) x y ys (insert_by x ys) (insert_by-perm x ys)

  pub sort_by-perm : (xs : List A) → Perm (sort_by xs) xs
  unfolding sort_by
  sort_by-perm [] = Perm.refl []
  sort_by-perm (x ∷ xs) = Perm.trans (insert_by-perm x (sort_by xs)) (Perm.cons x (sort_by-perm xs))

module _ {ℓ κ} {A : Type ℓ} (le : A → A → Bool) (P : A → Type κ) where
  All-if :
      (b : Bool) (x y : A) (ys zs : List A)
      → All P (x ∷ y ∷ ys)
      → All P zs
      → All P (if b then x ∷ y ∷ ys else y ∷ zs)
  All-if true x y ys zs h k = h
  All-if false x y ys zs h k = (h.1.0, k)

  pub insert_by-All : (x : A) (ys : List A) → P x → All P ys → All P (insert_by le x ys)
  unfolding insert_by
  insert_by-All x [] px h = (px, h)
  insert_by-All x (y ∷ ys) px h =
      All-if (le x y) x y ys (insert_by le x ys) (px, h) (insert_by-All x ys px h.1)

  pub sort_by-All : (xs : List A) → All P xs → All P (sort_by le xs)
  unfolding sort_by
  sort_by-All [] h = h
  sort_by-All (x ∷ xs) (px, h) = insert_by-All x (sort_by le xs) px (sort_by-All xs h)

module _ {A : Type 0} (le : A → A → Bool) where
  In-insert_by : (x y : A) (ys : List A) → In x (y ∷ ys) → In x (insert_by le y ys)
  unfolding insert_by
  In-insert_by x y [] i = i
  In-insert_by x y (z ∷ ys) i = elim (Bool-cases (le y z)) [
    | inl t ↦ rw t i
    | inr t ↦ rw t (moved (In-insert_by x y ys) i)
  ]
    where
      moved :
          (In x (y ∷ ys) → In x (insert_by le y ys))
          → In x (y ∷ z ∷ ys)
          → In x (z ∷ insert_by le y ys)
      moved later (inl e) = inr (later (inl e))
      moved later (inr (inl e)) = inl e
      moved later (inr (inr k)) = inr (later (inr k))

  pub In-sort_by : (x : A) (xs : List A) → In x xs → In x (sort_by le xs)
  unfolding sort_by
  In-sort_by x [] i = i
  In-sort_by x (y ∷ ys) (inl e) = In-insert_by x y (sort_by le ys) (inl e)
  In-sort_by x (y ∷ ys) (inr i) = In-insert_by x y (sort_by le ys) (inr (In-sort_by x ys i))

-- Every element stands in order before all that follow it.
abbrev pub IsSorted {ℓ} : {A : Type ℓ} → (A → A → Bool) → List A → Type ℓ
IsSorted le [] = Unit
IsSorted le (x ∷ xs) = All (λ y. le x y ≡ true) xs × IsSorted le xs

module _ {ℓ} {A : Type ℓ} (le : A → A → Bool) (total : (a b : A) → le a b ≡ false → le b a ≡ true)
    (trans : (a b c : A) → le a b ≡ true → le b c ≡ true → le a c ≡ true) where
  insert_by-IsSorted : (x : A) (ys : List A) → IsSorted le ys → IsSorted le (insert_by le x ys)
  unfolding insert_by
  insert_by-IsSorted x [] h = (tt, tt)
  insert_by-IsSorted x (y ∷ ys) (first, rest) = elim (Bool-cases (le x y)) [
    | inl e ↦ rw e (
      (e, All-imp (λ z. le y z ≡ true) (λ z. le x z ≡ true) ys (λ z. trans x y z e) first),
      (first, rest),
    )
    | inr e ↦ rw e (
      insert_by-All le (λ z. le y z ≡ true) x ys (total x y e) first,
      insert_by-IsSorted x ys rest,
    )
  ]

  pub sort_by-IsSorted : (xs : List A) → IsSorted le (sort_by le xs)
  unfolding sort_by
  sort_by-IsSorted [] = tt
  sort_by-IsSorted (x ∷ xs) = insert_by-IsSorted x (sort_by le xs) (sort_by-IsSorted xs)

module _ {ℓ} {A : Type ℓ} (le : A → A → Bool) (total : (a b : A) → le a b ≡ false → le b a ≡ true)
    (trans : (a b c : A) → le a b ≡ true → le b c ≡ true → le a c ≡ true) (p : A → Bool) where
  insert_by-first : (x : A) (ys : List A) → All (λ y. le x y ≡ true) ys → insert_by le x ys ≡ x ∷ ys
  unfolding insert_by
  insert_by-first x [] h = refl
  insert_by-first x (y ∷ ys) (hy, h) = rw hy refl

  filter-insert_by :
      (x : A) (ys : List A)
      → IsSorted le ys
      → filter p (insert_by le x ys) ≡ (if p x then insert_by le x (filter p ys) else filter p ys)
  unfolding insert_by
  filter-insert_by x [] h = refl
  filter-insert_by x (y ∷ ys) (first, rest) = elim (Bool-cases (le x y)) [
    | inl e ↦
        let all_after : All (λ z. le x z ≡ true) (y ∷ ys) =
          (e, All-imp (λ z. le y z ≡ true) (λ z. le x z ≡ true) ys (λ z. trans x y z e) first) in
        let front =
          insert_by-first x (filter p (y ∷ ys))
            (All-filter (λ z. le x z ≡ true) p (y ∷ ys) all_after) in
        rw e (elim (Bool-cases (p x)) [ inl t ↦ rw t (sym front) | inr t ↦ rw t refl ])
    | inr e ↦ rw e (later (p x) (p y) e (filter-insert_by x ys rest))
  ]
    where
      later :
          (b c : Bool)
          → le x y ≡ false
          → filter p (insert_by le x ys) ≡ (if b then insert_by le x (filter p ys) else filter p ys)
          → (if c then y ∷ filter p (insert_by le x ys) else filter p (insert_by le x ys)) ≡ (
              if b
              then insert_by le x (if c then y ∷ filter p ys else filter p ys)
              else (if c then y ∷ filter p ys else filter p ys))
      later true true e ih = rw (e, ih) refl
      later true false e ih = ih
      later false true e ih = rw ih refl
      later false false e ih = ih

  -- Filtering what was sorted is sorting what was filtered.
  pub filter-sort_by : (xs : List A) → filter p (sort_by le xs) ≡ sort_by le (filter p xs)
  unfolding sort_by
  filter-sort_by [] = refl
  filter-sort_by (x ∷ xs) =
      filter-insert_by x (sort_by le xs) (sort_by-IsSorted le total trans xs)
      ∙ (elim (Bool-cases (p x)) [
        | inl t ↦ rw (t, filter-sort_by xs) refl
        | inr t ↦ rw (t, filter-sort_by xs) refl
      ])

module _ {ℓ} {A : Type ℓ} (le : A → A → Bool) where
  length-insert_by : (x : A) (ys : List A) → length (insert_by le x ys) ≡ length ys + 1
  unfolding insert_by
  length-insert_by x [] = refl
  length-insert_by x (y ∷ ys) = ground (arith, length-insert_by x ys)

  pub length-sort_by : (xs : List A) → length (sort_by le xs) ≡ length xs
  unfolding sort_by
  length-sort_by [] = refl
  length-sort_by (x ∷ xs) = omega (arith, length-insert_by x (sort_by le xs), length-sort_by xs)
