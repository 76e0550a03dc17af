-- ===== src/Prelude/Lookup.antt =====
-- Queries of a table (Prelude/Table) after an update, and sorted or filtered tables.
use mathlib.Core.Path.{subst}
use prislapp.Prelude.{
  All, All-filter, Bool, Bool-cases, List, [], ap, arith, count, eq→==, false, filter, find?,
  find?-All, if◌then◌else◌, inl, inr, none, refl, some, suc, sym, true, ℕ, ◌==◌, ◌∙◌, ◌∷◌, ◌≡◌, ◌≢◌,
  ◌≤◌,
}
use prislapp.Prelude.Sort.{insert_by, insert_by-All, sort_by, sort_by-All}
use prislapp.Prelude.Table.{Distinct, Grows, IsOnly, IsOnly-head, replace}

module _ {A : Type 0} (key : A → ℕ) where
  -- In a table whose keys are apart a row that any query finds is the only one with its key.
  pub found-IsOnly :
      (q : A → Bool) (xs : List A) {row : A}
      → Distinct key xs
      → find? q xs ≡ some row
      → IsOnly key row xs
  found-IsOnly q [] d e = tt
  found-IsOnly q (x ∷ xs) {row} (fresh, d) e = elim (Bool-cases (q x)) [
    | inl p ↦
        let same : some x ≡ some row = rw p at e in
        let head : x ≡ row = cc same in
        subst (λ r. IsOnly key r (x ∷ xs)) head (IsOnly-head key x xs fresh)
    | inr p ↦
        let later : find? q xs ≡ some row = rw p at e in
        (
          (λ k. absurd (find?-All (λ y. key x ≢ key y) q xs fresh later k)),
          found-IsOnly q xs d later,
        )
  ]

  -- A narrower query that the updated row meets finds it in the place of the old one.
  pub find?-replace_narrow :
      (p q : A → Bool) (old row : A) (xs : List A)
      → ((x : A) → p x ≡ false → q x ≡ false)
      → find? p xs ≡ some old
      → key row ≡ key old
      → q row ≡ true
      → find? q (replace key row xs) ≡ some row
  find?-replace_narrow p q old row [] narrow e same h = cc
  find?-replace_narrow p q old row (x ∷ xs) narrow e same h = elim (Bool-cases (key x == key row)) [
    | inl hit ↦ rw (hit, h) refl
    | inr miss ↦ elim (Bool-cases (p x)) [
      | inl t ↦
          let found : some x ≡ some old = rw t at e in
          let head : x ≡ old = cc found in
          cc (miss, eq→== (key x) (key row) (ap key head ∙ sym same))
      | inr t ↦
          rw (miss, narrow x t) (find?-replace_narrow p q old row xs narrow (rw t at e) same h)
    ]
  ]

  none_counted :
      (p q : A → Bool) (row : A) (xs : List A)
      → ((x : A) → p x ≡ false → q x ≡ false)
      → q row ≡ false
      → count p xs ≤ 0
      → find? q (replace key row xs) ≡ none
  none_counted p q row [] narrow h c = refl
  none_counted p q row (x ∷ xs) narrow h c = elim (Bool-cases (p x)) [
    | inl t ↦ let over : suc (count p xs) ≤ 0 = rw t at c in absurd (omega (arith, over))
    | inr t ↦ step (key x == key row) (narrow x t) (none_counted p q row xs narrow h (rw t at c))
  ]
    where
      step :
          (b : Bool)
          → q x ≡ false
          → find? q (replace key row xs) ≡ none
          → find? q ((if b then row else x) ∷ replace key row xs) ≡ none
      step true _ rest = rw h rest
      step false qx rest = rw qx rest

  -- If a query finds one row at most, a narrower query that the updated row does not meet finds none.
  pub find?-replace-none :
      (p q : A → Bool) (old row : A) (xs : List A)
      → ((x : A) → p x ≡ false → q x ≡ false)
      → count p xs ≤ 1
      → find? p xs ≡ some old
      → key row ≡ key old
      → q row ≡ false
      → find? q (replace key row xs) ≡ none
  find?-replace-none p q old row [] narrow c e same h = refl
  find?-replace-none p q old row (x ∷ xs) narrow c e same h = elim (Bool-cases (p x)) [
    | inl t ↦
        let found : some x ≡ some old = rw t at e in
        let head : x ≡ old = cc found in
        let few : suc (count p xs) ≤ 1 = rw t at c in
        rw (eq→== (key x) (key row) (ap key head ∙ sym same), h)
          (none_counted p q row xs narrow h (omega (arith, few)))
    | inr t ↦
        step (key x == key row) (narrow x t)
          (find?-replace-none p q old row xs narrow (rw t at c) (rw t at e) same h)
  ]
    where
      step :
          (b : Bool)
          → q x ≡ false
          → find? q (replace key row xs) ≡ none
          → find? q ((if b then row else x) ∷ replace key row xs) ≡ none
      step true _ rest = rw h rest
      step false qx rest = rw qx rest

module _ {A : Type 0} (key : A → ℕ) (R : A → A → Type 0) (N : A → Type 0) where
  -- A query that an evolution of rows does not touch finds the row in the place of the old one.
  pub find?-Grows :
      (q : A → Bool) (xs ys : List A) {x : A}
      → ((a b : A) → R a b → q b ≡ q a)
      → Grows key R N xs ys
      → find? q xs ≡ some x
      → (y : A) × (find? q ys ≡ some y) × R x y
  find?-Grows q [] ys steady gr e = cc e
  find?-Grows q (a ∷ xs) [] steady gr e = absurd gr
  find?-Grows q (a ∷ xs) (b ∷ ys) {x} steady (st, gr) e = elim (Bool-cases (q a)) [
    | inl t ↦
        let found : some a ≡ some x = rw t at e in
        let head : a ≡ x = cc found in
        let same : q b ≡ true = steady a b st ∙ t in (b, rw same refl, subst (λ z. R z b) head st)
    | inr t ↦
        let (y, there, moved) = find?-Grows q xs ys steady gr (rw t at e) in
        let same : q b ≡ false = steady a b st ∙ t in (y, rw same there, moved)
  ]

module _ {A : Type 0} (key : A → ℕ) where
  pub Distinct-filter : (p : A → Bool) (xs : List A) → Distinct key xs → Distinct key (filter p xs)
  Distinct-filter p [] d = tt
  Distinct-filter p (x ∷ xs) (fresh, d) = elim (Bool-cases (p x)) [
    | inl t ↦ rw t (All-filter (λ y. key x ≢ key y) p xs fresh, Distinct-filter p xs d)
    | inr t ↦ rw t (Distinct-filter p xs d)
  ]

  Distinct-insert_by :
      (le : A → A → Bool) (x : A) (ys : List A)
      → All (λ y. key x ≢ key y) ys
      → Distinct key ys
      → Distinct key (insert_by le x ys)
  unfolding insert_by
  Distinct-insert_by le x [] h d = (tt, tt)
  Distinct-insert_by le x (y ∷ ys) (hy, h) (fresh, d) = elim (Bool-cases (le x y)) [
    | inl t ↦ rw t ((hy, h), (fresh, d))
    | inr t ↦ rw t (
      insert_by-All le (λ z. key y ≢ key z) x ys (λ e. hy (sym e)) fresh,
      Distinct-insert_by le x ys h d,
    )
  ]

  pub Distinct-sort_by :
      (le : A → A → Bool) (xs : List A) → Distinct key xs → Distinct key (sort_by le xs)
  unfolding sort_by
  Distinct-sort_by le [] d = tt
  Distinct-sort_by le (x ∷ xs) (fresh, d) =
      Distinct-insert_by le x (sort_by le xs) (sort_by-All le (λ y. key x ≢ key y) xs fresh)
        (Distinct-sort_by le xs d)
