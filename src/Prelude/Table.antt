-- ===== src/Prelude/Table.antt =====
-- A database table as the list of its rows, with a primary key: updates, inserts, and how a table
-- evolves when rows are updated in place and new rows are appended.
use mathlib.Core.Path.{subst}
use prislapp.Prelude.{
  ==→eq, All, All-In, All-append, All-imp, Bool, Bool-cases, In, List, [], any, ap, arith, count,
  eq→==, false, find?, find?-holds, if◌then◌else◌, inl, inr, refl, some, sym, true, ℕ, ◌++◌, ◌==◌,
  ◌∙◌, ◌∷◌, ◌≡◌, ◌≢◌, ◌≤◌,
}

module _ {A : Type 0} (key : A → ℕ) where
  -- An UPDATE by primary key.
  abbrev pub replace : A → List A → List A
  replace row [] = []
  replace row (old ∷ rows) = (if key old == key row then row else old) ∷ replace row rows

  -- No two rows share a key.
  abbrev pub Distinct : List A → Type 0
  Distinct [] = Unit
  Distinct (x ∷ xs) = All (λ y. key x ≢ key y) xs × Distinct xs

  -- The only row with the key of `row` is `row`.
  abbrev pub IsOnly : A → List A → Type 0
  IsOnly row xs = All (λ x. key x ≡ key row → x ≡ row) xs

  not-found :
      (q : A → Bool) (id : ℕ) (xs : List A) {row : A}
      → ((x : A) → q x ≡ true → key x ≡ id)
      → All (λ y. id ≢ key y) xs
      → find? q xs ≡ some row
      → ⊥
  not-found q id [] keyed h e = cc
  not-found q id (x ∷ xs) {row} keyed (hx, h) e = elim (Bool-cases (q x)) [
    | inl p ↦ absurd (hx (sym (keyed x p)))
    | inr p ↦ not-found q id xs keyed h (rw p at e)
  ]

  pub IsOnly-head : (x : A) (xs : List A) → All (λ y. key x ≢ key y) xs → IsOnly x (x ∷ xs)
  IsOnly-head x xs h = (
    λ _. refl,
    All-imp (λ y. key x ≢ key y) (λ y. key y ≡ key x → y ≡ x) xs (λ y n e. absurd (n (sym e))) h,
  )

  -- A row that a query by key finds is the only one with its key.
  pub find?-IsOnly :
      (q : A → Bool) (id : ℕ) (xs : List A) {row : A}
      → ((x : A) → q x ≡ true → key x ≡ id)
      → Distinct xs
      → find? q xs ≡ some row
      → IsOnly row xs
  find?-IsOnly q id [] keyed d e = tt
  find?-IsOnly q id (x ∷ xs) {row} keyed (fresh, d) e = elim (Bool-cases (q x)) [
    | inl p ↦
        let same : some x ≡ some row = rw p at e in
        let head : x ≡ row = cc same in subst (λ r. IsOnly r (x ∷ xs)) head (IsOnly-head x xs fresh)
    | inr p ↦
        let later : find? q xs ≡ some row = rw p at e in
        (
          λ k. absurd (
              not-found q id xs keyed (rw (k ∙ keyed row (find?-holds q xs later)) at fresh) later),
          find?-IsOnly q id xs keyed d later,
        )
  ]

  pub All-replace :
      (P : A → Type 0) (row : A) (xs : List A) → All P xs → P row → All P (replace row xs)
  All-replace P row [] h hr = tt
  All-replace P row (x ∷ xs) (hx, h) hr = elim (Bool-cases (key x == key row)) [
    | inl e ↦ rw e (hr, All-replace P row xs h hr)
    | inr e ↦ rw e (hx, All-replace P row xs h hr)
  ]

  Distinct-head :
      (k : ℕ) (row : A) (xs : List A)
      → All (λ y. k ≢ key y) xs
      → All (λ y. k ≢ key y) (replace row xs)
  Distinct-head k row [] h = tt
  Distinct-head k row (x ∷ xs) (hx, h) = elim (Bool-cases (key x == key row)) [
    | inl e ↦ rw e ((λ p. hx (p ∙ sym (==→eq (key x) (key row) e))), Distinct-head k row xs h)
    | inr e ↦ rw e (hx, Distinct-head k row xs h)
  ]

  -- An update keeps the keys apart.
  pub Distinct-replace : (row : A) (xs : List A) → Distinct xs → Distinct (replace row xs)
  Distinct-replace row [] d = tt
  Distinct-replace row (x ∷ xs) (fresh, d) = elim (Bool-cases (key x == key row)) [
    | inl e ↦ rw e (
      rw (==→eq (key x) (key row) e) at (Distinct-head (key x) row xs fresh),
      Distinct-replace row xs d,
    )
    | inr e ↦ rw e (Distinct-head (key x) row xs fresh, Distinct-replace row xs d)
  ]

  absent :
      (row : A) (xs : List A)
      → any (λ old. key old == key row) xs ≡ false
      → All (λ y. key y ≢ key row) xs
  absent row [] h = tt
  absent row (x ∷ xs) h = elim (Bool-cases (key x == key row)) [
    | inl e ↦ cc (rw e at h)
    | inr e ↦ ((λ p. cc (e, eq→== (key x) (key row) p)), absent row xs (rw e at h))
  ]

  -- An insert that the primary key admits keeps the keys apart.
  pub Distinct-insert :
      (row : A) (xs : List A)
      → any (λ old. key old == key row) xs ≡ false
      → Distinct xs
      → Distinct (xs ++ row ∷ [])
  Distinct-insert row xs h d = go xs (absent row xs h) d
    where
      go : (ys : List A) → All (λ y. key y ≢ key row) ys → Distinct ys → Distinct (ys ++ row ∷ [])
      go [] a e = (tt, tt)
      go (y ∷ ys) (ay, a) (ey, e) =
          (All-append (λ z. key y ≢ key z) ys (row ∷ []) ey (ay, tt), go ys a e)

  -- Counting a property that the new row has only if its old row had it.
  pub count-replace-le :
      (p : A → Bool) (old row : A) (xs : List A)
      → IsOnly old xs
      → key row ≡ key old
      → (p row ≡ true → p old ≡ true)
      → count p (replace row xs) ≤ count p xs
  count-replace-le p old row [] only same h = omega arith
  count-replace-le p old row (x ∷ xs) (only_x, only) same h =
      step (key x == key row) refl (count-replace-le p old row xs only same h)
    where
      step :
          (b : Bool)
          → (key x == key row) ≡ b
          → count p (replace row xs) ≤ count p xs
          → count p ((if b then row else x) ∷ replace row xs) ≤ count p (x ∷ xs)
      step true e ih =
          let was : x ≡ old = only_x (==→eq (key x) (key row) e ∙ same) in rw was (ground arith)
      step false e ih = ground arith

  -- A query by key finds the updated row in the place of the old one.
  pub find?-replace :
      (q : A → Bool) (old row : A) (xs : List A)
      → find? q xs ≡ some old
      → key row ≡ key old
      → q row ≡ true
      → find? q (replace row xs) ≡ some row
  find?-replace q old row [] e same h = cc
  find?-replace q old row (x ∷ xs) e same h = elim (Bool-cases (key x == key row)) [
    | inl hit ↦ rw (hit, h) refl
    | inr miss ↦ elim (Bool-cases (q x)) [
      | inl t ↦
          let found : some x ≡ some old = rw t at e in
          let head : x ≡ old = cc found in
          cc (miss, eq→== (key x) (key row) (ap key head ∙ sym same))
      | inr t ↦ rw (miss, t) (find?-replace q old row xs (rw t at e) same h)
    ]
  ]

  -- A query by key finds a row that was just inserted.
  pub find?-insert :
      (q : A → Bool) (row : A) (xs : List A)
      → ((x : A) → q x ≡ true → key x ≡ key row)
      → any (λ old. key old == key row) xs ≡ false
      → q row ≡ true
      → find? q (xs ++ row ∷ []) ≡ some row
  find?-insert q row [] keyed free h = rw h refl
  find?-insert q row (x ∷ xs) keyed free h = elim (Bool-cases (q x)) [
    | inl t ↦
        let hit : (key x == key row) ≡ true = eq→== (key x) (key row) (keyed x t) in
        let taken : true ≡ false = rw hit at free in cc taken
    | inr t ↦ rw t (
        find?-insert q row xs keyed
          (rest (key x == key row) (any (λ old. key old == key row) xs) free) h)
  ]
    where
      rest : (b c : Bool) → (if b then true else c) ≡ false → c ≡ false
      rest b c e = ground arith

  module _ (R : A → A → Type 0) (N : A → Type 0) where
    -- Each old row is related to the row in its place, and all rows behind those are new.
    abbrev pub Grows : List A → List A → Type 0
    Grows [] ys = All N ys
    Grows (x ∷ xs) [] = ⊥
    Grows (x ∷ xs) (y ∷ ys) = R x y × Grows xs ys

    pub Grows-refl : ((x : A) → R x x) → (xs : List A) → Grows xs xs
    Grows-refl r [] = tt
    Grows-refl r (x ∷ xs) = (r x, Grows-refl r xs)

    All-Grows :
        ((x y : A) → N x → R x y → N y) → (xs ys : List A) → All N xs → Grows xs ys → All N ys
    All-Grows s [] ys h g = g
    All-Grows s (x ∷ xs) [] h g = absurd g
    All-Grows s (x ∷ xs) (y ∷ ys) (hx, h) (r, g) = (s x y hx r, All-Grows s xs ys h g)

    pub Grows-trans :
        ((x y z : A) → R x y → R y z → R x z)
        → ((x y : A) → N x → R x y → N y)
        → (xs ys zs : List A) → Grows xs ys
        → Grows ys zs
        → Grows xs zs
    Grows-trans t s [] ys zs g h = All-Grows s ys zs g h
    Grows-trans t s (x ∷ xs) [] zs g h = absurd g
    Grows-trans t s (x ∷ xs) (y ∷ ys) [] g h = absurd h
    Grows-trans t s (x ∷ xs) (y ∷ ys) (z ∷ zs) (r, g) (q, h) =
        (t x y z r q, Grows-trans t s xs ys zs g h)

    pub Grows-insert :
        ((x : A) → R x x) → (xs : List A) (row : A) → N row → Grows xs (xs ++ row ∷ [])
    Grows-insert r [] row n = (n, tt)
    Grows-insert r (x ∷ xs) row n = (r x, Grows-insert r xs row n)

    pub Grows-replace :
        ((x : A) → R x x)
        → (old row : A) (xs : List A) → IsOnly old xs
        → key row ≡ key old
        → R old row
        → Grows xs (replace row xs)
    Grows-replace r old row [] only same h = tt
    Grows-replace r old row (x ∷ xs) (only_x, only) same h = elim (Bool-cases (key x == key row)) [
      | inl e ↦
          rw e (
            rw (only_x (==→eq (key x) (key row) e ∙ same)) h,
            Grows-replace r old row xs only same h,
          )
      | inr e ↦ rw e (r x, Grows-replace r old row xs only same h)
    ]

module _ {A : Type 0} (key : A → ℕ) where
  -- An update of a row that is there puts the new one in, and keeps every other one.
  pub In-replace :
      (before row : A) (rows : List A)
      → In before rows
      → key before ≡ key row
      → In row (replace key row rows)
  In-replace before row [] i e = absurd i
  In-replace before row (x ∷ xs) (inl same) e =
      let hit : (key x == key row) ≡ true = eq→== _ _ (ap key same ∙ e) in rw hit (inl refl)
  In-replace before row (x ∷ xs) (inr i) e = inr (In-replace before row xs i e)

  pub In-replace_other :
      (other row : A) (rows : List A)
      → In other rows
      → key other ≢ key row
      → In other (replace key row rows)
  In-replace_other other row [] i e = absurd i
  In-replace_other other row (x ∷ xs) (inl same) e = elim (Bool-cases (key x == key row)) [
    | inl t ↦ absurd (e (ap key (sym same) ∙ ==→eq _ _ t))
    | inr f ↦ rw f (inl same)
  ]
  In-replace_other other row (x ∷ xs) (inr i) e = inr (In-replace_other other row xs i e)

  pub Distinct-In :
      (a b : A) (rows : List A) → Distinct key rows → In a rows → In b rows → key a ≡ key b → a ≡ b
  Distinct-In a b [] d i j e = absurd i
  Distinct-In a b (x ∷ xs) (fresh, d) (inl i) (inl j) e = sym i ∙ j
  Distinct-In a b (x ∷ xs) (fresh, d) (inl i) (inr j) e =
      absurd (All-In (λ y. key x ≢ key y) b xs fresh j (ap key i ∙ e))
  Distinct-In a b (x ∷ xs) (fresh, d) (inr i) (inl j) e =
      absurd (All-In (λ y. key x ≢ key y) a xs fresh i (ap key j ∙ sym e))
  Distinct-In a b (x ∷ xs) (fresh, d) (inr i) (inr j) e = Distinct-In a b xs d i j e
