-- ===== src/Prices/History/Minimum.antt =====
-- backend/app/domain/price_history.py: what `historical_lowest` returns.
use mathlib.Core.Path.{subst}
use prislapp.Prelude.{
  All, All-In, All-append, All-of_In, Bool, In, In-append, In-append_last, List, [], any, any-In,
  any-append, any-filter, arith, false, filter, has_any, if-both, is_some, not, refl, some, sym,
  true, ◌&&◌, ◌++◌, ◌∙◌, ◌∷◌, ◌≡◌,
}
use prislapp.Prelude.Extremes.{In-least, le_refl, least, least-All}
use prislapp.Prelude.Sort.{In-sort_by, IsSorted, sort_by, sort_by-All, sort_by-IsSorted}
use prislapp.Prices.History.{
  Lowest, Observation, by_store, date_key_le, historical_lowest, lowest_among, lowest_of, price_le,
  rankable, same_price, same_store,
}
use prislapp.Prices.History.Orders.{
  date_key_le-IsOrder, price_le-IsOrder, same_store_comm, same_store_refl,
}

-- No two of the rows have the same store.
abbrev pub IsOnePerStore : List Observation → Type 0
IsOnePerStore [] = Unit
IsOnePerStore (row ∷ rows) = (any (same_store row) rows ≡ false) × IsOnePerStore rows

IsOnePerStore-snoc :
    (rows : List Observation) (row : Observation)
    → IsOnePerStore rows
    → any (same_store row) rows ≡ false
    → IsOnePerStore (rows ++ row ∷ [])
IsOnePerStore-snoc [] row h new = (refl, tt)
IsOnePerStore-snoc (x ∷ xs) row (first, rest) new =
    let old : any (same_store row) xs ≡ false = ground (arith, new) in
    let apart : same_store row x ≡ false = ground (arith, new) in
    let alone : any (same_store x) (row ∷ []) ≡ false =
      ground (arith, same_store_comm x row, apart) in
    (
      any-append (same_store x) xs (row ∷ []) ∙ ground (arith, first, alone),
      IsOnePerStore-snoc xs row rest old,
    )

and_left : (b c : Bool) → (b && c) ≡ true → b ≡ true
and_left true c h = refl
and_left false c h = cc h

and_not : (b c : Bool) → (b && not c) ≡ true → c ≡ false
and_not b false h = refl
and_not true true h = cc h
and_not false true h = cc h

by_store-IsOnePerStore :
    (cheapest : Observation) (rows tied : List Observation)
    → IsOnePerStore tied
    → IsOnePerStore (by_store cheapest rows tied)
by_store-IsOnePerStore cheapest [] tied h = h
by_store-IsOnePerStore cheapest (row ∷ rows) tied h =
    if-both IsOnePerStore (same_price row cheapest && not (any (same_store row) tied))
      (λ t.
        by_store-IsOnePerStore cheapest rows (tied ++ row ∷ [])
          (IsOnePerStore-snoc tied row h (and_not (same_price row cheapest) _ t)))
      (λ f. by_store-IsOnePerStore cheapest rows tied h)

by_store-All :
    (P : Observation → Type 0) (cheapest : Observation) (rows tied : List Observation)
    → All (λ row. same_price row cheapest ≡ true → P row) rows
    → All P tied
    → All P (by_store cheapest rows tied)
by_store-All P cheapest [] tied h k = k
by_store-All P cheapest (row ∷ rows) tied (first, rest) k =
    if-both (All P) (same_price row cheapest && not (any (same_store row) tied))
      (λ t.
        by_store-All P cheapest rows (tied ++ row ∷ []) rest
          (All-append P tied (row ∷ []) k (first (and_left _ _ t), tt)))
      (λ f. by_store-All P cheapest rows tied rest k)

In-by_store :
    (row cheapest : Observation) (rows tied : List Observation)
    → In row tied
    → In row (by_store cheapest rows tied)
In-by_store row cheapest [] tied i = i
In-by_store row cheapest (x ∷ xs) tied i =
    if-both (In row) (same_price x cheapest && not (any (same_store x) tied))
      (λ t. In-by_store row cheapest xs (tied ++ x ∷ []) (In-append row tied (x ∷ []) i))
      (λ f. In-by_store row cheapest xs tied i)

-- A row of the same store that is not later.
abbrev pub IsCovered : List Observation → Observation → Type 0
IsCovered tied row =
    (t : Observation) × In t tied × (same_store row t ≡ true) × (date_key_le t row ≡ true)

All-before_last :
    (row : Observation) (tied rows : List Observation)
    → All (λ y. date_key_le row y ≡ true) rows
    → All (λ y. All (λ t. date_key_le t y ≡ true) tied) rows
    → All (λ y. All (λ t. date_key_le t y ≡ true) (tied ++ row ∷ [])) rows
All-before_last row tied [] h k = tt
All-before_last row tied (y ∷ ys) (h, hs) (k, ks) = (
  All-append (λ t. date_key_le t y ≡ true) tied (row ∷ []) k (h, tt),
  All-before_last row tied ys hs ks,
)

not_taken : (b c : Bool) → (b && not c) ≡ false → b ≡ true → c ≡ true
not_taken true true h k = refl
not_taken true false h k = cc h
not_taken false c h k = cc k

by_store-IsCovered :
    (cheapest : Observation) (rows tied : List Observation)
    → IsSorted date_key_le rows
    → All (λ row. All (λ t. date_key_le t row ≡ true) tied) rows
    → All (λ row. same_price row cheapest ≡ true → IsCovered (by_store cheapest rows tied) row) rows
by_store-IsCovered cheapest [] tied s b = tt
by_store-IsCovered cheapest (row ∷ rows) tied (first, rest) (b, bs) =
    if-both
      (λ (result : List Observation).
        All (λ r. same_price r cheapest ≡ true → IsCovered result r) (row ∷ rows))
      (same_price row cheapest && not (any (same_store row) tied))
      (λ t. (
        (λ s. (
          row,
          In-by_store row cheapest rows (tied ++ row ∷ []) (In-append_last row tied),
          same_store_refl row,
          le_refl date_key_le date_key_le-IsOrder row,
        )),
        by_store-IsCovered cheapest rows (tied ++ row ∷ []) rest
            (All-before_last row tied rows first bs),
      ))
      (λ f. (
        (λ s.
            let (t, i, alike) = any-In (same_store row) tied (not_taken _ _ f s) in
            (
              t,
              In-by_store t cheapest rows tied i,
              alike,
              All-In (λ u. date_key_le u row ≡ true) t tied b i,
            )),
        by_store-IsCovered cheapest rows tied rest bs,
      ))

IsSorted-snoc :
    (rows : List Observation) (row : Observation)
    → IsSorted date_key_le rows
    → All (λ t. date_key_le t row ≡ true) rows
    → IsSorted date_key_le (rows ++ row ∷ [])
IsSorted-snoc [] row s h = (tt, tt)
IsSorted-snoc (x ∷ xs) row (first, rest) (hx, h) = (
  All-append (λ y. date_key_le x y ≡ true) xs (row ∷ []) first (hx, tt),
  IsSorted-snoc xs row rest h,
)

by_store-IsSorted :
    (cheapest : Observation) (rows tied : List Observation)
    → IsSorted date_key_le rows
    → IsSorted date_key_le tied
    → All (λ row. All (λ t. date_key_le t row ≡ true) tied) rows
    → IsSorted date_key_le (by_store cheapest rows tied)
by_store-IsSorted cheapest [] tied s k b = k
by_store-IsSorted cheapest (row ∷ rows) tied (first, rest) k (b, bs) =
    if-both (IsSorted date_key_le) (same_price row cheapest && not (any (same_store row) tied))
      (λ t.
        by_store-IsSorted cheapest rows (tied ++ row ∷ []) rest (IsSorted-snoc tied row k b)
          (All-before_last row tied rows first bs))
      (λ f. by_store-IsSorted cheapest rows tied rest k bs)

-- What holds of the named rows, from the earliest to the latest.
abbrev pub AreTied : List Observation → Observation → List Observation → Type 0
AreTied rows lowest tied =
    IsSorted date_key_le tied
    × All (λ row. In row rows) tied
    × All (λ row. same_price row lowest ≡ true) tied
    × IsOnePerStore tied
    × All (λ row. same_price row lowest ≡ true → IsCovered tied row) rows

-- What `historical_lowest` promises of its answer for the ranked rows that have a price.
abbrev pub IsLowest : List Observation → Lowest → Type 0
IsLowest rows r =
    In r.lowest rows
    × All (λ row. price_le r.lowest row ≡ true) rows
    × ((others : List Observation) × (r.tied ≡ r.primary ∷ others))
    × AreTied rows r.lowest r.tied

module _ (row : Observation) (rows : List Observation) where
  abbrev cheapest : Observation
  cheapest = least price_le row rows

  abbrev tied_rows : List Observation
  tied_rows = by_store cheapest (sort_by date_key_le (row ∷ rows)) []

  cheapest-IsCovered : All (λ r. same_price r cheapest ≡ true → IsCovered tied_rows r) (row ∷ rows)
  cheapest-IsCovered =
      All-of_In (λ r. same_price r cheapest ≡ true → IsCovered tied_rows r) (row ∷ rows)
        (λ x. λ i.
          All-In (λ r. same_price r cheapest ≡ true → IsCovered tied_rows r) x
            (sort_by date_key_le (row ∷ rows))
            (by_store-IsCovered cheapest (sort_by date_key_le (row ∷ rows)) []
              (sort_by-IsSorted date_key_le date_key_le-IsOrder.0 date_key_le-IsOrder.1
                (row ∷ rows))
              (All-of_In (λ y. Unit) (sort_by date_key_le (row ∷ rows)) (λ y. λ j. tt)))
            (In-sort_by date_key_le x (row ∷ rows) i))

  tied_rows-All : All (λ r. same_price r cheapest ≡ true) tied_rows
  tied_rows-All =
      by_store-All (λ r. same_price r cheapest ≡ true) cheapest (sort_by date_key_le (row ∷ rows))
        [] (All-of_In _ _ (λ y. λ j. λ h. h)) tt

  tied_rows-In : All (λ r. In r (row ∷ rows)) tied_rows
  tied_rows-In =
      by_store-All (λ r. In r (row ∷ rows)) cheapest (sort_by date_key_le (row ∷ rows)) []
        (sort_by-All date_key_le (λ r. same_price r cheapest ≡ true → In r (row ∷ rows))
          (row ∷ rows) (All-of_In _ (row ∷ rows) (λ y. λ j. λ h. j)))
        tt

  tied_rows-IsSorted : IsSorted date_key_le tied_rows
  tied_rows-IsSorted =
      by_store-IsSorted cheapest (sort_by date_key_le (row ∷ rows)) []
        (sort_by-IsSorted date_key_le date_key_le-IsOrder.0 date_key_le-IsOrder.1 (row ∷ rows)) tt
        (All-of_In (λ y. Unit) (sort_by date_key_le (row ∷ rows)) (λ y. λ j. tt))

  lowest_of-IsLowest :
      (tied : List Observation) {r : Lowest}
      → tied_rows ≡ tied
      → lowest_of cheapest tied ≡ some r
      → IsLowest (row ∷ rows) r
  lowest_of-IsLowest [] same e = cc e
  lowest_of-IsLowest (first ∷ others) {r} same e =
      let answer : record { lowest = cheapest; primary = first; tied = first ∷ others } ≡ r =
        cc e in
      subst (IsLowest (row ∷ rows)) answer (
        In-least price_le row rows,
        least-All price_le price_le-IsOrder row rows,
        (others, refl),
        subst (AreTied (row ∷ rows) cheapest) same (
          tied_rows-IsSorted,
          tied_rows-In,
          tied_rows-All,
          by_store-IsOnePerStore cheapest (sort_by date_key_le (row ∷ rows)) [] tt,
          cheapest-IsCovered,
        ),
      )

  lowest_of-is_some :
      (tied : List Observation) → tied_rows ≡ tied → is_some (lowest_of cheapest tied) ≡ true
  lowest_of-is_some (first ∷ others) same = refl
  lowest_of-is_some [] same =
      let itself = le_refl price_le price_le-IsOrder cheapest in
      let (t, i, _, _) =
        All-In (λ r. same_price r cheapest ≡ true → IsCovered tied_rows r) cheapest (row ∷ rows)
          cheapest-IsCovered (In-least price_le row rows) (rw itself refl) in
      absurd (subst (In t) same i)

-- The answer has the price of a ranked row, and no ranked row has a smaller one. The rows it names are
-- ranked, stand from the earliest to the latest, with the primary one first, all have that price, no
-- two of them have the same store, and every ranked row of that price has among them a row of its
-- store that is not later.
pub historical_lowest-IsLowest :
    (observations : List Observation) {r : Lowest}
    → historical_lowest observations ≡ some r
    → IsLowest (filter rankable observations) r
unfolding historical_lowest
historical_lowest-IsLowest observations {r} e = go (filter rankable observations) e
  where
    go : (rows : List Observation) → lowest_among rows ≡ some r → IsLowest rows r
    go [] f = cc f
    go (row ∷ rows) f = lowest_of-IsLowest row rows (tied_rows row rows) refl f

-- There is an answer exactly if some row is ranked and has a price.
pub historical_lowest-is_some :
    (observations : List Observation)
    → is_some (historical_lowest observations) ≡ any rankable observations
unfolding historical_lowest
historical_lowest-is_some observations =
    go (filter rankable observations) ∙ sym (any-filter rankable observations)
  where
    go : (rows : List Observation) → is_some (lowest_among rows) ≡ has_any rows
    go [] = refl
    go (row ∷ rows) = lowest_of-is_some row rows (tied_rows row rows) refl
