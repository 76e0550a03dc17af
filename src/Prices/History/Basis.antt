-- ===== src/Prices/History/Basis.antt =====
-- backend/app/domain/price_history.py: what `apply_price_basis` returns.
use mathlib.Core.Path.{subst}
use prislapp.Prelude.{
  ==→eq, All, All-In, All-of_In, Bool, In, In-filter, In-map, List, [], any, any-filter, any-of_In,
  ap, count, eq→==, false, filter, filter-All, filter-In, has_any, if-both, inl, leb, leb→le, map,
  map-In, not, refl, sym, true, ℕ, ◌==◌, ◌||◌, ◌∙◌, ◌∷◌, ◌≡◌, ◌≢◌, ◌≤◌,
}
use prislapp.Prelude.Extremes.{
  In-least, greatest, least-All, leb-IsOrder, reversed, reversed-IsOrder,
}
use prislapp.Prices.History.{
  Observation, all_of, apply_price_basis, based, basis_code, basis_count, date_key_le, leaders,
  leading_basis, mismatched, ranked, same_basis,
}
use prislapp.Prices.Pricing.{PriceBasis, unknown_basis}

-- How many ranked rows have a basis.
abbrev pub ranked_with : PriceBasis → List Observation → ℕ
ranked_with basis rows = count (λ row. same_basis row.price_basis basis) (filter ranked rows)

-- What the choice of a basis promises: the rows stay, those of another basis get a reason, and no
-- basis has more ranked rows than the chosen one.
abbrev pub IsBased : List Observation → PriceBasis × List Observation → Type 0
IsBased rows (basis, after) =
    (map (λ row. row.row_id) after ≡ map (λ row. row.row_id) rows)
    × All (λ row. ranked row ≡ true → same_basis row.price_basis basis ≡ true) after
    × All (λ row. ranked row ≡ true → ranked_with row.price_basis rows ≤ ranked_with basis rows)
        rows
    × (any ranked after ≡ any ranked rows)

rows_kept :
    (basis : PriceBasis) (rows : List Observation)
    → map (λ row. row.row_id) (map (mismatched basis) rows) ≡ map (λ row. row.row_id) rows
rows_kept basis [] = refl
rows_kept basis (row ∷ rows) =
    let tail = rows_kept basis rows in
    if-both
      (λ (r : Observation).
        (r.row_id ∷ map (λ x. x.row_id) (map (mismatched basis) rows))
        ≡ (row.row_id ∷ map (λ x. x.row_id) rows))
      (same_basis row.price_basis basis || not (ranked row))
      (λ t. ap (λ (ids : List ℕ). row.row_id ∷ ids) tail)
      (λ f. ap (λ (ids : List ℕ). row.row_id ∷ ids) tail)

mismatched-ranked :
    (basis : PriceBasis) (row : Observation)
    → ranked (mismatched basis row) ≡ true
    → same_basis (mismatched basis row).price_basis basis ≡ true
mismatched-ranked basis row =
    if-both (λ (r : Observation). ranked r ≡ true → same_basis r.price_basis basis ≡ true)
      (same_basis row.price_basis basis || not (ranked row))
      (λ t. λ h. or_false (same_basis row.price_basis basis) (ranked row) t h) (λ f. λ h. cc h)
  where
    or_false : (b c : Bool) → (b || not c) ≡ true → c ≡ true → b ≡ true
    or_false true c h k = refl
    or_false false true h k = cc h
    or_false false false h k = cc k

leading_basis-In :
    (rows : List Observation)
    → has_any rows ≡ true
    → (x : Observation) × In x rows × (x.price_basis ≡ leading_basis rows)
leading_basis-In [] h = cc h
leading_basis-In (row ∷ rows) h =
    if-both (λ (b : PriceBasis). (x : Observation) × In x (row ∷ rows) × (x.price_basis ≡ b))
      (all_of row.price_basis rows) (λ t. (row, inl refl, refl))
      (λ f. (greatest date_key_le row rows, In-least (reversed date_key_le) row rows, refl))

module _ (row : Observation) (rows : List Observation) where
  abbrev most : ℕ
  most = greatest leb (basis_count (row ∷ rows) row) (map (basis_count (row ∷ rows)) rows)

  leaders-has_any : has_any (leaders (row ∷ rows)) ≡ true
  leaders-has_any =
      let (y, i, e) = map-In (basis_count (row ∷ rows)) most (row ∷ rows) (
        In-least (reversed leb) (basis_count (row ∷ rows) row)
          (map (basis_count (row ∷ rows)) rows)) in
      sym (any-filter (λ other. basis_count (row ∷ rows) other == most) (row ∷ rows))
      ∙ any-of_In (λ other. basis_count (row ∷ rows) other == most) y (row ∷ rows) i (eq→== _ _ e)

  -- A ranked row has the chosen basis, and that basis is the most frequent.
  chosen :
      (x : Observation) × In x (row ∷ rows)
      × (x.price_basis ≡ leading_basis (leaders (row ∷ rows)))
      × All (λ other. basis_count (row ∷ rows) other ≤ basis_count (row ∷ rows) x) (row ∷ rows)
  chosen =
      let (x, i, e) = leading_basis-In (leaders (row ∷ rows)) leaders-has_any in
      let is_most : basis_count (row ∷ rows) x ≡ most = ==→eq _ _ (
        All-In (λ other. (basis_count (row ∷ rows) other == most) ≡ true) x (leaders (row ∷ rows))
          (filter-All (λ other. basis_count (row ∷ rows) other == most) (row ∷ rows)) i) in
      (
        x,
        filter-In (λ other. basis_count (row ∷ rows) other == most) x (row ∷ rows) i,
        e,
        All-of_In (λ other. basis_count (row ∷ rows) other ≤ basis_count (row ∷ rows) x)
            (row ∷ rows)
            (λ y. λ j.
              subst (λ n. basis_count (row ∷ rows) y ≤ n) (sym is_most)
                (leb→le _ _ (
                  All-In (λ n. leb n most ≡ true) (basis_count (row ∷ rows) y)
                    (map (basis_count (row ∷ rows)) (row ∷ rows))
                    (least-All (reversed leb) (reversed-IsOrder leb leb-IsOrder)
                      (basis_count (row ∷ rows) row) (map (basis_count (row ∷ rows)) rows))
                    (In-map (basis_count (row ∷ rows)) y (row ∷ rows) j)))),
      )

module _ (rows : List Observation) where
  none_ranked : filter ranked rows ≡ [] → (x : Observation) → In x rows → ranked x ≢ true
  none_ranked e x i h =
      let some_row : any ranked rows ≡ true = any-of_In ranked x rows i h in
      let no_row : any ranked rows ≡ false = any-filter ranked rows ∙ ap has_any e in
      cc (some_row, no_row)

  unranked-IsBased : filter ranked rows ≡ [] → IsBased rows (unknown_basis, rows)
  unranked-IsBased e = (
    refl,
    All-of_In _ rows (λ x. λ i. λ h. absurd (none_ranked e x i h)),
    All-of_In _ rows (λ x. λ i. λ h. absurd (none_ranked e x i h)),
    refl,
  )

  only_basis :
      (basis : PriceBasis)
      → All
          (λ row. ranked row ≡ true → same_basis row.price_basis basis ≡ true)
          (map (mismatched basis) rows)
  only_basis basis = All-of_In _ (map (mismatched basis) rows) (λ y. λ i.
      let (x, _, e) = map-In (mismatched basis) y rows i in
      subst (λ (r : Observation). ranked r ≡ true → same_basis r.price_basis basis ≡ true) e
        (mismatched-ranked basis x))

  stays_ranked :
      (basis : PriceBasis) (x : Observation)
      → In x rows
      → ranked x ≡ true
      → x.price_basis ≡ basis
      → any ranked (map (mismatched basis) rows) ≡ true
  stays_ranked basis x i h e =
      let alike : same_basis x.price_basis basis ≡ true = eq→== _ _ (ap basis_code e) in
      let kept : x ≡ mismatched basis x = rw alike refl in
      any-of_In ranked (mismatched basis x) (map (mismatched basis) rows)
        (In-map (mismatched basis) x rows i) (subst (λ (r : Observation). ranked r ≡ true) kept h)

  based-IsBased :
      (some_ranked : List Observation)
      → filter ranked rows ≡ some_ranked
      → IsBased rows (based some_ranked rows)
  based-IsBased [] e = unranked-IsBased e
  based-IsBased (r ∷ rs) e =
      let (x, i, same, most_frequent) = chosen r rs in
      let basis = leading_basis (leaders (r ∷ rs)) in
      let j : In x (filter ranked rows) = subst (In x) (sym e) i in
      let x_ranked : ranked x ≡ true =
        All-In (λ y. ranked y ≡ true) x (filter ranked rows) (filter-All ranked rows) j in
      (
        rows_kept basis rows,
        only_basis basis,
        All-of_In _ rows (λ y. λ k. λ h.
            subst
              (λ (all : List Observation).
                count (λ o. same_basis o.price_basis y.price_basis) all
                ≤ count (λ o. same_basis o.price_basis basis) all)
              (sym e)
              (subst
                (λ (b : PriceBasis).
                  basis_count (r ∷ rs) y ≤ count (λ o. same_basis o.price_basis b) (r ∷ rs))
                same
                (All-In (λ o. basis_count (r ∷ rs) o ≤ basis_count (r ∷ rs) x) y (r ∷ rs)
                  most_frequent (subst (In y) e (In-filter ranked y rows k h))))),
        stays_ranked basis x (filter-In ranked x rows j) x_ranked same
            ∙ sym (any-filter ranked rows ∙ ap has_any e),
      )

-- Choosing a basis keeps the rows and their order. Only rows of the chosen basis stay ranked, no
-- basis has more ranked rows than the chosen one, and some row stays ranked if any was.
pub apply_price_basis-IsBased :
    (observations : List Observation) → IsBased observations (apply_price_basis observations)
unfolding apply_price_basis
apply_price_basis-IsBased observations =
    based-IsBased observations (filter ranked observations) refl
