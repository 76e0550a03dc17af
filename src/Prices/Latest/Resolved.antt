-- ===== src/Prices/Latest/Resolved.antt =====
-- backend/app/domain/price_history.py: which observation is the latest one of a day.
use mathlib.Core.Path.{subst}
use prislapp.Prelude.{
  ==→eq, All, All-In, All-imp, All-of_In, Bool, Bool-cases, In, In-filter, List, Option, [], arith,
  false, filter, filter-All, filter-In, filter_full, if◌then◌else◌, inl, inr, length, none, not,
  not_any-All, refl, some, true, ℕ, ◌==◌, ◌∷◌, ◌≡◌, ◌⊎◌,
}
use prislapp.Prelude.Extremes.{greatest, le_refl, least-All, reversed, reversed-IsOrder}
use prislapp.Prices.History.{Observation, option_code, option_le, price_le, same_price, time_le}
use prislapp.Prices.History.Orders.{price_le-IsOrder, time_le-IsOrder}
use prislapp.Prices.Latest.{is_timed, newest_timed, one_price, resolved_latest, winner}

-- A row is the latest: any other one costs the same or was, by the clock, not later.
abbrev pub IsLatest : List Observation → Observation → Type 0
IsLatest rows row =
    In row rows
    × All
        (λ other.
          (same_price other row ≡ true)
          ⊎ ((is_timed other ≡ true) × (is_timed row ≡ true) × (time_le row other ≡ false)))
        rows

same_price_refl : (row : Observation) → same_price row row ≡ true
same_price_refl row = let itself = le_refl price_le price_le-IsOrder row in rw itself refl

one_price-All :
    (row : Observation) (rows : List Observation)
    → one_price (row ∷ rows) ≡ true
    → All (λ other. same_price other row ≡ true) (row ∷ rows)
one_price-All row rows h = (
  same_price_refl row,
  All-imp (λ other. not (same_price other row) ≡ false) (λ other. same_price other row ≡ true) rows
      (λ other. double_not (same_price other row))
      (not_any-All (λ other. not (same_price other row)) rows (flip _ h)),
)
  where
    flip : (b : Bool) → not b ≡ true → b ≡ false
    flip false k = refl
    flip true k = cc k

    double_not : (b : Bool) → not b ≡ false → b ≡ true
    double_not true k = refl
    double_not false k = cc k

winner-same_price :
    (rows : List Observation) {row : Observation}
    → winner rows ≡ some row
    → In row rows × All (λ other. same_price other row ≡ true) rows
winner-same_price [] e = cc e
winner-same_price (x ∷ xs) {row} e = elim (Bool-cases (one_price (x ∷ xs))) [
  | inl t ↦
      let found : some x ≡ some row = rw t at e in
      let same : x ≡ row = cc found in
      (
        inl same,
        subst (λ (r : Observation). All (λ other. same_price other r ≡ true) (x ∷ xs)) same
            (one_price-All x xs t),
      )
  | inr f ↦ let found : none ≡ some row = rw f at e in cc found
]

winner-IsLatest :
    (rows : List Observation) {row : Observation} → winner rows ≡ some row → IsLatest rows row
winner-IsLatest rows {row} e =
    let (i, alike) = winner-same_price rows e in
    (i, All-imp (λ other. same_price other row ≡ true) _ rows (λ other. λ h. inl h) alike)

earlier :
    (o r n : Option ℕ)
    → option_le o n ≡ true
    → (option_code r == option_code n) ≡ true
    → (option_code o == option_code n) ≡ false
    → option_le r o ≡ false
earlier none none none h k i = cc i
earlier none none (some n) h k i = ground (arith, k)
earlier none (some r) n h k i = refl
earlier (some o) r none h k i = cc h
earlier (some o) none (some n) h k i = ground (arith, k)
earlier (some o) (some r) (some n) h k i = ground (arith, h, k, i)

newest_timed-IsLatest :
    (rows : List Observation) {row : Observation}
    → All (λ other. is_timed other ≡ true) rows
    → newest_timed rows ≡ some row
    → IsLatest rows row
newest_timed-IsLatest [] timed e = cc e
newest_timed-IsLatest (x ∷ xs) {row} timed e =
    let (i, alike) = winner-same_price (filter at_newest (x ∷ xs)) e in
    let at_time = All-In (λ y. at_newest y ≡ true) row _ (filter-All at_newest (x ∷ xs)) i in
    let j = filter-In at_newest row (x ∷ xs) i in
    (
      j,
      All-of_In _ (x ∷ xs) (λ other. λ k. elim (Bool-cases (at_newest other)) [
        | inl t ↦ inl (
            All-In (λ y. same_price y row ≡ true) other (filter at_newest (x ∷ xs)) alike
              (In-filter at_newest other (x ∷ xs) k t))
        | inr f ↦ inr (
          All-In (λ y. is_timed y ≡ true) other (x ∷ xs) timed k,
          All-In (λ y. is_timed y ≡ true) row (x ∷ xs) timed j,
          earlier other.purchase_time row.purchase_time newest.purchase_time
              (All-In (λ y. time_le y newest ≡ true) other (x ∷ xs)
                (least-All (reversed time_le) (reversed-IsOrder time_le time_le-IsOrder) x xs) k)
              at_time f,
        )
      ]),
    )
  where
    newest : Observation
    newest = greatest time_le x xs

    at_newest : Observation → Bool
    at_newest other = option_code other.purchase_time == option_code newest.purchase_time

resolved-IsLatest :
    (rows : List Observation) (b : Bool) {row : Observation}
    → (length (filter is_timed rows) == length rows) ≡ b
    → (if b then newest_timed (filter is_timed rows) else winner rows) ≡ some row
    → IsLatest rows row
resolved-IsLatest rows false t e = winner-IsLatest rows e
resolved-IsLatest rows true {row} t e =
    subst (λ (all : List Observation). IsLatest all row) (filter_full is_timed rows (==→eq _ _ t))
      (newest_timed-IsLatest (filter is_timed rows) (filter-All is_timed rows) e)

-- The observation that is resolved as the latest is one of the day's. Every other one has the same
-- price or, both having a time of the day, an earlier time.
pub resolved_latest-IsLatest :
    (same_day : List Observation) {row : Observation}
    → resolved_latest same_day ≡ some row
    → IsLatest same_day row
unfolding resolved_latest
resolved_latest-IsLatest [] e = cc e
resolved_latest-IsLatest (x ∷ []) {row} e =
    let same : x ≡ row = cc e in
    subst (IsLatest (x ∷ [])) same (inl refl, (inl (same_price_refl x), tt))
resolved_latest-IsLatest (x ∷ y ∷ rows) e = resolved-IsLatest (x ∷ y ∷ rows) _ refl e
