-- ===== src/Prices/Latest/Stores.antt =====
-- backend/app/domain/price_history.py: the entries of `latest_per_store`.
use mathlib.Core.Path.{subst}
use prislapp.Prelude.{
  All, All-In, All-filter, All-of_In, In, In-filter, List, Option, [], ap, arith, filter, has_any,
  inl, inr, none, refl, some, sym, true, ℕ, ◌∙◌, ◌∷◌, ◌≡◌, ◌≢◌,
}
use prislapp.Prelude.Extremes.{In-least, greatest, least-All, reversed, reversed-IsOrder}
use prislapp.Prelude.Lookup.{Distinct-sort_by}
use prislapp.Prelude.Sort.{In-sort_by, sort_by, sort_by-All}
use prislapp.Prelude.Table.{Distinct}
use prislapp.Prelude.Text.{Text}
use prislapp.Prices.History.{Observation, date_le, option_code, option_le, rankable, store_key}
use prislapp.Prices.History.Orders.{date_le-IsOrder}
use prislapp.Prices.Latest.{
  StoreLatest, first, grouped, last_day, latest_all, latest_among, latest_of_day, latest_per_store,
  name_key_le, on_day, price_key_le, resolved_latest, same_day_of, sorted_by_name, store_latest,
}
use prislapp.Prices.Latest.Groups.{
  Group, IsGroup, IsGrouped, group_key, grouped-All, grouped-IsGrouping,
}
use prislapp.Prices.Latest.Resolved.{resolved_latest-IsLatest}

-- What the answer says of a group.
abbrev IsLatestOf : Group → StoreLatest → Type 0
IsLatestOf (head, rows) latest =
    (option_code latest.store_id ≡ store_key head)
    × All (λ row. option_le row.purchase_date latest.purchase_date ≡ true) (head ∷ rows)

latest_of_day-fields :
    (key : ℕ) (day : Option ℕ) (low : Observation) (others : List Observation)
    (o : Option Observation)
    → store_key low ≡ key
    → ((row : Observation) → o ≡ some row → store_key row ≡ key)
    → (option_code (latest_of_day day (low ∷ others) o low others).store_id ≡ key)
      × ((latest_of_day day (low ∷ others) o low others).purchase_date ≡ day)
latest_of_day-fields key day low others none h k = (h, refl)
latest_of_day-fields key day low others (some row) h k = (k row refl, refl)

latest_among-fields :
    (key : ℕ) (day : Option ℕ) (rows : List Observation)
    → has_any rows ≡ true
    → All (λ row. store_key row ≡ key) rows
    → (latest : StoreLatest) × (latest_among day rows ≡ some latest)
      × (option_code latest.store_id ≡ key)
      × (latest.purchase_date ≡ day)
latest_among-fields key day [] some_row h = cc some_row
latest_among-fields key day (low ∷ others) some_row h =
    let (k, d) =
      latest_of_day-fields key day low others (resolved_latest (low ∷ others)) h.0 (λ row. λ e.
        All-In (λ r. store_key r ≡ key) row (low ∷ others) h
          (resolved_latest-IsLatest (low ∷ others) e).0) in
    (latest_of_day day (low ∷ others) (resolved_latest (low ∷ others)) low others, refl, k, d)

has_any_of_In : (row : Observation) (rows : List Observation) → In row rows → has_any rows ≡ true
has_any_of_In row [] i = absurd i
has_any_of_In row (x ∷ xs) i = refl

store_latest-IsLatestOf :
    (head : Observation) (rows : List Observation)
    → IsGroup (head, rows)
    → (latest : StoreLatest) × (store_latest head rows ≡ some latest)
      × IsLatestOf (head, rows) latest
unfolding store_latest
store_latest-IsLatestOf head rows h =
    let (latest, e, k, d) =
      latest_among-fields (store_key head) (last_day head rows) (same_day_of head rows) some_row
        in_store in
    (
      latest,
      e,
      (
        k,
        subst
            (λ (day : Option ℕ). All (λ row. option_le row.purchase_date day ≡ true) (head ∷ rows))
            (sym d)
            (least-All (reversed date_le) (reversed-IsOrder date_le date_le-IsOrder) head rows),
      ),
    )
  where
    newest : Observation
    newest = greatest date_le head rows

    some_row : has_any (same_day_of head rows) ≡ true
    some_row = has_any_of_In newest (same_day_of head rows) (
        In-sort_by price_key_le newest (filter (on_day (last_day head rows)) (head ∷ rows)) (
          In-filter (on_day (last_day head rows)) newest (head ∷ rows)
            (In-least (reversed date_le) head rows) (ground arith)))

    in_store : All (λ row. store_key row ≡ store_key head) (same_day_of head rows)
    in_store =
        sort_by-All price_key_le (λ row. store_key row ≡ store_key head)
          (filter (on_day (last_day head rows)) (head ∷ rows))
          (All-filter (λ row. store_key row ≡ store_key head) (on_day (last_day head rows))
            (head ∷ rows) (refl, h))

-- The answers, one for each group in turn.
abbrev AreLatestOf : List Group → List StoreLatest → Type 0
AreLatestOf [] [] = Unit
AreLatestOf [] (_ ∷ _) = ⊥
AreLatestOf (_ ∷ _) [] = ⊥
AreLatestOf (group ∷ groups) (latest ∷ others) = IsLatestOf group latest × AreLatestOf groups others

latest_all-AreLatestOf :
    (groups : List Group)
    → All IsGroup groups
    → (result : List StoreLatest) × (latest_all groups ≡ some result) × AreLatestOf groups result
latest_all-AreLatestOf [] h = ([], refl, tt)
latest_all-AreLatestOf ((head, rows) ∷ groups) (h, hs) =
    let (latest, e, k) = store_latest-IsLatestOf head rows h in
    let (others, f, ks) = latest_all-AreLatestOf groups hs in
    (latest ∷ others, rw (e, f) refl, (k, ks))

AreLatestOf-All :
    (key : ℕ) (groups : List Group) (result : List StoreLatest)
    → AreLatestOf groups result
    → All (λ group. key ≢ group_key group) groups
    → All (λ latest. key ≢ option_code latest.store_id) result
AreLatestOf-All key [] [] h k = tt
AreLatestOf-All key [] (_ ∷ _) h k = absurd h
AreLatestOf-All key (_ ∷ _) [] h k = absurd h
AreLatestOf-All key (group ∷ groups) (latest ∷ others) (h, hs) (k, ks) =
    ((λ e. k (e ∙ h.0)), AreLatestOf-All key groups others hs ks)

AreLatestOf-Distinct :
    (groups : List Group) (result : List StoreLatest)
    → AreLatestOf groups result
    → Distinct group_key groups
    → Distinct (λ latest. option_code latest.store_id) result
AreLatestOf-Distinct [] [] h d = tt
AreLatestOf-Distinct [] (_ ∷ _) h d = absurd h
AreLatestOf-Distinct (_ ∷ _) [] h d = absurd h
AreLatestOf-Distinct (group ∷ groups) (latest ∷ others) (h, hs) (fresh, d) = (
  subst (λ (key : ℕ). All (λ other. key ≢ option_code other.store_id) others) (sym h.0)
      (AreLatestOf-All (group_key group) groups others hs fresh),
  AreLatestOf-Distinct groups others hs d,
)

-- An entry for the store of a row, not earlier than the row.
abbrev pub HasEntry : List StoreLatest → Observation → Type 0
HasEntry result row =
    (latest : StoreLatest) × In latest result
    × (option_code latest.store_id ≡ store_key row)
    × (option_le row.purchase_date latest.purchase_date ≡ true)

group-HasEntry :
    (groups : List Group) (result : List StoreLatest) (row : Observation) (group : Group)
    → AreLatestOf groups result
    → All IsGroup groups
    → In group groups
    → In row (group.0 ∷ group.1)
    → HasEntry result row
group-HasEntry [] result row group h k i j = absurd i
group-HasEntry (first ∷ groups) [] row group h k i j = absurd h
group-HasEntry (first ∷ groups) (latest ∷ others) row group (h, hs) (k, ks) (inl e) j =
    let here : In row (first.0 ∷ first.1) = subst (λ (x : Group). In row (x.0 ∷ x.1)) (sym e) j in
    let alike : store_key row ≡ store_key first.0 =
      All-In (λ r. store_key r ≡ store_key first.0) row (first.0 ∷ first.1) (refl, k) here in
    (
      latest,
      inl refl,
      h.0 ∙ sym alike,
      All-In (λ r. option_le r.purchase_date latest.purchase_date ≡ true) row (first.0 ∷ first.1)
          h.1 here,
    )
group-HasEntry (first ∷ groups) (latest ∷ others) row group (h, hs) (k, ks) (inr i) j =
    let (entry, m, same, later) = group-HasEntry groups others row group hs ks i j in
    (entry, inr m, same, later)

-- `latest_per_store` always has an answer, which has one entry for each store. Every ranked row with
-- a price has the entry of its store there, whose date is not earlier.
pub latest_per_store-All :
    (lower : Text → Text) (observations : List Observation)
    → (result : List StoreLatest) × (latest_per_store lower observations ≡ some result)
      × Distinct (λ latest. option_code latest.store_id) result
      × All (HasEntry result) (filter rankable observations)
unfolding latest_per_store
latest_per_store-All lower observations =
    let rows = filter rankable observations in
    let (d, h) = grouped-IsGrouping rows [] (tt, tt) in
    let (result, e, k) = latest_all-AreLatestOf (grouped rows []) h in
    (
      sort_by (name_key_le lower) result,
      ap (sorted_by_name lower) e,
      Distinct-sort_by _ (name_key_le lower) result
          (AreLatestOf-Distinct (grouped rows []) result k d),
      All-of_In _ rows (λ row. λ i.
          let (group, j, m) =
            All-In (IsGrouped (grouped rows [])) row rows (grouped-All rows []) i in
          let (entry, n, same, later) = group-HasEntry (grouped rows []) result row group k h j m in
          (entry, In-sort_by (name_key_le lower) entry result n, same, later)),
    )
