-- ===== src/Prices/History.antt =====
-- backend/app/domain/price_history.py: the age of a price, the lowest price and the latest one of
-- each store. A UUID is a number in the order of its `str`, a date counts days and a time of the day
-- counts microseconds. Every ranked row has a date and a store, which its source sees to; the order
-- of an unknown date is never asked for, and stands first here.
pub mod Orders
pub mod Minimum
pub mod Basis
use prislapp.Prelude.{
  Bool, List, Option, [], any, count, false, filter, if◌then◌else◌, is_some, leb, ltb, map, none,
  not, some, suc, true, ℕ, ◌&&◌, ◌++◌, ◌+◌, ◌==◌, ◌||◌, ◌∷◌,
}
use prislapp.Prelude.Arithmetic.{decimal_le}
use prislapp.Prelude.Decimal.{Decimal}
use prislapp.Prelude.Extremes.{greatest, least}
use prislapp.Prelude.Sort.{sort_by}
use prislapp.Prelude.Text.{Text}
use prislapp.Prices.Pricing.{
  Condition, DatePrecision, ExclusionReason, PriceBasis, per_kg, per_litre, per_package,
  unknown_basis,
}

pub data AgeLabel : Type 0 where
  recent older old : AgeLabel

-- `(today - purchase_date).days <= 30`, and `<= 90`
unfoldable pub age_label : Option ℕ → ℕ → Option AgeLabel
age_label none today = none
age_label (some day) today =
    some (if leb today (day + 30) then recent else (if leb today (day + 90) then older else old))

-- The reasons of a line, and those that arise when the observations are seen together.
pub data RankingExclusion : Type 0 where
  of_line : ExclusionReason → RankingExclusion
  unknown_store store_not_branch price_basis_mismatch : RankingExclusion

pub data Certainty : Type 0 where
  certain same_day_uncertain : Certainty

pub record Source : Type 0 where
  pub receipt_id : ℕ
  pub revision_id : ℕ
  pub revision : ℕ
  pub line_id : ℕ

-- `is_branch` says that `store_identity` is "branch".
pub record Observation : Type 0 where
  pub row_id : ℕ
  pub price : Option Decimal
  pub price_basis : PriceBasis
  pub purchase_date : Option ℕ
  pub date_precision : DatePrecision
  pub purchase_time : Option ℕ
  pub store_id : Option ℕ
  pub store_name : Option Text
  pub is_branch : Bool
  pub condition : Condition
  pub source : Source
  pub reasons : List RankingExclusion

abbrev no_exclusions : List RankingExclusion → Bool
no_exclusions [] = true
no_exclusions (_ ∷ _) = false

abbrev pub ranked : Observation → Bool
ranked row = no_exclusions row.reasons

abbrev pub basis_code : PriceBasis → ℕ
basis_code per_package = 0
basis_code per_kg = 1
basis_code per_litre = 2
basis_code unknown_basis = 3

abbrev pub same_basis : PriceBasis → PriceBasis → Bool
same_basis a b = basis_code a == basis_code b

-- Keys for the order; `none` stands first.
abbrev pub option_le : Option ℕ → Option ℕ → Bool
option_le none _ = true
option_le (some _) none = false
option_le (some m) (some n) = leb m n

abbrev pub date_le : Observation → Observation → Bool
date_le a b = option_le a.purchase_date b.purchase_date

abbrev pub time_le : Observation → Observation → Bool
time_le a b = option_le a.purchase_time b.purchase_time

abbrev pub key_le : Option ℕ → ℕ → Option ℕ → ℕ → Bool
key_le none m none n = leb m n
key_le none m (some _) n = true
key_le (some _) m none n = false
key_le (some d) m (some e) n = ltb d e || (d == e && leb m n)

-- `(row.purchase_date, row.row_id)`
abbrev pub date_key_le : Observation → Observation → Bool
date_key_le a b = key_le a.purchase_date a.row_id b.purchase_date b.row_id

abbrev pub basis_count : List Observation → Observation → ℕ
basis_count rows row = count (λ other. same_basis other.price_basis row.price_basis) rows

abbrev pub all_of : PriceBasis → List Observation → Bool
all_of basis rows = not (any (λ row. not (same_basis row.price_basis basis)) rows)

-- The basis of the leaders if they share it, and else of the newest one.
abbrev pub leading_basis : List Observation → PriceBasis
leading_basis [] = unknown_basis
leading_basis (row ∷ rows) =
    if all_of row.price_basis rows
    then row.price_basis
    else (greatest date_key_le row rows).price_basis

-- The observations whose basis has the most ranked observations.
abbrev pub leaders : List Observation → List Observation
leaders [] = []
leaders (row ∷ rows) =
    let all = row ∷ rows in
    let most = greatest leb (basis_count all row) (map (basis_count all) rows) in
    filter (λ other. basis_count all other == most) all

abbrev pub mismatched : PriceBasis → Observation → Observation
mismatched basis row =
    if same_basis row.price_basis basis || not (ranked row)
    then row
    else record row { reasons = price_basis_mismatch ∷ [] }

abbrev pub based : List Observation → List Observation → PriceBasis × List Observation
based [] observations = (unknown_basis, observations)
based (row ∷ rows) observations =
    let basis = leading_basis (leaders (row ∷ rows)) in (basis, map (mismatched basis) observations)

unfoldable pub apply_price_basis : List Observation → PriceBasis × List Observation
apply_price_basis observations = based (filter ranked observations) observations

-- Only rows that have a price are compared.
abbrev pub amount_le : Option Decimal → Option Decimal → Bool
amount_le none _ = true
amount_le (some _) none = false
amount_le (some m) (some n) = decimal_le m n

abbrev pub price_le : Observation → Observation → Bool
price_le a b = amount_le a.price b.price

abbrev pub same_price : Observation → Observation → Bool
same_price a b = price_le a b && price_le b a

-- A number for an optional id, other ones for other ids.
abbrev pub option_code : Option ℕ → ℕ
option_code none = 0
option_code (some n) = suc n

abbrev pub store_key : Observation → ℕ
store_key row = option_code row.store_id

abbrev pub same_store : Observation → Observation → Bool
same_store a b = store_key a == store_key b

abbrev pub rankable : Observation → Bool
rankable row = ranked row && is_some row.price

pub record Lowest : Type 0 where
  pub lowest : Observation
  pub primary : Observation
  pub tied : List Observation

-- The loop over the sorted rows, with the rows that `by_store` has.
abbrev pub by_store : Observation → List Observation → List Observation → List Observation
by_store cheapest [] tied = tied
by_store cheapest (row ∷ rows) tied =
    if same_price row cheapest && not (any (same_store row) tied)
    then by_store cheapest rows (tied ++ row ∷ [])
    else by_store cheapest rows tied

abbrev pub lowest_of : Observation → List Observation → Option Lowest
lowest_of cheapest [] = none
lowest_of cheapest (row ∷ rows) =
    some (record { lowest = cheapest; primary = row; tied = row ∷ rows })

abbrev pub lowest_among : List Observation → Option Lowest
lowest_among [] = none
lowest_among (row ∷ rows) =
    let cheapest = least price_le row rows in
    lowest_of cheapest (by_store cheapest (sort_by date_key_le (row ∷ rows)) [])

-- `lowest` has the price of the answer. The `none` of `lowest_of` is the `IndexError` of `tied[0]`.
unfoldable pub historical_lowest : List Observation → Option Lowest
historical_lowest observations = lowest_among (filter rankable observations)
