-- ===== src/Prices/Latest.antt =====
-- backend/app/domain/price_history.py: the latest observation of each store, or how uncertain it is.
pub mod Resolved
pub mod Groups
pub mod Stores
use prislapp.Prelude.{
  Bool, List, Option, [], any, false, filter, if◌then◌else◌, is_some, leb, length, map, none, not,
  or_default, some, true, ℕ, ◌&&◌, ◌++◌, ◌==◌, ◌∷◌,
}
use prislapp.Prelude.Decimal.{Decimal}
use prislapp.Prelude.Extremes.{greatest}
use prislapp.Prelude.Sort.{sort_by}
use prislapp.Prelude.Text.{Text, text_le}
use prislapp.Prices.History.{
  Certainty, Observation, Source, certain, date_le, option_code, price_le, rankable,
  same_day_uncertain, same_price, same_store, time_le,
}
use prislapp.Prices.Pricing.{
  Condition, DatePrecision, condition_unknown, coupon, member, multi_buy, no_condition, to_datetime,
}

pub record StoreLatest : Type 0 where
  pub store_id : Option ℕ
  pub store_name : Option Text
  pub is_branch : Bool
  pub purchase_date : Option ℕ
  pub certainty : Certainty
  pub price : Option Decimal
  pub price_range : Option (Option Decimal × Option Decimal)
  pub condition : Option Condition
  pub observation_count : ℕ
  pub sources : List Source

-- `(row.price, row.row_id)`
abbrev pub price_key_le : Observation → Observation → Bool
price_key_le a b = if same_price a b then leb a.row_id b.row_id else price_le a b

abbrev is_datetime : DatePrecision → Bool
is_datetime to_datetime = true
is_datetime _ = false

abbrev pub is_timed : Observation → Bool
is_timed row = is_datetime row.date_precision && is_some row.purchase_time

-- `len({row.price for row in rows}) == 1`
abbrev pub one_price : List Observation → Bool
one_price [] = false
one_price (row ∷ rows) = not (any (λ other. not (same_price other row)) rows)

abbrev pub first : List Observation → Option Observation
first [] = none
first (row ∷ _) = some row

-- The rows of the latest time, if they agree.
abbrev pub winner : List Observation → Option Observation
winner rows = if one_price rows then first rows else none

abbrev pub newest_timed : List Observation → Option Observation
newest_timed [] = none
newest_timed (row ∷ rows) =
    let newest = greatest time_le row rows in
    winner (
      filter (λ other. option_code other.purchase_time == option_code newest.purchase_time)
        (row ∷ rows))

unfoldable pub resolved_latest : List Observation → Option Observation
resolved_latest (row ∷ []) = some row
resolved_latest same_day =
    if length (filter is_timed same_day) == length same_day
    then newest_timed (filter is_timed same_day)
    else winner same_day

abbrev condition_code : Condition → ℕ
condition_code no_condition = 0
condition_code member = 1
condition_code multi_buy = 2
condition_code coupon = 3
condition_code condition_unknown = 4

-- `conditions.pop() if len(conditions) == 1 else None`
abbrev one_condition : List Observation → Option Condition
one_condition [] = none
one_condition (row ∷ rows) =
    if any (λ other. not (condition_code other.condition == condition_code row.condition)) rows
    then none
    else some row.condition

abbrev last : Observation → List Observation → Observation
last row [] = row
last row (next ∷ rows) = last next rows

abbrev pub latest_of_day :
    Option ℕ → List Observation → Option Observation → Observation → List Observation → StoreLatest
latest_of_day day same_day (some row) low others = record {
  store_id = row.store_id;
  store_name = row.store_name;
  is_branch = row.is_branch;
  purchase_date = day;
  certainty = certain;
  price = row.price;
  price_range = none;
  condition = one_condition same_day;
  observation_count = length same_day;
  sources = row.source ∷ [];
}
latest_of_day day same_day none low others = record {
  store_id = low.store_id;
  store_name = low.store_name;
  is_branch = low.is_branch;
  purchase_date = day;
  certainty = same_day_uncertain;
  price = none;
  price_range = some (low.price, (last low others).price);
  condition = one_condition same_day;
  observation_count = length same_day;
  sources = map (λ row. row.source) same_day;
}

abbrev pub latest_among : Option ℕ → List Observation → Option StoreLatest
latest_among day [] = none
latest_among day (low ∷ others) =
    some (latest_of_day day (low ∷ others) (resolved_latest (low ∷ others)) low others)

abbrev pub last_day : Observation → List Observation → Option ℕ
last_day row rows = (greatest date_le row rows).purchase_date

abbrev pub on_day : Option ℕ → Observation → Bool
on_day day row = option_code row.purchase_date == option_code day

abbrev pub same_day_of : Observation → List Observation → List Observation
same_day_of row rows = sort_by price_key_le (filter (on_day (last_day row rows)) (row ∷ rows))

-- The rows of a store, of which there is a first one. `none` is the `IndexError` of `same_day[0]`.
unfoldable pub store_latest : Observation → List Observation → Option StoreLatest
store_latest row rows = latest_among (last_day row rows) (same_day_of row rows)

-- `grouped.setdefault(row.store_id, []).append(row)`
abbrev pub add_to_group :
    Observation → List (Observation × List Observation) → List (Observation × List Observation)
add_to_group row [] = (row, []) ∷ []
add_to_group row ((head, rows) ∷ groups) =
    if same_store row head
    then (head, rows ++ row ∷ []) ∷ groups
    else (head, rows) ∷ add_to_group row groups

abbrev pub grouped :
    List Observation → List (Observation × List Observation) → List (Observation × List Observation)
grouped [] groups = groups
grouped (row ∷ rows) groups = grouped rows (add_to_group row groups)

abbrev pub both : Option StoreLatest → Option (List StoreLatest) → Option (List StoreLatest)
both (some latest) (some others) = some (latest ∷ others)
both _ _ = none

abbrev pub latest_all : List (Observation × List Observation) → Option (List StoreLatest)
latest_all [] = some []
latest_all ((head, rows) ∷ groups) = both (store_latest head rows) (latest_all groups)

-- `(row.store_name.lower(), str(row.store_id))`; `lower` is `str.lower`.
abbrev pub name_key_le : (Text → Text) → StoreLatest → StoreLatest → Bool
name_key_le lower a b =
    let m = lower (or_default a.store_name []) in
    let n = lower (or_default b.store_name []) in
    if text_le n m
    then text_le m n && leb (option_code a.store_id) (option_code b.store_id)
    else true

abbrev pub sorted_by_name : (Text → Text) → Option (List StoreLatest) → Option (List StoreLatest)
sorted_by_name lower none = none
sorted_by_name lower (some latest) = some (sort_by (name_key_le lower) latest)

unfoldable pub latest_per_store : (Text → Text) → List Observation → Option (List StoreLatest)
latest_per_store lower observations =
    sorted_by_name lower (latest_all (grouped (filter rankable observations) []))
