-- ===== src/Tests/Prices.antt =====
-- Prices of milk, meat and a spice, and the history of one product.
use prislapp.Prelude.{
  All, List, Option, [], false, filter, map, none, refl, some, true, ℕ, ◌∷◌, ◌≡◌,
}
use prislapp.ListCopy.{product}
use prislapp.Prelude.Arithmetic.{decimal_le, digit_count, divide, half_even, multiply, to_context}
use prislapp.Prelude.Decimal.{Decimal, quantize}
use prislapp.Prelude.Sort.{sort_by}
use prislapp.Prelude.Table.{Distinct}
use prislapp.Prelude.Text.{Text}
use prislapp.Prices.History.{
  Lowest, Observation, age_label, apply_price_basis, historical_lowest, old, older, option_code,
  rankable, ranked, recent,
}
use prislapp.Prices.History.Basis.{IsBased, apply_price_basis-IsBased}
use prislapp.Prices.History.Minimum.{IsLowest, historical_lowest-IsLowest}
use prislapp.Prices.Latest.{StoreLatest, latest_per_store, resolved_latest}
use prislapp.Prices.Latest.Resolved.{IsLatest, resolved_latest-IsLatest}
use prislapp.Prices.Latest.Stores.{HasEntry, latest_per_store-All}
use prislapp.Prices.Money.{computed, per_package_price, per_quantity_price, value_error}
use prislapp.Prices.Pricing.{
  PriceBasis, PricingLine, PricingResult, evaluate_line, identity_confirmed, no_condition, per_kg,
  per_package, standardized_quantity_price, to_date, to_datetime,
}
use prislapp.Prices.Qualification.{Decided, evaluate_line-Decided, qualifies}
use prislapp.Prices.Raising.{standardized_quantity_price-value_error}
use prislapp.Units.{each, g, kg, normalize_quantity, unknown}

abbrev nok : Text
nok = 78 ∷ 79 ∷ 75 ∷ []

abbrev amount : ℕ → ℕ → Decimal
amount digits places = record { negative = false; digits = digits; places = places }

-- 500 grams of meat for 149.90.
abbrev meat : PricingLine
meat = record {
  line_type = product;
  currency = some nok;
  quantity = some (amount 500 0);
  quantity_unit = g;
  package_count = none;
  net_line_total = some (amount 14990 2);
  printed_unit_price = none;
  condition = no_condition;
  user_product_id = some 7;
  identity_status = some identity_confirmed;
  date_precision = to_date;
  pack_content = none;
  pack_unit = unknown;
}

abbrev meat_result : PricingResult
meat_result = record {
  eligible = true;
  comparison_price = some (amount 299800000 6);
  price_basis = per_kg;
  exclusion_reasons = [];
  eligible_for_dated_ranking = true;
}

meat_priced : evaluate_line meat ≡ computed meat_result
unfolding evaluate_line normalize_quantity multiply per_quantity_price divide to_context digit_count
    half_even quantize
meat_priced = refl

evaluate_line-Decided_example : Decided meat (qualifies meat) meat_result
evaluate_line-Decided_example = evaluate_line-Decided meat meat_priced

-- Half a kilo, weighed in grams.
half_kilo : normalize_quantity (amount 500 0) g ≡ some (amount 500 3, kg)
unfolding normalize_quantity multiply to_context digit_count quantize
half_kilo = refl

-- A third of a krone is rounded to six places, and a half away from zero.
thirds : per_quantity_price (amount 1 0) (amount 3 0) ≡ computed (amount 333333 6)
unfolding per_quantity_price divide to_context digit_count half_even quantize
thirds = refl

half : per_package_price (amount 1 6) (amount 2 0) ≡ computed (amount 1 6)
unfolding per_package_price divide to_context digit_count half_even quantize
half = refl

-- A pack of 0.4 grams.
abbrev saffron : PricingLine
saffron = record meat {
  quantity = some (amount 1 0);
  quantity_unit = each;
  pack_content = some (amount 4 1);
  pack_unit = g;
}

standardized_quantity_price-value_error_example : standardized_quantity_price saffron ≡ value_error
unfolding normalize_quantity multiply to_context digit_count quantize
standardized_quantity_price-value_error_example =
    standardized_quantity_price-value_error saffron refl refl refl refl refl refl refl refl

abbrev bought : ℕ → ℕ → ℕ → Option ℕ → ℕ → PriceBasis → Observation
bought id price day time store basis = record {
  row_id = id;
  price = some (amount price 2);
  price_basis = basis;
  purchase_date = some day;
  date_precision = to_datetime;
  purchase_time = time;
  store_id = some store;
  store_name = some (65 ∷ store ∷ []);
  is_branch = true;
  condition = no_condition;
  source = record { receipt_id = id; revision_id = id; revision = 1; line_id = id };
  reasons = [];
}

-- Two stores share the lowest price, and the first has it twice.
abbrev history : List Observation
history =
    bought 1 2990 100 (some 8) 1 per_package
    ∷ bought 2 1990 90 (some 8) 1 per_package
    ∷ bought 3 1990 95 none 2 per_package
    ∷ bought 4 1990 80 none 1 per_package
    ∷ bought 5 2490 100 (some 9) 1 per_package
    ∷ bought 6 100 100 none 2 per_kg
    ∷ []

abbrev packs : List Observation
packs = (apply_price_basis history).1

abbrev lowest_pack : Lowest
lowest_pack = record {
  lowest = bought 2 1990 90 (some 8) 1 per_package;
  primary = bought 4 1990 80 none 1 per_package;
  tied = bought 4 1990 80 none 1 per_package ∷ bought 3 1990 95 none 2 per_package ∷ [];
}

apply_price_basis-IsBased_example : IsBased history (apply_price_basis history)
apply_price_basis-IsBased_example = apply_price_basis-IsBased history

based_on_packs : map ranked packs ≡ true ∷ true ∷ true ∷ true ∷ true ∷ false ∷ []
unfolding apply_price_basis
based_on_packs = refl

lowest_of_packs : historical_lowest packs ≡ some lowest_pack
unfolding historical_lowest apply_price_basis sort_by decimal_le
lowest_of_packs = refl

historical_lowest-IsLowest_example : IsLowest (filter rankable packs) lowest_pack
historical_lowest-IsLowest_example = historical_lowest-IsLowest packs lowest_of_packs

abbrev today : List Observation
today = bought 1 2990 100 (some 8) 1 per_package ∷ bought 5 2490 100 (some 9) 1 per_package ∷ []

resolved_latest-IsLatest_example : IsLatest today (bought 5 2490 100 (some 9) 1 per_package)
unfolding resolved_latest decimal_le
resolved_latest-IsLatest_example = resolved_latest-IsLatest today refl

latest_per_store-All_example :
    (result : List StoreLatest) × (latest_per_store (λ name. name) packs ≡ some result)
    × Distinct (λ latest. option_code latest.store_id) result
    × All (HasEntry result) (filter rankable packs)
latest_per_store-All_example = latest_per_store-All (λ name. name) packs

-- Without a time the order of the day is unknown.
unresolved :
    resolved_latest
      (bought 1 2990 100 none 1 per_package ∷ bought 5 2490 100 (some 9) 1 per_package ∷ [])
    ≡ none
unfolding resolved_latest decimal_le
unresolved = refl

ages :
    map (λ day. age_label (some day) 200) (170 ∷ 169 ∷ 110 ∷ 109 ∷ [])
    ≡ some recent ∷ some older ∷ some older ∷ some old ∷ []
unfolding age_label
ages = refl
