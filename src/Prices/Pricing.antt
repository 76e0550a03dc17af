-- ===== src/Prices/Pricing.antt =====
-- backend/app/domain/pricing.py: whether a line's price can be compared, and the price.
-- A UUID is a number.
use prislapp.Prelude.{
  Bool, List, Option, [], any, false, if◌then◌else◌, none, not, some, true, ℕ, ◌&&◌, ◌++◌, ◌==◌,
  ◌||◌, ◌∷◌,
}
use prislapp.ListCopy.{LineType, product}
use prislapp.Prelude.Arithmetic.{decimal_le, multiply}
use prislapp.Prelude.Decimal.{Decimal, not_positive}
use prislapp.Prelude.Text.{Text}
use prislapp.Prices.Money.{
  Computed, computed, invalid_operation, per_package_price, per_quantity_price, value_error,
}
use prislapp.Units.{QuantityUnit, each, g, kg, l, ml, normalize_quantity, unknown}

pub data PriceBasis : Type 0 where
  per_package per_kg per_litre unknown_basis : PriceBasis

pub data Condition : Type 0 where
  no_condition member multi_buy coupon condition_unknown : Condition

pub data DatePrecision : Type 0 where
  to_date to_datetime precision_unknown : DatePrecision

-- backend/app/models/user_product.py
pub data IdentityStatus : Type 0 where
  identity_confirmed identity_unresolved identity_inherited : IdentityStatus

pub data ExclusionReason : Type 0 where
  non_product_line non_nok unresolved_identity conditional : ExclusionReason
  unknown_condition unknown_discount unknown_unit unknown_quantity : ExclusionReason
  non_positive_quantity unknown_date : ExclusionReason

pub record PricingLine : Type 0 where
  pub line_type : LineType
  pub currency : Option Text
  pub quantity : Option Decimal
  pub quantity_unit : QuantityUnit
  pub package_count : Option Decimal
  pub net_line_total : Option Decimal
  pub printed_unit_price : Option Decimal
  pub condition : Condition
  pub user_product_id : Option ℕ
  pub identity_status : Option IdentityStatus
  pub date_precision : DatePrecision
  pub pack_content : Option Decimal
  pub pack_unit : QuantityUnit

pub record PricingResult : Type 0 where
  pub eligible : Bool
  pub comparison_price : Option Decimal
  pub price_basis : PriceBasis
  pub exclusion_reasons : List ExclusionReason
  pub eligible_for_dated_ranking : Bool

pub record PackageIdentity : Type 0 where
  pub pack_content : Option Decimal
  pub pack_unit : QuantityUnit

-- `==` of two quantities, which compares numbers, and of two units.
abbrev same_decimal : Decimal → Decimal → Bool
same_decimal a b = decimal_le a b && decimal_le b a

abbrev pub unit_code : QuantityUnit → ℕ
unit_code each = 0
unit_code kg = 1
unit_code g = 2
unit_code l = 3
unit_code ml = 4
unit_code unknown = 5

abbrev same_quantity : Decimal × QuantityUnit → Decimal × QuantityUnit → Bool
same_quantity (m, u) (n, v) = same_decimal m n && unit_code u == unit_code v

-- One step of the loop: `none` is the `return False`.
abbrev normalized_package : PackageIdentity → Option (Computed (Decimal × QuantityUnit))
normalized_package identity =
    if unit_code identity.pack_unit == unit_code unknown then none else elim identity.pack_content [
      | none ↦ none
      | some content ↦ some (elim (normalize_quantity content identity.pack_unit) [
        | none ↦ invalid_operation
        | some normalized ↦ computed normalized
      ])
    ]

unfoldable pub same_package_minimum : PackageIdentity → PackageIdentity → Computed Bool
same_package_minimum left right = compare_with (normalized_package left) (normalized_package right)
  where
    compare_with :
        Option (Computed (Decimal × QuantityUnit))
        → Option (Computed (Decimal × QuantityUnit))
        → Computed Bool
    compare_with none _ = computed false
    compare_with (some (computed m)) none = computed false
    compare_with (some (computed m)) (some (computed n)) = computed (same_quantity m n)
    compare_with (some (computed m)) (some value_error) = value_error
    compare_with (some (computed m)) (some invalid_operation) = invalid_operation
    compare_with (some value_error) _ = value_error
    compare_with (some invalid_operation) _ = invalid_operation

pub record Divisor : Type 0 where
  pub price_basis : PriceBasis
  pub divisor : Option Decimal
  pub reason : Option ExclusionReason

-- The two tests at the end of `_basis_and_divisor`.
abbrev pub checked_divisor : PriceBasis → Option Decimal → Divisor
checked_divisor basis none = record {
  price_basis = basis;
  divisor = none;
  reason = some unknown_quantity;
}
checked_divisor basis (some d) =
    if not_positive d
    then record { price_basis = basis; divisor = none; reason = some non_positive_quantity }
    else record { price_basis = basis; divisor = some d; reason = none }

abbrev pub measured_with : PriceBasis → Option (Decimal × QuantityUnit) → Computed Divisor
measured_with basis none = invalid_operation
measured_with basis (some (amount, _)) = computed (checked_divisor basis (some amount))

abbrev pub measured : PriceBasis → Option Decimal → QuantityUnit → Computed Divisor
measured basis none unit = computed (checked_divisor basis none)
measured basis (some quantity) unit = measured_with basis (normalize_quantity quantity unit)

-- `line.package_count if line.package_count is not None else line.quantity`
abbrev pub packages : PricingLine → Option Decimal
packages line = elim line.package_count [ none ↦ line.quantity | some n ↦ some n ]

abbrev pub basis_and_divisor : PricingLine → QuantityUnit → Computed Divisor
basis_and_divisor line unknown =
    computed (record { price_basis = unknown_basis; divisor = none; reason = some unknown_unit })
basis_and_divisor line each = computed (checked_divisor per_package (packages line))
basis_and_divisor line kg = measured per_kg line.quantity kg
basis_and_divisor line g = measured per_kg line.quantity g
basis_and_divisor line l = measured per_litre line.quantity l
basis_and_divisor line ml = measured per_litre line.quantity ml

abbrev pub is_product : LineType → Bool
is_product product = true
is_product _ = false

-- `(currency or "").upper() == "NOK"`; no other characters have these letters as upper case.
abbrev pub is_nok : Option Text → Bool
is_nok (some (n ∷ o ∷ k ∷ [])) =
    (n == 78 || n == 110) && (o == 79 || o == 111) && (k == 75 || k == 107)
is_nok _ = false

-- A user product whose status is in `RANKABLE_IDENTITY_STATUSES`.
abbrev pub is_rankable_identity : Option ℕ → Option IdentityStatus → Bool
is_rankable_identity (some _) (some identity_confirmed) = true
is_rankable_identity _ _ = false

abbrev pub reason_if : Bool → ExclusionReason → List ExclusionReason
reason_if true reason = reason ∷ []
reason_if false reason = []

abbrev pub condition_reasons : Condition → List ExclusionReason
condition_reasons condition_unknown = unknown_condition ∷ []
condition_reasons no_condition = []
condition_reasons _ = conditional ∷ []

abbrev pub qualification_reasons : PricingLine → List ExclusionReason
qualification_reasons line =
    reason_if (not (is_product line.line_type)) non_product_line
    ++ (reason_if (not (is_nok line.currency)) non_nok
        ++ (reason_if (not (is_rankable_identity line.user_product_id line.identity_status))
              unresolved_identity
            ++ condition_reasons line.condition))

abbrev pub quantity_reasons : Option ExclusionReason → List ExclusionReason
quantity_reasons none = []
quantity_reasons (some reason) = reason ∷ []

abbrev pub discount_reasons : Option Decimal → List ExclusionReason
discount_reasons none = unknown_discount ∷ []
discount_reasons (some _) = []

abbrev pub is_non_nok : ExclusionReason → Bool
is_non_nok non_nok = true
is_non_nok _ = false

abbrev pub is_dated : DatePrecision → Bool
is_dated precision_unknown = false
is_dated _ = true

abbrev pub no_reasons : List ExclusionReason → Bool
no_reasons [] = true
no_reasons (_ ∷ _) = false

abbrev pub priced_by : PriceBasis → Decimal → Decimal → Computed Decimal
priced_by per_package total divisor = per_package_price total divisor
priced_by _ total divisor = per_quantity_price total divisor

abbrev pub as_known : Computed Decimal → Computed (Option Decimal)
as_known (computed price) = computed (some price)
as_known value_error = value_error
as_known invalid_operation = invalid_operation

-- The comparison price where it can be computed.
abbrev pub price_of :
    Option Decimal → Option Decimal → Bool → PriceBasis → Computed (Option Decimal)
price_of (some divisor) (some total) false basis = as_known (priced_by basis total divisor)
price_of _ _ _ _ = computed none

-- The rest of `evaluate_line`, with the reasons that are known before the date.
abbrev pub concluded :
    PricingLine
    → Divisor
    → List ExclusionReason
    → Computed (Option Decimal)
    → Computed PricingResult
concluded line d reasons (computed price) = computed (record {
  eligible = no_reasons reasons;
  comparison_price = price;
  price_basis = d.price_basis;
  exclusion_reasons = reasons ++ reason_if (not (is_dated line.date_precision)) unknown_date;
  eligible_for_dated_ranking = no_reasons reasons && is_dated line.date_precision;
})
concluded line d reasons value_error = value_error
concluded line d reasons invalid_operation = invalid_operation

-- The reasons that are known before the date.
abbrev pub known_reasons : PricingLine → Divisor → List ExclusionReason
known_reasons line d =
    qualification_reasons line
    ++ (quantity_reasons d.reason ++ discount_reasons line.net_line_total)

abbrev pub evaluated : PricingLine → Divisor → Computed PricingResult
evaluated line d =
    concluded line d (known_reasons line d)
      (price_of d.divisor line.net_line_total (any is_non_nok (known_reasons line d)) d.price_basis)

abbrev pub evaluated_if : PricingLine → Computed Divisor → Computed PricingResult
evaluated_if line (computed d) = evaluated line d
evaluated_if line value_error = value_error
evaluated_if line invalid_operation = invalid_operation

unfoldable pub evaluate_line : PricingLine → Computed PricingResult
evaluate_line line = evaluated_if line (basis_and_divisor line line.quantity_unit)

abbrev standard_basis : QuantityUnit → PriceBasis
standard_basis kg = per_kg
standard_basis _ = per_litre

abbrev standardized_at : PriceBasis → Computed Decimal → Computed (PriceBasis × Option Decimal)
standardized_at basis (computed price) = computed (basis, some price)
standardized_at basis value_error = value_error
standardized_at basis invalid_operation = invalid_operation

abbrev pub standardized_with :
    Decimal → Decimal → Option (Decimal × QuantityUnit) → Computed (PriceBasis × Option Decimal)
standardized_with total n none = invalid_operation
standardized_with total n (some (content, unit)) =
    standardized_at (standard_basis unit) (per_quantity_price total (multiply n content))

abbrev pub standardized :
    Option Decimal
    → Option Decimal
    → Option Decimal
    → QuantityUnit
    → Computed (PriceBasis × Option Decimal)
standardized content total n unknown = computed (unknown_basis, none)
standardized content total n each = computed (unknown_basis, none)
standardized (some content) (some total) (some n) unit =
    if not_positive n || not_positive content
    then computed (unknown_basis, none)
    else standardized_with total n (normalize_quantity content unit)
standardized _ _ _ _ = computed (unknown_basis, none)

unfoldable pub standardized_quantity_price : PricingLine → Computed (PriceBasis × Option Decimal)
standardized_quantity_price line =
    standardized line.pack_content line.net_line_total (packages line) line.pack_unit
