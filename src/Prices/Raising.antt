-- ===== src/Prices/Raising.antt =====
-- backend/app/domain/pricing.py: where a computation raises `ValueError`.
use mathlib.Core.Path.{subst}
use prislapp.Prelude.{Bool, List, Option, any, false, inl, inr, none, refl, some, true, ◌≡◌, ◌≢◌}
use prislapp.Prelude.Arithmetic.{divide, multiply_zero}
use prislapp.Prelude.Decimal.{Decimal, not_positive, quantize}
use prislapp.Prices.Money.{
  Computed, computed, invalid_operation, per_package_price, per_quantity_price, quantized,
  value_error,
}
use prislapp.Prices.Pricing.{
  Divisor, ExclusionReason, PriceBasis, PricingLine, as_known, basis_and_divisor, concluded,
  evaluate_line, evaluated_if, is_non_nok, known_reasons, measured, measured_with, packages, per_kg,
  per_litre, per_package, price_of, priced_by, standardized_quantity_price, unknown_basis,
}
use prislapp.Prices.Qualification.{IsDivisor, basis_and_divisor-IsDivisor, has_amount}
use prislapp.Units.{QuantityUnit, each, g, kg, l, ml, normalize_quantity, unknown}

quantized-not_value_error : (o : Option Decimal) → quantized o ≢ value_error
quantized-not_value_error none e = cc e
quantized-not_value_error (some d) e = cc e

priced_by-not_value_error :
    (basis : PriceBasis) (total d : Decimal)
    → not_positive d ≡ false
    → priced_by basis total d ≢ value_error
unfolding per_package_price per_quantity_price
priced_by-not_value_error per_package total d h e =
    quantized-not_value_error (quantize 6 (divide total d)) (rw h at e)
priced_by-not_value_error per_kg total d h e =
    quantized-not_value_error (quantize 6 (divide total d)) (rw h at e)
priced_by-not_value_error per_litre total d h e =
    quantized-not_value_error (quantize 6 (divide total d)) (rw h at e)
priced_by-not_value_error unknown_basis total d h e =
    quantized-not_value_error (quantize 6 (divide total d)) (rw h at e)

as_known-not_value_error : (c : Computed Decimal) → c ≢ value_error → as_known c ≢ value_error
as_known-not_value_error (computed p) h e = cc e
as_known-not_value_error value_error h e = h refl
as_known-not_value_error invalid_operation h e = cc e

price_of-not_value_error :
    (o total : Option Decimal) (skip : Bool) (basis : PriceBasis)
    → ((d : Decimal) → o ≡ some d → not_positive d ≡ false)
    → price_of o total skip basis ≢ value_error
price_of-not_value_error none total skip basis h e = cc e
price_of-not_value_error (some d) none skip basis h e = cc e
price_of-not_value_error (some d) (some total) true basis h e = cc e
price_of-not_value_error (some d) (some total) false basis h e =
    as_known-not_value_error (priced_by basis total d)
      (priced_by-not_value_error basis total d (h d refl)) e

IsDivisor-positive :
    (b : Bool) (d : Divisor)
    → IsDivisor b d
    → (n : Decimal) → d.divisor ≡ some n
    → not_positive n ≡ false
IsDivisor-positive b d (inl (_, _, m, same, pos)) n e =
    let alike : m ≡ n = cc (same, e) in subst (λ v. not_positive v ≡ false) alike pos
IsDivisor-positive b d (inr (_, _, _, nothing, _)) n e = cc (nothing, e)

measured_with-not_value_error :
    (basis : PriceBasis) (n : Option (Decimal × QuantityUnit)) → measured_with basis n ≢ value_error
measured_with-not_value_error basis none e = cc e
measured_with-not_value_error basis (some m) e = cc e

measured-not_value_error :
    (basis : PriceBasis) (q : Option Decimal) (unit : QuantityUnit)
    → measured basis q unit ≢ value_error
measured-not_value_error basis none unit e = cc e
measured-not_value_error basis (some q) unit e =
    measured_with-not_value_error basis (normalize_quantity q unit) e

basis_and_divisor-not_value_error :
    (line : PricingLine) (unit : QuantityUnit) → basis_and_divisor line unit ≢ value_error
basis_and_divisor-not_value_error line unknown e = cc e
basis_and_divisor-not_value_error line each e = cc e
basis_and_divisor-not_value_error line kg e = measured-not_value_error per_kg line.quantity kg e
basis_and_divisor-not_value_error line g e = measured-not_value_error per_kg line.quantity g e
basis_and_divisor-not_value_error line l e = measured-not_value_error per_litre line.quantity l e
basis_and_divisor-not_value_error line ml e = measured-not_value_error per_litre line.quantity ml e

concluded-value_error :
    (line : PricingLine) (d : Divisor) (reasons : List ExclusionReason)
    (c : Computed (Option Decimal))
    → concluded line d reasons c ≡ value_error
    → c ≡ value_error
concluded-value_error line d reasons (computed p) e = cc e
concluded-value_error line d reasons value_error e = refl
concluded-value_error line d reasons invalid_operation e = cc e

-- Evaluating a line never divides by an amount that is not positive.
pub evaluate_line-not_value_error : (line : PricingLine) → evaluate_line line ≢ value_error
unfolding evaluate_line
evaluate_line-not_value_error line e = go (basis_and_divisor line line.quantity_unit) refl e
  where
    go :
        (c : Computed Divisor)
        → basis_and_divisor line line.quantity_unit ≡ c
        → evaluated_if line c ≢ value_error
    go (computed d) k f =
        price_of-not_value_error d.divisor line.net_line_total
          (any is_non_nok (known_reasons line d)) d.price_basis
          (IsDivisor-positive (has_amount line line.quantity_unit) d
            (basis_and_divisor-IsDivisor line line.quantity_unit k))
          (concluded-value_error line d (known_reasons line d) _ f)
    go value_error k f = basis_and_divisor-not_value_error line line.quantity_unit k
    go invalid_operation k f = cc f

-- The standardized price of a pack in grams whose content rounds to no kilograms raises
-- `ValueError`, although the content, the number of packages and the total are known and positive.
pub standardized_quantity_price-value_error :
    (line : PricingLine) {content total n kilograms : Decimal} {unit : QuantityUnit}
    → line.pack_unit ≡ g
    → line.pack_content ≡ some content
    → line.net_line_total ≡ some total
    → packages line ≡ some n
    → not_positive content ≡ false
    → not_positive n ≡ false
    → normalize_quantity content g ≡ some (kilograms, unit)
    → kilograms.digits ≡ 0
    → standardized_quantity_price line ≡ value_error
unfolding standardized_quantity_price per_quantity_price
standardized_quantity_price-value_error line {n = n} {kilograms = kilograms} u c t k p q e z =
    rw (u, c, t, k, p, q, e, multiply_zero n kilograms z) refl
