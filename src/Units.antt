-- ===== src/Units.antt =====
-- backend/app/domain/units.py: quantity units and their normalisation.
use prislapp.Prelude.{Option, false, none, some}
use prislapp.Prelude.Arithmetic.{multiply}
use prislapp.Prelude.Decimal.{Decimal, quantize}

pub data QuantityUnit : Type 0 where
  each kg g l ml unknown : QuantityUnit

-- The product is rounded to the 28 digits of the context.
abbrev times_thousandth : Decimal → Decimal
times_thousandth d = multiply d (record { negative = false; digits = 1; places = 3 })

abbrev pub converted : QuantityUnit → Option Decimal → Option (Decimal × QuantityUnit)
converted target none = none
converted target (some q) = some (q, target)

-- g to kg and ml to l, rounded to three places; `none` is the `InvalidOperation` of `quantize`.
unfoldable pub normalize_quantity : Decimal → QuantityUnit → Option (Decimal × QuantityUnit)
normalize_quantity quantity g = converted kg (quantize 3 (times_thousandth quantity))
normalize_quantity quantity ml = converted l (quantize 3 (times_thousandth quantity))
normalize_quantity quantity unit = some (quantity, unit)
