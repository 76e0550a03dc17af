-- ===== src/Prices/Money.antt =====
-- backend/app/domain/money.py: amounts per package and per quantity.
use prislapp.Prelude.{Option, if◌then◌else◌, none, some}
use prislapp.Prelude.Arithmetic.{divide}
use prislapp.Prelude.Decimal.{Decimal, not_positive, quantize}

-- A value, or the exception that the computation raises.
pub data Computed {ℓ} (A : Type ℓ) : Type ℓ where
  computed : A → Computed A
  value_error invalid_operation : Computed A

-- `InvalidOperation` where `quantize` raises it.
abbrev pub quantized : Option Decimal → Computed Decimal
quantized none = invalid_operation
quantized (some d) = computed d

-- `(total / divisor).quantize(COMPARISON_QUANTUM, rounding=ROUND_HALF_UP)`
abbrev pub comparison_amount : Decimal → Decimal → Computed Decimal
comparison_amount total divisor = quantized (quantize 6 (divide total divisor))

unfoldable pub per_package_price : Decimal → Decimal → Computed Decimal
per_package_price net_line_total package_count =
    if not_positive package_count
    then value_error
    else comparison_amount net_line_total package_count

unfoldable pub per_quantity_price : Decimal → Decimal → Computed Decimal
per_quantity_price net_line_total quantity =
    if not_positive quantity then value_error else comparison_amount net_line_total quantity
