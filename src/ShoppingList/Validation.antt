-- ===== src/ShoppingList/Validation.antt =====
-- The `_validated_…` methods of shopping_list_service.py.
pub mod Checked
use prislapp.Prelude.{Option, [], false, if◌then◌else◌, ltb, none, some, ℕ, ◌≡◌}
use prislapp.Prelude.Decimal.{Decimal, not_positive, quantize}
use prislapp.Prelude.Text.{Text, is_empty, strip}
use prislapp.ShoppingList.Exec.{Outcome, integrity_error, invalid_operation, ok, rejected}
use prislapp.ShoppingList.Model.{validation_error}

unfoldable pub validated_name : Text → Outcome Text
unfolding strip
validated_name name =
    let stripped = strip name in
    if is_empty stripped then rejected validation_error else ok stripped

-- `(free_text or "").strip() or None`
abbrev or_none : Text → Option Text
or_none text = if is_empty text then none else some text

abbrev stripped_text : Option Text → Option Text
stripped_text none = or_none (strip [])
stripped_text (some text) = or_none (strip text)

abbrev one_of : Option ℕ → Option Text → Outcome (Option Text)
one_of none none = rejected validation_error
one_of (some _) (some _) = rejected validation_error
one_of none (some text) = ok (some text)
one_of (some _) none = ok none

-- Either a product or a free text.
unfoldable pub validated_reference : Option ℕ → Option Text → Outcome (Option Text)
unfolding strip
validated_reference user_product_id free_text = one_of user_product_id (stripped_text free_text)

-- Over zero, with at most three decimals; padded to three. A number too long for the decimal
-- context ends in `InvalidOperation`.
unfoldable pub validated_quantity : Decimal → Outcome Decimal
unfolding quantize
validated_quantity quantity =
    if not_positive quantity
    then rejected validation_error
    else if ltb 3 quantity.places
    then rejected validation_error
    else elim (quantize 3 quantity) [ none ↦ invalid_operation | some q ↦ ok q ]

-- A field that the request leaves out stays as it is.
abbrev pub optional_name : Option Text → Outcome (Option Text)
optional_name none = ok none
optional_name (some name) = elim (validated_name name) [
  | ok stripped ↦ ok (some stripped)
  | rejected r ↦ rejected r
  | integrity_error ↦ integrity_error
  | invalid_operation ↦ invalid_operation
]

abbrev pub optional_quantity : Option Decimal → Outcome (Option Decimal)
optional_quantity none = ok none
optional_quantity (some quantity) = elim (validated_quantity quantity) [
  | ok q ↦ ok (some q)
  | rejected r ↦ rejected r
  | integrity_error ↦ integrity_error
  | invalid_operation ↦ invalid_operation
]

-- The name that is given, or the one that stands without it.
abbrev pub name_or : Text → Option Text → Outcome Text
name_or standing none = ok standing
name_or standing (some name) = validated_name name

-- One product or one free text that is not empty, never both.
abbrev pub HasOneReference : Option ℕ → Option Text → Type 0
HasOneReference none none = ⊥
HasOneReference none (some text) = is_empty text ≡ false
HasOneReference (some _) none = Unit
HasOneReference (some _) (some _) = ⊥
