-- ===== src/ListCopy.antt =====
-- backend/app/domain/list_copy.py: from list and receipt lines to the values of new list lines.
-- Ids are numbers in the order of their `str`; the unit and line-type columns hold their enums.
pub mod Laws
use prislapp.Prelude.{
  ℕ, Bool, false, ◌&&◌, ◌||◌, not, Option, none, some, List, [], ◌∷◌, any, ltb, leb, ◌==◌,
  if◌then◌else◌,
}
use prislapp.Prelude.Sort.{sort_by}
use prislapp.Prelude.Text.{Text, strip, is_empty, text_le}
use prislapp.Prelude.Decimal.{Decimal, whole}
use prislapp.Units.{QuantityUnit, each, unknown}

pub data LineType : Type 0 where
  product deposit fee discount return_line unknown_type : LineType

pub record SourceListLine : Type 0 where
  pub id : ℕ
  pub user_product_id : Option ℕ
  pub free_text : Option Text
  pub quantity : Decimal
  pub quantity_unit : QuantityUnit
  pub checked : Bool
  pub position : ℕ
  pub deleted : Bool

pub record SourceReceiptLine : Type 0 where
  pub line_type : LineType
  pub raw_product_name : Text
  pub user_product_id : Option ℕ
  pub quantity : Option Decimal
  pub quantity_unit : Option QuantityUnit
  pub deleted : Bool
  pub position : ℕ

pub record MappedListLine : Type 0 where
  pub user_product_id : Option ℕ
  pub free_text : Option Text
  pub quantity : Decimal
  pub quantity_unit : QuantityUnit

-- `Decimal("1")` and `each`
abbrev pub default_wanted : Decimal × QuantityUnit
default_wanted = (whole 1, each)

abbrev wanted_in : Option Decimal → QuantityUnit → Decimal × QuantityUnit
wanted_in none _ = default_wanted
wanted_in (some _) unknown = default_wanted
wanted_in (some q) unit = (q, unit)

unfoldable pub resolve_wanted_quantity :
    Option Decimal → Option QuantityUnit → Decimal × QuantityUnit
resolve_wanted_quantity quantity none = wanted_in quantity unknown
resolve_wanted_quantity quantity (some unit) = wanted_in quantity unit

abbrev pub by_position_and_id : SourceListLine → SourceListLine → Bool
by_position_and_id a b = ltb a.position b.position || (a.position == b.position && leb a.id b.id)

abbrev pub copy_line : SourceListLine → MappedListLine
copy_line line = record {
  user_product_id = line.user_product_id;
  free_text = line.free_text;
  quantity = line.quantity;
  quantity_unit = line.quantity_unit;
}

-- The loop over the sorted lines, with its two `continue`s.
copy_loop : Bool → List SourceListLine → List MappedListLine
copy_loop unchecked_only [] = []
copy_loop unchecked_only (line ∷ lines) =
    let rest = copy_loop unchecked_only lines in
    if line.deleted
    then rest
    else if unchecked_only && line.checked
    then rest
    else copy_line line ∷ rest

unfoldable pub copy_list_lines : List SourceListLine → Bool → List MappedListLine
unfolding copy_loop sort_by
copy_list_lines lines unchecked_only = copy_loop unchecked_only (sort_by by_position_and_id lines)

abbrev pub by_position_and_name : SourceReceiptLine → SourceReceiptLine → Bool
by_position_and_name a b =
    ltb a.position b.position
    || (a.position == b.position && text_le a.raw_product_name b.raw_product_name)

abbrev pub is_product : LineType → Bool
is_product product = Bool.true
is_product _ = false

-- "Vare"
abbrev pub fallback_name : Text
fallback_name = b'V' ∷ b'a' ∷ b'r' ∷ b'e' ∷ []

abbrev pub or_fallback : Text → Text
or_fallback name = if is_empty name then fallback_name else name

abbrev pub owned : Option ℕ → List ℕ → Bool
owned none _ = false
owned (some id) ids = any (λ own. own == id) ids

unfoldable pub map_line : List ℕ → SourceReceiptLine → MappedListLine
unfolding resolve_wanted_quantity strip
map_line owned_product_ids line =
    let wanted = resolve_wanted_quantity line.quantity line.quantity_unit in
    if owned line.user_product_id owned_product_ids
    then record {
      user_product_id = line.user_product_id;
      free_text = none;
      quantity = wanted.0;
      quantity_unit = wanted.1;
    }
    else record {
      user_product_id = none;
      free_text = some (or_fallback (strip line.raw_product_name));
      quantity = wanted.0;
      quantity_unit = wanted.1;
    }

map_loop : List ℕ → List SourceReceiptLine → List MappedListLine
unfolding map_line
map_loop owned_product_ids [] = []
map_loop owned_product_ids (line ∷ lines) =
    let rest = map_loop owned_product_ids lines in
    if line.deleted
    then rest
    else if not (is_product line.line_type)
    then rest
    else map_line owned_product_ids line ∷ rest

unfoldable pub map_receipt_lines : List SourceReceiptLine → List ℕ → List MappedListLine
unfolding map_loop sort_by
map_receipt_lines lines owned_product_ids =
    map_loop owned_product_ids (sort_by by_position_and_name lines)
