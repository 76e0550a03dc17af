-- ===== src/Tests/Copying.antt =====
-- backend/app/domain/list_copy.py and the checks of backend/app/services/shopping_list_service.py on
-- a few lines.
use prislapp.Prelude.{
  All, List, Perm, [], false, filter, map, none, refl, some, true, ◌*◌, ◌-◌, ◌^◌, ◌∷◌, ◌≡◌,
}
use prislapp.ListCopy.{
  LineType, SourceListLine, SourceReceiptLine, by_position_and_id, copy_line, copy_list_lines,
  fallback_name, map_receipt_lines,
}
use prislapp.ListCopy.Laws.{
  HasReference, copy_list_lines_ordered, is_copied, map_receipt_lines-HasReference,
}
use prislapp.Prelude.Decimal.{Decimal, not_positive, whole}
use prislapp.Prelude.Sort.{IsSorted}
use prislapp.ShoppingList.Exec.{invalid_operation, ok}
use prislapp.ShoppingList.Validation.{HasOneReference, validated_quantity, validated_reference}
use prislapp.ShoppingList.Validation.Checked.{validated_quantity-positive, validated_reference-one}
use prislapp.Tests.ShoppingLists.{milk}
use prislapp.Units.{each, unknown}

abbrev bread : SourceListLine
bread = record {
  id = 10;
  user_product_id = some 40;
  free_text = none;
  quantity = whole 1;
  quantity_unit = each;
  checked = true;
  position = 1;
  deleted = false;
}

abbrev source_lines : List SourceListLine
source_lines = bread ∷ record bread { id = 11; checked = false; position = 0 } ∷ []

copy_list_lines_ordered_example :
    (ordered : List SourceListLine) × Perm ordered source_lines
    × IsSorted by_position_and_id ordered
    × (copy_list_lines source_lines true ≡ map copy_line (filter (is_copied true) ordered))
copy_list_lines_ordered_example = copy_list_lines_ordered source_lines true

copied : copy_list_lines source_lines true ≡ copy_line bread ∷ []
unfolding copy_list_lines
copied = refl

abbrev bag : SourceReceiptLine
bag = record {
  line_type = LineType.product;
  raw_product_name = 32 ∷ [];
  user_product_id = some 41;
  quantity = none;
  quantity_unit = some unknown;
  deleted = false;
  position = 0;
}

bag-HasReference : All (HasReference (40 ∷ [])) (map_receipt_lines (bag ∷ []) (40 ∷ []))
bag-HasReference = map_receipt_lines-HasReference (bag ∷ []) (40 ∷ [])

fallback :
    map_receipt_lines (bag ∷ []) (40 ∷ [])
    ≡ record {
      user_product_id = none;
      free_text = some fallback_name;
      quantity = whole 1;
      quantity_unit = each;
    }
      ∷ []
unfolding map_receipt_lines
fallback = refl

abbrev half : Decimal
half = record { negative = false; digits = 5; places = 1 }

abbrev padded_half : Decimal
padded_half = record { negative = false; digits = 500; places = 3 }

half_is_valid : validated_quantity half ≡ ok padded_half
unfolding validated_quantity
half_is_valid = refl

half_positive :
    (not_positive padded_half ≡ false)
    × (padded_half.places ≡ 3)
    × (padded_half.digits ≡ half.digits * 10 ^ (3 - half.places))
half_positive = validated_quantity-positive half padded_half half_is_valid

milk_is_valid : validated_reference none (some (32 ∷ milk)) ≡ ok (some milk)
unfolding validated_reference
milk_is_valid = refl

milk-HasOneReference : HasOneReference none (some milk)
milk-HasOneReference = validated_reference-one none (some (32 ∷ milk)) (some milk) milk_is_valid

-- Twenty-six digits do not fit the decimal context once they are padded.
too_long :
    validated_quantity (record { negative = false; digits = 10 ^ 25; places = 0 })
    ≡ invalid_operation
unfolding validated_quantity
too_long = refl

long_enough :
    validated_quantity (record { negative = false; digits = 10 ^ 24; places = 0 })
    ≡ ok (record { negative = false; digits = 10 ^ 27; places = 3 })
unfolding validated_quantity
long_enough = refl
