-- ===== src/ShoppingList/Items.antt =====
-- `_create_item` and `_patch_item` of shopping_list_service.py.
pub mod Ensures
pub mod Versions
pub mod Answers
pub mod Limit
use prislapp.Prelude.{Option, false, is_some, leb, none, not, or_default, some, ℕ, ◌+◌, ◌==◌}
use prislapp.Prelude.Decimal.{Decimal}
use prislapp.Prelude.Text.{Text}
use prislapp.ShoppingList.Exec.{
  Applied, Env, Exec, id_or_fresh, is_set, now, ok, pure, query, refuse_if, stamp_if, ◌>>=◌, ◌>>◌,
}
use prislapp.ShoppingList.Model.{
  ItemCreateRequest, ItemPatchRequest, ShoppingListItem, item_deleted, item_limit, max_active_items,
  of_item, version_conflict,
}
use prislapp.ShoppingList.Queries.{
  active_item_count, assert_free_item_id, assert_owned_product, item_row, mutable_list,
  next_position,
}
use prislapp.ShoppingList.Responses.{item_response}
use prislapp.ShoppingList.Sequence.{insert_item, next_sequence, save_item, save_list, touched}
use prislapp.ShoppingList.Validation.{optional_quantity, validated_quantity, validated_reference}

abbrev pub new_item :
    ℕ → ℕ → ℕ → Option Text → Decimal → ItemCreateRequest → ℕ → ℕ → ℕ → ShoppingListItem
new_item id user_id list_id free_text quantity request position seq time = record {
  id = id;
  user_id = user_id;
  list_id = list_id;
  user_product_id = request.user_product_id;
  free_text = free_text;
  quantity = quantity;
  quantity_unit = request.quantity_unit;
  checked = request.checked;
  position = position;
  version = 1;
  sync_seq = seq;
  created_at = time;
  updated_at = time;
  deleted_at = none;
}

unfoldable pub create_item_handler : Env → ℕ → ℕ → ItemCreateRequest → Exec Applied
create_item_handler env user_id list_id request = do
  row ← query (mutable_list user_id list_id)
  free_text ← query (λ db. validated_reference request.user_product_id request.free_text)
  quantity ← query (λ db. validated_quantity request.quantity)
  query (assert_owned_product user_id request.user_product_id)
  query (assert_free_item_id user_id request.id)
  query (λ db. refuse_if (leb max_active_items (active_item_count list_id db)) item_limit)
  seq ← next_sequence user_id
  time ← now env
  id ← id_or_fresh env request.id
  position ← query (λ db. ok (or_default request.position (next_position list_id db)))
  let item = new_item id user_id list_id free_text quantity request position seq time
  insert_item item
  touch_time ← now env
  save_list (touched row seq false touch_time)
  pure (record { response = of_item (item_response item); list_id = list_id; item_id = some id })

-- The row with the fields that the request sets.
abbrev pub patched_item :
    ShoppingListItem → ItemPatchRequest → Option Decimal → ℕ → Option ℕ → ℕ → ShoppingListItem
patched_item item request quantity seq deleted_at time = record item {
  quantity = or_default quantity item.quantity;
  quantity_unit = or_default request.quantity_unit item.quantity_unit;
  checked = or_default request.checked item.checked;
  position = or_default request.position item.position;
  deleted_at = deleted_at;
  version = item.version + 1;
  sync_seq = seq;
  updated_at = time;
}

unfoldable pub patch_item_handler : Env → ℕ → ℕ → ℕ → ItemPatchRequest → Exec Applied
patch_item_handler env user_id list_id item_id request = do
  row ← query (mutable_list user_id list_id)
  item ← query (item_row user_id list_id item_id)
  query (λ db. refuse_if (is_some item.deleted_at) (item_deleted (of_item (item_response item))))
  query (λ db.
      refuse_if (not (request.expected_version == item.version))
        (version_conflict item.version (of_item (item_response item))))
  quantity ← query (λ db. optional_quantity request.quantity)
  seq ← next_sequence user_id
  deleted_at ← stamp_if env (is_set request.deleted) item.deleted_at
  time ← now env
  let patched = patched_item item request quantity seq deleted_at time
  touch_time ← now env
  save_item patched
  save_list (touched row seq false touch_time)
  pure (record {
    response = of_item (item_response patched);
    list_id = list_id;
    item_id = some item.id;
  })
