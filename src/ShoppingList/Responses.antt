-- ===== src/ShoppingList/Responses.antt =====
-- `item_response` and `list_response` of shopping_list_service.py. A decimal is shown by `str`, which
-- loses nothing, so the answer keeps the value.
use prislapp.Prelude.{List, is_some, map}
use prislapp.ShoppingList.Model.{ItemResponse, ListResponse, ShoppingList, ShoppingListItem}

unfoldable pub item_response : ShoppingListItem → ItemResponse
item_response item = record {
  id = item.id;
  user_product_id = item.user_product_id;
  free_text = item.free_text;
  quantity = item.quantity;
  quantity_unit = item.quantity_unit;
  checked = item.checked;
  position = item.position;
  version = item.version;
  deleted = is_some item.deleted_at;
}

unfoldable pub list_response : ShoppingList → List ShoppingListItem → ListResponse
unfolding item_response
list_response row rows = record {
  id = row.id;
  name = row.name;
  status = row.status;
  version = row.version;
  deleted = is_some row.deleted_at;
  content_revision = row.content_seq;
  created_at = row.created_at;
  updated_at = row.updated_at;
  items = map item_response rows;
}
