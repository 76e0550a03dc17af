-- ===== src/ShoppingList/Copies.antt =====
-- `_copy_list`, `_create_list_from_receipt` and `_materialize_mapped_list` of
-- shopping_list_service.py, with the receipt lookups below them.
pub mod Ensures
use prislapp.Prelude.{
  Bool, List, Option, [], false, filter, find?, if◌then◌else◌, is_some, leb, length, ltb, map, none,
  some, true, ℕ, ◌&&◌, ◌+◌, ◌==◌, ◌||◌, ◌∷◌,
}
use prislapp.ListCopy.{
  MappedListLine, SourceListLine, SourceReceiptLine, copy_list_lines, map_receipt_lines,
}
use prislapp.Prelude.Decimal.{Decimal}
use prislapp.Prelude.Sort.{sort_by}
use prislapp.Prelude.Text.{Text}
use prislapp.ShoppingList.Exec.{
  Applied, Env, Exec, Outcome, fresh_id, id_or_fresh, now, ok, pure, query, refuse_if, rejected,
  ◌>>=◌, ◌>>◌,
}
use prislapp.ShoppingList.Lists.{new_list}
use prislapp.ShoppingList.Model.{
  Db, ListCopyRequest, ListFromReceiptRequest, Receipt, ReceiptItem, ReceiptRevision,
  ReceiptRevisionLine, ReceiptStatus, ShoppingList, ShoppingListItem, confirmed, item_limit,
  max_active_items, not_found, of_list,
}
use prislapp.ShoppingList.Queries.{active_items, assert_free_list_id, list_row}
use prislapp.ShoppingList.Responses.{list_response}
use prislapp.ShoppingList.Sequence.{insert_item, insert_list, next_sequence, save_list, touched}
use prislapp.ShoppingList.Validation.{name_or, validated_quantity, validated_reference}

unfoldable pub source_list_line : ShoppingListItem → SourceListLine
source_list_line item = record {
  id = item.id;
  user_product_id = item.user_product_id;
  free_text = item.free_text;
  quantity = item.quantity;
  quantity_unit = item.quantity_unit;
  checked = item.checked;
  position = item.position;
  deleted = is_some item.deleted_at;
}

-- The free text that a new line gets: none beside a product, else the validated one.
abbrev pub line_text : MappedListLine → Outcome (Option Text)
line_text line =
    if is_some line.user_product_id then ok none else validated_reference none line.free_text

abbrev pub mapped_item :
    ℕ → ℕ → ℕ → Option Text → Decimal → MappedListLine → ℕ → ℕ → ℕ → ShoppingListItem
mapped_item id user_id list_id free_text quantity line position seq time = record {
  id = id;
  user_id = user_id;
  list_id = list_id;
  user_product_id = line.user_product_id;
  free_text = free_text;
  quantity = quantity;
  quantity_unit = line.quantity_unit;
  checked = false;
  position = position;
  version = 1;
  sync_seq = seq;
  created_at = time;
  updated_at = time;
  deleted_at = none;
}

-- One round of the loop: the line's row is added and the list is touched.
unfoldable pub materialize_line :
    Env → ℕ → ShoppingList → ℕ → ℕ → MappedListLine → Exec (ShoppingList × ShoppingListItem)
materialize_line env user_id row time position line = do
  seq ← next_sequence user_id
  id ← fresh_id env
  free_text ← query (λ db. line_text line)
  quantity ← query (λ db. validated_quantity line.quantity)
  let item = mapped_item id user_id row.id free_text quantity line position seq time
  insert_item item
  touch_time ← now env
  let touched_row = touched row seq false touch_time
  save_list touched_row
  pure (touched_row, item)

unfoldable pub materialize_lines :
    Env
    → ℕ
    → ShoppingList
    → ℕ
    → ℕ
    → List MappedListLine
    → Exec (ShoppingList × List ShoppingListItem)
unfolding materialize_line
materialize_lines env user_id row time position [] = pure (row, [])
materialize_lines env user_id row time position (line ∷ lines) = do
  (row', item) ← materialize_line env user_id row time position line
  (row'', items) ← materialize_lines env user_id row' time (position + 1) lines
  pure (row'', item ∷ items)

unfoldable pub materialize_mapped_list :
    Env → ℕ → Text → Option ℕ → List MappedListLine → Exec Applied
unfolding materialize_lines
materialize_mapped_list env user_id name list_id mapped = do
  query (assert_free_list_id user_id list_id)
  query (λ db. refuse_if (ltb max_active_items (length mapped)) item_limit)
  seq ← next_sequence user_id
  time ← now env
  id ← id_or_fresh env list_id
  let row = new_list id user_id name seq time
  insert_list row
  (row', items) ← materialize_lines env user_id row time 0 mapped
  pure (record { response = of_list (list_response row' items); list_id = id; item_id = none })

unfoldable pub copy_list_handler : Env → ℕ → ℕ → ListCopyRequest → Exec Applied
copy_list_handler env user_id list_id request = do
  source ← query (list_row user_id list_id)
  query (λ db. refuse_if (is_some source.deleted_at) not_found)
  mapped ← query (λ db.
      ok (copy_list_lines (map source_list_line (active_items list_id db)) request.unchecked_only))
  name ← query (λ db. name_or source.name request.name)
  materialize_mapped_list env user_id name request.id mapped

abbrev is_confirmed_status : ReceiptStatus → Bool
is_confirmed_status confirmed = true
is_confirmed_status _ = false

abbrev when_confirmed : Receipt → Outcome Receipt
when_confirmed receipt =
    if is_confirmed_status receipt.status then ok receipt else rejected not_found

-- `_confirmed_owned_receipt`
unfoldable pub confirmed_owned_receipt : ℕ → ℕ → Db → Outcome Receipt
confirmed_owned_receipt user_id receipt_id db =
    elim (find? (λ row. row.id == receipt_id && row.user_id == user_id) db.receipts) [
      | none ↦ rejected not_found
      | some receipt ↦ when_confirmed receipt
    ]

abbrev is_revision_of : Receipt → ReceiptRevision → Bool
is_revision_of receipt row =
    row.receipt_id == receipt.id && row.user_id == receipt.user_id && row.is_confirmed

abbrev newest_revision_first : ReceiptRevision → ReceiptRevision → Bool
newest_revision_first a b = leb b.revision a.revision

-- `_latest_confirmed_revision`
unfoldable pub latest_confirmed_revision : Receipt → Db → Option ReceiptRevision
unfolding sort_by
latest_confirmed_revision receipt db =
    elim (sort_by newest_revision_first (filter (is_revision_of receipt) db.revisions)) [
      | [] ↦ none
      | row ∷ _ ↦ some row
    ]

-- `_revision_source_line`; a revision line has neither `deleted_at` nor `deleted`.
abbrev revision_source_line : ReceiptRevisionLine → SourceReceiptLine
revision_source_line line = record {
  line_type = line.line_type;
  raw_product_name = line.raw_product_name;
  user_product_id = line.user_product_id;
  quantity = line.quantity;
  quantity_unit = some line.quantity_unit;
  deleted = false;
  position = line.position;
}

abbrev by_line_position : ReceiptRevisionLine → ReceiptRevisionLine → Bool
by_line_position a b = ltb a.position b.position || (a.position == b.position && leb a.id b.id)

abbrev by_item_id : ReceiptItem → ReceiptItem → Bool
by_item_id a b = leb a.id b.id

-- `enumerate` over the items of a receipt without a confirmed revision.
abbrev item_source_lines : ℕ → List ReceiptItem → List SourceReceiptLine
item_source_lines index [] = []
item_source_lines index (item ∷ rows) =
    record {
      line_type = item.line_type;
      raw_product_name = item.raw_product_name;
      user_product_id = none;
      quantity = some item.quantity;
      quantity_unit = some item.quantity_unit;
      deleted = false;
      position = index;
    }
    ∷ item_source_lines (index + 1) rows

-- `_source_receipt_lines`
unfoldable pub source_receipt_lines : Receipt → Db → List SourceReceiptLine
unfolding latest_confirmed_revision sort_by
source_receipt_lines receipt db = elim (latest_confirmed_revision receipt db) [
  | some revision ↦ map revision_source_line (
      sort_by by_line_position (filter (λ line. line.revision_id == revision.id) db.revision_lines))
  | none ↦
      item_source_lines 0
        (sort_by by_item_id (filter (λ item. item.receipt_id == receipt.id) db.receipt_items))
]

-- `_owned_product_ids`
abbrev pub owned_product_ids : ℕ → Db → List ℕ
owned_product_ids user_id db =
    map (λ row. row.id) (filter (λ row. row.user_id == user_id) db.products)

-- "Handleliste"
abbrev default_from_receipt_name : Text
default_from_receipt_name =
    b'H' ∷ b'a' ∷ b'n' ∷ b'd' ∷ b'l' ∷ b'e' ∷ b'l' ∷ b'i' ∷ b's' ∷ b't' ∷ b'e' ∷ []

unfoldable pub create_list_from_receipt_handler : Env → ℕ → ListFromReceiptRequest → Exec Applied
create_list_from_receipt_handler env user_id request = do
  receipt ← query (confirmed_owned_receipt user_id request.receipt_id)
  mapped ← query (λ db.
      ok (map_receipt_lines (source_receipt_lines receipt db) (owned_product_ids user_id db)))
  name ← query (λ db. name_or default_from_receipt_name request.name)
  materialize_mapped_list env user_id name request.id mapped
