-- ===== src/ShoppingList/Queries.antt =====
-- The lookups of shopping_list_service.py.
use Prim.Native.Nat.{max}
use Prim.Native.Nat.{max}
use prislapp.Prelude.{
  Bool, List, Option, [], any, count, false, filter, find?, if◌then◌else◌, is_some, leb, ltb, none,
  not, some, true, ℕ, ◌&&◌, ◌+◌, ◌==◌, ◌||◌, ◌∷◌,
}
use prislapp.Prelude.Sort.{sort_by}
use prislapp.ShoppingList.Exec.{Outcome, ok, rejected}
use prislapp.ShoppingList.Model.{
  Db, ShoppingList, ShoppingListItem, ShoppingListStatus, active, archived, duplicate_id,
  list_archived, list_deleted, not_found, of_list,
}
use prislapp.ShoppingList.Responses.{list_response}

abbrev pub found {ℓ} : {A : Type ℓ} → Option A → Outcome A
found none = rejected not_found
found (some a) = ok a

abbrev pub has_list_key : ℕ → ℕ → ShoppingList → Bool
has_list_key user_id list_id row = row.id == list_id && row.user_id == user_id

-- `_list_row`
unfoldable pub list_row : ℕ → ℕ → Db → Outcome ShoppingList
list_row user_id list_id db = found (find? (has_list_key user_id list_id) db.lists)

abbrev is_archived : ShoppingListStatus → Bool
is_archived archived = true
is_archived active = false

-- `_mutable_list`
unfoldable pub mutable_list : ℕ → ℕ → Db → Outcome ShoppingList
unfolding list_row list_response
mutable_list user_id list_id db = elim (list_row user_id list_id db) [
  | ok row ↦
      if is_some row.deleted_at
      then rejected (list_deleted (of_list (list_response row [])))
      else if is_archived row.status
      then rejected (list_archived (of_list (list_response row [])))
      else ok row
  | other ↦ other
]

abbrev pub has_item_key : ℕ → ℕ → ℕ → ShoppingListItem → Bool
has_item_key user_id list_id item_id row =
    row.id == item_id && row.list_id == list_id && row.user_id == user_id

-- `_item_row`
unfoldable pub item_row : ℕ → ℕ → ℕ → Db → Outcome ShoppingListItem
item_row user_id list_id item_id db = found (find? (has_item_key user_id list_id item_id) db.items)

abbrev pub is_active_in : ℕ → ShoppingListItem → Bool
is_active_in list_id row = row.list_id == list_id && not (is_some row.deleted_at)

abbrev pub by_position : ShoppingListItem → ShoppingListItem → Bool
by_position a b = ltb a.position b.position || (a.position == b.position && leb a.id b.id)

-- `_items`
unfoldable pub active_items : ℕ → Db → List ShoppingListItem
unfolding sort_by
active_items list_id db = sort_by by_position (filter (is_active_in list_id) db.items)

-- `_active_item_count`
abbrev pub active_item_count : ℕ → Db → ℕ
active_item_count list_id db = count (is_active_in list_id) db.items

-- `_next_position`: one past the highest position of an active line.
next_position_of : List ShoppingListItem → ℕ → ℕ
next_position_of [] list_id = 0
next_position_of (row ∷ rows) list_id =
    let rest = next_position_of rows list_id in
    if is_active_in list_id row then max (row.position + 1) rest else rest

unfoldable pub next_position : ℕ → Db → ℕ
unfolding next_position_of
next_position list_id db = next_position_of db.items list_id

-- `_assert_owned_product`
unfoldable pub assert_owned_product : ℕ → Option ℕ → Db → Outcome (Unit {0})
assert_owned_product user_id none db = ok tt
assert_owned_product user_id (some product_id) db =
    if any (λ row. row.id == product_id && row.user_id == user_id) db.products
    then ok tt
    else rejected not_found

abbrev pub owner_conflict : Option ℕ → ℕ → Outcome (Unit {0})
owner_conflict none user_id = ok tt
owner_conflict (some owner) user_id =
    if owner == user_id then rejected duplicate_id else rejected not_found

abbrev list_owner : ℕ → List ShoppingList → Option ℕ
list_owner row_id [] = none
list_owner row_id (row ∷ rows) =
    if row.id == row_id then some row.user_id else list_owner row_id rows

abbrev item_owner : ℕ → List ShoppingListItem → Option ℕ
item_owner row_id [] = none
item_owner row_id (row ∷ rows) =
    if row.id == row_id then some row.user_id else item_owner row_id rows

-- `_assert_free_id` on the two tables, where the request brings an id.
unfoldable pub assert_free_list_id : ℕ → Option ℕ → Db → Outcome (Unit {0})
assert_free_list_id user_id none db = ok tt
assert_free_list_id user_id (some id) db = owner_conflict (list_owner id db.lists) user_id

unfoldable pub assert_free_item_id : ℕ → Option ℕ → Db → Outcome (Unit {0})
assert_free_item_id user_id none db = ok tt
assert_free_item_id user_id (some id) db = owner_conflict (item_owner id db.items) user_id
