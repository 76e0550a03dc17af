-- ===== src/ShoppingList/Paging.antt =====
-- `get_list` and `list_lists` of shopping_list_service.py, with the keyset paging of
-- backend/app/services/pagination.py.
pub mod Walk
pub mod Complete
use Prim.Native.Nat.{min}
use Prim.Native.Nat.{max}
use prislapp.Prelude.{
  Bool, List, Option, [], filter, if◌then◌else◌, is_some, leb, length, ltb, map, none, not, some,
  suc, take, true, ℕ, ◌&&◌, ◌==◌, ◌||◌, ◌∷◌,
}
use prislapp.Prelude.Sort.{sort_by}
use prislapp.ShoppingList.Exec.{Outcome, integrity_error, invalid_operation, ok, rejected}
use prislapp.ShoppingList.Model.{Db, ListResponse, ShoppingList, not_found}
use prislapp.ShoppingList.Queries.{active_items, by_position, list_row}
use prislapp.ShoppingList.Responses.{list_response}
use prislapp.ShoppingList.Sync.{by_created_at}

-- `page_size`; a limit below zero is like zero.
abbrev pub page_size : Option ℕ → ℕ
page_size none = 50
page_size (some limit) = max 1 (min limit 100)

-- The key of the row that a cursor names, or a cursor that does not decode, is of another scope, or
-- has no instant in it.
pub record PageKey : Type 0 where
  pub created_at : ℕ
  pub row_id : ℕ

pub data PageCursor : Type 0 where
  unusable : PageCursor
  at_key : PageKey → PageCursor

abbrev pub key_of : ShoppingList → PageKey
key_of row = record { created_at = row.created_at; row_id = row.id }

-- `keyset`, ascending.
abbrev pub is_after : Option PageKey → ShoppingList → Bool
is_after none row = true
is_after (some key) row =
    ltb key.created_at row.created_at || (row.created_at == key.created_at && ltb key.row_id row.id)

-- An account's list that is not deleted.
abbrev pub is_shown : ℕ → ShoppingList → Bool
is_shown user_id row = row.user_id == user_id && not (is_some row.deleted_at)

abbrev pub shown_after : ℕ → Option PageKey → Db → List ShoppingList
shown_after user_id key db =
    sort_by by_created_at (filter (λ row. is_shown user_id row && is_after key row) db.lists)

-- A list with its lines, tombstones left out (`_items_by_list`).
abbrev pub shown_response : ℕ → Db → ShoppingList → ListResponse
shown_response user_id db row = list_response row (
    sort_by by_position (
      filter
        (λ item. item.user_id == user_id && item.list_id == row.id && not (is_some item.deleted_at))
        db.items))

-- The key of the last row of a page.
abbrev pub last_key : ShoppingList → List ShoppingList → PageKey
last_key row [] = key_of row
last_key row (next ∷ rows) = last_key next rows

abbrev pub next_cursor : List ShoppingList → Option PageCursor
next_cursor [] = none
next_cursor (row ∷ rows) = some (at_key (last_key row rows))

abbrev pub page_from : ℕ → ℕ → Db → Option PageKey → List ListResponse × Option PageCursor
page_from user_id size db key =
    let rows = take (suc size) (shown_after user_id key db) in
    (
      map (shown_response user_id db) (take size rows),
      (if leb (length rows) size then none else next_cursor (take size rows)),
    )

-- `list_lists`; `none` is INVALID_CURSOR.
unfoldable pub list_lists :
    ℕ → Option PageCursor → Option ℕ → Db → Option (List ListResponse × Option PageCursor)
unfolding sort_by list_response
list_lists user_id none limit db = some (page_from user_id (page_size limit) db none)
list_lists user_id (some unusable) limit db = none
list_lists user_id (some (at_key key)) limit db =
    some (page_from user_id (page_size limit) db (some key))

-- `get_list`
unfoldable pub get_list : ℕ → ℕ → Db → Outcome ListResponse
unfolding list_row active_items list_response
get_list user_id list_id db = elim (list_row user_id list_id db) [
  | ok row ↦
      if is_some row.deleted_at
      then rejected not_found
      else ok (list_response row (active_items list_id db))
  | rejected r ↦ rejected r
  | integrity_error ↦ integrity_error
  | invalid_operation ↦ invalid_operation
]
