-- ===== src/ShoppingList/Paging/Complete.antt =====
-- The cursors of `list_lists` (shopping_list_service.py), followed to the end.
use Prim.Native.Nat.{max, min}
use prislapp.Prelude.{
  Bool-cases, List, Option, [], ap, arith, filter, if◌then◌else◌, inl, inr, is_some, leb,
  leb-length-take, length, length-drop, length-filter-le, map, map-take-drop, none, not, refl, some,
  suc, take, take-take, take_all, true, zero, ℕ, ◌&&◌, ◌++◌, ◌-◌, ◌<◌, ◌==◌, ◌∙◌, ◌∷◌, ◌≡◌, ◌≤◌,
}
use prislapp.Prelude.Sort.{length-sort_by, sort_by}
use prislapp.Prelude.Table.{Distinct}
use prislapp.ShoppingList.Invariant.{Inv}
use prislapp.ShoppingList.Model.{Db, ListResponse, ShoppingList}
use prislapp.ShoppingList.Paging.{
  PageCursor, PageKey, at_key, is_shown, last_key, list_lists, next_cursor, page_from, page_size,
  shown_after, shown_response,
}
use prislapp.ShoppingList.Paging.Walk.{next_page}
use prislapp.ShoppingList.Sync.{by_created_at}

-- The pages joined, by a client that follows the cursors for at most `fuel` pages; `none` if a
-- cursor is refused or the pages do not end.
abbrev with_page : List ListResponse → Option (List ListResponse) → Option (List ListResponse)
with_page page none = none
with_page page (some rest) = some (page ++ rest)

abbrev follow :
    Option (List ListResponse × Option PageCursor)
    → (Option PageCursor → Option (List ListResponse))
    → Option (List ListResponse)
follow none next = none
follow (some (page, none)) next = some page
follow (some (page, some cursor)) next = with_page page (next (some cursor))

abbrev pub walk : ℕ → Option ℕ → Db → ℕ → Option PageCursor → Option (List ListResponse)
walk user_id limit db zero cursor = none
walk user_id limit db (suc fuel) cursor =
    follow (list_lists user_id cursor limit db) (walk user_id limit db fuel)

abbrev cursor_of : Option PageKey → Option PageCursor
cursor_of none = none
cursor_of (some key) = some (at_key key)

list_lists-cursor_of :
    (user_id : ℕ) (key : Option PageKey) (limit : Option ℕ) (db : Db)
    → list_lists user_id (cursor_of key) limit db
      ≡ some (page_from user_id (page_size limit) db key)
unfolding list_lists
list_lists-cursor_of user_id none limit db = refl
list_lists-cursor_of user_id (some key) limit db = refl

-- A page with the query's limit worked out.
page_of :
    (user_id size : ℕ) (db : Db) (key : Option PageKey)
    → page_from user_id size db key ≡ (
      map (shown_response user_id db) (take size (shown_after user_id key db)),
      (if leb (length (shown_after user_id key db)) size
          then none
          else next_cursor (take size (shown_after user_id key db))),
    )
page_of user_id size db key =
    rw
      (
        take-take size (shown_after user_id key db),
        leb-length-take size (shown_after user_id key db),
      )
      refl

page_size_pos : (limit : Option ℕ) → (m : ℕ) × (page_size limit ≡ suc m)
page_size_pos none = (49, refl)
page_size_pos (some limit) = (max 1 (min limit 100) - 1, ground arith)

module _ (user_id : ℕ) (limit : Option ℕ) (db : Db) (distinct : Distinct (λ r. r.id) db.lists) where
  walk-rows :
      (fuel : ℕ) (key : Option PageKey)
      → length (shown_after user_id key db) < fuel
      → walk user_id limit db fuel (cursor_of key)
        ≡ some (map (shown_response user_id db) (shown_after user_id key db))
  walk-rows zero key short = absurd (omega (arith, short))
  walk-rows (suc fuel) key short =
      rw (list_lists-cursor_of user_id key limit db, page_of user_id (page_size limit) db key)
        (go (shown_after user_id key db) refl (page_size_pos limit).0 (page_size_pos limit).1
          (λ key'. walk-rows fuel key'))
    where
      resp : ShoppingList → ListResponse
      resp = shown_response user_id db

      Walks : Type 0
      Walks =
          (key' : Option PageKey)
          → length (shown_after user_id key' db) < fuel
          → walk user_id limit db fuel (cursor_of key')
            ≡ some (map resp (shown_after user_id key' db))

      full :
          Walks
          → (m : ℕ) (row : ShoppingList) (rest : List ShoppingList)
          → shown_after user_id key db ≡ row ∷ rest
          → with_page
              (map resp (take (suc m) (row ∷ rest)))
              (walk user_id limit db fuel (some (at_key (last_key row (take m rest)))))
            ≡ some (map resp (row ∷ rest))
      full ih m row rest e =
          let next = next_page user_id db distinct key m row rest e in
          let counted : length (row ∷ rest) < suc fuel = rw e at short in
          let left = length-drop m rest in
          let again =
            ih (some (last_key row (take m rest))) (rw next (omega (arith, counted, left))) in
          rw (again, next)
            (ap (λ (rs : List ListResponse). some rs) (map-take-drop resp (suc m) (row ∷ rest)))

      go :
          (rows : List ShoppingList)
          → shown_after user_id key db ≡ rows
          → (m : ℕ) → page_size limit ≡ suc m
          → Walks
          → follow
              (some (
                map resp (take (page_size limit) rows),
                (if leb (length rows) (page_size limit)
                    then none
                    else next_cursor (take (page_size limit) rows)),
              ))
              (walk user_id limit db fuel)
            ≡ some (map resp rows)
      go [] e m size ih =
          let none_left : leb 0 (suc m) ≡ true = ground arith in rw (size, none_left) refl
      go (row ∷ rest) e m size ih = elim (Bool-cases (leb (length (row ∷ rest)) (suc m))) [
        | inl t ↦
            rw (size, t)
              (ap (λ (rs : List ShoppingList). some (map resp rs))
                (take_all (suc m) (row ∷ rest) (ground arith)))
        | inr t ↦ rw (size, t) (full ih m row rest e)
      ]

-- On tables that do not change, the pages end, no cursor is refused, and the pages joined are the
-- account's lists that are not deleted, each once, by creation and then id, with the page size that
-- any limit gives.
pub list_lists-walk :
    (user_id : ℕ) (limit : Option ℕ) (db : Db)
    → Inv db
    → walk user_id limit db (suc (length db.lists)) none
      ≡ some (
          map (shown_response user_id db) (
            sort_by by_created_at
              (filter (λ row. row.user_id == user_id && not (is_some row.deleted_at)) db.lists)))
list_lists-walk user_id limit db inv =
    walk-rows user_id limit db inv.list_ids (suc (length db.lists)) none (omega (arith, few))
    ∙ ap
        (λ (rows : List ShoppingList).
          some (map (shown_response user_id db) (sort_by by_created_at rows)))
        plain
  where
    plain :
        filter (λ row. is_shown user_id row && true) db.lists ≡ filter (is_shown user_id) db.lists
    plain = go db.lists
      where
        go :
            (rows : List ShoppingList)
            → filter (λ row. is_shown user_id row && true) rows ≡ filter (is_shown user_id) rows
        go [] = refl
        go (row ∷ rows) = ground (arith, go rows)

    few : length (shown_after user_id none db) ≤ length db.lists
    few =
        rw (length-sort_by by_created_at (filter (λ row. is_shown user_id row && true) db.lists))
          (length-filter-le (λ row. is_shown user_id row && true) db.lists)
