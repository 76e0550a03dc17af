-- ===== src/ShoppingList/Invariant/Writes.antt =====
-- Each kind of write to the shopping list tables keeps the invariant.
use prislapp.Prelude.{
  ==→eq, All, All-append, All-imp, Bool-cases, List, [], any, arith, count, count-append, false,
  find?, find?-All, find?-holds, inl, inr, is_some, refl, some, true, ℕ, ◌++◌, ◌<◌, ◌==◌, ◌∷◌, ◌≡◌,
  ◌≤◌,
}
use prislapp.Prelude.Table.{
  All-replace, Distinct, Distinct-insert, Distinct-replace, Grows-insert, Grows-replace, IsOnly,
  count-replace-le, find?-IsOnly, replace,
}
use prislapp.ShoppingList.Evolution.{
  Evolves, Evolves-refl, ItemStep, ItemStep-refl, ItemsGrow, ListStep, ListStep-refl, ListsGrow,
  NewItem, NewList,
}
use prislapp.ShoppingList.Exec.{ok}
use prislapp.ShoppingList.Invariant.{Covered, Handled, Inv, IsValidItem}
use prislapp.ShoppingList.Invariant.Bump.{Covered-step}
use prislapp.ShoppingList.Model.{Db, ShoppingList, ShoppingListItem, max_active_items}
use prislapp.ShoppingList.Queries.{active_item_count, has_list_key, is_active_in, list_row}
use prislapp.ShoppingList.Sequence.{sequence}

module _ (user floor : ℕ) (a : Db) (inv : Inv a) where
  lists-Evolves :
      (rows : List ShoppingList)
      → ListsGrow user floor a.lists rows
      → Evolves user floor a (record a { lists = rows })
  unfolding sequence
  lists-Evolves rows grown = record {
    lists = grown;
    items = same.items;
    rises = same.rises;
    others = same.others;
    products = refl;
    ledgers = refl;
    receipts = refl;
  }
    where
      same : Evolves user floor a a
      same = Evolves-refl user floor a

  items-Evolves :
      (rows : List ShoppingListItem)
      → ItemsGrow user floor a.items rows
      → Evolves user floor a (record a { items = rows })
  unfolding sequence
  items-Evolves rows grown = record {
    lists = same.lists;
    items = grown;
    rises = same.rises;
    others = same.others;
    products = refl;
    ledgers = refl;
    receipts = refl;
  }
    where
      same : Evolves user floor a a
      same = Evolves-refl user floor a

  lists-Handled :
      (rows : List ShoppingList)
      → ListsGrow user floor a.lists rows
      → Distinct (λ r. r.id) rows
      → All (λ row. row.content_seq ≤ sequence row.user_id a) rows
      → Handled user floor a (record a { lists = rows })
  unfolding sequence
  lists-Handled rows grown distinct bounded = record {
    evolves = lists-Evolves rows grown;
    inv = record {
      list_ids = distinct;
      item_ids = inv.item_ids;
      bounded = bounded;
      covered =
          All-imp (λ item. Covered item a.lists) (λ item. Covered item rows) a.items
            (λ item c. Covered-step user floor item a.lists rows c grown) inv.covered;
      valid = inv.valid;
      limit = inv.limit;
    };
    keys = refl;
  }

  items-Handled :
      (rows : List ShoppingListItem)
      → ItemsGrow user floor a.items rows
      → Distinct (λ r. r.id) rows
      → All (λ item. Covered item a.lists) rows
      → All IsValidItem rows
      → ((list_id : ℕ) → count (is_active_in list_id) rows ≤ max_active_items)
      → Handled user floor a (record a { items = rows })
  unfolding sequence
  items-Handled rows grown distinct covered valid limit = record {
    evolves = items-Evolves rows grown;
    inv = record {
      list_ids = inv.list_ids;
      item_ids = distinct;
      bounded = inv.bounded;
      covered = covered;
      valid = valid;
      limit = limit;
    };
    keys = refl;
  }

  -- The update of a list's row.
  pub save_list-Handled :
      (old row : ShoppingList)
      → IsOnly (λ r. r.id) old a.lists
      → ListStep user floor old row
      → row.content_seq ≤ sequence row.user_id a
      → Handled user floor a (record a { lists = replace (λ r. r.id) row a.lists })
  save_list-Handled old row only st le =
      lists-Handled (replace (λ r. r.id) row a.lists)
        (Grows-replace (λ r. r.id) (ListStep user floor) (NewList user floor)
          (ListStep-refl user floor) old row a.lists only st.id st)
        (Distinct-replace (λ r. r.id) row a.lists inv.list_ids)
        (All-replace (λ r. r.id) (λ r. r.content_seq ≤ sequence r.user_id a) row a.lists inv.bounded
          le)

  -- The insert of a list's row.
  pub insert_list-Handled :
      (row : ShoppingList)
      → any (λ old. old.id == row.id) a.lists ≡ false
      → NewList user floor row
      → row.content_seq ≤ sequence row.user_id a
      → Handled user floor a (record a { lists = a.lists ++ row ∷ [] })
  insert_list-Handled row free new le =
      lists-Handled (a.lists ++ row ∷ [])
        (Grows-insert (λ r. r.id) (ListStep user floor) (NewList user floor)
          (ListStep-refl user floor) a.lists row new)
        (Distinct-insert (λ r. r.id) row a.lists free inv.list_ids)
        (All-append (λ r. r.content_seq ≤ sequence r.user_id a) a.lists (row ∷ []) inv.bounded
          (le, tt))

  -- The update of a line's row.
  pub save_item-Handled :
      (old row : ShoppingListItem)
      → IsOnly (λ r. r.id) old a.items
      → ItemStep user floor old row
      → IsValidItem row
      → Covered row a.lists
      → (is_some row.deleted_at ≡ false → is_some old.deleted_at ≡ false)
      → Handled user floor a (record a { items = replace (λ r. r.id) row a.items })
  save_item-Handled old row only st valid c alive =
      items-Handled (replace (λ r. r.id) row a.items)
        (Grows-replace (λ r. r.id) (ItemStep user floor) (NewItem user floor)
          (ItemStep-refl user floor) old row a.items only st.id st)
        (Distinct-replace (λ r. r.id) row a.items inv.item_ids)
        (All-replace (λ r. r.id) (λ item. Covered item a.lists) row a.items inv.covered c)
        (All-replace (λ r. r.id) IsValidItem row a.items inv.valid valid)
        (λ list_id. omega (
          arith,
          inv.limit list_id,
          count-replace-le (λ r. r.id) (is_active_in list_id) old row a.items only st.id
              (kept list_id),
        ))
    where
      kept : (list_id : ℕ) → is_active_in list_id row ≡ true → is_active_in list_id old ≡ true
      kept list_id h = ground (arith, alive, st.list)

  -- The insert of a line's row into a list with room.
  pub insert_item-Handled :
      (row : ShoppingListItem)
      → any (λ old. old.id == row.id) a.items ≡ false
      → NewItem user floor row
      → IsValidItem row
      → Covered row a.lists
      → active_item_count row.list_id a < max_active_items
      → Handled user floor a (record a { items = a.items ++ row ∷ [] })
  insert_item-Handled row free new valid c room =
      items-Handled (a.items ++ row ∷ [])
        (Grows-insert (λ r. r.id) (ItemStep user floor) (NewItem user floor)
          (ItemStep-refl user floor) a.items row new)
        (Distinct-insert (λ r. r.id) row a.items free inv.item_ids)
        (All-append (λ item. Covered item a.lists) a.items (row ∷ []) inv.covered (c, tt))
        (All-append IsValidItem a.items (row ∷ []) inv.valid (valid, tt)) fits
    where
      fits : (list_id : ℕ) → count (is_active_in list_id) (a.items ++ row ∷ []) ≤ max_active_items
      fits list_id = elim (Bool-cases (row.list_id == list_id)) [
        | inl e ↦
            let room' : active_item_count list_id a < max_active_items =
              rw (==→eq row.list_id list_id e) at room in
            rw count-append (ground arith)
        | inr e ↦ rw count-append (ground (arith, inv.limit list_id))
      ]

-- A row that a query by key and owner finds has that key and that owner, and is the only one.
pub list_row-found :
    (user list_id : ℕ) (a : Db) {row : ShoppingList}
    → Inv a
    → list_row user list_id a ≡ ok row
    → (find? (has_list_key user list_id) a.lists ≡ some row)
      × (row.id ≡ list_id)
      × (row.user_id ≡ user)
      × IsOnly (λ r. r.id) row a.lists
      × (row.content_seq ≤ sequence user a)
unfolding list_row
list_row-found user list_id a {row} inv e = (
  looked,
  by_id,
  by_owner,
  find?-IsOnly (λ r. r.id) (has_list_key user list_id) list_id a.lists keyed inv.list_ids looked,
  rw by_owner at (below a.lists inv.bounded looked),
)
  where
    looked : find? (has_list_key user list_id) a.lists ≡ some row
    looked = ground arith

    holds : has_list_key user list_id row ≡ true
    holds = find?-holds (has_list_key user list_id) a.lists looked

    by_id : row.id ≡ list_id
    by_id = ground (arith, holds)

    by_owner : row.user_id ≡ user
    by_owner = ground (arith, holds)

    keyed : (x : ShoppingList) → has_list_key user list_id x ≡ true → x.id ≡ list_id
    keyed x h = ground arith

    below :
        (rows : List ShoppingList)
        → All (λ r. r.content_seq ≤ sequence r.user_id a) rows
        → find? (has_list_key user list_id) rows ≡ some row
        → row.content_seq ≤ sequence row.user_id a
    below rows h f =
        find?-All (λ r. r.content_seq ≤ sequence r.user_id a) (has_list_key user list_id) rows h f
