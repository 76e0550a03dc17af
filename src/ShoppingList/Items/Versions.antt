-- ===== src/ShoppingList/Items/Versions.antt =====
-- `_patch_item` of shopping_list_service.py and the version of its line.
use prislapp.Prelude.{
  ap, arith, find?, find?-holds, not, refl, some, sym, ℕ, ◌+◌, ◌==◌, ◌∙◌, ◌≡◌, ◌≢◌, ◌≤◌,
}
use prislapp.Prelude.Lookup.{find?-Grows}
use prislapp.Prelude.Table.{find?-replace}
use prislapp.ShoppingList.Evolution.{Evolves, ItemStep, NewItem}
use prislapp.ShoppingList.Exec.{Applied, Env, World, ok, refuse_if}
use prislapp.ShoppingList.Invariant.{Ensures}
use prislapp.ShoppingList.Invariant.Rules.{
  Ensures-modify, Ensures-next, Ensures-now, Ensures-pure, Ensures-query, Ensures-stamp,
  after-returns, not-returns,
}
use prislapp.ShoppingList.Items.{patch_item_handler, patched_item}
use prislapp.ShoppingList.Lists.Ensures.{refuse_if-passed}
use prislapp.ShoppingList.Model.{Db, ItemPatchRequest, Rejection, ShoppingListItem}
use prislapp.ShoppingList.Queries.{has_item_key, item_row}
use prislapp.ShoppingList.Sequence.{sequence}

same_version : (a b : ℕ) (r : Rejection) {u : Unit {0}} → refuse_if (not (a == b)) r ≡ ok u → a ≡ b
same_version a b r {u} e = ground (arith, refuse_if-passed (not (a == b)) r e)

item_row-find? :
    (user list_id item_id : ℕ) (db : Db) (item : ShoppingListItem)
    → item_row user list_id item_id db ≡ ok item
    → find? (has_item_key user list_id item_id) db.items ≡ some item
item_row-find? user list_id item_id db item e = unfold item_row in ground arith

-- The line's row is there, one version on.
abbrev IsVersioned : ℕ → ℕ → ℕ → ℕ → Db → Type 0
IsVersioned user list_id item_id version db =
    (item : ShoppingListItem) × (find? (has_item_key user list_id item_id) db.items ≡ some item)
    × (item.version ≡ version)

module _ (env : Env) (user list_id item_id : ℕ) (request : ItemPatchRequest) (w : World) where
  patch_item_handler-IsVersioned :
      Ensures
        (λ _ w'. IsVersioned user list_id item_id (request.expected_version + 1) w'.db)
        (patch_item_handler env user list_id item_id request)
        w
  unfolding patch_item_handler
  patch_item_handler-IsVersioned = Ensures-query _ _ _ w λ row _.
      Ensures-query _ _ _ w λ item found_item. Ensures-query _ _ _ w λ _ _.
        Ensures-query _ _ _ w λ _ current. Ensures-query _ _ _ w λ quantity _.
          Ensures-next _ user _ w (
            Ensures-stamp _ env _ item.deleted_at _ _ λ mark reads.
              Ensures-now _ env _ _ λ time reads'. Ensures-now _ env _ _ λ touch_time reads''.
                Ensures-modify _ _ _ _ (
                  Ensures-modify _ _ _ _ (
                    Ensures-pure _ _ _ (
                      patched_item item request quantity (sequence user w.db + 1) mark time,
                      find?-replace (λ r. r.id) (has_item_key user list_id item_id) item _
                          w.db.items (item_row-find? user list_id item_id w.db item found_item) refl
                          (find?-holds (has_item_key user list_id item_id) w.db.items
                            (item_row-find? user list_id item_id w.db item found_item)),
                      ap (λ (n : ℕ). n + 1)
                          (sym (same_version request.expected_version item.version _ current)),
                    ))))

-- Two changes of a line that were made from the same version: once the first is carried out, the
-- second is not, whatever it asks for, on any tables that mutations of the account lead to from
-- there.
pub patch_item_handler-no_lost_update :
    (env : Env) (user list_id item_id : ℕ) (first second : ItemPatchRequest) (w : World)
    (applied : Applied)
    → (patch_item_handler env user list_id item_id first w).0 ≡ ok applied
    → second.expected_version ≡ first.expected_version
    → (floor : ℕ) (later : World)
    → Evolves user floor (patch_item_handler env user list_id item_id first w).1.db later.db
    → (answer : Applied) → (patch_item_handler env user list_id item_id second later).0 ≢ ok answer
patch_item_handler-no_lost_update env user list_id item_id first second w applied done same_base
      floor later ev =
    let (item, stored, version) =
      after-returns (λ w'. IsVersioned user list_id item_id (first.expected_version + 1) w'.db)
        (patch_item_handler env user list_id item_id first) w applied
        (patch_item_handler-IsVersioned env user list_id item_id first w) done in
    let (moved, there, step) =
      find?-Grows (λ r. r.id) (ItemStep user floor) (NewItem user floor)
        (has_item_key user list_id item_id) _ _ steady ev.items stored in
    not-returns (patch_item_handler env user list_id item_id second) later (
      unfold patch_item_handler in
      Ensures-query _ _ _ later λ row _. Ensures-query _ _ _ later λ found_item is_found.
        Ensures-query _ _ _ later λ _ _. Ensures-query _ _ _ later λ _ current. absurd (
          stale item moved found_item version step.counted
            (sym (item_row-find? user list_id item_id later.db found_item is_found) ∙ there)
            (same_version second.expected_version found_item.version _ current)))
  where
    steady :
        (a b : ShoppingListItem)
        → ItemStep user floor a b
        → has_item_key user list_id item_id b ≡ has_item_key user list_id item_id a
    steady a b step = ground (arith, step.id, step.list, step.owner)

    stale :
        (item moved found_item : ShoppingListItem)
        → item.version ≡ first.expected_version + 1
        → item.version ≤ moved.version
        → some found_item ≡ some moved
        → second.expected_version ≡ found_item.version
        → ⊥
    stale item moved found_item version rises again current = ground (arith, again, same_base)
