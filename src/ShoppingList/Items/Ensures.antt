-- ===== src/ShoppingList/Items/Ensures.antt =====
-- `_create_item` and `_patch_item` keep the invariant and change only what they may.
-- A list whose lines may change is found, and it is live.
use prislapp.Prelude.{
  Option, [], any, arith, false, find?, find?-All, find?-holds, inr, is_some, leb, refl, some, sym,
  true, ℕ, ◌++◌, ◌+◌, ◌<◌, ◌==◌, ◌∙◌, ◌∷◌, ◌≡◌, ◌≤◌,
}
use prislapp.ListCopy.{owned}
use prislapp.Prelude.Decimal.{Decimal}
use prislapp.Prelude.Table.{IsOnly, find?-IsOnly, replace}
use prislapp.ShoppingList.Evolution.{ItemStep, ListStep}
use prislapp.ShoppingList.Exec.{Env, World, ok}
use prislapp.ShoppingList.Invariant.{Covered, Ensures, Handled, Handles, Inv, IsValidItem}
use prislapp.ShoppingList.Invariant.Bump.{Covered-replace}
use prislapp.ShoppingList.Invariant.Rules.{
  Ensures-id, Ensures-insert_item, Ensures-modify, Ensures-next, Ensures-now, Ensures-pure,
  Ensures-query, Ensures-stamp, Handled-trans,
}
use prislapp.ShoppingList.Invariant.Writes.{insert_item-Handled, list_row-found, save_item-Handled}
use prislapp.ShoppingList.Items.{create_item_handler, patch_item_handler, patched_item}
use prislapp.ShoppingList.Lists.Ensures.{refuse_if-passed, saved_list-Handled}
use prislapp.ShoppingList.Model.{
  Db, ItemCreateRequest, ItemPatchRequest, ShoppingList, ShoppingListItem, active, max_active_items,
}
use prislapp.ShoppingList.Queries.{
  active_item_count, has_item_key, has_list_key, item_row, list_row, mutable_list,
}
use prislapp.ShoppingList.Sequence.{bump, sequence, touched}
use prislapp.ShoppingList.Validation.Checked.{
  optional_quantity-positive, validated_quantity-positive, validated_reference-one,
}

pub mutable_list-found :
    (user list_id : ℕ) (a : Db) {row : ShoppingList}
    → mutable_list user list_id a ≡ ok row
    → (list_row user list_id a ≡ ok row) × (is_some row.deleted_at ≡ false) × (row.status ≡ active)
unfolding mutable_list
mutable_list-found user list_id a {row} e = ground arith

pub item_row-found :
    (user list_id item_id : ℕ) (a : Db) {item : ShoppingListItem}
    → Inv a
    → item_row user list_id item_id a ≡ ok item
    → (item.list_id ≡ list_id)
      × (item.user_id ≡ user)
      × IsOnly (λ r. r.id) item a.items
      × IsValidItem item
unfolding item_row
item_row-found user list_id item_id a {item} inv e = (
  ground (arith, holds),
  ground (arith, holds),
  find?-IsOnly (λ r. r.id) (has_item_key user list_id item_id) item_id a.items keyed inv.item_ids
      looked,
  find?-All IsValidItem (has_item_key user list_id item_id) a.items inv.valid looked,
)
  where
    looked : find? (has_item_key user list_id item_id) a.items ≡ some item
    looked = ground arith

    holds : has_item_key user list_id item_id item ≡ true
    holds = find?-holds (has_item_key user list_id item_id) a.items looked

    keyed : (x : ShoppingListItem) → has_item_key user list_id item_id x ≡ true → x.id ≡ item_id
    keyed x h = ground arith

below_limit : (n : ℕ) → leb max_active_items n ≡ false → n < max_active_items
below_limit n h = ground arith

module _ (env : Env) (user floor : ℕ) (w : World) (le : floor ≤ sequence user w.db)
    (inv : Inv w.db) where
  -- The account's next sequence number is written to a live list and to a line of it.
  touched_row-Step :
      (row : ShoppingList) (time : ℕ)
      → row.user_id ≡ user
      → is_some row.deleted_at ≡ false
      → row.content_seq ≤ sequence user w.db
      → ListStep user floor row (touched row (sequence user w.db + 1) false time)
  touched_row-Step row time owner alive below = record {
    id = refl;
    owner = refl;
    created = refl;
    foreign = λ n. absurd (n owner);
    frozen = λ d. cc;
    stamped = inr (omega arith);
    rises = omega arith;
    counted = omega arith;
  }

  -- The list is written before the line here; the two tables are apart.
  module _ (row : ShoppingList) (list_id time : ℕ) (looked : list_row user list_id w.db ≡ ok row)
      (alive : is_some row.deleted_at ≡ false) where
    abbrev pub touched_db : Db
    touched_db = record (bump user w.db) {
      lists = replace (λ r. r.id) (touched row (sequence user w.db + 1) false time) w.db.lists;
    }

    touched_db-Handled : Handled user floor w.db touched_db
    touched_db-Handled =
        let (_, _, owner, only, below) = list_row-found user list_id w.db inv looked in
        saved_list-Handled env user floor w le inv row
          (touched row (sequence user w.db + 1) false time) only
          (touched_row-Step row time owner alive below) owner refl

    Covered-by_touched :
        (item : ShoppingListItem)
        → item.list_id ≡ list_id
        → item.user_id ≡ user
        → item.sync_seq ≡ sequence user w.db + 1
        → Covered item touched_db.lists
    Covered-by_touched item in_list owned seq =
        let (found_row, by_id, owner, _, _) = list_row-found user list_id w.db inv looked in
        Covered-replace (has_list_key user list_id) item row
          (touched row (sequence user w.db + 1) false time) w.db.lists found_row refl
          (by_id ∙ sym in_list, owner ∙ sym owned, omega (arith, seq))

    edited_item-Handled :
        (old item : ShoppingListItem)
        → IsOnly (λ r. r.id) old w.db.items
        → ItemStep user floor old item
        → IsValidItem item
        → item.list_id ≡ list_id
        → item.user_id ≡ user
        → item.sync_seq ≡ sequence user w.db + 1
        → is_some old.deleted_at ≡ false
        → Handled user floor w.db
            (record touched_db { items = replace (λ r. r.id) item w.db.items })
    edited_item-Handled old item only st valid in_list owned seq live =
        Handled-trans user floor w.db touched_db _ touched_db-Handled (
          save_item-Handled user floor touched_db touched_db-Handled.inv old item only st valid
            (Covered-by_touched item in_list owned seq) (λ _. live))

    pub added_item-Handled :
        (item : ShoppingListItem)
        → any (λ old. old.id == item.id) w.db.items ≡ false
        → IsValidItem item
        → item.list_id ≡ list_id
        → item.user_id ≡ user
        → item.sync_seq ≡ sequence user w.db + 1
        → active_item_count list_id w.db < max_active_items
        → Handled user floor w.db (record touched_db { items = w.db.items ++ item ∷ [] })
    added_item-Handled item free valid in_list owned seq room =
        Handled-trans user floor w.db touched_db _ touched_db-Handled (
          insert_item-Handled user floor touched_db touched_db-Handled.inv item free
            (record { owner = owned; stamped = omega (arith, seq) }) valid
            (Covered-by_touched item in_list owned seq) (rw in_list room))

  patched_item-Step :
      (item : ShoppingListItem) (request : ItemPatchRequest) (quantity : Option Decimal)
      (mark : Option ℕ) (time : ℕ)
      → item.user_id ≡ user
      → is_some item.deleted_at ≡ false
      → ItemStep user floor item
          (patched_item item request quantity (sequence user w.db + 1) mark time)
  patched_item-Step item request quantity mark time owner alive = record {
    id = refl;
    owner = refl;
    list = refl;
    product = refl;
    text = refl;
    foreign = λ n. absurd (n owner);
    frozen = λ d. cc;
    stamped = inr (omega arith);
    counted = omega arith;
  }

  pub patch_item_handler-Ensures :
      (list_id item_id : ℕ) (request : ItemPatchRequest)
      → Ensures (Handles user floor w.db) (patch_item_handler env user list_id item_id request) w
  unfolding patch_item_handler
  patch_item_handler-Ensures list_id item_id request = Ensures-query _ _ _ w λ row found_row.
      let (looked, alive, _) = mutable_list-found user list_id w.db found_row in
      Ensures-query _ _ _ w λ item found_item.
        let (in_list, owner, only, valid) =
          item_row-found user list_id item_id w.db inv found_item in
        Ensures-query _ _ _ w λ _ live. Ensures-query _ _ _ w λ _ _.
          Ensures-query _ _ _ w λ quantity checked. Ensures-next _ user _ w (
            Ensures-stamp _ env _ item.deleted_at _ _ λ mark reads.
              Ensures-now _ env _ _ λ time reads'. Ensures-now _ env _ _ λ touch_time reads''.
                Ensures-modify _ _ _ _ (
                  Ensures-modify _ _ _ _ (
                    Ensures-pure _ _ _ (
                      edited_item-Handled row list_id touch_time looked alive item
                        (patched_item item request quantity (sequence user w.db + 1) mark time) only
                        (patched_item-Step item request quantity mark time owner
                          (refuse_if-passed _ _ live))
                        (record {
                          reference = valid.reference;
                          quantity =
                              optional_quantity-positive request.quantity quantity item.quantity
                                checked valid.quantity;
                        })
                        in_list owner refl (refuse_if-passed _ _ live)))))

  pub create_item_handler-Ensures :
      (list_id : ℕ) (request : ItemCreateRequest)
      → Ensures (Handles user floor w.db) (create_item_handler env user list_id request) w
  unfolding create_item_handler
  create_item_handler-Ensures list_id request = Ensures-query _ _ _ w λ row found_row.
      let (looked, alive, _) = mutable_list-found user list_id w.db found_row in
      Ensures-query _ _ _ w λ free_text referred. Ensures-query _ _ _ w λ quantity checked.
        Ensures-query _ _ _ w λ _ _. Ensures-query _ _ _ w λ _ _. Ensures-query _ _ _ w λ _ room.
          Ensures-next _ user _ w (
            Ensures-now _ env _ _ λ time reads. Ensures-id _ env request.id _ _ λ id draws.
              Ensures-query _ _ _ _ λ position _. Ensures-insert_item _ _ _ _ λ free.
                Ensures-now _ env _ _ λ touch_time reads'. Ensures-modify _ _ _ _ (
                  Ensures-pure _ _ _ (
                    added_item-Handled row list_id touch_time looked alive _ free
                      (record {
                        reference =
                            validated_reference-one request.user_product_id request.free_text
                              free_text referred;
                        quantity =
                            (validated_quantity-positive request.quantity quantity checked).0;
                      })
                      refl refl refl (below_limit _ (refuse_if-passed _ _ room)))))
