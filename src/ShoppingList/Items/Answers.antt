-- ===== src/ShoppingList/Items/Answers.antt =====
-- What `_patch_item` of shopping_list_service.py returns.
use prislapp.Prelude.{
  Bool, Option, arith, false, is_some, not, or_default, refl, some, sym, true, ℕ, ◌+◌, ◌==◌, ◌∙◌,
  ◌≡◌,
}
use prislapp.Prelude.Decimal.{Decimal}
use prislapp.ShoppingList.Exec.{
  Applied, Env, Exec, Outcome, World, is_set, now, ok, pure, query, refuse_if, rejected, stamp_if,
  ◌>>=◌, ◌>>◌,
}
use prislapp.ShoppingList.Items.{patch_item_handler, patched_item}
use prislapp.ShoppingList.Model.{
  Db, ItemPatchRequest, ItemResponse, Rejection, ShoppingList, ShoppingListItem, of_item,
}
use prislapp.ShoppingList.Queries.{item_row, mutable_list}
use prislapp.ShoppingList.Responses.{item_response}
use prislapp.ShoppingList.Sequence.{bump, next_sequence, save_item, save_list, sequence, touched}
use prislapp.ShoppingList.Validation.{optional_quantity}

pub query-next :
    {A B : Type 0} (f : Db → Outcome A) (k : A → Exec B) (w : World) {a : A}
    → f w.db ≡ ok a
    → (query f >>= k) w ≡ k a w
unfolding ◌>>=◌
query-next f k w e = rw e refl

pub query-refused :
    {A B : Type 0} (f : Db → Outcome A) (k : A → Exec B) (w : World) {r : Rejection}
    → f w.db ≡ rejected r
    → (query f >>= k) w ≡ (rejected r, w)
unfolding ◌>>=◌
query-refused f k w e = rw e refl

pub refuse_if-false : (b : Bool) (r : Rejection) → b ≡ false → refuse_if b r ≡ ok tt
refuse_if-false b r e = rw e refl

pub refuse_if-true : (b : Bool) (r : Rejection) → b ≡ true → refuse_if b r ≡ rejected r
refuse_if-true b r e = rw e refl

module _ (env : Env) (user list_id : ℕ) (w : World) {row : ShoppingList}
    (open_list : mutable_list user list_id w.db ≡ ok row) where
  -- What a carried out change of a line answers.
  pub record IsPatchAnswer (item : ShoppingListItem) (request : ItemPatchRequest)
      (quantity : Option Decimal) (outcome : Outcome Applied) : Type 0 where
    pub answer : ItemResponse
    pub returned :
        outcome
        ≡ ok (record { response = of_item answer; list_id = list_id; item_id = some item.id })
    pub id : answer.id ≡ item.id
    pub product : answer.user_product_id ≡ item.user_product_id
    pub text : answer.free_text ≡ item.free_text
    pub version : answer.version ≡ item.version + 1
    pub deleted : answer.deleted ≡ is_set request.deleted
    pub checked : answer.checked ≡ or_default request.checked item.checked
    pub amount : answer.quantity ≡ or_default quantity item.quantity
    pub unit : answer.quantity_unit ≡ or_default request.quantity_unit item.quantity_unit
    pub place : answer.position ≡ or_default request.position item.position

  -- The handler from the bump of the sequence on.
  patched_answer :
      (request : ItemPatchRequest) (item : ShoppingListItem) (quantity : Option Decimal) (b : Bool)
      → is_some item.deleted_at ≡ false
      → is_set request.deleted ≡ b
      → IsPatchAnswer item request quantity
          ((do
            seq ← next_sequence user
            deleted_at ← stamp_if env b item.deleted_at
            time ← now env
            let patched = patched_item item request quantity seq deleted_at time
            touch_time ← now env
            save_item patched
            save_list (touched row seq false touch_time)
            pure (record {
              response = of_item (item_response patched);
              list_id = list_id;
              item_id = some item.id;
            }))
            w).0
  unfolding next_sequence stamp_if item_response ◌>>=◌
  patched_answer request item quantity true alive set = record {
    answer = item_response (
        patched_item item request quantity (sequence user (bump user w.db))
          (some (env.clock w.clock_reads)) (env.clock (w.clock_reads + 1)));
    returned = refl;
    id = refl;
    product = refl;
    text = refl;
    version = refl;
    deleted = sym set;
    checked = refl;
    amount = refl;
    unit = refl;
    place = refl;
  }
  patched_answer request item quantity false alive set = record {
    answer = item_response (
        patched_item item request quantity (sequence user (bump user w.db)) item.deleted_at
          (env.clock w.clock_reads));
    returned = refl;
    id = refl;
    product = refl;
    text = refl;
    version = refl;
    deleted = alive ∙ sym set;
    checked = refl;
    amount = refl;
    unit = refl;
    place = refl;
  }

  -- A change of a line that stands on a list that can be changed, made from the line's version and
  -- with a valid quantity, if it has one, is carried out: it answers the line one version on, with
  -- the amount, unit, mark, place and deletion that the request sets, and the line's own for the rest.
  pub patch_item_handler-answers :
      (item_id : ℕ) (request : ItemPatchRequest) (item : ShoppingListItem)
      (quantity : Option Decimal)
      → item_row user list_id item_id w.db ≡ ok item
      → is_some item.deleted_at ≡ false
      → request.expected_version ≡ item.version
      → optional_quantity request.quantity ≡ ok quantity
      → IsPatchAnswer item request quantity
          (patch_item_handler env user list_id item_id request w).0
  unfolding patch_item_handler
  patch_item_handler-answers item_id request item quantity found_item alive current valid =
      rw
        (
          query-next (mutable_list user list_id) _ w open_list,
          query-next (item_row user list_id item_id) _ w found_item,
          query-next _ _ w (refuse_if-false (is_some item.deleted_at) _ alive),
          query-next _ _ w
              (refuse_if-false (not (request.expected_version == item.version)) _ same),
          query-next _ _ w valid,
        )
        (patched_answer request item quantity (is_set request.deleted) alive refl)
    where
      same : not (request.expected_version == item.version) ≡ false
      same = ground arith
