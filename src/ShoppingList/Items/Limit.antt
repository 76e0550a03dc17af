-- ===== src/ShoppingList/Items/Limit.antt =====
-- `_create_item` of shopping_list_service.py and the limit of active lines.
use prislapp.Prelude.{Option, or_default, some, ℕ, ◌≡◌}
use prislapp.Prelude.Decimal.{Decimal}
use prislapp.Prelude.Text.{Text}
use prislapp.ShoppingList.Exec.{Applied, Env, Outcome, World, ok, ◌>>◌}
use prislapp.ShoppingList.Items.{new_item}
use prislapp.ShoppingList.Model.{
  ItemCreateRequest, ItemResponse, ShoppingList, ShoppingListItem, of_item,
}
use prislapp.ShoppingList.Queries.{mutable_list, next_position}
use prislapp.ShoppingList.Sequence.{bump, sequence}

module _ (env : Env) (user list_id : ℕ) (w : World) {row : ShoppingList}
    (open_list : mutable_list user list_id w.db ≡ ok row) where
  -- What a line that is created under `id` answers.
  pub record IsNewAnswer (id : ℕ) (request : ItemCreateRequest) (text : Option Text)
      (quantity : Decimal) (outcome : Outcome Applied) : Type 0 where
    pub answer : ItemResponse
    pub returned :
        outcome ≡ ok (record { response = of_item answer; list_id = list_id; item_id = some id })
    pub own_id : answer.id ≡ id
    pub product : answer.user_product_id ≡ request.user_product_id
    pub text_kept : answer.free_text ≡ text
    pub amount : answer.quantity ≡ quantity
    pub first : answer.version ≡ 1

  module _ (request : ItemCreateRequest) (text : Option Text) (quantity : Decimal) where
    abbrev written : ℕ → ℕ → ShoppingListItem
    written id time =
        new_item id user list_id text quantity request
          (or_default request.position (next_position list_id (bump user w.db)))
          (sequence user (bump user w.db)) time
