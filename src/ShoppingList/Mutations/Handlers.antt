-- ===== src/ShoppingList/Mutations/Handlers.antt =====
-- Every handler keeps the invariant and changes only what it may.
use prislapp.Prelude.{ℕ, ◌≤◌}
use prislapp.ShoppingList.Copies.Ensures.{
  copy_list_handler-Ensures, create_list_from_receipt_handler-Ensures,
}
use prislapp.ShoppingList.Exec.{Env, World}
use prislapp.ShoppingList.Invariant.{Ensures, Handles, Inv}
use prislapp.ShoppingList.Items.Ensures.{create_item_handler-Ensures, patch_item_handler-Ensures}
use prislapp.ShoppingList.Lists.Ensures.{create_list_handler-Ensures, patch_list_handler-Ensures}
use prislapp.ShoppingList.Model.{
  Request, copy_list, create_from_receipt, create_item, create_list, patch_item, patch_list,
}
use prislapp.ShoppingList.Mutations.{handle}
use prislapp.ShoppingList.Sequence.{sequence}

pub handle-Ensures :
    (env : Env) (user floor : ℕ) (w : World) (request : Request)
    → floor ≤ sequence user w.db
    → Inv w.db
    → Ensures (Handles user floor w.db) (handle env user request) w
unfolding handle
handle-Ensures env user floor w (create_list request) le inv =
    create_list_handler-Ensures env user floor w le inv request
handle-Ensures env user floor w (patch_list list_id request) le inv =
    patch_list_handler-Ensures env user floor w le inv list_id request
handle-Ensures env user floor w (copy_list list_id request) le inv =
    copy_list_handler-Ensures env user floor w le inv list_id request
handle-Ensures env user floor w (create_from_receipt request) le inv =
    create_list_from_receipt_handler-Ensures env user floor w le inv request
handle-Ensures env user floor w (create_item list_id request) le inv =
    create_item_handler-Ensures env user floor w le inv list_id request
handle-Ensures env user floor w (patch_item list_id item_id request) le inv =
    patch_item_handler-Ensures env user floor w le inv list_id item_id request
