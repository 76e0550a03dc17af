-- ===== src/Tests/Syncs.antt =====
-- `sync` of backend/app/services/shopping_list_service.py after one line was added.
use prislapp.Prelude.{
  In, List, [], ap, arith, false, inl, inr, map, none, refl, some, true, ℕ, ◌∷◌, ◌≡◌,
}
use prislapp.ShoppingList.Exec.{id_or_fresh, ok, ◌>>=◌}
use prislapp.ShoppingList.Items.{create_item_handler}
use prislapp.ShoppingList.Model.{CursorPayload, ShoppingListItem}
use prislapp.ShoppingList.Mutations.{handle, single}
use prislapp.ShoppingList.Mutations.Soundness.{Sound, single-Sound}
use prislapp.ShoppingList.Queries.{
  assert_free_item_id, assert_owned_product, mutable_list, next_position,
}
use prislapp.ShoppingList.Responses.{item_response}
use prislapp.ShoppingList.Sequence.{insert_item, next_sequence, sequence}
use prislapp.ShoppingList.Sync.{
  SyncMutation, SyncResponse, encode_sync_cursor, expired, parse_sync_cursor, read_changes, sync,
  sync_lists, sync_patch_item,
}
use prislapp.ShoppingList.Sync.Cursors.{
  of_other_account, parse_sync_cursor-encode_sync_cursor, sync-refused,
}
use prislapp.ShoppingList.Sync.Delta.{Delivered, read_changes-Delivered, single-Delivered}
use prislapp.ShoppingList.Sync.Soundness.{sync-Sound}
use prislapp.ShoppingList.Validation.{validated_quantity, validated_reference}
use prislapp.Tests.ShoppingLists.{
  add_milk, after_milk, bread_patch, env, milk, start, start-Inv, start_world,
}
use prislapp.Units.{each}

abbrev milk_line : ShoppingListItem
milk_line = record {
  id = 500;
  user_id = 7;
  list_id = 1;
  user_product_id = none;
  free_text = some milk;
  quantity = record { negative = false; digits = 2000; places = 3 };
  quantity_unit = each;
  checked = false;
  position = 1;
  version = 1;
  sync_seq = 4;
  created_at = 1000;
  updated_at = 1000;
  deleted_at = none;
}

milk_is_new : ¬ In milk_line start.items
milk_is_new (inl e) =
    let same : 10 ≡ 500 = ap (λ (r : ShoppingListItem). r.id) e in omega (arith, same)
milk_is_new (inr i) = i

milk_is_stored : In milk_line after_milk.db.items
unfolding single handle create_item_handler mutable_list validated_reference validated_quantity
    assert_owned_product assert_free_item_id next_sequence insert_item id_or_fresh next_position
    item_response ◌>>=◌
milk_is_stored = inr (inl refl)

single-Delivered_example : Delivered 7 (sequence 7 start) milk_line after_milk.db
single-Delivered_example =
    single-Delivered env 7 77 add_milk start_world milk_line start-Inv milk_is_stored milk_is_new
      refl

-- One tick of the bread, sent without a cursor.
abbrev offline : List SyncMutation
offline = sync_patch_item 90 1 10 (bread_patch 1) ∷ []

sync-Sound_example :
    Sound 7 (sequence 7 start) start (sync env 7 none offline (λ db. db) start_world).1.db
sync-Sound_example = sync-Sound env 7 none offline start_world start-Inv

read_changes-Delivered_example :
    (response : SyncResponse) × (seq : ℕ) × (time : ℕ) × ((read_changes env 7 none
        (λ db. after_milk.db)
        []
        start_world).0
      ≡ ok response)
    × (response.cursor ≡ encode_sync_cursor env 7 seq time)
    × Delivered 7 seq milk_line after_milk.db
read_changes-Delivered_example =
    read_changes-Delivered env 7 none (λ db. after_milk.db) [] start_world milk_line
      (single-Sound env 7 77 add_milk start_world start-Inv).0
      (single-Sound env 7 77 add_milk start_world start-Inv).1 milk_is_stored milk_is_new refl

-- A cursor of account 8.
abbrev foreign_payload : CursorPayload
foreign_payload = record {
  version = 1;
  user_id = 8;
  negative = false;
  sequence = 3;
  issued_at = 900;
}

sync-refused_example :
    ((sync env 7 (some (env.encode_payload foreign_payload)) offline (λ db. db) start_world).1.db
      ≡ start)
    × ((response : SyncResponse) × ((sync env 7
            (some (env.encode_payload foreign_payload))
            offline
            (λ db. db)
            start_world).0
          ≡ ok response)
        × (response.conflicts ≡ map expired offline)
        × (response.full_snapshot ≡ true)
        × (response.lists ≡ sync_lists 7 none start))
sync-refused_example =
    sync-refused env 7 start_world offline (λ db. db)
      (of_other_account foreign_payload (omega arith))

own_cursor_accepted :
    (parse_sync_cursor env 7 (some (encode_sync_cursor env 7 2 900)) start_world).0
    ≡ ok (record { sequence = some 2; replay_allowed = true })
own_cursor_accepted =
    parse_sync_cursor-encode_sync_cursor env 7 start_world 2 900 refl (omega arith)
      (unfold sequence in omega arith)
