-- ===== src/Tests/ShoppingLists.antt =====
-- backend/app/services/shopping_list_service.py on one account with one list and one line.
use prislapp.Prelude.{
  Option, [], arith, false, inl, none, refl, some, true, ℕ, ◌*◌, ◌++◌, ◌+◌, ◌∷◌, ◌≡◌, ◌≢◌,
}
use prislapp.Prelude.Decimal.{whole}
use prislapp.Prelude.Text.{Text}
use prislapp.ShoppingList.Evolution.{Evolves-refl}
use prislapp.ShoppingList.Exec.{Applied, Env, World, id_or_fresh, ok, rejected, stamp_if, ◌>>=◌}
use prislapp.ShoppingList.Invariant.{Inv}
use prislapp.ShoppingList.Items.{create_item_handler, patch_item_handler}
use prislapp.ShoppingList.Items.Answers.{IsPatchAnswer, patch_item_handler-answers}
use prislapp.ShoppingList.Items.Versions.{patch_item_handler-no_lost_update}
use prislapp.ShoppingList.Model.{
  CursorPayload, Db, ItemCreateRequest, ItemPatchRequest, Request, Response, ShoppingList,
  ShoppingListItem, ShoppingListMutation, active, create_item, item_create, mutation_conflict,
  of_item, patch_item, version_conflict,
}
use prislapp.ShoppingList.Mutations.{handle, mutation_row, perform, replay, single}
use prislapp.ShoppingList.Mutations.Idempotence.{single-key_reused, single-retry}
use prislapp.ShoppingList.Mutations.Soundness.{Sound, single-Sound, single_atomic}
use prislapp.ShoppingList.Queries.{
  assert_free_item_id, assert_owned_product, item_row, mutable_list, next_position,
}
use prislapp.ShoppingList.Responses.{item_response}
use prislapp.ShoppingList.Sequence.{insert_item, next_sequence, sequence}
use prislapp.ShoppingList.Validation.{validated_quantity, validated_reference}
use prislapp.Units.{each}

abbrev pub env : Env
env = record {
  clock = λ n. 1000 + n;
  uuid4 = λ n. 500 + n;
  payload_hash = λ request. hash request;
  encode_payload = λ p. p.version ∷ p.user_id ∷ p.sequence ∷ p.issued_at ∷ [];
  decode_payload = λ text. decoded text;
}
  where
    decoded : Text → Option CursorPayload
    decoded (v ∷ u ∷ s ∷ t ∷ []) =
        some (record { version = v; user_id = u; negative = false; sequence = s; issued_at = t })
    decoded _ = none

    hash : Request → ℕ
    hash (create_item list_id r) = list_id * 1000 + r.quantity.digits
    hash (patch_item list_id item_id r) = list_id * 1000 + item_id
    hash _ = 0

-- "melk"
abbrev pub milk : Text
milk = 109 ∷ 101 ∷ 108 ∷ 107 ∷ []

abbrev pub week_list : ShoppingList
week_list = record {
  id = 1;
  user_id = 7;
  name = 85 ∷ 107 ∷ 101 ∷ [];
  status = active;
  version = 1;
  content_seq = 3;
  created_at = 100;
  updated_at = 120;
  deleted_at = none;
}

abbrev pub bread_line : ShoppingListItem
bread_line = record {
  id = 10;
  user_id = 7;
  list_id = 1;
  user_product_id = some 40;
  free_text = none;
  quantity = record { negative = false; digits = 1000; places = 3 };
  quantity_unit = each;
  checked = false;
  position = 0;
  version = 1;
  sync_seq = 3;
  created_at = 120;
  updated_at = 120;
  deleted_at = none;
}

abbrev pub start : Db
start = record {
  lists = week_list ∷ [];
  items = bread_line ∷ [];
  mutations = [];
  sync_states = record { user_id = 7; sequence = 3 } ∷ [];
  products = record { id = 40; user_id = 7 } ∷ [];
  ledgers = [];
  receipts = [];
  revisions = [];
  revision_lines = [];
  receipt_items = [];
}

abbrev pub start_world : World
start_world = record { db = start; clock_reads = 0; uuid_draws = 0 }

pub start-Inv : Inv start
unfolding sequence
start-Inv = record {
  list_ids = (tt, tt);
  item_ids = (tt, tt);
  bounded = (omega arith, tt);
  covered = (inl (refl, refl, omega arith), tt);
  valid = (record { reference = tt; quantity = refl }, tt);
  limit = λ list_id. ground arith;
}

-- Two cartons of milk as free text.
abbrev milk_request : ItemCreateRequest
milk_request = record {
  id = none;
  user_product_id = none;
  free_text = some (32 ∷ milk);
  quantity = whole 2;
  quantity_unit = each;
  checked = false;
  position = none;
}

abbrev pub add_milk : Request
add_milk = create_item 1 milk_request

abbrev pub milk_response : Response
milk_response = of_item (record {
  id = 500;
  user_product_id = none;
  free_text = some milk;
  quantity = record { negative = false; digits = 2000; places = 3 };
  quantity_unit = each;
  checked = false;
  position = 1;
  version = 1;
  deleted = false;
})

abbrev pub after_milk : World
after_milk = (single env 7 77 add_milk none start_world).1

-- One loaf under the same mutation id.
abbrev add_bread : Request
add_bread = create_item 1 (record {
  id = none;
  user_product_id = some 40;
  free_text = none;
  quantity = whole 1;
  quantity_unit = each;
  checked = false;
  position = none;
})

-- Tick off the bread.
abbrev pub bread_patch : ℕ → ItemPatchRequest
bread_patch version = record {
  expected_version = version;
  quantity = none;
  quantity_unit = none;
  checked = some true;
  position = none;
  deleted = none;
}

abbrev bread_answer : Applied
bread_answer = record {
  response = of_item (record (item_response bread_line) { checked = true; version = 2 });
  list_id = 1;
  item_id = some 10;
}

abbrev after_bread : World
after_bread = (patch_item_handler env 7 1 10 (bread_patch 1) start_world).1

pub add_milk_answer : (single env 7 77 add_milk none start_world).0 ≡ ok milk_response
unfolding single handle create_item_handler mutable_list validated_reference validated_quantity
    assert_owned_product assert_free_item_id next_sequence insert_item id_or_fresh next_position
    item_response ◌>>=◌
add_milk_answer = refl

single-Sound_example : Sound 7 (sequence 7 start) start after_milk.db
single-Sound_example = single-Sound env 7 77 add_milk start_world start-Inv

-- After the milk another mutation id was stored.
abbrev other_key : ShoppingListMutation
other_key =
    mutation_row 7 item_create 70 5
      (record { response = milk_response; list_id = 1; item_id = none })

abbrev later_on : World
later_on = record after_milk {
  db = record after_milk.db { mutations = after_milk.db.mutations ++ other_key ∷ [] };
}

single-retry_example : single env 7 77 add_milk none later_on ≡ (ok milk_response, later_on)
single-retry_example =
    single-retry env 7 77 add_milk start_world milk_response start-Inv add_milk_answer none later_on
      (other_key ∷ []) refl

single-key_reused_example :
    single env 7 77 add_bread none later_on ≡ (rejected mutation_conflict, later_on)
single-key_reused_example =
    single-key_reused env 7 77 add_milk add_bread start_world milk_response start-Inv
      add_milk_answer refl (omega arith) none later_on (other_key ∷ []) refl

-- A change of the bread that was made from a version that never was.
abbrev stale_patch : Request
stale_patch = patch_item 1 10 (bread_patch 9)

stale_patch_answer :
    (single env 7 78 stale_patch none start_world).0
    ≡ rejected (version_conflict 1 (of_item (item_response bread_line)))
unfolding single handle patch_item_handler item_row mutable_list ◌>>=◌ replay perform
stale_patch_answer = refl

stale_patch-rejected : (r : Response) → (single env 7 78 stale_patch none start_world).0 ≢ ok r
stale_patch-rejected r e = cc (e, stale_patch_answer)

stale_patch_leaves_tables : (single env 7 78 stale_patch none start_world).1.db ≡ start
stale_patch_leaves_tables = single_atomic env 7 78 stale_patch start_world stale_patch-rejected

bread_bought : (patch_item_handler env 7 1 10 (bread_patch 1) start_world).0 ≡ ok bread_answer
unfolding patch_item_handler mutable_list item_row item_response next_sequence ◌>>=◌ stamp_if
bread_bought = refl

patch_item_handler-no_lost_update_example :
    (patch_item_handler env 7 1 10 (bread_patch 1) after_bread).0 ≢ ok bread_answer
patch_item_handler-no_lost_update_example =
    patch_item_handler-no_lost_update env 7 1 10 (bread_patch 1) (bread_patch 1) start_world
      bread_answer bread_bought refl 0 after_bread (Evolves-refl 7 0 after_bread.db) bread_answer

week_list-open : mutable_list 7 1 start ≡ ok week_list
unfolding mutable_list
week_list-open = refl

bread_is_found : item_row 7 1 10 start ≡ ok bread_line
unfolding item_row
bread_is_found = refl

patch_item_handler-answers_example :
    IsPatchAnswer env 7 1 start_world week_list-open bread_line
      (bread_patch 1)
      none
      (patch_item_handler env 7 1 10 (bread_patch 1) start_world).0
patch_item_handler-answers_example =
    patch_item_handler-answers env 7 1 start_world week_list-open 10 (bread_patch 1) bread_line none
      bread_is_found refl refl refl
