-- ===== src/ShoppingList/Lists.antt =====
-- `_create_list` and `_patch_list` of shopping_list_service.py.
pub mod Ensures
use prislapp.Prelude.{Option, [], if◌then◌else◌, is_some, none, not, or_default, true, ℕ, ◌==◌}
use prislapp.Prelude.Text.{Text}
use prislapp.ShoppingList.Exec.{
  Applied, Env, Exec, id_or_fresh, is_set, now, ok, pure, query, refuse_if, stamp_if, ◌>>=◌, ◌>>◌,
}
use prislapp.ShoppingList.Model.{
  ListCreateRequest, ListPatchRequest, ShoppingList, active, list_deleted, of_list,
  version_conflict,
}
use prislapp.ShoppingList.Queries.{active_items, assert_free_list_id, list_row}
use prislapp.ShoppingList.Responses.{list_response}
use prislapp.ShoppingList.Sequence.{insert_list, next_sequence, save_list, touched}
use prislapp.ShoppingList.Validation.{optional_name, validated_name}

abbrev pub new_list : ℕ → ℕ → Text → ℕ → ℕ → ShoppingList
new_list id user_id name seq time = record {
  id = id;
  user_id = user_id;
  name = name;
  status = active;
  version = 1;
  content_seq = seq;
  created_at = time;
  updated_at = time;
  deleted_at = none;
}

unfoldable pub create_list_handler : Env → ℕ → ListCreateRequest → Exec Applied
create_list_handler env user_id request = do
  name ← query (λ db. validated_name request.name)
  query (assert_free_list_id user_id request.id)
  seq ← next_sequence user_id
  time ← now env
  id ← id_or_fresh env request.id
  insert_list (new_list id user_id name seq time)
  pure (record {
    response = of_list (list_response (new_list id user_id name seq time) []);
    list_id = id;
    item_id = none;
  })

-- The row with the fields that the request sets, after `_touch`.
abbrev pub patched_list :
    ShoppingList → ListPatchRequest → Option Text → ℕ → Option ℕ → ℕ → ShoppingList
patched_list row request name seq deleted_at time =
    touched
      (record row {
        name = or_default name row.name;
        status = or_default request.status row.status;
        deleted_at = deleted_at;
      })
      seq true time

unfoldable pub patch_list_handler : Env → ℕ → ℕ → ListPatchRequest → Exec Applied
patch_list_handler env user_id list_id request = do
  row ← query (list_row user_id list_id)
  query (λ db. refuse_if (is_some row.deleted_at) (list_deleted (of_list (list_response row []))))
  query (λ db.
      refuse_if (not (request.expected_version == row.version))
        (version_conflict row.version (of_list (list_response row (active_items list_id db)))))
  name ← query (λ db. optional_name request.name)
  seq ← next_sequence user_id
  deleted_at ← stamp_if env (is_set request.deleted) row.deleted_at
  time ← now env
  let patched = patched_list row request name seq deleted_at time
  save_list patched
  rows ← query (λ db. ok (if is_some deleted_at then [] else active_items list_id db))
  pure
      (record { response = of_list (list_response patched rows); list_id = row.id; item_id = none })
