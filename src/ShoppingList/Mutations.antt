-- ===== src/ShoppingList/Mutations.antt =====
-- `_single`, `_record` and `_replay` of shopping_list_service.py: one idempotent mutation in its own
-- transaction. The advisory lock only orders two transactions.
pub mod Handlers
pub mod Soundness
pub mod Idempotence
use prislapp.Prelude.{
  Bool, Option, [], false, find?, if◌then◌else◌, none, some, true, ℕ, ◌&&◌, ◌++◌, ◌==◌, ◌∷◌,
}
use prislapp.ShoppingList.Copies.{copy_list_handler, create_list_from_receipt_handler}
use prislapp.ShoppingList.Exec.{
  Applied, Env, Exec, Outcome, World, integrity_error, invalid_operation, ok, pure, query, rejected,
  ◌>>=◌, ◌>>◌,
}
use prislapp.ShoppingList.Items.{create_item_handler, patch_item_handler}
use prislapp.ShoppingList.Lists.{create_list_handler, patch_list_handler}
use prislapp.ShoppingList.Model.{
  Db, Request, Response, ShoppingListMutation, ShoppingListOperation, copy_list,
  create_from_receipt, create_item, create_list, item_create, item_patch, list_copy, list_create,
  list_from_receipt, list_patch, mutation_conflict, operation_of, patch_item, patch_list,
}

abbrev same_operation : ShoppingListOperation → ShoppingListOperation → Bool
same_operation list_create list_create = true
same_operation list_patch list_patch = true
same_operation item_create item_create = true
same_operation item_patch item_patch = true
same_operation list_copy list_copy = true
same_operation list_from_receipt list_from_receipt = true
same_operation _ _ = false

abbrev pub has_mutation_key : ℕ → ShoppingListOperation → ℕ → ShoppingListMutation → Bool
has_mutation_key user_id operation mutation_id row =
    row.user_id == user_id
    && same_operation row.operation operation
    && row.mutation_id == mutation_id

abbrev stored_answer : ℕ → Option ShoppingListMutation → Outcome (Option Response)
stored_answer digest none = ok none
stored_answer digest (some row) =
    if row.payload_hash == digest then ok (some row.response) else rejected mutation_conflict

-- `_replay`
unfoldable pub replay : ℕ → ShoppingListOperation → ℕ → ℕ → Db → Outcome (Option Response)
replay user_id operation mutation_id digest db =
    stored_answer digest (find? (has_mutation_key user_id operation mutation_id) db.mutations)

abbrev pub mutation_row : ℕ → ShoppingListOperation → ℕ → ℕ → Applied → ShoppingListMutation
mutation_row user_id operation mutation_id digest applied = record {
  user_id = user_id;
  operation = operation;
  mutation_id = mutation_id;
  payload_hash = digest;
  list_id = applied.list_id;
  item_id = applied.item_id;
  response = applied.response;
}

-- `_record`
abbrev pub recorded : ShoppingListMutation → Db → Db
recorded row db = record db { mutations = db.mutations ++ row ∷ [] }

-- The handler that each REST route and each sync entry names.
unfoldable pub handle : Env → ℕ → Request → Exec Applied
handle env user_id (create_list request) = create_list_handler env user_id request
handle env user_id (patch_list list_id request) = patch_list_handler env user_id list_id request
handle env user_id (copy_list list_id request) = copy_list_handler env user_id list_id request
handle env user_id (create_from_receipt request) =
    create_list_from_receipt_handler env user_id request
handle env user_id (create_item list_id request) = create_item_handler env user_id list_id request
handle env user_id (patch_item list_id item_id request) =
    patch_item_handler env user_id list_id item_id request

-- The commit. `race` is the database as a rival left it, if a rival committed the same key first:
-- then the unique constraint refuses the commit, and the rival's answer is the answer.
commit : ℕ → ShoppingListOperation → ℕ → ℕ → Option Db → Applied → Exec Response
commit user_id operation mutation_id digest none applied w = (
  ok applied.response,
  record w { db = recorded (mutation_row user_id operation mutation_id digest applied) w.db },
)
commit user_id operation mutation_id digest (some rival) applied w = (
  elim (replay user_id operation mutation_id digest rival) [
    | ok (some response) ↦ ok response
    | ok none ↦ integrity_error
    | rejected r ↦ rejected r
    | integrity_error ↦ integrity_error
    | invalid_operation ↦ invalid_operation
  ],
  record w { db = rival },
)

-- A handler that does not return leaves the tables as they were: `_single` rolls a rejection
-- back, and the session of database.py is closed without a commit on any other exception.
abbrev pub or_roll_back : {A B : Type 0} → Db → Outcome A × World → (A → Exec B) → Outcome B × World
or_roll_back before (ok a, w) f = f a w
or_roll_back before (rejected r, w) f = (rejected r, record w { db = before })
or_roll_back before (integrity_error, w) f = (integrity_error, record w { db = before })
or_roll_back before (invalid_operation, w) f = (invalid_operation, record w { db = before })

unfoldable pub perform : Env → ℕ → ℕ → Request → Option Db → Exec Response
unfolding commit replay
perform env user_id mutation_id request race w =
    or_roll_back w.db (handle env user_id request w)
      (commit user_id (operation_of request) mutation_id (env.payload_hash request) race)

abbrev answer_or : Option Response → Exec Response → Exec Response
answer_or (some a) m = pure a
answer_or none m = m

-- `_single`
unfoldable pub single : Env → ℕ → ℕ → Request → Option Db → Exec Response
unfolding perform replay
single env user_id mutation_id request race = do
  stored ← query (replay user_id (operation_of request) mutation_id (env.payload_hash request))
  answer_or stored (perform env user_id mutation_id request race)
