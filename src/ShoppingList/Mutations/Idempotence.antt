-- ===== src/ShoppingList/Mutations/Idempotence.antt =====
-- The stored answers of `_single` in shopping_list_service.py: retries and reused mutation ids.
use prislapp.Prelude.{
  List, Option, ap, arith, eq→==, find?, find?-append_none, find?-append_some, none, refl, some,
  true, ℕ, ◌++◌, ◌∙◌, ◌≡◌, ◌≢◌,
}
use prislapp.ShoppingList.Exec.{
  Applied, Env, Outcome, World, continue, integrity_error, invalid_operation, ok, rejected, ◌>>=◌,
}
use prislapp.ShoppingList.Invariant.{Handles, Inv, OnOk}
use prislapp.ShoppingList.Model.{
  Db, Request, Response, ShoppingListMutation, ShoppingListOperation, item_create, item_patch,
  list_copy, list_create, list_from_receipt, list_patch, mutation_conflict, operation_of,
}
use prislapp.ShoppingList.Mutations.{
  answer_or, commit, handle, has_mutation_key, mutation_row, or_roll_back, perform, recorded,
  replay, single, stored_answer,
}
use prislapp.ShoppingList.Mutations.Handlers.{handle-Ensures}
use prislapp.ShoppingList.Sequence.{sequence}

stored_answer-none :
    (digest : ℕ) (row : Option ShoppingListMutation)
    → stored_answer digest row ≡ ok none
    → row ≡ none
stored_answer-none digest none e = refl
stored_answer-none digest (some row) e = ground arith

has_own_mutation_key :
    (user mutation_id digest : ℕ) (operation : ShoppingListOperation) (applied : Applied)
    → has_mutation_key user operation mutation_id
        (mutation_row user operation mutation_id digest applied)
      ≡ true
has_own_mutation_key user mutation_id digest list_create applied = ground arith
has_own_mutation_key user mutation_id digest list_patch applied = ground arith
has_own_mutation_key user mutation_id digest item_create applied = ground arith
has_own_mutation_key user mutation_id digest item_patch applied = ground arith
has_own_mutation_key user mutation_id digest list_copy applied = ground arith
has_own_mutation_key user mutation_id digest list_from_receipt applied = ground arith

-- The key that was just recorded is found, with its digest and its answer.
found-recorded :
    (user mutation_id digest : ℕ) (operation : ShoppingListOperation) (applied : Applied) (a b : Db)
    → replay user operation mutation_id digest a ≡ ok none
    → b.mutations ≡ a.mutations
    → find?
        (has_mutation_key user operation mutation_id)
        (recorded (mutation_row user operation mutation_id digest applied) b).mutations
      ≡ some (mutation_row user operation mutation_id digest applied)
unfolding replay
found-recorded user mutation_id digest operation applied a b e keys = rw keys (
    find?-append_none (has_mutation_key user operation mutation_id) a.mutations _
      (stored_answer-none digest _ e)
      (has_own_mutation_key user mutation_id digest operation applied))

-- The key's row holds this digest and this answer.
abbrev IsStored : ℕ → ShoppingListOperation → ℕ → ℕ → Response → Db → Type 0
IsStored user operation mutation_id digest r db =
    (row : ShoppingListMutation) × (find? (has_mutation_key user operation mutation_id) db.mutations
      ≡ some row)
    × (row.payload_hash ≡ digest)
    × (row.response ≡ r)

stored_answer-some :
    (digest : ℕ) (found : Option ShoppingListMutation) (r : Response)
    → stored_answer digest found ≡ ok (some r)
    → (row : ShoppingListMutation) × (found ≡ some row)
      × (row.payload_hash ≡ digest)
      × (row.response ≡ r)
stored_answer-some digest none r e = cc e
stored_answer-some digest (some row) r e = (row, refl, ground arith, ground arith)

module _ (env : Env) (user mutation_id : ℕ) (request : Request) (w : World) (inv : Inv w.db)
    (r : Response) where
  perform-IsStored :
      replay user (operation_of request) mutation_id (env.payload_hash request) w.db ≡ ok none
      → (perform env user mutation_id request none w).0 ≡ ok r
      → IsStored user
          (operation_of request)
          mutation_id
          (env.payload_hash request)
          r
          (perform env user mutation_id request none w).1.db
  unfolding perform
  perform-IsStored absent =
      go (handle env user request w)
        (handle-Ensures env user (sequence user w.db) w request (omega arith) inv).returns
    where
      go :
          (out : Outcome Applied × World)
          → OnOk (Handles user (sequence user w.db) w.db) out
          → (or_roll_back w.db out
              (commit user (operation_of request) mutation_id (env.payload_hash request) none)).0
            ≡ ok r
          → IsStored user
              (operation_of request)
              mutation_id
              (env.payload_hash request)
              r
              (or_roll_back w.db out (
                commit user
                  (operation_of request)
                  mutation_id
                  (env.payload_hash request)
                  none)).1.db
      go (ok applied, w') h e = (
        mutation_row user (operation_of request) mutation_id (env.payload_hash request) applied,
        found-recorded user mutation_id (env.payload_hash request) (operation_of request) applied
            w.db w'.db absent h.keys,
        refl,
        ground arith,
      )
      go (rejected _, w') h e = cc e
      go (integrity_error, w') h e = cc e
      go (invalid_operation, w') h e = cc e

  single-IsStored :
      (single env user mutation_id request none w).0 ≡ ok r
      → IsStored user
          (operation_of request)
          mutation_id
          (env.payload_hash request)
          r
          (single env user mutation_id request none w).1.db
  unfolding single ◌>>=◌
  single-IsStored =
      go (replay user (operation_of request) mutation_id (env.payload_hash request) w.db) refl
    where
      go :
          (stored : Outcome (Option Response))
          → replay user (operation_of request) mutation_id (env.payload_hash request) w.db ≡ stored
          → (continue stored (λ s. answer_or s (perform env user mutation_id request none)) w).0
            ≡ ok r
          → IsStored user
              (operation_of request)
              mutation_id
              (env.payload_hash request)
              r
              (continue stored
                (λ s. answer_or s (perform env user mutation_id request none))
                w).1.db
      go (ok none) absent e = perform-IsStored absent e
      go (ok (some r')) there e =
          let same : r' ≡ r = cc e in
          stored_answer-some (env.payload_hash request) _ r
            (unfold replay in there ∙ ap (λ (x : Response). ok (some x)) same)
      go (rejected _) there e = cc e
      go integrity_error there e = cc e
      go invalid_operation there e = cc e

single_stored :
    (env : Env) (user mutation_id : ℕ) (request : Request) (race : Option Db) (w : World)
    (answer : Outcome (Option Response))
    → replay user (operation_of request) mutation_id (env.payload_hash request) w.db ≡ answer
    → single env user mutation_id request race w
      ≡ continue answer (λ s. answer_or s (perform env user mutation_id request race)) w
single_stored env user mutation_id request race w answer e = unfold single ◌>>=◌ in rw e

-- A retry of an answered mutation of sound tables, at any later time, after any further mutations and in any race,
-- gets the same answer and changes nothing.
pub single-retry :
    (env : Env) (user mutation_id : ℕ) (request : Request) (w : World) (r : Response)
    → Inv w.db
    → (single env user mutation_id request none w).0 ≡ ok r
    → (race : Option Db) (later : World) (more : List ShoppingListMutation)
    → later.db.mutations ≡ (single env user mutation_id request none w).1.db.mutations ++ more
    → single env user mutation_id request race later ≡ (ok r, later)
unfolding ◌>>=◌
single-retry env user mutation_id request w r inv answered race later more same =
    let (row, found_row, hash, answer) =
      single-IsStored env user mutation_id request w inv r answered in
    single_stored env user mutation_id request race later (ok (some r)) (
      unfold replay in
      rw (same, find?-append_some _ _ more found_row)
        (rw (eq→== row.payload_hash (env.payload_hash request) hash, answer) refl))

-- After an answered mutation of sound tables, and any further ones, the same id for the same operation with another
-- hash of its content and resource is a conflict, and changes nothing.
pub single-key_reused :
    (env : Env) (user mutation_id : ℕ) (request other : Request) (w : World) (r : Response)
    → Inv w.db
    → (single env user mutation_id request none w).0 ≡ ok r
    → operation_of other ≡ operation_of request
    → env.payload_hash other ≢ env.payload_hash request
    → (race : Option Db) (later : World) (more : List ShoppingListMutation)
    → later.db.mutations ≡ (single env user mutation_id request none w).1.db.mutations ++ more
    → single env user mutation_id other race later ≡ (rejected mutation_conflict, later)
single-key_reused env user mutation_id request other w r inv answered op differs race later more
      same =
    let (row, found_row, hash, answer) =
      single-IsStored env user mutation_id request w inv r answered in
    single_stored env user mutation_id other race later (rejected mutation_conflict)
      (unfold replay in rw (same, op, find?-append_some _ _ more found_row) (ground (arith, hash)))
