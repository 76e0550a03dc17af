-- ===== src/ShoppingList/Lists/Ensures.antt =====
-- `_create_list` and `_patch_list` keep the invariant and change only what they may.
-- A refused test is the only way past a check.
use prislapp.Prelude.{
  Bool, Option, [], any, arith, false, inr, is_some, refl, true, ℕ, ◌++◌, ◌+◌, ◌==◌, ◌∷◌, ◌≡◌, ◌≤◌,
}
use prislapp.Prelude.Table.{IsOnly, replace}
use prislapp.Prelude.Text.{Text}
use prislapp.ShoppingList.Evolution.{ListStep}
use prislapp.ShoppingList.Exec.{Env, World, ok, refuse_if}
use prislapp.ShoppingList.Invariant.{Ensures, Handled, Handles, Inv}
use prislapp.ShoppingList.Invariant.Bump.{bump-Handled, sequence-bump}
use prislapp.ShoppingList.Invariant.Rules.{
  Ensures-id, Ensures-insert_list, Ensures-modify, Ensures-next, Ensures-now, Ensures-pure,
  Ensures-query, Ensures-stamp, Handled-trans,
}
use prislapp.ShoppingList.Invariant.Writes.{insert_list-Handled, list_row-found, save_list-Handled}
use prislapp.ShoppingList.Lists.{create_list_handler, patch_list_handler, patched_list}
use prislapp.ShoppingList.Model.{ListCreateRequest, ListPatchRequest, Rejection, ShoppingList}
use prislapp.ShoppingList.Sequence.{bump, sequence}

pub refuse_if-passed : (b : Bool) (r : Rejection) {u : Unit {0}} → refuse_if b r ≡ ok u → b ≡ false
refuse_if-passed true r h = cc
refuse_if-passed false r h = refl

module _ (env : Env) (user floor : ℕ) (w : World) (le : floor ≤ sequence user w.db)
    (inv : Inv w.db) where
  pub new_list-Handled :
      (row : ShoppingList)
      → row.user_id ≡ user
      → row.content_seq ≡ sequence user w.db + 1
      → any (λ old. old.id == row.id) w.db.lists ≡ false
      → Handled user floor w.db (record (bump user w.db) { lists = w.db.lists ++ row ∷ [] })
  new_list-Handled row owner seq free =
      let first : Handled user floor w.db (bump user w.db) = bump-Handled user floor w.db inv in
      Handled-trans user floor w.db (bump user w.db) _ first (
        insert_list-Handled user floor (bump user w.db) first.inv row free
          (record { owner = owner; stamped = omega (arith, seq) })
          (rw owner (omega (arith, seq, sequence-bump user w.db))))

  pub create_list_handler-Ensures :
      (request : ListCreateRequest)
      → Ensures (Handles user floor w.db) (create_list_handler env user request) w
  unfolding create_list_handler
  create_list_handler-Ensures request = Ensures-query _ _ _ w λ name _. Ensures-query _ _ _ w λ _ _.
      Ensures-next _ user _ w (
        Ensures-now _ env _ _ λ time reads. Ensures-id _ env request.id _ _ λ id draws.
          Ensures-insert_list _ _ _ _
            λ free. Ensures-pure _ _ _ (new_list-Handled _ refl refl free))

  patched_list-Step :
      (row : ShoppingList) (request : ListPatchRequest) (name : Option Text) (mark : Option ℕ)
      (time : ℕ)
      → row.user_id ≡ user
      → is_some row.deleted_at ≡ false
      → row.content_seq ≤ sequence user w.db
      → ListStep user floor row (patched_list row request name (sequence user w.db + 1) mark time)
  patched_list-Step row request name mark time owner alive below = record {
    id = refl;
    owner = refl;
    created = refl;
    foreign = λ n. absurd (n owner);
    frozen = λ d. cc;
    stamped = inr (omega arith);
    rises = omega arith;
    counted = omega arith;
  }

  -- The account's next sequence number is written to one of its live lists.
  pub saved_list-Handled :
      (old row : ShoppingList)
      → IsOnly (λ r. r.id) old w.db.lists
      → ListStep user floor old row
      → row.user_id ≡ user
      → row.content_seq ≡ sequence user w.db + 1
      → Handled user floor w.db
          (record (bump user w.db) { lists = replace (λ r. r.id) row w.db.lists })
  saved_list-Handled old row only st owner seq =
      let first : Handled user floor w.db (bump user w.db) = bump-Handled user floor w.db inv in
      Handled-trans user floor w.db (bump user w.db) _ first (
        save_list-Handled user floor (bump user w.db) first.inv old row only st
          (rw owner (omega (arith, seq, sequence-bump user w.db))))

  pub patch_list_handler-Ensures :
      (list_id : ℕ) (request : ListPatchRequest)
      → Ensures (Handles user floor w.db) (patch_list_handler env user list_id request) w
  unfolding patch_list_handler
  patch_list_handler-Ensures list_id request = Ensures-query _ _ _ w λ row looked.
      let (_, _, owner, only, below) = list_row-found user list_id w.db inv looked in
      Ensures-query _ _ _ w λ _ alive. Ensures-query _ _ _ w λ _ _. Ensures-query _ _ _ w λ name _.
        Ensures-next _ user _ w (
          Ensures-stamp _ env _ row.deleted_at _ _ λ mark reads.
            Ensures-now _ env _ _ λ time reads'. Ensures-modify _ _ _ _ (
              Ensures-query _ _ _ _ λ rows _. Ensures-pure _ _ _ (
                saved_list-Handled row
                  (patched_list row request name (sequence user w.db + 1) mark time) only
                  (patched_list-Step row request name mark time owner (refuse_if-passed _ _ alive)
                    below)
                  owner refl)))
