-- ===== src/ShoppingList/Mutations/Soundness.antt =====
-- A mutation in its own transaction: the invariant, what it may change, and atomicity.
use prislapp.Prelude.{Option, arith, none, refl, some, ℕ, ◌≡◌, ◌≢◌}
use prislapp.ShoppingList.Evolution.{Evolves, Evolves-refl}
use prislapp.ShoppingList.Exec.{
  Applied, Env, Outcome, World, continue, integrity_error, invalid_operation, ok, rejected, ◌>>=◌,
}
use prislapp.ShoppingList.Invariant.{Handled, Handles, Inv, OnOk}
use prislapp.ShoppingList.Model.{Db, Request, Response, ShoppingListMutation, operation_of}
use prislapp.ShoppingList.Mutations.{
  answer_or, commit, handle, or_roll_back, perform, recorded, replay, single,
}
use prislapp.ShoppingList.Mutations.Handlers.{handle-Ensures}
use prislapp.ShoppingList.Sequence.{sequence}

-- What holds of the tables after any outcome.
abbrev pub Sound : ℕ → ℕ → Db → Db → Type 0
Sound user floor a b = Evolves user floor a b × Inv b

pub Sound-refl : (user floor : ℕ) (a : Db) → Inv a → Sound user floor a a
Sound-refl user floor a inv = (Evolves-refl user floor a, inv)

-- Storing the answer touches none of the tables that the invariant is about.
pub Sound-recorded :
    (user floor : ℕ) (a b : Db) (row : ShoppingListMutation)
    → Handled user floor a b
    → Sound user floor a (recorded row b)
Sound-recorded user floor a b row h = (
  record {
    lists = h.evolves.lists;
    items = h.evolves.items;
    rises = unfold sequence in h.evolves.rises;
    others = unfold sequence in h.evolves.others;
    products = h.evolves.products;
    ledgers = h.evolves.ledgers;
    receipts = h.evolves.receipts;
  },
  record {
    list_ids = h.inv.list_ids;
    item_ids = h.inv.item_ids;
    bounded = unfold sequence in h.inv.bounded;
    covered = h.inv.covered;
    valid = h.inv.valid;
    limit = h.inv.limit;
  },
)

module _ (env : Env) (user mutation_id : ℕ) (request : Request) where
  perform-Sound :
      (w : World)
      → Inv w.db
      → Sound user (sequence user w.db) w.db (perform env user mutation_id request none w).1.db
  unfolding perform
  perform-Sound w inv =
      go (handle env user request w)
        (handle-Ensures env user (sequence user w.db) w request (omega arith) inv).returns
    where
      go :
          (out : Outcome Applied × World)
          → OnOk (Handles user (sequence user w.db) w.db) out
          → Sound user
              (sequence user w.db)
              w.db
              (or_roll_back w.db out (
                commit user
                  (operation_of request)
                  mutation_id
                  (env.payload_hash request)
                  none)).1.db
      go (ok applied, w') h = Sound-recorded user (sequence user w.db) w.db w'.db _ h
      go (rejected r, w') h = Sound-refl user (sequence user w.db) w.db inv
      go (integrity_error, w') h = Sound-refl user (sequence user w.db) w.db inv
      go (invalid_operation, w') h = Sound-refl user (sequence user w.db) w.db inv

  -- Whatever the mutation, and whatever its outcome, if no rival commits the same key: the tables
  -- keep their invariant, no row is lost, no other account's row or sequence changes, no tombstone changes, and each row that is
  -- new or changed is stamped above the account's sequence from before.
  pub single-Sound :
      (w : World)
      → Inv w.db
      → Sound user (sequence user w.db) w.db (single env user mutation_id request none w).1.db
  unfolding single ◌>>=◌
  single-Sound w inv =
      go (replay user (operation_of request) mutation_id (env.payload_hash request) w.db)
    where
      go :
          (stored : Outcome (Option Response))
          → Sound user
              (sequence user w.db)
              w.db
              (continue stored
                (λ s. answer_or s (perform env user mutation_id request none))
                w).1.db
      go (ok none) = perform-Sound w inv
      go (ok (some r)) = Sound-refl user (sequence user w.db) w.db inv
      go (rejected r) = Sound-refl user (sequence user w.db) w.db inv
      go integrity_error = Sound-refl user (sequence user w.db) w.db inv
      go invalid_operation = Sound-refl user (sequence user w.db) w.db inv

  perform_atomic :
      (w : World)
      → ((r : Response) → (perform env user mutation_id request none w).0 ≢ ok r)
      → (perform env user mutation_id request none w).1.db ≡ w.db
  unfolding perform
  perform_atomic w = go (handle env user request w)
    where
      go :
          (out : Outcome Applied × World)
          → ((r : Response)
              → (or_roll_back w.db out (
                  commit user (operation_of request) mutation_id (env.payload_hash request) none)).0
                ≢ ok r)
          → (or_roll_back w.db out
              (commit user (operation_of request) mutation_id (env.payload_hash request) none)).1.db
            ≡ w.db
      go (ok applied, w') h = absurd (h applied.response refl)
      go (rejected r, w') h = refl
      go (integrity_error, w') h = refl
      go (invalid_operation, w') h = refl

  -- A mutation without a rival that does not return an answer, whatever it had written, leaves every table as it
  -- was.
  pub single_atomic :
      (w : World)
      → ((r : Response) → (single env user mutation_id request none w).0 ≢ ok r)
      → (single env user mutation_id request none w).1.db ≡ w.db
  unfolding single ◌>>=◌
  single_atomic w =
      go (replay user (operation_of request) mutation_id (env.payload_hash request) w.db)
    where
      go :
          (stored : Outcome (Option Response))
          → ((r : Response)
              → (continue stored (λ s. answer_or s (perform env user mutation_id request none)) w).0
                ≢ ok r)
          → (continue stored (λ s. answer_or s (perform env user mutation_id request none)) w).1.db
            ≡ w.db
      go (ok none) h = perform_atomic w h
      go (ok (some r)) h = refl
      go (rejected r) h = refl
      go integrity_error h = refl
      go invalid_operation h = refl
