-- ===== src/ShoppingList/Sync/Soundness.antt =====
-- `sync` of shopping_list_service.py and the invariant of the tables.
use prislapp.Prelude.{
  Bool, List, Option, [], arith, false, if◌then◌else◌, map, none, not, refl, some, true, ℕ, ◌==◌,
  ◌||◌, ◌∷◌, ◌≡◌, ◌≤◌,
}
use prislapp.ShoppingList.Evolution.{Evolves-trans}
use prislapp.ShoppingList.Exec.{
  Env, Outcome, World, integrity_error, invalid_operation, modify, now, ok, pure, query, rejected,
  ◌>>=◌, ◌>>◌,
}
use prislapp.ShoppingList.Invariant.{Ensures, Handles, Inv, OnOk}
use prislapp.ShoppingList.Invariant.Rules.{
  Ensures-bind, Ensures-modify, Ensures-pure, Ensures-query,
}
use prislapp.Prelude.Text.{Text}
use prislapp.ShoppingList.Model.{CursorPayload, Db, Request, operation_of}
use prislapp.ShoppingList.Mutations.{handle, mutation_row, or_roll_back, recorded, replay}
use prislapp.ShoppingList.Mutations.Handlers.{handle-Ensures}
use prislapp.ShoppingList.Mutations.Soundness.{Sound, Sound-recorded, Sound-refl}
use prislapp.ShoppingList.Sequence.{sequence}
use prislapp.ShoppingList.Sync.{
  Conflict, SyncCursor, SyncMutation, apply_mutations, apply_sync_mutation, checked_cursor,
  end_savepoint, expired, mutation_id_of, parse_payload, parse_sync_cursor, read_changes,
  refused_cursor, replay_mutations, request_of, sync, sync_cursor_version, unless_stored,
}

Sound-trans :
    (user floor : ℕ) (a b c : Db)
    → Sound user floor a b
    → Sound user floor b c
    → Sound user floor a c
Sound-trans user floor a b c (p, _) (q, inv) = (Evolves-trans user floor a b c p q, inv)

abbrev Steps : {A : Type 0} → ℕ → ℕ → Db → A → World → Type 0
Steps user floor a _ w = Sound user floor a w.db

module _ (env : Env) (user floor : ℕ) where
  apply_sync_mutation-Ensures :
      (mutation : SyncMutation) (w : World)
      → floor ≤ sequence user w.db
      → Inv w.db
      → Ensures (Steps user floor w.db) (apply_sync_mutation env user mutation) w
  apply_sync_mutation-Ensures mutation w le inv = record {
    returns = unfold apply_sync_mutation in closed _ body.returns;
  }
    where
      request : Request
      request = request_of mutation

      closed :
          (out : Outcome (Option Conflict) × World)
          → OnOk (Steps user floor w.db) out
          → OnOk (Steps user floor w.db) (end_savepoint w.db mutation out)
      closed (ok a, w') h = h
      closed (rejected r, w') h = Sound-refl user floor w.db inv
      closed (integrity_error, w') h = tt
      closed (invalid_operation, w') h = tt

      fresh :
          Ensures {A = Option Conflict}
            (Steps user floor w.db)
            (do
              applied ← handle env user request
              modify (
                  recorded (
                    mutation_row user
                      (operation_of request)
                      (mutation_id_of mutation)
                      (env.payload_hash request)
                      applied))
              pure none)
            w
      fresh =
          Ensures-bind _ (Handles user floor w.db) _ _ w
            (handle-Ensures env user floor w request le inv)
            λ applied w' h.
              Ensures-modify _ _ _ w'
                (Ensures-pure _ _ _ (Sound-recorded user floor w.db w'.db _ h))

      body :
          Ensures {A = Option Conflict}
            (Steps user floor w.db)
            (query (
                replay user
                  (operation_of request)
                  (mutation_id_of mutation)
                  (env.payload_hash request))
              >>= λ stored. unless_stored stored (do
                applied ← handle env user request
                modify (
                    recorded (
                      mutation_row user
                        (operation_of request)
                        (mutation_id_of mutation)
                        (env.payload_hash request)
                        applied))
                pure none))
            w
      body = Ensures-query _ _ _ w (elim [
        | none ↦ λ _. fresh
        | some r ↦ λ _. Ensures-pure _ _ w (Sound-refl user floor w.db inv)
      ])

  pub apply_mutations-Ensures :
      (mutations : List SyncMutation) (w : World)
      → floor ≤ sequence user w.db
      → Inv w.db
      → Ensures (Steps user floor w.db) (apply_mutations env user mutations) w
  unfolding apply_mutations
  apply_mutations-Ensures [] w le inv = Ensures-pure _ _ w (Sound-refl user floor w.db inv)
  apply_mutations-Ensures (mutation ∷ mutations) w le inv =
      Ensures-bind _ (Steps user floor w.db) _ _ w (apply_sync_mutation-Ensures mutation w le inv)
        λ conflict w' first.
          Ensures-bind _ (Steps user floor w'.db) _ _ w'
            (apply_mutations-Ensures mutations w' (omega (arith, first.0.rises)) first.1)
            λ conflicts w'' rest.
              Ensures-pure _ _ w'' (Sound-trans user floor w.db w'.db w''.db first rest)

parse_payload-Ensures :
    (env : Env) (user : ℕ) (cursor : Option CursorPayload) (w : World)
    → Ensures (λ _ w'. w'.db ≡ w.db) (parse_payload env user cursor) w
parse_payload-Ensures env user none w = Ensures-pure _ _ w refl
parse_payload-Ensures env user (some payload) w =
    go (not (payload.version == sync_cursor_version) || not (payload.user_id == user))
  where
    go :
        (b : Bool)
        → Ensures
            (λ _ w'. w'.db ≡ w.db)
            (if b
              then pure refused_cursor
              else (now env >>= λ time. query (λ db. ok (checked_cursor user time payload db))))
            w
    go true = Ensures-pure _ _ w refl
    go false = record { returns = unfold ◌>>=◌ in refl }

parse_sync_cursor-Ensures :
    (env : Env) (user : ℕ) (cursor : Option Text) (w : World)
    → Ensures (λ _ w'. w'.db ≡ w.db) (parse_sync_cursor env user cursor) w
unfolding parse_sync_cursor
parse_sync_cursor-Ensures env user none w = Ensures-pure _ _ w refl
parse_sync_cursor-Ensures env user (some text) w =
    parse_payload-Ensures env user (env.decode_payload text) w

replay_mutations-Ensures :
    (env : Env) (user floor : ℕ) (cursor : SyncCursor) (mutations : List SyncMutation) (w : World)
    → floor ≤ sequence user w.db
    → Inv w.db
    → Ensures (Steps user floor w.db) (replay_mutations env user cursor mutations) w
replay_mutations-Ensures env user floor cursor mutations w le inv = go cursor.replay_allowed
  where
    go :
        (b : Bool)
        → Ensures
            (Steps user floor w.db)
            (if b then apply_mutations env user mutations else pure (map expired mutations))
            w
    go true = apply_mutations-Ensures env user floor mutations w le inv
    go false = Ensures-pure _ _ w (Sound-refl user floor w.db inv)

read_changes-db :
    (env : Env) (user : ℕ) (since : Option ℕ) (conflicts : List Conflict) (w : World)
    → (read_changes env user since (λ db. db) conflicts w).1.db ≡ w.db
unfolding read_changes ◌>>=◌
read_changes-db env user since conflicts w = refl

-- Whatever a device sends to `sync`, with whatever cursor, and whatever comes of it, if no other
-- session commits while it answers: the tables keep their invariant, and change only as one account's mutations may change them.
pub sync-Sound :
    (env : Env) (user : ℕ) (cursor : Option Text) (mutations : List SyncMutation) (w : World)
    → Inv w.db
    → Sound user (sequence user w.db) w.db (sync env user cursor mutations (λ db. db) w).1.db
sync-Sound env user cursor mutations w inv = unfold sync in closed _ body.returns
  where
    closed :
        (out : Outcome (Option ℕ × List Conflict) × World)
        → OnOk (Steps user (sequence user w.db) w.db) out
        → Sound user
            (sequence user w.db)
            w.db
            (or_roll_back w.db out
              (λ (since, conflicts). read_changes env user since (λ db. db) conflicts)).1.db
    closed (ok (since, conflicts), w') h = rw (read_changes-db env user since conflicts w') h
    closed (rejected r, w') h = Sound-refl user (sequence user w.db) w.db inv
    closed (integrity_error, w') h = Sound-refl user (sequence user w.db) w.db inv
    closed (invalid_operation, w') h = Sound-refl user (sequence user w.db) w.db inv

    body :
        Ensures {A = Option ℕ × List Conflict}
          (Steps user (sequence user w.db) w.db)
          (parse_sync_cursor env user cursor >>= λ parsed.
            replay_mutations env user parsed mutations >>= λ conflicts.
            pure (parsed.sequence, conflicts))
          w
    body =
        Ensures-bind _ (λ _ w'. w'.db ≡ w.db) _ _ w (parse_sync_cursor-Ensures env user cursor w)
          λ parsed w' same.
            Ensures-bind _ (Steps user (sequence user w.db) w.db) _ _ w'
              (rw (← same) (
                replay_mutations-Ensures env user (sequence user w'.db) parsed mutations w'
                  (omega arith) (rw same inv)))
              λ conflicts w'' h. Ensures-pure _ _ w'' h
