-- ===== src/ShoppingList/Sync.antt =====
-- `sync` of shopping_list_service.py: mutations that a device made offline, then what it lacks.
pub mod Soundness
pub mod Cursors
pub mod Delta
use prislapp.Prelude.{
  Bool, List, Option, [], false, filter, if◌then◌else◌, is_some, leb, ltb, map, none, not, some,
  true, ℕ, ◌&&◌, ◌-◌, ◌==◌, ◌||◌, ◌∷◌,
}
use prislapp.Prelude.Sort.{sort_by}
use prislapp.Prelude.Text.{Text}
use prislapp.ShoppingList.Exec.{
  Env, Exec, Outcome, World, modify, now, ok, pure, query, rejected, ◌>>=◌, ◌>>◌,
}
use prislapp.ShoppingList.Model.{
  AccountLedger, CursorPayload, Db, ItemCreateRequest, ItemPatchRequest, ListCreateRequest,
  ListPatchRequest, ListResponse, Rejection, Request, Response, ShoppingList, ShoppingListItem,
  create_item, create_list, cursor_expired, operation_of, patch_item, patch_list,
}
use prislapp.ShoppingList.Mutations.{handle, mutation_row, or_roll_back, recorded, replay}
use prislapp.ShoppingList.Queries.{by_position}
use prislapp.ShoppingList.Responses.{list_response}
use prislapp.ShoppingList.Sequence.{sequence}

-- The entries that the schema of a sync request admits, each with its mutation id.
pub data SyncMutation : Type 0 where
  sync_create_list : ℕ → ListCreateRequest → SyncMutation
  sync_patch_list : ℕ → ℕ → ListPatchRequest → SyncMutation
  sync_create_item : ℕ → ℕ → ItemCreateRequest → SyncMutation
  sync_patch_item : ℕ → ℕ → ℕ → ItemPatchRequest → SyncMutation

abbrev pub mutation_id_of : SyncMutation → ℕ
mutation_id_of (sync_create_list id _) = id
mutation_id_of (sync_patch_list id _ _) = id
mutation_id_of (sync_create_item id _ _) = id
mutation_id_of (sync_patch_item id _ _ _) = id

-- The handler's request, as `_sync_handler` and `_sync_scope` choose it.
abbrev pub request_of : SyncMutation → Request
request_of (sync_create_list _ request) = create_list request
request_of (sync_patch_list _ list_id request) = patch_list list_id request
request_of (sync_create_item _ list_id request) = create_item list_id request
request_of (sync_patch_item _ list_id item_id request) = patch_item list_id item_id request

-- The mutation that was not carried out, with the reason and the server's version in it.
pub record Conflict : Type 0 where
  pub mutation : SyncMutation
  pub reason : Rejection

pub record SyncCursor : Type 0 where
  pub sequence : Option ℕ
  pub replay_allowed : Bool

abbrev pub sync_cursor_version : ℕ
sync_cursor_version = 1

-- 90 days in seconds
abbrev pub tombstone_retention : ℕ
tombstone_retention = 7776000

abbrev pub refused_cursor : SyncCursor
refused_cursor = record { sequence = none; replay_allowed = false }

abbrev checked_cursor : ℕ → ℕ → CursorPayload → Db → SyncCursor
checked_cursor user_id time payload db =
    if ltb tombstone_retention (time - payload.issued_at)
    then refused_cursor
    else if payload.negative || ltb (sequence user_id db) payload.sequence
    then refused_cursor
    else record { sequence = some payload.sequence; replay_allowed = true }

-- `_parse_sync_cursor` from the payload that the text has, if it has one.
abbrev pub parse_payload : Env → ℕ → Option CursorPayload → Exec SyncCursor
parse_payload env user_id none = pure refused_cursor
parse_payload env user_id (some payload) =
    if not (payload.version == sync_cursor_version) || not (payload.user_id == user_id)
    then pure refused_cursor
    else do time ← now env; query (λ db. ok (checked_cursor user_id time payload db))

-- `_parse_sync_cursor`
unfoldable pub parse_sync_cursor : Env → ℕ → Option Text → Exec SyncCursor
parse_sync_cursor env user_id none = pure (record { sequence = none; replay_allowed = true })
parse_sync_cursor env user_id (some text) = parse_payload env user_id (env.decode_payload text)

abbrev pub cursor_payload : ℕ → ℕ → ℕ → CursorPayload
cursor_payload user_id seq time = record {
  version = sync_cursor_version;
  user_id = user_id;
  negative = false;
  sequence = seq;
  issued_at = time;
}

-- `encode_sync_cursor`
abbrev pub encode_sync_cursor : Env → ℕ → ℕ → ℕ → Text
encode_sync_cursor env user_id seq time = env.encode_payload (cursor_payload user_id seq time)

-- The end of a mutation's savepoint: a rejection undoes it and becomes a conflict; any other
-- exception leaves `sync`.
abbrev end_savepoint :
    Db → SyncMutation → Outcome (Option Conflict) × World → Outcome (Option Conflict) × World
end_savepoint before mutation (rejected r, w) =
    (ok (some (record { mutation = mutation; reason = r })), record w { db = before })
end_savepoint before mutation other = other

abbrev unless_stored : Option Response → Exec (Option Conflict) → Exec (Option Conflict)
unless_stored (some _) m = pure none
unless_stored none m = m

-- `_apply_sync_mutation`
unfoldable pub apply_sync_mutation : Env → ℕ → SyncMutation → Exec (Option Conflict)
unfolding replay
apply_sync_mutation env user_id mutation w =
    let request = request_of mutation in
    let operation = operation_of request in
    let digest = env.payload_hash request in
    end_savepoint w.db mutation (
      (do
        stored ← query (replay user_id operation (mutation_id_of mutation) digest)
        unless_stored stored (do
          applied ← handle env user_id request
          modify
              (recorded (mutation_row user_id operation (mutation_id_of mutation) digest applied))
          pure none))
        w)

abbrev cons_conflict : Option Conflict → List Conflict → List Conflict
cons_conflict none conflicts = conflicts
cons_conflict (some conflict) conflicts = conflict ∷ conflicts

-- The loop over the mutations.
unfoldable pub apply_mutations : Env → ℕ → List SyncMutation → Exec (List Conflict)
apply_mutations env user_id [] = pure []
apply_mutations env user_id (mutation ∷ mutations) = do
  conflict ← apply_sync_mutation env user_id mutation
  conflicts ← apply_mutations env user_id mutations
  pure (cons_conflict conflict conflicts)

abbrev pub changed_after : Option ℕ → ℕ → Bool
changed_after none seq = true
changed_after (some since) seq = ltb since seq

abbrev pub by_created_at : ShoppingList → ShoppingList → Bool
by_created_at a b = ltb a.created_at b.created_at || (a.created_at == b.created_at && leb a.id b.id)

abbrev pub synced_items :
    ℕ → Option ℕ → ShoppingList → List ShoppingListItem → List ShoppingListItem
synced_items user_id since row =
    filter (λ item.
      item.user_id == user_id && item.list_id == row.id && changed_after since item.sync_seq)

-- `_sync_lists` with `_items_by_list`: the snapshot, or what changed after a sequence.
unfoldable pub sync_lists : ℕ → Option ℕ → Db → List ListResponse
unfolding sort_by list_response
sync_lists user_id since db =
    map (λ row. list_response row (sort_by by_position (synced_items user_id since row db.items)))
      (sort_by by_created_at
        (filter (λ row. row.user_id == user_id && changed_after since row.content_seq) db.lists))

abbrev ledger_version : ℕ → List AccountLedger → ℕ
ledger_version user_id [] = 1
ledger_version user_id (row ∷ rows) =
    if row.user_id == user_id
    then (if row.price_data_version == 0 then 1 else row.price_data_version)
    else ledger_version user_id rows

pub record SyncResponse : Type 0 where
  pub cursor : Text
  pub price_data_version : ℕ
  pub full_snapshot : Bool
  pub lists : List ListResponse
  pub conflicts : List Conflict

abbrev pub expired : SyncMutation → Conflict
expired mutation = record { mutation = mutation; reason = cursor_expired }

abbrev replay_mutations : Env → ℕ → SyncCursor → List SyncMutation → Exec (List Conflict)
replay_mutations env user_id cursor mutations =
    if cursor.replay_allowed
    then apply_mutations env user_id mutations
    else pure (map expired mutations)

-- After the commit the sequence is read before the lists. `others` is what other sessions commit
-- between the two reads.
unfoldable pub read_changes : Env → ℕ → Option ℕ → (Db → Db) → List Conflict → Exec SyncResponse
read_changes env user_id since others conflicts = do
  seq ← query (λ db. ok (sequence user_id db))
  modify others
  lists ← query (λ db. ok (sync_lists user_id since db))
  time ← now env
  version ← query (λ db. ok (ledger_version user_id db.ledgers))
  pure (record {
    cursor = encode_sync_cursor env user_id seq time;
    price_data_version = version;
    full_snapshot = not (is_some since);
    lists = lists;
    conflicts = conflicts;
  })

unfoldable pub sync : Env → ℕ → Option Text → List SyncMutation → (Db → Db) → Exec SyncResponse
unfolding parse_sync_cursor read_changes
sync env user_id cursor mutations others w =
    or_roll_back w.db
      ((do
        parsed ← parse_sync_cursor env user_id cursor
        conflicts ← replay_mutations env user_id parsed mutations
        pure (parsed.sequence, conflicts))
        w)
      (λ (since, conflicts). read_changes env user_id since others conflicts)
