-- ===== src/ShoppingList/Sync/Cursors.antt =====
-- Which cursors are accepted.
use mathlib.Core.Path.{subst}
use prislapp.Prelude.{
  List, Option, ap, arith, map, none, refl, some, sym, true, ℕ, ◌+◌, ◌<◌, ◌∙◌, ◌≡◌, ◌≢◌, ◌≤◌,
}
use prislapp.ShoppingList.Exec.{Env, Outcome, World, continue, ok, pure, ◌>>=◌}
use prislapp.Prelude.Text.{Text}
use prislapp.ShoppingList.Model.{CursorPayload, Db}
use prislapp.ShoppingList.Mutations.{or_roll_back}
use prislapp.ShoppingList.Sequence.{sequence}
use prislapp.ShoppingList.Sync.{
  SyncCursor, SyncMutation, SyncResponse, cursor_payload, encode_sync_cursor, expired,
  ledger_version, parse_payload, parse_sync_cursor, read_changes, refused_cursor, replay_mutations,
  sync, sync_cursor_version, sync_lists, tombstone_retention,
}

-- A cursor that cannot be used, for an account at an instant: unreadable, of another account or
-- version, older than the tombstones, or not a sequence that the account has reached.
pub data IsRefused (user time : ℕ) (db : Db) : Option CursorPayload → Type 0 where
  garbled : IsRefused user time db none
  of_other_version :
      (p : CursorPayload) → p.version ≢ sync_cursor_version → IsRefused user time db (some p)
  of_other_account : (p : CursorPayload) → p.user_id ≢ user → IsRefused user time db (some p)
  too_old :
      (p : CursorPayload)
      → p.issued_at + tombstone_retention < time
      → IsRefused user time db (some p)
  below_zero : (p : CursorPayload) → p.negative ≡ true → IsRefused user time db (some p)
  not_reached :
      (p : CursorPayload) → sequence user db < p.sequence → IsRefused user time db (some p)

module _ (env : Env) (user : ℕ) (w : World) where
  parse_payload-refused :
      {payload : Option CursorPayload}
      → IsRefused user (env.clock w.clock_reads) w.db payload
      → ((parse_payload env user payload w).0 ≡ ok refused_cursor)
        × ((parse_payload env user payload w).1.db ≡ w.db)
  unfolding ◌>>=◌
  parse_payload-refused garbled = (refl, refl)
  parse_payload-refused (of_other_version p n) = (ground arith, ground arith)
  parse_payload-refused (of_other_account p n) = (ground arith, ground arith)
  parse_payload-refused (too_old p h) = (ground arith, ground arith)
  parse_payload-refused (below_zero p h) = (ground arith, ground arith)
  parse_payload-refused (not_reached p h) = (ground arith, ground arith)

  parse_sync_cursor-refused :
      (text : Text)
      → IsRefused user (env.clock w.clock_reads) w.db (env.decode_payload text)
      → ((parse_sync_cursor env user (some text) w).0 ≡ ok refused_cursor)
        × ((parse_sync_cursor env user (some text) w).1.db ≡ w.db)
  unfolding parse_sync_cursor
  parse_sync_cursor-refused text refused = parse_payload-refused refused

  parse_payload-accepted :
      (seq issued : ℕ)
      → env.clock w.clock_reads ≤ issued + tombstone_retention
      → seq ≤ sequence user w.db
      → (parse_payload env user (some (cursor_payload user seq issued)) w).0
        ≡ ok (record { sequence = some seq; replay_allowed = true })
  unfolding ◌>>=◌
  parse_payload-accepted seq issued young reached = ground arith

  -- A cursor that the service issued, and that decodes to its payload, is accepted, with its sequence,
  -- as long as the tombstones from its time are kept and the account's sequence has not gone back.
  pub parse_sync_cursor-encode_sync_cursor :
      (seq issued : ℕ)
      → env.decode_payload (encode_sync_cursor env user seq issued)
        ≡ some (cursor_payload user seq issued)
      → env.clock w.clock_reads ≤ issued + tombstone_retention
      → seq ≤ sequence user w.db
      → (parse_sync_cursor env user (some (encode_sync_cursor env user seq issued)) w).0
        ≡ ok (record { sequence = some seq; replay_allowed = true })
  unfolding parse_sync_cursor
  parse_sync_cursor-encode_sync_cursor seq issued decoded young reached =
      ap (λ (o : Option CursorPayload). (parse_payload env user o w).0) decoded
      ∙ parse_payload-accepted seq issued young reached

  -- `sync` from the point where its cursor is parsed.
  abbrev from_parsed :
      List SyncMutation → (Db → Db) → Outcome SyncCursor × World → Outcome SyncResponse × World
  from_parsed mutations others out =
      or_roll_back w.db
        (continue out.0
          (λ parsed. replay_mutations env user parsed mutations >>= λ conflicts.
            pure (parsed.sequence, conflicts))
          out.1)
        (λ (since, conflicts). read_changes env user since others conflicts)

  abbrev RefusedAnswer : List SyncMutation → (Db → Db) → Outcome SyncResponse × World → Type 0
  RefusedAnswer mutations others out =
      (out.1.db ≡ others w.db)
      × ((response : SyncResponse) × (out.0 ≡ ok response)
          × (response.conflicts ≡ map expired mutations)
          × (response.full_snapshot ≡ true)
          × (response.lists ≡ sync_lists user none (others w.db)))

  from_parsed-refused :
      (mutations : List SyncMutation) (others : Db → Db) (w' : World)
      → w'.db ≡ w.db
      → RefusedAnswer mutations others (from_parsed mutations others (ok refused_cursor, w'))
  unfolding read_changes ◌>>=◌
  from_parsed-refused mutations others w' same = (
    ap others same,
    (
      record {
        cursor = encode_sync_cursor env user (sequence user w'.db) (env.clock w'.clock_reads);
        price_data_version = ledger_version user (others w'.db).ledgers;
        full_snapshot = true;
        lists = sync_lists user none (others w'.db);
        conflicts = map expired mutations;
      },
      refl,
      refl,
      refl,
      ap (λ (db : Db). sync_lists user none (others db)) same,
    ),
  )

  out_of_parts :
      (mutations : List SyncMutation) (others : Db → Db) (out : Outcome SyncCursor × World)
      → out.0 ≡ ok refused_cursor
      → out.1.db ≡ w.db
      → RefusedAnswer mutations others (from_parsed mutations others out)
  out_of_parts mutations others (r, w') e same =
      subst
        (λ (x : Outcome SyncCursor).
          RefusedAnswer mutations others (from_parsed mutations others (x, w')))
        (sym e) (from_parsed-refused mutations others w' same)

  -- With a cursor that cannot be used, no mutation is carried out: each comes back as an expired
  -- conflict, in order, the tables are those that other sessions leave, and the answer is a full
  -- snapshot of them.
  pub sync-refused :
      {text : Text} (mutations : List SyncMutation) (others : Db → Db)
      → IsRefused user (env.clock w.clock_reads) w.db (env.decode_payload text)
      → ((sync env user (some text) mutations others w).1.db ≡ others w.db)
        × ((response : SyncResponse) × ((sync env user (some text) mutations others w).0
              ≡ ok response)
            × (response.conflicts ≡ map expired mutations)
            × (response.full_snapshot ≡ true)
            × (response.lists ≡ sync_lists user none (others w.db)))
  sync-refused {text} mutations others refused =
      let (parsed, same) = parse_sync_cursor-refused text refused in
      unfold sync ◌>>=◌ in
      out_of_parts mutations others (parse_sync_cursor env user (some text) w) parsed same
