-- ===== src/ShoppingList/Sequence.antt =====
-- The account's sync sequence, and the writes of rows, as shopping_list_service.py makes them.
use prislapp.Prelude.{Bool, List, [], any, if◌then◌else◌, ℕ, ◌++◌, ◌+◌, ◌==◌, ◌∷◌}
use prislapp.Prelude.Table.{replace}
use prislapp.ShoppingList.Exec.{Exec, integrity_error, modify, ok, query, ◌>>◌}
use prislapp.ShoppingList.Model.{Db, ShoppingList, ShoppingListItem, ShoppingListSyncState}

abbrev pub sequence_in : ℕ → List ShoppingListSyncState → ℕ
sequence_in user_id [] = 0
sequence_in user_id (row ∷ rows) =
    if row.user_id == user_id then row.sequence else sequence_in user_id rows

-- `_sequence`
unfoldable pub sequence : ℕ → Db → ℕ
sequence user_id db = sequence_in user_id db.sync_states

-- `_bump_sequence`, which adds one where the account has a row, and the first row where it has none.
unfoldable pub bumped : ℕ → List ShoppingListSyncState → List ShoppingListSyncState
bumped user_id [] = record { user_id = user_id; sequence = 1 } ∷ []
bumped user_id (row ∷ rows) =
    if row.user_id == user_id
    then record row { sequence = row.sequence + 1 } ∷ rows
    else row ∷ bumped user_id rows

abbrev pub bump : ℕ → Db → Db
bump user_id db = record db { sync_states = bumped user_id db.sync_states }

-- `_next_sequence`
unfoldable pub next_sequence : ℕ → Exec ℕ
unfolding sequence bumped
next_sequence user_id = do modify (bump user_id); query (λ db. ok (sequence user_id db))

-- An UPDATE of one row by its primary key.
abbrev pub save_list : ShoppingList → Exec (Unit {0})
save_list row = modify (λ db. record db { lists = replace (λ r. r.id) row db.lists })

abbrev pub save_item : ShoppingListItem → Exec (Unit {0})
save_item row = modify (λ db. record db { items = replace (λ r. r.id) row db.items })

-- An INSERT, refused by the database if the primary key is taken.
unfoldable pub insert_list : ShoppingList → Exec (Unit {0})
insert_list row w =
    if any (λ old. old.id == row.id) w.db.lists
    then (integrity_error, w)
    else (ok tt, record w { db = record w.db { lists = w.db.lists ++ row ∷ [] } })

unfoldable pub insert_item : ShoppingListItem → Exec (Unit {0})
insert_item row w =
    if any (λ old. old.id == row.id) w.db.items
    then (integrity_error, w)
    else (ok tt, record w { db = record w.db { items = w.db.items ++ row ∷ [] } })

-- `_touch`, on the row that it returns.
abbrev pub touched : ShoppingList → ℕ → Bool → ℕ → ShoppingList
touched row seq bump_version time = record row {
  version = if bump_version then row.version + 1 else row.version;
  content_seq = seq;
  updated_at = time;
}
