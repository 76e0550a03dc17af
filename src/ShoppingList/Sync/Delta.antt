-- ===== src/ShoppingList/Sync/Delta.antt =====
-- The delta of `sync` in shopping_list_service.py after changes from elsewhere.
use prislapp.Prelude.{
  All-In, In, In-filter, In-map, List, Option, [], ap, arith, inl, inr, ltb, none, refl, some, sym,
  true, ℕ, ◌&&◌, ◌<◌, ◌==◌, ◌∙◌, ◌∷◌, ◌≡◌, ◌⊎◌,
}
use prislapp.Prelude.Sort.{In-sort_by, sort_by}
use prislapp.ShoppingList.Evolution.{Evolves, ItemsGrow, NewItem}
use prislapp.ShoppingList.Exec.{Env, World, ok, ◌>>=◌}
use prislapp.ShoppingList.Invariant.{Covered, Inv, IsCover}
use prislapp.ShoppingList.Model.{Db, Request, ShoppingList, ShoppingListItem}
use prislapp.ShoppingList.Mutations.{single}
use prislapp.ShoppingList.Mutations.Soundness.{single-Sound}
use prislapp.ShoppingList.Queries.{by_position}
use prislapp.ShoppingList.Responses.{list_response}
use prislapp.ShoppingList.Sequence.{sequence}
use prislapp.ShoppingList.Sync.{
  Conflict, SyncResponse, by_created_at, encode_sync_cursor, read_changes, sync_lists, synced_items,
}

In-grown :
    (user floor : ℕ) (item : ShoppingListItem) (xs ys : List ShoppingListItem)
    → ItemsGrow user floor xs ys
    → In item ys
    → In item xs ⊎ (floor < item.sync_seq)
In-grown user floor item [] ys gr i = inr (All-In (NewItem user floor) item ys gr i).stamped
In-grown user floor item (x ∷ xs) [] gr i = absurd gr
In-grown user floor item (x ∷ xs) (y ∷ ys) (st, gr) (inl e) = kept st.stamped
  where
    kept : (y ≡ x) ⊎ (floor < y.sync_seq) → In item (x ∷ xs) ⊎ (floor < item.sync_seq)
    kept (inl same) = inl (inl (sym same ∙ e))
    kept (inr above) = inr (rw (ap (λ (r : ShoppingListItem). r.sync_seq) e) at above)
In-grown user floor item (x ∷ xs) (y ∷ ys) (st, gr) (inr i) =
    later (In-grown user floor item xs ys gr i)
  where
    later : In item xs ⊎ (floor < item.sync_seq) → In item (x ∷ xs) ⊎ (floor < item.sync_seq)
    later (inl k) = inl (inr k)
    later (inr above) = inr above

covering_list :
    (item : ShoppingListItem) (rows : List ShoppingList)
    → Covered item rows
    → (row : ShoppingList) × In row rows × IsCover item row
covering_list item [] c = absurd c
covering_list item (row ∷ rows) (inl c) = (row, inl refl, c)
covering_list item (row ∷ rows) (inr c) =
    let (found_row, i, k) = covering_list item rows c in (found_row, inr i, k)

-- The line is in the delta after `since`: in the answer of its list, which is in the delta.
abbrev pub Delivered : ℕ → ℕ → ShoppingListItem → Db → Type 0
Delivered user since item db =
    (row : ShoppingList) × (row.id ≡ item.list_id)
    × In item (sort_by by_position (synced_items user (some since) row db.items))
    × In (list_response row (sort_by by_position (synced_items user (some since) row db.items)))
        (sync_lists user (some since) db)

stamped-Delivered :
    (user since : ℕ) (item : ShoppingListItem) (db : Db)
    → Inv db
    → In item db.items
    → item.user_id ≡ user
    → since < item.sync_seq
    → Delivered user since item db
stamped-Delivered user since item db inv i owner above =
    let (row, stands, cover) =
      covering_list item db.lists (All-In (λ x. Covered x db.lists) item db.items inv.covered i) in
    (
      row,
      cover.0,
      In-sort_by by_position item _
          (In-filter _ item db.items i (sent_item item row owner cover.0 above)),
      unfold sync_lists in
          In-map _ row _ (
            In-sort_by by_created_at row _ (
              In-filter _ row db.lists stands
                (sent_list row (cover.1 ∙ owner) (omega (arith, cover.2))))),
    )
  where
    sent_item :
        (x : ShoppingListItem) (row : ShoppingList)
        → x.user_id ≡ user
        → row.id ≡ x.list_id
        → since < x.sync_seq
        → (x.user_id == user && x.list_id == row.id && ltb since x.sync_seq) ≡ true
    sent_item x row a b c = ground arith

    sent_list :
        (row : ShoppingList)
        → row.user_id ≡ user
        → since < row.content_seq
        → (row.user_id == user && ltb since row.content_seq) ≡ true
    sent_list row a b = ground arith

-- If a device knows the tables as they were, a line of its account that any evolution of them has
-- added or changed is in the delta after the sequence that it knows.
changed-Delivered :
    (user : ℕ) (a b : Db) (item : ShoppingListItem)
    → Evolves user (sequence user a) a b
    → Inv b
    → In item b.items
    → ¬ In item a.items
    → item.user_id ≡ user
    → Delivered user (sequence user a) item b
changed-Delivered user a b item ev inv i new owner =
    cases (In-grown user (sequence user a) item a.items b.items ev.items i)
  where
    cases :
        In item a.items ⊎ (sequence user a < item.sync_seq)
        → Delivered user (sequence user a) item b
    cases (inl old) = absurd (new old)
    cases (inr above) = stamped-Delivered user (sequence user a) item b inv i owner above

-- From sound tables: a device that has synced up to the account's sequence gets, in the next delta,
-- every line of the account that a mutation (without a rival) has added or changed, tombstones among
-- them.
pub single-Delivered :
    (env : Env) (user mutation_id : ℕ) (request : Request) (w : World) (item : ShoppingListItem)
    → Inv w.db
    → In item (single env user mutation_id request none w).1.db.items
    → ¬ In item w.db.items
    → item.user_id ≡ user
    → Delivered user (sequence user w.db) item (single env user mutation_id request none w).1.db
single-Delivered env user mutation_id request w item inv i new owner =
    let (ev, after) = single-Sound env user mutation_id request w inv in
    changed-Delivered user w.db _ item ev after i new owner

-- A line that other sessions' mutations of the account add or change between the two reads of `sync`
-- is not lost: the answer's cursor lies before it, and the delta from that cursor has it.
pub read_changes-Delivered :
    (env : Env) (user : ℕ) (since : Option ℕ) (others : Db → Db) (conflicts : List Conflict)
    (w : World) (item : ShoppingListItem)
    → Evolves user (sequence user w.db) w.db (others w.db)
    → Inv (others w.db)
    → In item (others w.db).items
    → ¬ In item w.db.items
    → item.user_id ≡ user
    → (response : SyncResponse) × (seq : ℕ) × (time : ℕ) × ((read_changes env user since others
          conflicts w).0
        ≡ ok response)
      × (response.cursor ≡ encode_sync_cursor env user seq time)
      × Delivered user seq item (others w.db)
unfolding read_changes ◌>>=◌
read_changes-Delivered env user since others conflicts w item ev inv i new owner = (
  _,
  sequence user w.db,
  env.clock w.clock_reads,
  refl,
  refl,
  changed-Delivered user w.db (others w.db) item ev inv i new owner,
)
