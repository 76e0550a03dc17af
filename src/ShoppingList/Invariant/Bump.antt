-- ===== src/ShoppingList/Invariant/Bump.antt =====
-- The bump of the account's sequence (shopping_list_service.py) and the invariant.
use prislapp.Prelude.{
  ==→eq, All-imp, Bool, Bool-cases, List, [], ap, arith, eq→==, find?, inl, inr, refl, some, sym,
  true, ℕ, ◌+◌, ◌==◌, ◌∙◌, ◌∷◌, ◌≡◌, ◌≢◌, ◌≤◌,
}
use prislapp.Prelude.Table.{replace}
use prislapp.ShoppingList.Evolution.{Evolves, Evolves-refl, ListsGrow}
use prislapp.ShoppingList.Invariant.{Covered, Handled, Inv, IsCover}
use prislapp.ShoppingList.Model.{Db, ShoppingList, ShoppingListItem, ShoppingListSyncState}
use prislapp.ShoppingList.Sequence.{bump, bumped, sequence, sequence_in}

sequence_in-bumped :
    (user : ℕ) (rows : List ShoppingListSyncState)
    → sequence_in user (bumped user rows) ≡ sequence_in user rows + 1
unfolding bumped
sequence_in-bumped user [] = ground arith
sequence_in-bumped user (row ∷ rows) = ground (arith, sequence_in-bumped user rows)

sequence_in-bumped_ne :
    (user other : ℕ) (rows : List ShoppingListSyncState)
    → other ≢ user
    → sequence_in other (bumped user rows) ≡ sequence_in other rows
unfolding bumped
sequence_in-bumped_ne user other [] n = ground arith
sequence_in-bumped_ne user other (row ∷ rows) n =
    ground (arith, sequence_in-bumped_ne user other rows)

pub sequence-bump : (user : ℕ) (db : Db) → sequence user (bump user db) ≡ sequence user db + 1
unfolding sequence
sequence-bump user db = sequence_in-bumped user db.sync_states

pub sequence-bump_ne :
    (user other : ℕ) (db : Db) → other ≢ user → sequence other (bump user db) ≡ sequence other db
unfolding sequence
sequence-bump_ne user other db n = sequence_in-bumped_ne user other db.sync_states n

sequence-le-bump : (user other : ℕ) (db : Db) → sequence other db ≤ sequence other (bump user db)
sequence-le-bump user other db = elim (Bool-cases (other == user)) [
  | inl e ↦ rw (==→eq other user e) (omega (arith, sequence-bump user db))
  | inr e ↦ omega (arith, sequence-bump_ne user other db (λ p. cc (e, eq→== other user p)))
]

module _ (user floor : ℕ) (a : Db) (inv : Inv a) where
  bump-Evolves : Evolves user floor a (bump user a)
  bump-Evolves = record {
    lists = same.lists;
    items = same.items;
    rises = sequence-le-bump user user a;
    others = λ o n. sequence-bump_ne user o a n;
    products = refl;
    ledgers = refl;
    receipts = refl;
  }
    where
      same : Evolves user floor a a
      same = Evolves-refl user floor a

  pub bump-Handled : Handled user floor a (bump user a)
  bump-Handled = record {
    evolves = bump-Evolves;
    inv = record {
      list_ids = inv.list_ids;
      item_ids = inv.item_ids;
      bounded =
          All-imp (λ row. row.content_seq ≤ sequence row.user_id a)
            (λ row. row.content_seq ≤ sequence row.user_id (bump user a)) a.lists
            (λ row h. omega (arith, h, sequence-le-bump user row.user_id a)) inv.bounded;
      covered = inv.covered;
      valid = inv.valid;
      limit = inv.limit;
    };
    keys = refl;
  }

pub Covered-step :
    (user floor : ℕ) (item : ShoppingListItem) (xs ys : List ShoppingList)
    → Covered item xs
    → ListsGrow user floor xs ys
    → Covered item ys
Covered-step user floor item [] ys c gr = absurd c
Covered-step user floor item (x ∷ xs) [] c gr = absurd gr
Covered-step user floor item (x ∷ xs) (y ∷ ys) (inl (i, o, s)) (r, gr) =
    inl (r.id ∙ i, r.owner ∙ o, omega (arith, s, r.rises))
Covered-step user floor item (x ∷ xs) (y ∷ ys) (inr c) (r, gr) =
    inr (Covered-step user floor item xs ys c gr)

-- A line of a list that was just saved is covered by it.
pub Covered-replace :
    (q : ShoppingList → Bool) (item : ShoppingListItem) (old row : ShoppingList)
    (xs : List ShoppingList)
    → find? q xs ≡ some old
    → row.id ≡ old.id
    → IsCover item row
    → Covered item (replace (λ r. r.id) row xs)
Covered-replace q item old row [] e same c = cc
Covered-replace q item old row (x ∷ xs) e same c = elim (Bool-cases (q x)) [
  | inl p ↦
      let found : some x ≡ some old = rw p at e in
      let head : x ≡ old = cc found in
      let hit : (x.id == row.id) ≡ true =
        eq→== x.id row.id (ap (λ (r : ShoppingList). r.id) head ∙ sym same) in
      rw hit (inl c)
  | inr p ↦ inr (Covered-replace q item old row xs (rw p at e) same c)
]
