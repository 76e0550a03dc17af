-- ===== src/ShoppingList/Invariant.antt =====
-- The invariant of the shopping list tables of shopping_list_service.py.
pub mod Bump
pub mod Writes
pub mod Rules
use prislapp.Prelude.{All, List, [], false, ℕ, ◌∷◌, ◌≡◌, ◌≤◌, ◌⊎◌}
use prislapp.Prelude.Decimal.{not_positive}
use prislapp.Prelude.Table.{Distinct}
use prislapp.ShoppingList.Evolution.{Evolves}
use prislapp.ShoppingList.Exec.{
  Exec, Outcome, World, integrity_error, invalid_operation, ok, rejected,
}
use prislapp.ShoppingList.Model.{Db, ShoppingList, ShoppingListItem, max_active_items}
use prislapp.ShoppingList.Queries.{active_item_count}
use prislapp.ShoppingList.Sequence.{sequence}
use prislapp.ShoppingList.Validation.{HasOneReference}

-- The list's row stands for the line: same list, same owner, and a content sequence that is not
-- behind the line's.
abbrev pub IsCover : ShoppingListItem → ShoppingList → Type 0
IsCover item row =
    (row.id ≡ item.list_id) × (row.user_id ≡ item.user_id) × (item.sync_seq ≤ row.content_seq)

abbrev pub Covered : ShoppingListItem → List ShoppingList → Type 0
Covered item [] = ⊥
Covered item (row ∷ rows) = IsCover item row ⊎ Covered item rows

-- One reference, and a quantity over zero.
pub record IsValidItem (item : ShoppingListItem) : Type 0 where
  pub reference : HasOneReference item.user_product_id item.free_text
  pub quantity : not_positive item.quantity ≡ false

pub record Inv (db : Db) : Type 0 where
  pub list_ids : Distinct (λ r. r.id) db.lists
  pub item_ids : Distinct (λ r. r.id) db.items
  pub bounded : All (λ row. row.content_seq ≤ sequence row.user_id db) db.lists
  pub covered : All (λ item. Covered item db.lists) db.items
  pub valid : All IsValidItem db.items
  pub limit : (list_id : ℕ) → active_item_count list_id db ≤ max_active_items

-- What an outcome ensures if it is a return.
abbrev pub OnOk : {A : Type 0} → (A → World → Type 0) → Outcome A × World → Type 0
OnOk P (ok a, w) = P a w
OnOk P (rejected _, w) = Unit
OnOk P (integrity_error, w) = Unit
OnOk P (invalid_operation, w) = Unit

-- If the computation returns from `w`, then with a value and a state that meet `P`.
pub record Ensures {A : Type 0} (P : A → World → Type 0) (m : Exec A) (w : World) : Type 0 where
  pub returns : OnOk P (m w)

-- The postcondition of every handler: the tables evolved, the invariant holds, and the idempotency
-- keys are those from before.
pub record Handled (user floor : ℕ) (a b : Db) : Type 0 where
  pub evolves : Evolves user floor a b
  pub inv : Inv b
  pub keys : b.mutations ≡ a.mutations

abbrev pub Handles : {A : Type 0} → ℕ → ℕ → Db → A → World → Type 0
Handles user floor a _ w = Handled user floor a w.db
