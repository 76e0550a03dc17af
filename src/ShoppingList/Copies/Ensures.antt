-- ===== src/ShoppingList/Copies/Ensures.antt =====
-- `_materialize_mapped_list`, `_copy_list` and `_create_list_from_receipt` keep the invariant and
-- change only what they may.
use mathlib.Core.Path.{subst}
use mathlib.Core.Path.{subst}
use mathlib.Core.Path.{subst}
use prislapp.Prelude.{
  ==→eq, All, Bool-cases, List, Option, [], any, arith, count, count-append, eq→==, false, find?,
  if◌then◌else◌, inl, inr, is_some, length, ltb, none, refl, some, true, ℕ, ◌++◌, ◌+◌, ◌<◌, ◌==◌,
  ◌∷◌, ◌≡◌, ◌≤◌,
}
use prislapp.ListCopy.{MappedListLine}
use prislapp.Prelude.Table.{find?-insert, find?-replace}
use prislapp.Prelude.Text.{Text}
use prislapp.ShoppingList.Copies.{
  copy_list_handler, create_list_from_receipt_handler, line_text, materialize_line,
  materialize_lines, materialize_mapped_list,
}
use prislapp.ShoppingList.Exec.{Env, World, ok}
use prislapp.ShoppingList.Invariant.{Covered, Ensures, Handled, Handles, Inv}
use prislapp.ShoppingList.Invariant.Rules.{
  Ensures-bind, Ensures-fresh, Ensures-id, Ensures-insert_item, Ensures-insert_list, Ensures-modify,
  Ensures-next, Ensures-now, Ensures-pure, Ensures-query, Handled-refl, Handled-trans,
}
use prislapp.ShoppingList.Items.Ensures.{added_item-Handled}
use prislapp.ShoppingList.Lists.{new_list}
use prislapp.ShoppingList.Lists.Ensures.{new_list-Handled, refuse_if-passed}
use prislapp.ShoppingList.Model.{
  Db, ListCopyRequest, ListFromReceiptRequest, ShoppingList, ShoppingListItem, max_active_items,
}
use prislapp.ShoppingList.Queries.{active_item_count, has_list_key, is_active_in, list_row}
use prislapp.ShoppingList.Sequence.{sequence, touched}
use prislapp.ShoppingList.Validation.{HasOneReference, validated_reference}
use prislapp.ShoppingList.Validation.Checked.{validated_quantity-positive, validated_reference-one}

line_text-one :
    (line : MappedListLine) (reference : Option Text)
    → line_text line ≡ ok reference
    → HasOneReference line.user_product_id reference
line_text-one line reference e = go line.user_product_id e
  where
    go :
        (product_id : Option ℕ)
        → (if is_some product_id then ok none else validated_reference none line.free_text)
          ≡ ok reference
        → HasOneReference product_id reference
    go none h = validated_reference-one none line.free_text reference h
    go (some id) h =
        let nothing : none ≡ reference = cc h in subst (HasOneReference (some id)) nothing tt

-- The list that is being filled: it stands in the table, and it is the account's and live.
record IsOpen (user : ℕ) (row : ShoppingList) (db : Db) : Type 0 where
  stored : find? (has_list_key user row.id) db.lists ≡ some row
  owner : row.user_id ≡ user
  alive : is_some row.deleted_at ≡ false

abbrev Filled : ℕ → ℕ → Db → ShoppingList → ℕ → ShoppingList × ShoppingListItem → World → Type 0
Filled user floor a row used (row', _) w =
    Handled user floor a w.db
    × IsOpen user row' w.db
    × (row'.id ≡ row.id)
    × (active_item_count row.id w.db ≡ used + 1)

has_own_key :
    (user : ℕ) (row : ShoppingList) → row.user_id ≡ user → has_list_key user row.id row ≡ true
has_own_key user row owner = ground arith

count-added :
    (list_id : ℕ) (items : List ShoppingListItem) (item : ShoppingListItem)
    → item.list_id ≡ list_id
    → is_some item.deleted_at ≡ false
    → count (is_active_in list_id) (items ++ item ∷ []) ≡ count (is_active_in list_id) items + 1
count-added list_id items item in_list live = rw count-append (ground arith)

module _ (env : Env) (user floor : ℕ) (w : World) (le : floor ≤ sequence user w.db)
    (inv : Inv w.db) where
  materialize_line-Ensures :
      (row : ShoppingList) (time position : ℕ) (line : MappedListLine)
      → IsOpen user row w.db
      → active_item_count row.id w.db < max_active_items
      → Ensures
          (Filled user floor w.db row (active_item_count row.id w.db))
          (materialize_line env user row time position line)
          w
  unfolding materialize_line
  materialize_line-Ensures row time position line open_row room = Ensures-next _ user _ w (
      Ensures-fresh _ env _ _ λ id draws. Ensures-query _ _ _ _ λ free_text referred.
        Ensures-query _ _ _ _ λ quantity checked. Ensures-insert_item _ _ _ _ λ free.
          Ensures-now _ env _ _ λ touch_time reads. Ensures-modify _ _ _ _ (
            Ensures-pure _ _ _ (
              added_item-Handled env user floor w le inv row row.id touch_time looked open_row.alive
                  _ free
                  (record {
                    reference = line_text-one line free_text referred;
                    quantity = (validated_quantity-positive line.quantity quantity checked).0;
                  })
                  refl refl refl room,
              record {
                stored =
                    find?-replace (λ r. r.id) (has_list_key user row.id) row _ w.db.lists
                      open_row.stored refl
                      (has_own_key user (touched row (sequence user w.db + 1) false touch_time)
                        open_row.owner);
                owner = open_row.owner;
                alive = open_row.alive;
              },
              refl,
              count-added row.id w.db.items _ refl refl,
            )))
    where
      looked : list_row user row.id w.db ≡ ok row
      looked = unfold list_row in rw open_row.stored

module _ (env : Env) (user floor : ℕ) where
  materialize_lines-Ensures :
      (w : World) (row : ShoppingList) (time position : ℕ) (lines : List MappedListLine)
      → floor ≤ sequence user w.db
      → Inv w.db
      → IsOpen user row w.db
      → active_item_count row.id w.db + length lines ≤ max_active_items
      → Ensures (Handles user floor w.db) (materialize_lines env user row time position lines) w
  unfolding materialize_lines
  materialize_lines-Ensures w row time position [] le inv open_row room =
      Ensures-pure _ _ w (Handled-refl user floor w.db inv)
  materialize_lines-Ensures w row time position (line ∷ lines) le inv open_row room =
      Ensures-bind _ (Filled user floor w.db row (active_item_count row.id w.db)) _ _ w
        (materialize_line-Ensures env user floor w le inv row time position line open_row
          (omega arith))
        λ (row', item) w' (first, open_row', same, used).
          Ensures-bind _ (Handles user floor w'.db) _ _ w'
            (materialize_lines-Ensures w' row' time (position + 1) lines
              (omega (arith, first.evolves.rises)) first.inv open_row'
              (rw same (omega (arith, used))))
            λ (row'', items) w'' rest.
              Ensures-pure _ _ w'' (Handled-trans user floor w.db w'.db w''.db first rest)

Covered-list_exists :
    (item : ShoppingListItem) (rows : List ShoppingList)
    → Covered item rows
    → any (λ old. old.id == item.list_id) rows ≡ true
Covered-list_exists item [] c = absurd c
Covered-list_exists item (row ∷ rows) (inl (e, _, _)) = rw (eq→== row.id item.list_id e)
Covered-list_exists item (row ∷ rows) (inr c) = ground (arith, Covered-list_exists item rows c)

-- A list whose id is free has no lines.
count-free :
    (list_id : ℕ) (rows : List ShoppingList) (items : List ShoppingListItem)
    → All (λ item. Covered item rows) items
    → any (λ old. old.id == list_id) rows ≡ false
    → count (is_active_in list_id) items ≡ 0
count-free list_id rows [] h free = refl
count-free list_id rows (item ∷ items) (c, h) free = elim (Bool-cases (item.list_id == list_id)) [
  | inl e ↦
      let taken : any (λ old. old.id == list_id) rows ≡ true =
        rw (==→eq item.list_id list_id e) at (Covered-list_exists item rows c) in
      cc (taken, free)
  | inr e ↦ ground (arith, count-free list_id rows items h free)
]

within_limit : (n : ℕ) → ltb max_active_items n ≡ false → n ≤ max_active_items
within_limit n h = ground arith

module _ (env : Env) (user floor : ℕ) (w : World) (le : floor ≤ sequence user w.db)
    (inv : Inv w.db) where
  materialize_mapped_list-Ensures :
      (name : Text) (list_id : Option ℕ) (mapped : List MappedListLine)
      → Ensures (Handles user floor w.db) (materialize_mapped_list env user name list_id mapped) w
  unfolding materialize_mapped_list
  materialize_mapped_list-Ensures name list_id mapped = Ensures-query _ _ _ w λ _ _.
      Ensures-query _ _ _ w λ _ fits. Ensures-next _ user _ w (
        Ensures-now _ env _ _ λ time reads. Ensures-id _ env list_id _ _ λ id draws.
          Ensures-insert_list _ _ _ _ λ free.
            let row = new_list id user name (sequence user w.db + 1) time in
            let first = new_list-Handled env user floor w le inv row refl refl free in
            Ensures-bind _ (Handles user floor _) _ _ _
              (materialize_lines-Ensures env user floor _ row time 0 mapped
                (omega (arith, first.evolves.rises)) first.inv
                (record {
                  stored =
                      find?-insert (λ r. r.id) (has_list_key user id) row w.db.lists (own_key id)
                        free (has_own_key user row refl);
                  owner = refl;
                  alive = refl;
                })
                (omega (
                  arith,
                  count-free id w.db.lists w.db.items inv.covered free,
                  within_limit (length mapped) (refuse_if-passed _ _ fits),
                )))
              λ (row', items) w'' rest.
                Ensures-pure _ _ w'' (Handled-trans user floor w.db _ w''.db first rest))
    where
      own_key : (id : ℕ) (x : ShoppingList) → has_list_key user id x ≡ true → x.id ≡ id
      own_key id x h = ground arith

  pub copy_list_handler-Ensures :
      (list_id : ℕ) (request : ListCopyRequest)
      → Ensures (Handles user floor w.db) (copy_list_handler env user list_id request) w
  unfolding copy_list_handler
  copy_list_handler-Ensures list_id request = Ensures-query _ _ _ w λ source _.
      Ensures-query _ _ _ w λ _ _. Ensures-query _ _ _ w λ mapped _.
        Ensures-query _ _ _ w λ name _. materialize_mapped_list-Ensures name request.id mapped

  pub create_list_from_receipt_handler-Ensures :
      (request : ListFromReceiptRequest)
      → Ensures (Handles user floor w.db) (create_list_from_receipt_handler env user request) w
  unfolding create_list_from_receipt_handler
  create_list_from_receipt_handler-Ensures request = Ensures-query _ _ _ w λ receipt _.
      Ensures-query _ _ _ w λ mapped _.
        Ensures-query _ _ _ w λ name _. materialize_mapped_list-Ensures name request.id mapped
