-- ===== src/ShoppingList/Evolution.antt =====
-- How the tables of shopping_list_service.py change under a mutation of one account.
use prislapp.Prelude.{
  List, ap, arith, inl, inr, is_some, refl, sym, true, ℕ, ◌<◌, ◌∙◌, ◌≡◌, ◌≢◌, ◌≤◌, ◌⊎◌,
}
use prislapp.Prelude.Table.{Grows, Grows-refl, Grows-trans}
use prislapp.ShoppingList.Model.{Db, ShoppingList, ShoppingListItem}
use prislapp.ShoppingList.Sequence.{sequence}

-- What may happen to a list's row in a mutation of `user`, when `floor` was the account's sequence
-- before it: nothing to another account's row or to a tombstone, and a change is stamped above
-- `floor`.
pub record ListStep (user floor : ℕ) (x y : ShoppingList) : Type 0 where
  pub id : y.id ≡ x.id
  pub owner : y.user_id ≡ x.user_id
  pub created : y.created_at ≡ x.created_at
  pub foreign : x.user_id ≢ user → y ≡ x
  pub frozen : is_some x.deleted_at ≡ true → y ≡ x
  pub stamped : (y ≡ x) ⊎ (floor < y.content_seq)
  pub rises : x.content_seq ≤ y.content_seq
  pub counted : x.version ≤ y.version

pub record NewList (user floor : ℕ) (y : ShoppingList) : Type 0 where
  pub owner : y.user_id ≡ user
  pub stamped : floor < y.content_seq

-- The same for a line, which keeps its list and what it refers to.
pub record ItemStep (user floor : ℕ) (x y : ShoppingListItem) : Type 0 where
  pub id : y.id ≡ x.id
  pub owner : y.user_id ≡ x.user_id
  pub list : y.list_id ≡ x.list_id
  pub product : y.user_product_id ≡ x.user_product_id
  pub text : y.free_text ≡ x.free_text
  pub foreign : x.user_id ≢ user → y ≡ x
  pub frozen : is_some x.deleted_at ≡ true → y ≡ x
  pub stamped : (y ≡ x) ⊎ (floor < y.sync_seq)
  pub counted : x.version ≤ y.version

pub record NewItem (user floor : ℕ) (y : ShoppingListItem) : Type 0 where
  pub owner : y.user_id ≡ user
  pub stamped : floor < y.sync_seq

abbrev pub ListsGrow : ℕ → ℕ → List ShoppingList → List ShoppingList → Type 0
ListsGrow user floor = Grows (λ r. r.id) (ListStep user floor) (NewList user floor)

abbrev pub ItemsGrow : ℕ → ℕ → List ShoppingListItem → List ShoppingListItem → Type 0
ItemsGrow user floor = Grows (λ r. r.id) (ItemStep user floor) (NewItem user floor)

-- No row is lost, the account's rows change only as above, and nothing else of another account
-- changes, nor the tables that the service only reads.
pub record Evolves (user floor : ℕ) (a b : Db) : Type 0 where
  pub lists : ListsGrow user floor a.lists b.lists
  pub items : ItemsGrow user floor a.items b.items
  pub rises : sequence user a ≤ sequence user b
  pub others : (other : ℕ) → other ≢ user → sequence other b ≡ sequence other a
  pub products : b.products ≡ a.products
  pub ledgers : b.ledgers ≡ a.ledgers
  pub receipts : b.receipts ≡ a.receipts

module _ (user floor : ℕ) where
  pub ListStep-refl : (x : ShoppingList) → ListStep user floor x x
  ListStep-refl x = record {
    id = refl;
    owner = refl;
    created = refl;
    foreign = λ _. refl;
    frozen = λ _. refl;
    stamped = inl refl;
    rises = omega arith;
    counted = omega arith;
  }

  pub ItemStep-refl : (x : ShoppingListItem) → ItemStep user floor x x
  ItemStep-refl x = record {
    id = refl;
    owner = refl;
    list = refl;
    product = refl;
    text = refl;
    foreign = λ _. refl;
    frozen = λ _. refl;
    stamped = inl refl;
    counted = omega arith;
  }

  list_stamped :
      (x y z : ShoppingList)
      → (y ≡ x) ⊎ (floor < y.content_seq)
      → (z ≡ y) ⊎ (floor < z.content_seq)
      → (z ≡ x) ⊎ (floor < z.content_seq)
  list_stamped x y z (inl e) (inl f) = inl (f ∙ e)
  list_stamped x y z (inr e) (inl f) = inr (rw (ap (λ (r : ShoppingList). r.content_seq) f) e)
  list_stamped x y z _ (inr f) = inr f

  item_stamped :
      (x y z : ShoppingListItem)
      → (y ≡ x) ⊎ (floor < y.sync_seq)
      → (z ≡ y) ⊎ (floor < z.sync_seq)
      → (z ≡ x) ⊎ (floor < z.sync_seq)
  item_stamped x y z (inl e) (inl f) = inl (f ∙ e)
  item_stamped x y z (inr e) (inl f) = inr (rw (ap (λ (r : ShoppingListItem). r.sync_seq) f) e)
  item_stamped x y z _ (inr f) = inr f

  ListStep-trans :
      (x y z : ShoppingList)
      → ListStep user floor x y
      → ListStep user floor y z
      → ListStep user floor x z
  ListStep-trans x y z p q = record {
    id = q.id ∙ p.id;
    owner = q.owner ∙ p.owner;
    created = q.created ∙ p.created;
    foreign = λ n. q.foreign (λ e. n (sym p.owner ∙ e)) ∙ p.foreign n;
    frozen = λ d.
        q.frozen (ap (λ (r : ShoppingList). is_some r.deleted_at) (p.frozen d) ∙ d) ∙ p.frozen d;
    stamped = list_stamped x y z p.stamped q.stamped;
    rises = omega (arith, p.rises, q.rises);
    counted = omega (arith, p.counted, q.counted);
  }

  ItemStep-trans :
      (x y z : ShoppingListItem)
      → ItemStep user floor x y
      → ItemStep user floor y z
      → ItemStep user floor x z
  ItemStep-trans x y z p q = record {
    id = q.id ∙ p.id;
    owner = q.owner ∙ p.owner;
    list = q.list ∙ p.list;
    product = q.product ∙ p.product;
    text = q.text ∙ p.text;
    foreign = λ n. q.foreign (λ e. n (sym p.owner ∙ e)) ∙ p.foreign n;
    frozen = λ d.
        q.frozen (ap (λ (r : ShoppingListItem). is_some r.deleted_at) (p.frozen d) ∙ d)
        ∙ p.frozen d;
    stamped = item_stamped x y z p.stamped q.stamped;
    counted = omega (arith, p.counted, q.counted);
  }

  NewList-step :
      (x y : ShoppingList) → NewList user floor x → ListStep user floor x y → NewList user floor y
  NewList-step x y n p = record {
    owner = p.owner ∙ n.owner;
    stamped = omega (arith, p.rises, n.stamped);
  }

  item_above :
      (x y : ShoppingListItem)
      → floor < x.sync_seq
      → (y ≡ x) ⊎ (floor < y.sync_seq)
      → floor < y.sync_seq
  item_above x y h (inl e) = rw (ap (λ (r : ShoppingListItem). r.sync_seq) e) h
  item_above x y h (inr f) = f

  NewItem-step :
      (x y : ShoppingListItem)
      → NewItem user floor x
      → ItemStep user floor x y
      → NewItem user floor y
  NewItem-step x y n p = record {
    owner = p.owner ∙ n.owner;
    stamped = item_above x y n.stamped p.stamped;
  }

  pub Evolves-refl : (a : Db) → Evolves user floor a a
  Evolves-refl a = record {
    lists = Grows-refl (λ r. r.id) (ListStep user floor) (NewList user floor) ListStep-refl a.lists;
    items = Grows-refl (λ r. r.id) (ItemStep user floor) (NewItem user floor) ItemStep-refl a.items;
    rises = omega arith;
    others = λ o n. refl;
    products = refl;
    ledgers = refl;
    receipts = refl;
  }

  pub Evolves-trans :
      (a b c : Db) → Evolves user floor a b → Evolves user floor b c → Evolves user floor a c
  Evolves-trans a b c p q = record {
    lists =
        Grows-trans (λ r. r.id) (ListStep user floor) (NewList user floor) ListStep-trans
          NewList-step a.lists b.lists c.lists p.lists q.lists;
    items =
        Grows-trans (λ r. r.id) (ItemStep user floor) (NewItem user floor) ItemStep-trans
          NewItem-step a.items b.items c.items p.items q.items;
    rises = omega (arith, p.rises, q.rises);
    others = λ o n. q.others o n ∙ p.others o n;
    products = q.products ∙ p.products;
    ledgers = q.ledgers ∙ p.ledgers;
    receipts = q.receipts ∙ p.receipts;
  }
