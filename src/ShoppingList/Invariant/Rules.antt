-- ===== src/ShoppingList/Invariant/Rules.antt =====
-- The rules by which a postcondition walks through a handler, one for each kind of step.
use prislapp.Prelude.{
  Bool, Bool-cases, Option, [], any, ap, false, inl, inr, none, refl, some, true, ℕ, ◌++◌, ◌+◌,
  ◌==◌, ◌∙◌, ◌∷◌, ◌≡◌, ◌≢◌,
}
use prislapp.ShoppingList.Evolution.{Evolves-refl, Evolves-trans}
use prislapp.ShoppingList.Exec.{
  Env, Exec, Outcome, World, continue, fresh_id, id_or_fresh, integrity_error, invalid_operation,
  modify, now, ok, pure, query, rejected, stamp_if, ◌>>=◌,
}
use prislapp.ShoppingList.Invariant.{Ensures, Handled, Inv, OnOk}
use prislapp.ShoppingList.Invariant.Bump.{sequence-bump}
use prislapp.ShoppingList.Model.{Db, ShoppingList, ShoppingListItem}
use prislapp.ShoppingList.Sequence.{bump, insert_item, insert_list, next_sequence, sequence}

module _ {A : Type 0} (P : A → World → Type 0) where
  pub Ensures-pure : (a : A) (w : World) → P a w → Ensures P (pure a) w
  unfolding ◌>>=◌
  Ensures-pure a w h = record { returns = h }

module _ {A B : Type 0} (P : B → World → Type 0) where
  continue-OnOk :
      (r : Outcome A) (f : A → Exec B) (w : World)
      → ((x : A) → r ≡ ok x → OnOk P (f x w))
      → OnOk P (continue r f w)
  continue-OnOk (ok x) f w h = h x refl
  continue-OnOk (rejected _) f w h = tt
  continue-OnOk integrity_error f w h = tt
  continue-OnOk invalid_operation f w h = tt

  -- A query: what follows may use that it returned `x`.
  pub Ensures-query :
      (g : Db → Outcome A) (f : A → Exec B) (w : World)
      → ((x : A) → g w.db ≡ ok x → Ensures P (f x) w)
      → Ensures P (query g >>= f) w
  unfolding ◌>>=◌
  Ensures-query g f w h = record { returns = continue-OnOk (g w.db) f w (λ x e. (h x e).returns) }

  after-OnOk :
      (Q : A → World → Type 0) (out : Outcome A × World) (f : A → Exec B)
      → OnOk Q out
      → ((x : A) (w : World) → Q x w → OnOk P (f x w))
      → OnOk P (continue out.0 f out.1)
  after-OnOk Q (ok x, w) f q h = h x w q
  after-OnOk Q (rejected _, w) f q h = tt
  after-OnOk Q (integrity_error, w) f q h = tt
  after-OnOk Q (invalid_operation, w) f q h = tt

  -- A computation with a postcondition of its own.
  pub Ensures-bind :
      (Q : A → World → Type 0) (m : Exec A) (f : A → Exec B) (w : World)
      → Ensures Q m w
      → ((x : A) (w' : World) → Q x w' → Ensures P (f x) w')
      → Ensures P (m >>= f) w
  unfolding ◌>>=◌
  Ensures-bind Q m f w q h = record {
    returns = after-OnOk Q (m w) f q.returns (λ x w' k. (h x w' k).returns);
  }

module _ {B : Type 0} (P : B → World → Type 0) where
  pub Ensures-modify :
      (g : Db → Db) (f : Unit {0} → Exec B) (w : World)
      → Ensures P (f tt) (record w { db = g w.db })
      → Ensures P (modify g >>= f) w
  unfolding ◌>>=◌
  Ensures-modify g f w h = record { returns = h.returns }

  pub Ensures-now :
      (env : Env) (f : ℕ → Exec B) (w : World)
      → ((time reads : ℕ) → Ensures P (f time) (record w { clock_reads = reads }))
      → Ensures P (now env >>= f) w
  unfolding ◌>>=◌
  Ensures-now env f w h = record {
    returns = (h (env.clock w.clock_reads) (w.clock_reads + 1)).returns;
  }

  pub Ensures-fresh :
      (env : Env) (f : ℕ → Exec B) (w : World)
      → ((new draws : ℕ) → Ensures P (f new) (record w { uuid_draws = draws }))
      → Ensures P (fresh_id env >>= f) w
  unfolding ◌>>=◌
  Ensures-fresh env f w h = record {
    returns = (h (env.uuid4 w.uuid_draws) (w.uuid_draws + 1)).returns;
  }

  next_sequence-eq :
      (user : ℕ) (w : World)
      → next_sequence user w ≡ (ok (sequence user w.db + 1), record w { db = bump user w.db })
  unfolding next_sequence ◌>>=◌
  next_sequence-eq user w =
      ap (λ (n : ℕ). (ok n, record w { db = bump user w.db })) (sequence-bump user w.db)

  pub Ensures-next :
      (user : ℕ) (f : ℕ → Exec B) (w : World)
      → Ensures P (f (sequence user w.db + 1)) (record w { db = bump user w.db })
      → Ensures P (next_sequence user >>= f) w
  unfolding ◌>>=◌
  Ensures-next user f w h = record { returns = rw next_sequence-eq h.returns }

  pub Ensures-id :
      (env : Env) (id : Option ℕ) (f : ℕ → Exec B) (w : World)
      → ((new draws : ℕ) → Ensures P (f new) (record w { uuid_draws = draws }))
      → Ensures P (id_or_fresh env id >>= f) w
  unfolding ◌>>=◌ id_or_fresh
  Ensures-id env none f w h = record {
    returns = (h (env.uuid4 w.uuid_draws) (w.uuid_draws + 1)).returns;
  }
  Ensures-id env (some id) f w h = record { returns = (h id w.uuid_draws).returns }

  pub Ensures-stamp :
      (env : Env) (test : Bool) (old : Option ℕ) (f : Option ℕ → Exec B) (w : World)
      → ((mark : Option ℕ) (reads : ℕ) → Ensures P (f mark) (record w { clock_reads = reads }))
      → Ensures P (stamp_if env test old >>= f) w
  unfolding ◌>>=◌ stamp_if
  Ensures-stamp env true old f w h = record {
    returns = (h (some (env.clock w.clock_reads)) (w.clock_reads + 1)).returns;
  }
  Ensures-stamp env false old f w h = record { returns = (h old w.clock_reads).returns }

  pub Ensures-insert_list :
      (row : ShoppingList) (f : Unit {0} → Exec B) (w : World)
      → (any (λ old. old.id == row.id) w.db.lists ≡ false
          → Ensures P (f tt) (record w { db = record w.db { lists = w.db.lists ++ row ∷ [] } }))
      → Ensures P (insert_list row >>= f) w
  unfolding ◌>>=◌ insert_list
  Ensures-insert_list row f w h = elim (Bool-cases (any (λ old. old.id == row.id) w.db.lists)) [
    | inl e ↦ record { returns = rw e tt }
    | inr e ↦ record { returns = rw e (h e).returns }
  ]

  pub Ensures-insert_item :
      (row : ShoppingListItem) (f : Unit {0} → Exec B) (w : World)
      → (any (λ old. old.id == row.id) w.db.items ≡ false
          → Ensures P (f tt) (record w { db = record w.db { items = w.db.items ++ row ∷ [] } }))
      → Ensures P (insert_item row >>= f) w
  unfolding ◌>>=◌ insert_item
  Ensures-insert_item row f w h = elim (Bool-cases (any (λ old. old.id == row.id) w.db.items)) [
    | inl e ↦ record { returns = rw e tt }
    | inr e ↦ record { returns = rw e (h e).returns }
  ]

pub Handled-refl : (user floor : ℕ) (a : Db) → Inv a → Handled user floor a a
Handled-refl user floor a inv = record {
  evolves = Evolves-refl user floor a;
  inv = inv;
  keys = refl;
}

pub Handled-trans :
    (user floor : ℕ) (a b c : Db)
    → Handled user floor a b
    → Handled user floor b c
    → Handled user floor a c
Handled-trans user floor a b c p q = record {
  evolves = Evolves-trans user floor a b c p.evolves q.evolves;
  inv = q.inv;
  keys = q.keys ∙ p.keys;
}

-- A computation that ensures what is impossible does not return.
pub not-returns :
    {A : Type 0} (m : Exec A) (w : World) → Ensures (λ _ _. ⊥) m w → (a : A) → (m w).0 ≢ ok a
not-returns {A} m w never = go (m w) never.returns
  where
    go : (out : Outcome A × World) → OnOk (λ _ _. ⊥) out → (a : A) → out.0 ≢ ok a
    go (ok x, w') h a e = h
    go (rejected r, w') h a e = cc e
    go (integrity_error, w') h a e = cc e
    go (invalid_operation, w') h a e = cc e

-- What an answered computation ensures holds of the state that it leaves.
pub after-returns :
    {A : Type 0} (P : World → Type 0) (m : Exec A) (w : World) (a : A)
    → Ensures (λ _ w'. P w') m w
    → (m w).0 ≡ ok a
    → P (m w).1
after-returns {A} P m w a sure = go (m w) sure.returns
  where
    go : (out : Outcome A × World) → OnOk (λ _ w'. P w') out → out.0 ≡ ok a → P out.1
    go (ok x, w') h e = h
    go (rejected r, w') h e = cc e
    go (integrity_error, w') h e = cc e
    go (invalid_operation, w') h e = cc e
