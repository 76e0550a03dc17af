-- ===== src/OcrOutbox/Choosing.antt =====
-- The store that `complete_ocr_result` (ocr_outbox.py) gives a receipt.
use prislapp.Prelude.{
  Bool, In, In-append_last, List, Option, [], arith, count, false, find?, find?-In, find?-holds,
  if◌then◌else◌, is_some, ltb, none, refl, some, true, ℕ, ◌++◌, ◌∷◌, ◌≡◌, ◌≤◌,
}
use prislapp.OcrOutbox.Jobs.{chosen_store}
use prislapp.OcrOutbox.Model.{OcrDb, Store}
use prislapp.OcrOutbox.Stores.{
  ParsedReceipt, get_or_create_store, is_named, new_store, normalize_store_name, same_text_refl,
}
use prislapp.Prelude.Text.{Text}

abbrev pub IsShop : (Text → Text) → Option ℕ → Option Text → Option ℕ → List Store → Type 0
IsShop fold (some store) name store_id stores = store_id ≡ some store
IsShop fold none none store_id stores = store_id ≡ none
IsShop fold none (some []) store_id stores = store_id ≡ none
IsShop fold none (some (c ∷ cs)) store_id stores =
    (shop : Store) × In shop stores
    × (store_id ≡ some shop.id)
    × (is_named (normalize_store_name fold (c ∷ cs)) shop ≡ true)

-- The chosen store is right, and nothing but the stores changed.
pub record Chosen (fold : Text → Text) (store : Option ℕ) (parsed : ParsedReceipt) (db : OcrDb)
    (chosen : Option ℕ × OcrDb) : Type 0 where
  pub jobs : chosen.1.jobs ≡ db.jobs
  pub receipts : chosen.1.receipts ≡ db.receipts
  pub receipt_lines : chosen.1.receipt_lines ≡ db.receipt_lines
  pub shop : IsShop fold store parsed.store_name chosen.0 chosen.1.stores

module _ (fold : Text → Text) (fresh : ℕ) (db : OcrDb) where
  abbrev pub Choice : Option ℕ → ParsedReceipt → Option (Option ℕ × OcrDb) → Type 0
  Choice store parsed none = Unit
  Choice store parsed (some chosen) = Chosen fold store parsed db chosen

  named-Choice :
      (parsed : ParsedReceipt) (c : ℕ) (cs : Text) (twice : Bool) (found : Option Store)
      → find? (is_named (normalize_store_name fold (c ∷ cs))) db.stores ≡ found
      → Choice none
          (record parsed { store_name = some (c ∷ cs) })
          (elim (if twice then none else elim found as (λ _. Option (ℕ × OcrDb)) [
            | some store ↦ some (store.id, db)
            | none ↦ some (
              fresh,
              record db {
                stores =
                    db.stores
                    ++ new_store fresh
                        (c ∷ cs)
                        (normalize_store_name fold (c ∷ cs))
                        parsed.store_chain
                      ∷ [];
              },
            )
          ])
            as (λ _. Option (Option ℕ × OcrDb)) [
              | none ↦ none
              | some chosen ↦ some (some chosen.0, chosen.1)
            ])
  named-Choice parsed c cs true found e = tt
  named-Choice parsed c cs false (some store) e = record {
    jobs = refl;
    receipts = refl;
    receipt_lines = refl;
    shop = (store, find?-In _ db.stores e, refl, find?-holds _ db.stores e);
  }
  named-Choice parsed c cs false none e =
      let added =
        new_store fresh (c ∷ cs) (normalize_store_name fold (c ∷ cs)) parsed.store_chain in
      record {
        jobs = refl;
        receipts = refl;
        receipt_lines = refl;
        shop = (
          added,
          In-append_last added db.stores,
          refl,
          same_text_refl (normalize_store_name fold (c ∷ cs)),
        );
      }

  pub chosen_store-Choice :
      (store : Option ℕ) (parsed : ParsedReceipt)
      → Choice store parsed (chosen_store fold fresh store parsed db)
  unfolding get_or_create_store
  chosen_store-Choice (some store) parsed = record {
    jobs = refl;
    receipts = refl;
    receipt_lines = refl;
    shop = refl;
  }
  chosen_store-Choice none parsed = go parsed.store_name
    where
      go :
          (name : Option Text)
          → Choice none
              (record parsed { store_name = name })
              (chosen_store fold fresh none (record parsed { store_name = name }) db)
      go none = record { jobs = refl; receipts = refl; receipt_lines = refl; shop = refl }
      go (some []) = record { jobs = refl; receipts = refl; receipt_lines = refl; shop = refl }
      go (some (c ∷ cs)) =
          named-Choice parsed c cs
            (ltb 1 (count (is_named (normalize_store_name fold (c ∷ cs))) db.stores))
            (find? (is_named (normalize_store_name fold (c ∷ cs))) db.stores) refl

  -- With one store of each name at most, the choice does not raise.
  pub chosen_store-is_some :
      (store : Option ℕ) (parsed : ParsedReceipt)
      → ((name : Text) → count (is_named name) db.stores ≤ 1)
      → is_some (chosen_store fold fresh store parsed db) ≡ true
  unfolding get_or_create_store
  chosen_store-is_some (some store) parsed h = refl
  chosen_store-is_some none parsed h = go parsed.store_name
    where
      go :
          (name : Option Text)
          → is_some (chosen_store fold fresh none (record parsed { store_name = name }) db) ≡ true
      go none = refl
      go (some []) = refl
      go (some (c ∷ cs)) =
          found (ltb 1 (count (is_named (normalize_store_name fold (c ∷ cs))) db.stores))
            (find? (is_named (normalize_store_name fold (c ∷ cs))) db.stores)
            (at_most_once _ (h (normalize_store_name fold (c ∷ cs))))
        where
          at_most_once : (n : ℕ) → n ≤ 1 → ltb 1 n ≡ false
          at_most_once n few = ground (arith, few)

          found :
              (twice : Bool) (o : Option Store)
              → twice ≡ false
              → is_some
                  (elim (if twice then none else elim o as (λ _. Option (ℕ × OcrDb)) [
                    | some store ↦ some (store.id, db)
                    | none ↦ some (
                      fresh,
                      record db {
                        stores =
                            db.stores
                            ++ new_store fresh
                                (c ∷ cs)
                                (normalize_store_name fold (c ∷ cs))
                                parsed.store_chain
                              ∷ [];
                      },
                    )
                  ])
                    as (λ _. Option (Option ℕ × OcrDb)) [
                      | none ↦ none
                      | some chosen ↦ some (some chosen.0, chosen.1)
                    ])
                ≡ true
          found true o e = cc e
          found false none e = refl
          found false (some store) e = refl
