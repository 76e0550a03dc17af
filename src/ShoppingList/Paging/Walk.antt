-- ===== src/ShoppingList/Paging/Walk.antt =====
-- The rows of one page of `list_lists` (shopping_list_service.py) and those of the next.
use prislapp.Prelude.{
  All, All-imp, All-take, Bool, Bool-cases, List, Option, [], ap, arith, drop, false, filter,
  filter-All, filter-filter, inl, inr, none, refl, some, suc, sym, take, true, zero, ℕ, ◌&&◌, ◌∙◌,
  ◌∷◌, ◌≡◌, ◌≢◌,
}
use prislapp.Prelude.Lookup.{Distinct-filter, Distinct-sort_by}
use prislapp.Prelude.Sort.{IsSorted, filter-sort_by, sort_by, sort_by-All, sort_by-IsSorted}
use prislapp.Prelude.Table.{Distinct}
use prislapp.ShoppingList.Model.{Db, ShoppingList}
use prislapp.ShoppingList.Paging.{PageKey, is_after, is_shown, key_of, last_key, shown_after}
use prislapp.ShoppingList.Sync.{by_created_at}

by_created_at_total : (a b : ShoppingList) → by_created_at a b ≡ false → by_created_at b a ≡ true
by_created_at_total a b h = ground arith

by_created_at_trans :
    (a b c : ShoppingList)
    → by_created_at a b ≡ true
    → by_created_at b c ≡ true
    → by_created_at a c ≡ true
by_created_at_trans a b c h k = ground arith

not_after_earlier :
    (a b : ShoppingList) → by_created_at a b ≡ true → is_after (some (key_of b)) a ≡ false
not_after_earlier a b h = ground arith

after_earlier :
    (a b : ShoppingList)
    → by_created_at a b ≡ true
    → a.id ≢ b.id
    → is_after (some (key_of a)) b ≡ true
after_earlier a b h n = ground arith

last_key_All :
    (P : PageKey → Type 0) (row : ShoppingList) (rows : List ShoppingList)
    → P (key_of row)
    → All (λ r. P (key_of r)) rows
    → P (last_key row rows)
last_key_All P row [] h hs = h
last_key_All P row (next ∷ rows) h (hn, hs) = last_key_All P next rows hn hs

after_row :
    (row : ShoppingList) (rows : List ShoppingList)
    → All (λ r. by_created_at row r ≡ true) rows
    → All (λ r. row.id ≢ r.id) rows
    → filter (is_after (some (key_of row))) rows ≡ rows
after_row row [] h d = refl
after_row row (next ∷ rows) (hn, h) (dn, d) =
    rw (after_earlier row next hn dn)
      (ap (λ (rs : List ShoppingList). next ∷ rs) (after_row row rows h d))

-- Behind the last row of the first page stand the other rows.
rest-filter :
    (n : ℕ) (row : ShoppingList) (rows : List ShoppingList)
    → IsSorted by_created_at (row ∷ rows)
    → Distinct (λ r. r.id) (row ∷ rows)
    → filter (is_after (some (last_key row (take n rows)))) (row ∷ rows) ≡ drop n rows
rest-filter zero row rows (first, rest) (fresh, d) =
    rw (not_after_self row) (after_row row rows first fresh)
  where
    not_after_self : (r : ShoppingList) → is_after (some (key_of r)) r ≡ false
    not_after_self r = ground arith
rest-filter (suc n) row [] (first, rest) (fresh, d) = ground arith
rest-filter (suc n) row (next ∷ rows) (first, rest) (fresh, d) =
    rw
      (last_key_All (λ key. is_after (some key) row ≡ false) next (take n rows)
        (not_after_earlier row next first.0)
        (All-take _ n rows (
          All-imp _ (λ r. is_after (some (key_of r)) row ≡ false) rows
            (λ r. not_after_earlier row r) first.1)))
      (rest-filter n next rows rest d)

module _ (user_id : ℕ) (db : Db) (distinct : Distinct (λ r. r.id) db.lists) where
  -- The rows after a key are sorted, and no two are the same.
  rows-IsSorted : (key : Option PageKey) → IsSorted by_created_at (shown_after user_id key db)
  rows-IsSorted key = sort_by-IsSorted by_created_at by_created_at_total by_created_at_trans _

  rows-Distinct : (key : Option PageKey) → Distinct (λ r. r.id) (shown_after user_id key db)
  rows-Distinct key =
      Distinct-sort_by (λ r. r.id) by_created_at _
        (Distinct-filter (λ r. r.id) (λ row. is_shown user_id row && is_after key row) db.lists
          distinct)

  -- What is after a row that is after `key` is after `key`.
  abbrev IsLater : Option PageKey → PageKey → Type 0
  IsLater key key' = (x : ShoppingList) → is_after (some key') x ≡ true → is_after key x ≡ true

  row-IsLater :
      (key : Option PageKey) (row : ShoppingList)
      → (is_shown user_id row && is_after key row) ≡ true
      → IsLater key (key_of row)
  row-IsLater none row h x later = refl
  row-IsLater (some key) row h x later = ground arith

  rows-IsLater :
      (key : Option PageKey) → All (λ row. IsLater key (key_of row)) (shown_after user_id key db)
  rows-IsLater key = sort_by-All by_created_at _ _ (
      All-imp _ _ _ (row-IsLater key)
        (filter-All (λ row. is_shown user_id row && is_after key row) db.lists))

  both :
      (key : Option PageKey) (key' : PageKey)
      → IsLater key key'
      → (x : ShoppingList)
      → (is_shown user_id x && is_after (some key') x)
        ≡ ((is_shown user_id x && is_after key x) && is_after (some key') x)
  both key key' later x = elim (Bool-cases (is_after (some key') x)) [
    | inl t ↦ rw (t, later x t) (plain (is_shown user_id x))
    | inr t ↦ rw t (blank (is_shown user_id x) (is_after key x))
  ]
    where
      plain : (b : Bool) → (b && true) ≡ ((b && true) && true)
      plain b = ground arith

      blank : (b c : Bool) → (b && false) ≡ ((b && c) && false)
      blank b c = ground arith

  pub next_page :
      (key : Option PageKey) (n : ℕ) (row : ShoppingList) (rows : List ShoppingList)
      → shown_after user_id key db ≡ row ∷ rows
      → shown_after user_id (some (last_key row (take n rows))) db ≡ drop n rows
  next_page key n row rows e =
      ap (λ (rs : List ShoppingList). sort_by by_created_at rs)
        (sym (
          filter-filter (λ r. is_shown user_id r && is_after key r) (is_after (some key')) _
            db.lists (both key key' later)))
      ∙ sym (
          filter-sort_by by_created_at by_created_at_total by_created_at_trans
            (is_after (some key')) _)
      ∙ ap (λ (rs : List ShoppingList). filter (is_after (some key')) rs) e
      ∙ rest-filter n row rows (rw e at (rows-IsSorted key)) (rw e at (rows-Distinct key))
    where
      key' : PageKey
      key' = last_key row (take n rows)

      all_later : All (λ r. IsLater key (key_of r)) (row ∷ rows)
      all_later = rw e at (rows-IsLater key)

      later : IsLater key key'
      later =
          last_key_All (IsLater key) row (take n rows) all_later.0 (All-take _ n rows all_later.1)
