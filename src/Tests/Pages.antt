-- ===== src/Tests/Pages.antt =====
-- The paging of backend/app/services/shopping_list_service.py over two lists.
use prislapp.Prelude.{[], arith, filter, inl, map, none, refl, some, ◌∷◌, ◌≡◌}
use prislapp.Prelude.Sort.{sort_by}
use prislapp.ShoppingList.Invariant.{Inv}
use prislapp.ShoppingList.Model.{Db, ShoppingList}
use prislapp.ShoppingList.Paging.{is_shown, list_lists, shown_response}
use prislapp.ShoppingList.Paging.Complete.{list_lists-walk, walk}
use prislapp.ShoppingList.Sequence.{sequence}
use prislapp.ShoppingList.Sync.{by_created_at}
use prislapp.Tests.ShoppingLists.{start, week_list}

abbrev party_list : ShoppingList
party_list = record week_list { id = 2; created_at = 90; content_seq = 2 }

abbrev two_lists : Db
two_lists = record start { lists = week_list ∷ party_list ∷ [] }

two_lists-Inv : Inv two_lists
unfolding sequence
two_lists-Inv = record {
  list_ids = ((omega arith, tt), (tt, tt));
  item_ids = (tt, tt);
  bounded = (omega arith, (omega arith, tt));
  covered = (inl (refl, refl, omega arith), tt);
  valid = (record { reference = tt; quantity = refl }, tt);
  limit = λ list_id. ground arith;
}

list_lists-walk_example :
    walk 7 (some 1) two_lists 3 none
    ≡ some (
        map
          (shown_response 7 two_lists)
          (sort_by by_created_at (filter (is_shown 7) two_lists.lists)))
list_lists-walk_example = list_lists-walk 7 (some 1) two_lists two_lists-Inv

-- The list that was created first comes first, in pages of one.
walked :
    walk 7 (some 1) two_lists 3 none
    ≡ some (shown_response 7 two_lists party_list ∷ shown_response 7 two_lists week_list ∷ [])
unfolding list_lists
walked = refl
