-- ===== src/Prices/Latest/Groups.antt =====
-- backend/app/domain/price_history.py: the groups of `latest_per_store`, one for each store.
use mathlib.Core.Path.{subst}
use prislapp.Prelude.{
  ==→eq, All, All-append, In, In-append, In-append_last, List, [], eq→==, if-both, inl, inr, refl,
  sym, ℕ, ◌++◌, ◌∷◌, ◌≡◌, ◌≢◌,
}
use prislapp.Prelude.Table.{Distinct}
use prislapp.Prices.History.{Observation, same_store, store_key}
use prislapp.Prices.Latest.{add_to_group, grouped}

abbrev pub Group : Type 0
Group = Observation × List Observation

abbrev pub group_key : Group → ℕ
group_key (head, rows) = store_key head

abbrev pub IsGroup : Group → Type 0
IsGroup (head, rows) = All (λ row. store_key row ≡ store_key head) rows

-- A row in one of the groups.
abbrev pub IsGrouped : List Group → Observation → Type 0
IsGrouped groups row = (group : Group) × In group groups × In row (group.0 ∷ group.1)

add_to_group-All :
    (P : Group → Type 0) (row : Observation) (groups : List Group)
    → P (row, [])
    → ((head : Observation) (rows : List Observation)
        → store_key row ≡ store_key head
        → P (head, rows)
        → P (head, rows ++ row ∷ []))
    → All P groups
    → All P (add_to_group row groups)
add_to_group-All P row [] new more h = (new, tt)
add_to_group-All P row ((head, rows) ∷ groups) new more (h, hs) =
    if-both (All P) (same_store row head) (λ t. (more head rows (==→eq _ _ t) h, hs))
      (λ f. (h, add_to_group-All P row groups new more hs))

add_to_group-Distinct :
    (row : Observation) (groups : List Group)
    → Distinct group_key groups
    → Distinct group_key (add_to_group row groups)
add_to_group-Distinct row [] d = (tt, tt)
add_to_group-Distinct row ((head, rows) ∷ groups) (fresh, d) =
    if-both (Distinct group_key) (same_store row head) (λ t. (fresh, d))
      (λ f. (
        add_to_group-All (λ group. store_key head ≢ group_key group) row groups
            (λ e. cc (f, eq→== _ _ (sym e))) (λ other. λ others. λ same. λ h. h) fresh,
        add_to_group-Distinct row groups d,
      ))

add_to_group-new :
    (row : Observation) (groups : List Group) → IsGrouped (add_to_group row groups) row
add_to_group-new row [] = ((row, []), inl refl, inl refl)
add_to_group-new row ((head, rows) ∷ groups) =
    let (group, i, j) = add_to_group-new row groups in
    if-both (λ (gs : List Group). IsGrouped gs row) (same_store row head)
      (λ t. ((head, rows ++ row ∷ []), inl refl, inr (In-append_last row rows)))
      (λ f. (group, inr i, j))

add_to_group-old :
    (row seen : Observation) (groups : List Group)
    → IsGrouped groups seen
    → IsGrouped (add_to_group row groups) seen
add_to_group-old row seen [] (group, i, j) = absurd i
add_to_group-old row seen ((head, rows) ∷ groups) (group, inl e, j) =
    if-both (λ (gs : List Group). IsGrouped gs seen) (same_store row head)
      (λ t. (
        (head, rows ++ row ∷ []),
        inl refl,
        longer (subst (λ (h : Group). In seen (h.0 ∷ h.1)) (sym e) j),
      ))
      (λ f. (group, inl e, j))
  where
    longer : In seen (head ∷ rows) → In seen (head ∷ (rows ++ row ∷ []))
    longer (inl k) = inl k
    longer (inr k) = inr (In-append seen rows (row ∷ []) k)
add_to_group-old row seen ((head, rows) ∷ groups) (group, inr i, j) =
    let (h, k, m) = add_to_group-old row seen groups (group, i, j) in
    if-both (λ (gs : List Group). IsGrouped gs seen) (same_store row head) (λ t. (group, inr i, j))
      (λ f. (h, inr k, m))

-- What the loop keeps.
abbrev pub IsGrouping : List Group → Type 0
IsGrouping groups = Distinct group_key groups × All IsGroup groups

pub grouped-IsGrouping :
    (rows : List Observation) (groups : List Group)
    → IsGrouping groups
    → IsGrouping (grouped rows groups)
grouped-IsGrouping [] groups h = h
grouped-IsGrouping (row ∷ rows) groups (d, h) = grouped-IsGrouping rows (add_to_group row groups) (
  add_to_group-Distinct row groups d,
  add_to_group-All IsGroup row groups tt
      (λ head. λ others. λ same. λ k. All-append _ others (row ∷ []) k (same, tt)) h,
)

grouped-old :
    (rows : List Observation) (groups : List Group) (seen : Observation)
    → IsGrouped groups seen
    → IsGrouped (grouped rows groups) seen
grouped-old [] groups seen h = h
grouped-old (row ∷ rows) groups seen h =
    grouped-old rows (add_to_group row groups) seen (add_to_group-old row seen groups h)

pub grouped-All :
    (rows : List Observation) (groups : List Group) → All (IsGrouped (grouped rows groups)) rows
grouped-All [] groups = tt
grouped-All (row ∷ rows) groups = (
  grouped-old rows (add_to_group row groups) row (add_to_group-new row groups),
  grouped-All rows (add_to_group row groups),
)
