-- ===== src/ListCopy/Laws.antt =====
-- What a copied list and a list made from a receipt contain.
use prislapp.Prelude.{
  All, Bool, Bool-cases, List, Perm, [], arith, false, filter, if◌then◌else◌, inl, inr, map, none,
  not, refl, some, true, ℕ, ◌&&◌, ◌∙◌, ◌∷◌, ◌≡◌, ◌⊎◌,
}
use prislapp.ListCopy.{
  MappedListLine, SourceListLine, SourceReceiptLine, by_position_and_id, by_position_and_name,
  copy_line, copy_list_lines, copy_loop, is_product, map_line, map_loop, map_receipt_lines,
  or_fallback, owned,
}
use prislapp.Prelude.Sort.{IsSorted, sort_by, sort_by-IsSorted, sort_by-perm}
use prislapp.Prelude.Text.{Text, is_empty, is_empty-strip-strip, strip}

-- The lines that a copy takes.
abbrev pub is_copied : Bool → SourceListLine → Bool
is_copied unchecked_only line = not line.deleted && not (unchecked_only && line.checked)

copy_loop-eq-map :
    (unchecked_only : Bool) (lines : List SourceListLine)
    → copy_loop unchecked_only lines ≡ map copy_line (filter (is_copied unchecked_only) lines)
unfolding copy_loop
copy_loop-eq-map unchecked_only [] = refl
copy_loop-eq-map unchecked_only (line ∷ lines) =
    ground (arith, copy_loop-eq-map unchecked_only lines)

by_position_and_id_total :
    (a b : SourceListLine) → by_position_and_id a b ≡ false → by_position_and_id b a ≡ true
by_position_and_id_total a b h = ground arith

by_position_and_id_trans :
    (a b c : SourceListLine)
    → by_position_and_id a b ≡ true
    → by_position_and_id b c ≡ true
    → by_position_and_id a c ≡ true
by_position_and_id_trans a b c h k = ground arith

-- The copy has the kept source lines, each once, in the order of position and then id.
pub copy_list_lines_ordered :
    (lines : List SourceListLine) (unchecked_only : Bool)
    → (ordered : List SourceListLine) × Perm ordered lines
      × IsSorted by_position_and_id ordered
      × (copy_list_lines lines unchecked_only
          ≡ map copy_line (filter (is_copied unchecked_only) ordered))
unfolding copy_list_lines
copy_list_lines_ordered lines unchecked_only = (
  sort_by by_position_and_id lines,
  sort_by-perm by_position_and_id lines,
  sort_by-IsSorted by_position_and_id by_position_and_id_total by_position_and_id_trans lines,
  copy_loop-eq-map unchecked_only (sort_by by_position_and_id lines),
)

-- The lines that become list lines.
abbrev pub is_bought : SourceReceiptLine → Bool
is_bought line = not line.deleted && is_product line.line_type

map_loop-eq-map :
    (ids : List ℕ) (lines : List SourceReceiptLine)
    → map_loop ids lines ≡ map (map_line ids) (filter is_bought lines)
unfolding map_loop
map_loop-eq-map ids [] = refl
map_loop-eq-map ids (line ∷ lines) = ground (arith, map_loop-eq-map ids lines)

-- The line points at an owned product, or it has a free text that is more than blanks.
abbrev pub HasReference : List ℕ → MappedListLine → Type 0
HasReference ids line =
    ((owned line.user_product_id ids ≡ true) × (line.free_text ≡ none))
    ⊎ ((line.user_product_id ≡ none)
        × ((text : Text) × (line.free_text ≡ some text) × (is_empty (strip text) ≡ false)))

or_fallback-strip : (name : Text) → is_empty (strip (or_fallback (strip name))) ≡ false
or_fallback-strip name = elim (Bool-cases (is_empty (strip name))) [
  | inl blank ↦ rw blank (unfold strip in refl)
  | inr inked ↦ rw inked (is_empty-strip-strip name ∙ inked)
]

map_line-HasReference :
    (ids : List ℕ) (line : SourceReceiptLine) → HasReference ids (map_line ids line)
unfolding map_line
map_line-HasReference ids line = elim (Bool-cases (owned line.user_product_id ids)) [
  | inl own ↦ rw own (inl (own, refl))
  | inr other ↦ rw other (
      inr (
        refl,
        (or_fallback (strip line.raw_product_name), refl, or_fallback-strip line.raw_product_name),
      ))
]

map_loop-HasReference :
    (ids : List ℕ) (lines : List SourceReceiptLine) → All (HasReference ids) (map_loop ids lines)
unfolding map_loop
map_loop-HasReference ids [] = tt
map_loop-HasReference ids (line ∷ lines) =
    go line.deleted (is_product line.line_type) (map_loop-HasReference ids lines)
  where
    go :
        (gone sold : Bool)
        → All (HasReference ids) (map_loop ids lines)
        → All (HasReference ids) (
            if gone
            then map_loop ids lines
            else if not sold
            then map_loop ids lines
            else map_line ids line ∷ map_loop ids lines)
    go true sold h = h
    go false false h = h
    go false true h = (map_line-HasReference ids line, h)

-- Whatever the receipt says, every line that is made from it points at one of the account's own
-- products and has no free text, or points at no product and has a text that is not blank.
pub map_receipt_lines-HasReference :
    (lines : List SourceReceiptLine) (ids : List ℕ)
    → All (HasReference ids) (map_receipt_lines lines ids)
unfolding map_receipt_lines
map_receipt_lines-HasReference lines ids =
    map_loop-HasReference ids (sort_by by_position_and_name lines)
