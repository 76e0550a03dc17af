-- ===== src/Prelude/Text.antt =====
-- Python's `str` as its code points, with the operations that the services use.
use mathlib.Core.List.{reverse, reverse-append}
use prislapp.Prelude.{
  Bool, List, [], any, any-append, ap, arith, false, if◌then◌else◌, leb, ltb, not, refl, sym, true,
  ℕ, ◌&&◌, ◌++◌, ◌==◌, ◌||◌, ◌∙◌, ◌∷◌, ◌≡◌,
}

abbrev pub Text : Type 0
Text = List ℕ

-- `str.isspace` of one code point.
is_space : ℕ → Bool
is_space c =
    (leb 9 c && leb c 13)
    || (leb 28 c && leb c 32)
    || c == 133
    || c == 160
    || c == 5760
    || (leb 8192 c && leb c 8202)
    || c == 8232
    || c == 8233
    || c == 8239
    || c == 8287
    || c == 12288

lstrip : Text → Text
lstrip [] = []
lstrip (c ∷ cs) = if is_space c then lstrip cs else c ∷ cs

-- `str.strip()`
unfoldable pub strip : Text → Text
unfolding lstrip is_space
strip t = reverse (lstrip (reverse (lstrip t)))

-- Python's truth value of a string.
abbrev pub is_empty : Text → Bool
is_empty [] = true
is_empty (_ ∷ _) = false

-- The order of two strings, by code points.
abbrev pub text_le : Text → Text → Bool
text_le [] _ = true
text_le (_ ∷ _) [] = false
text_le (a ∷ as') (b ∷ bs) = ltb a b || (a == b && text_le as' bs)

-- Whether a character leaves a mark.
is_ink : ℕ → Bool
is_ink c = not (is_space c)

any-reverse : (t : Text) → any is_ink (reverse t) ≡ any is_ink t
any-reverse [] = refl
any-reverse (c ∷ t) =
    ap (any is_ink) (reverse-append (c ∷ []) t)
    ∙ (any-append is_ink (reverse t) (c ∷ []) ∙ ground (arith, any-reverse t))

any-lstrip : (t : Text) → any is_ink (lstrip t) ≡ any is_ink t
unfolding lstrip is_ink
any-lstrip [] = refl
any-lstrip (c ∷ t) = ground (arith, any-lstrip t)

is_empty-lstrip : (t : Text) → is_empty (lstrip t) ≡ not (any is_ink t)
unfolding lstrip is_ink
is_empty-lstrip [] = refl
is_empty-lstrip (c ∷ t) = ground (arith, is_empty-lstrip t)

is_empty-append : (s : Text) (c : ℕ) → is_empty (s ++ c ∷ []) ≡ false
is_empty-append [] c = refl
is_empty-append (_ ∷ s) c = refl

is_empty-reverse : (t : Text) → is_empty (reverse t) ≡ is_empty t
is_empty-reverse [] = refl
is_empty-reverse (c ∷ t) = ap is_empty (reverse-append (c ∷ []) t) ∙ is_empty-append (reverse t) c

is_empty-strip_ink : (t : Text) → is_empty (strip t) ≡ not (any is_ink t)
is_empty-strip_ink t =
    unfold strip in
    is_empty-reverse (lstrip (reverse (lstrip t)))
    ∙ (is_empty-lstrip (reverse (lstrip t)) ∙ ap not (any-reverse (lstrip t) ∙ any-lstrip t))

any-strip : (t : Text) → any is_ink (strip t) ≡ any is_ink t
any-strip t =
    unfold strip in
    any-reverse (lstrip (reverse (lstrip t)))
    ∙ (any-lstrip (reverse (lstrip t)) ∙ (any-reverse (lstrip t) ∙ any-lstrip t))

-- A stripped text is blank only if it is empty.
pub is_empty-strip-strip : (t : Text) → is_empty (strip (strip t)) ≡ is_empty (strip t)
is_empty-strip-strip t =
    is_empty-strip_ink (strip t) ∙ (ap not (any-strip t) ∙ sym (is_empty-strip_ink t))
