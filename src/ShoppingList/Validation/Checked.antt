-- ===== src/ShoppingList/Validation/Checked.antt =====
-- What a value that passed `_validated_quantity` or `_validated_reference` is.
use prislapp.Prelude.{
  Bool-cases, Option, [], arith, false, inl, inr, leb, none, or_default, refl, some, true, ℕ, ◌*◌,
  ◌-◌, ◌^◌, ◌≡◌,
}
use prislapp.Prelude.Decimal.{Decimal, not_positive, quantize, quantize-padded}
use prislapp.Prelude.Text.{Text, is_empty, strip}
use prislapp.ShoppingList.Exec.{ok}
use prislapp.ShoppingList.Validation.{
  HasOneReference, one_of, optional_quantity, or_none, stripped_text, validated_quantity,
  validated_reference,
}

-- A checked quantity is over zero, has three decimals, and is the one that was sent.
pub validated_quantity-positive :
    (quantity q : Decimal)
    → validated_quantity quantity ≡ ok q
    → (not_positive q ≡ false)
      × (q.places ≡ 3)
      × (q.digits ≡ quantity.digits * 10 ^ (3 - quantity.places))
validated_quantity-positive quantity q e =
    let (positive, few, padded) = parts in quantize-padded 3 quantity few positive padded
  where
    parts :
        (not_positive quantity ≡ false)
        × (leb quantity.places 3 ≡ true)
        × (quantize 3 quantity ≡ some q)
    parts = unfold validated_quantity in ground arith

pub optional_quantity-positive :
    (quantity q : Option Decimal) (old : Decimal)
    → optional_quantity quantity ≡ ok q
    → not_positive old ≡ false
    → not_positive (or_default q old) ≡ false
optional_quantity-positive none q old e h = ground arith
optional_quantity-positive (some d) none old e h = h
optional_quantity-positive (some d) (some q) old e h =
    (validated_quantity-positive d q (ground arith)).0

or_none-inked : (text t : Text) → or_none text ≡ some t → is_empty t ≡ false
or_none-inked text t e = elim (Bool-cases (is_empty text)) [
  | inl blank ↦ let no_text : none ≡ some t = rw blank at e in cc no_text
  | inr inked ↦
      let given : some text ≡ some t = rw inked at e in
      let same : text ≡ t = cc given in rw (← same) inked
]

stripped_text-inked :
    (text : Option Text) (t : Text) → stripped_text text ≡ some t → is_empty t ≡ false
stripped_text-inked none t e = or_none-inked (strip []) t e
stripped_text-inked (some s) t e = or_none-inked (strip s) t e

one_of-one :
    (product_id : Option ℕ) (text reference : Option Text)
    → ((t : Text) → text ≡ some t → is_empty t ≡ false)
    → one_of product_id text ≡ ok reference
    → HasOneReference product_id reference
one_of-one none none reference h e = cc e
one_of-one (some _) (some _) reference h e = cc e
one_of-one none (some t) none h e = cc e
one_of-one none (some t) (some r) h e = let same : t ≡ r = cc e in rw (← same) (h t refl)
one_of-one (some p) none none h e = tt
one_of-one (some p) none (some r) h e = cc e

-- A checked reference is to one product or to one text that is not blank.
pub validated_reference-one :
    (product_id : Option ℕ) (text reference : Option Text)
    → validated_reference product_id text ≡ ok reference
    → HasOneReference product_id reference
unfolding validated_reference
validated_reference-one product_id text reference e =
    one_of-one product_id (stripped_text text) reference (stripped_text-inked text) e
