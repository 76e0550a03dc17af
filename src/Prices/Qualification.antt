-- ===== src/Prices/Qualification.antt =====
-- backend/app/domain/pricing.py: which lines qualify.
use mathlib.Core.Path.{subst}
use prislapp.Prelude.{
  Bool, Bool-cases, List, Option, [], any, any-append, ap, arith, false, inl, inr, is_some, none,
  not, refl, some, sym, true, ◌&&◌, ◌++◌, ◌∙◌, ◌∷◌, ◌≡◌, ◌⊎◌,
}
use prislapp.Prelude.Decimal.{Decimal, not_positive}
use prislapp.Prices.Money.{Computed, computed, invalid_operation, value_error}
use prislapp.Prices.Pricing.{
  Condition, Divisor, ExclusionReason, PriceBasis, PricingLine, PricingResult, as_known,
  basis_and_divisor, checked_divisor, concluded, condition_reasons, condition_unknown, coupon,
  discount_reasons, evaluate_line, evaluated, evaluated_if, is_dated, is_nok, is_non_nok,
  is_product, is_rankable_identity, known_reasons, measured, measured_with, member, multi_buy,
  no_condition, no_reasons, non_nok, non_positive_quantity, non_product_line, packages, per_kg,
  per_litre, per_package, price_of, priced_by, quantity_reasons, reason_if, unknown_date,
  unknown_quantity, unknown_unit, unresolved_identity,
}
use prislapp.Units.{QuantityUnit, each, g, kg, l, ml, normalize_quantity, unknown}

abbrev is_unconditional : Condition → Bool
is_unconditional no_condition = true
is_unconditional _ = false

-- A known amount that is not zero or negative.
abbrev is_amount : Option Decimal → Bool
is_amount none = false
is_amount (some d) = not (not_positive d)

abbrev is_normal_amount : Option (Decimal × QuantityUnit) → Bool
is_normal_amount none = false
is_normal_amount (some (d, _)) = is_amount (some d)

abbrev is_measured : Option Decimal → QuantityUnit → Bool
is_measured none unit = false
is_measured (some d) unit = is_normal_amount (normalize_quantity d unit)

-- The amount that a price is divided by, packages, kilograms or litres, is known and positive.
abbrev pub has_amount : PricingLine → QuantityUnit → Bool
has_amount line unknown = false
has_amount line each = is_amount (packages line)
has_amount line unit = is_measured line.quantity unit

-- What a line needs to be compared, in one test.
abbrev pub qualifies : PricingLine → Bool
qualifies line =
    is_product line.line_type
    && (is_nok line.currency
        && (is_rankable_identity line.user_product_id line.identity_status
            && (is_unconditional line.condition
                && (has_amount line line.quantity_unit && is_some line.net_line_total))))

-- A divisor has a reason exactly where it has no value.
abbrev pub IsDivisor : Bool → Divisor → Type 0
IsDivisor b d =
    ((b ≡ true)
      × (d.reason ≡ none)
      × (e : Decimal) × (d.divisor ≡ some e)
      × (not_positive e ≡ false))
    ⊎ ((b ≡ false)
        × (reason : ExclusionReason) × (d.reason ≡ some reason)
        × (d.divisor ≡ none)
        × (is_non_nok reason ≡ false))

checked_divisor-IsDivisor :
    (basis : PriceBasis) (o : Option Decimal) → IsDivisor (is_amount o) (checked_divisor basis o)
checked_divisor-IsDivisor basis none = inr (refl, unknown_quantity, refl, refl, refl)
checked_divisor-IsDivisor basis (some d) = elim (Bool-cases (not_positive d)) [
  | inl t ↦ rw t (inr (refl, non_positive_quantity, refl, refl, refl))
  | inr t ↦ rw t (inl (refl, refl, d, refl, t))
]

same_divisor :
    (b : Bool) {d d' : Divisor} → computed d ≡ computed d' → IsDivisor b d → IsDivisor b d'
same_divisor b {d} {d'} e h = let same : d ≡ d' = cc e in subst (IsDivisor b) same h

measured_with-IsDivisor :
    (basis : PriceBasis) (n : Option (Decimal × QuantityUnit)) {d : Divisor}
    → measured_with basis n ≡ computed d
    → IsDivisor (is_normal_amount n) d
measured_with-IsDivisor basis none e = cc e
measured_with-IsDivisor basis (some (q, _)) e =
    same_divisor (is_amount (some q)) e (checked_divisor-IsDivisor basis (some q))

measured-IsDivisor :
    (basis : PriceBasis) (o : Option Decimal) (unit : QuantityUnit) {d : Divisor}
    → measured basis o unit ≡ computed d
    → IsDivisor (is_measured o unit) d
measured-IsDivisor basis none unit e = same_divisor false e (checked_divisor-IsDivisor basis none)
measured-IsDivisor basis (some q) unit e =
    measured_with-IsDivisor basis (normalize_quantity q unit) e

pub basis_and_divisor-IsDivisor :
    (line : PricingLine) (unit : QuantityUnit) {d : Divisor}
    → basis_and_divisor line unit ≡ computed d
    → IsDivisor (has_amount line unit) d
basis_and_divisor-IsDivisor line each e =
    same_divisor (is_amount (packages line)) e
      (checked_divisor-IsDivisor per_package (packages line))
basis_and_divisor-IsDivisor line unknown e =
    same_divisor false e (inr (refl, unknown_unit, refl, refl, refl))
basis_and_divisor-IsDivisor line kg e = measured-IsDivisor per_kg line.quantity kg e
basis_and_divisor-IsDivisor line g e = measured-IsDivisor per_kg line.quantity g e
basis_and_divisor-IsDivisor line l e = measured-IsDivisor per_litre line.quantity l e
basis_and_divisor-IsDivisor line ml e = measured-IsDivisor per_litre line.quantity ml e

abbrev reasons_of :
    Bool → Bool → Bool → Condition → Option ExclusionReason → Option Decimal → List ExclusionReason
reasons_of p n i c reason total =
    (reason_if (not p) non_product_line
      ++ (reason_if (not n) non_nok
          ++ (reason_if (not i) unresolved_identity ++ condition_reasons c)))
    ++ (quantity_reasons reason ++ discount_reasons total)

abbrev all_met : Bool → Bool → Bool → Condition → Bool → Option Decimal → Bool
all_met p n i c b total = p && (n && (i && (is_unconditional c && (b && is_some total))))

no_reasons-reasons_of :
    (p n i : Bool) (c : Condition) (total : Option Decimal) (b : Bool) (d : Divisor)
    → IsDivisor b d
    → no_reasons (reasons_of p n i c d.reason total) ≡ all_met p n i c b total
no_reasons-reasons_of false n i c total b d h = refl
no_reasons-reasons_of true false i c total b d h = refl
no_reasons-reasons_of true true false c total b d h = refl
no_reasons-reasons_of true true true condition_unknown total b d h = refl
no_reasons-reasons_of true true true member total b d h = refl
no_reasons-reasons_of true true true multi_buy total b d h = refl
no_reasons-reasons_of true true true coupon total b d h = refl
no_reasons-reasons_of true true true no_condition none b d h = ground (arith, h)
no_reasons-reasons_of true true true no_condition (some x) b d h = ground (arith, h)

any-reason_if :
    (b : Bool) (r : ExclusionReason) (xs : List ExclusionReason)
    → is_non_nok r ≡ false
    → any is_non_nok (reason_if b r ++ xs) ≡ any is_non_nok xs
any-reason_if true r xs h = rw h refl
any-reason_if false r xs h = refl

any-condition_reasons : (c : Condition) → any is_non_nok (condition_reasons c) ≡ false
any-condition_reasons condition_unknown = refl
any-condition_reasons member = refl
any-condition_reasons multi_buy = refl
any-condition_reasons coupon = refl
any-condition_reasons no_condition = refl

any-qualification :
    (p n i : Bool) (c : Condition)
    → any is_non_nok (
        reason_if (not p) non_product_line
        ++ (reason_if (not n) non_nok
            ++ (reason_if (not i) unresolved_identity ++ condition_reasons c)))
      ≡ not n
any-qualification p n i c =
    any-reason_if (not p) non_product_line (reason_if (not n) non_nok ++ rest) refl ∙ any-currency n
  where
    rest : List ExclusionReason
    rest = reason_if (not i) unresolved_identity ++ condition_reasons c

    any-currency : (n : Bool) → any is_non_nok (reason_if (not n) non_nok ++ rest) ≡ not n
    any-currency false = refl
    any-currency true =
        any-reason_if (not i) unresolved_identity (condition_reasons c) refl
        ∙ any-condition_reasons c

any-quantity :
    (total : Option Decimal) (b : Bool) (d : Divisor)
    → IsDivisor b d
    → any is_non_nok (quantity_reasons d.reason ++ discount_reasons total) ≡ false
any-quantity none b d h = ground (arith, h)
any-quantity (some t) b d h = ground (arith, h)

any-reasons_of :
    (p n i : Bool) (c : Condition) (total : Option Decimal) (b : Bool) (d : Divisor)
    → IsDivisor b d
    → any is_non_nok (reasons_of p n i c d.reason total) ≡ not n
any-reasons_of p n i c total b d h =
    any-append is_non_nok
      (reason_if (not p) non_product_line
        ++ (reason_if (not n) non_nok
            ++ (reason_if (not i) unresolved_identity ++ condition_reasons c)))
      (quantity_reasons d.reason ++ discount_reasons total)
    ∙ grind (arith, any-qualification p n i c, any-quantity total b d h)

-- What is decided about a line, by the test that it meets before its date.
abbrev pub Decided : PricingLine → Bool → PricingResult → Type 0
Decided line b r =
    (r.eligible ≡ b)
    × (r.eligible_for_dated_ranking ≡ (b && is_dated line.date_precision))
    × (r.eligible_for_dated_ranking ≡ no_reasons r.exclusion_reasons)
    × (b ≡ true → is_some r.comparison_price ≡ true)

no_reasons-append_if :
    (xs : List ExclusionReason) (b : Bool) (r : ExclusionReason)
    → (no_reasons xs && not b) ≡ no_reasons (xs ++ reason_if b r)
no_reasons-append_if [] true r = refl
no_reasons-append_if [] false r = refl
no_reasons-append_if (x ∷ xs) b r = refl

double_negation : (b : Bool) → b ≡ not (not b)
double_negation true = refl
double_negation false = refl

concluded-Decided :
    (line : PricingLine) (d : Divisor) (reasons : List ExclusionReason)
    (c : Computed (Option Decimal)) (b : Bool) {r : PricingResult}
    → concluded line d reasons c ≡ computed r
    → no_reasons reasons ≡ b
    → ((price : Option Decimal) → c ≡ computed price → b ≡ true → is_some price ≡ true)
    → Decided line b r
concluded-Decided line d reasons value_error b e n h = cc e
concluded-Decided line d reasons invalid_operation b e n h = cc e
concluded-Decided line d reasons (computed price) b {r} e n h =
    let same : result ≡ r = cc e in subst (Decided line b) same (n, dated, undated, h price refl)
  where
    result : PricingResult
    result = record {
      eligible = no_reasons reasons;
      comparison_price = price;
      price_basis = d.price_basis;
      exclusion_reasons = reasons ++ reason_if (not (is_dated line.date_precision)) unknown_date;
      eligible_for_dated_ranking = no_reasons reasons && is_dated line.date_precision;
    }

    dated :
        (no_reasons reasons && is_dated line.date_precision) ≡ (b && is_dated line.date_precision)
    dated = rw n refl

    undated :
        (no_reasons reasons && is_dated line.date_precision)
        ≡ no_reasons (reasons ++ reason_if (not (is_dated line.date_precision)) unknown_date)
    undated =
        ap (λ (t : Bool). no_reasons reasons && t) (double_negation (is_dated line.date_precision))
        ∙ no_reasons-append_if reasons (not (is_dated line.date_precision)) unknown_date

price_of-is_some :
    (o total : Option Decimal) (skip : Bool) (basis : PriceBasis) {price : Option Decimal}
    → (is_some o && (is_some total && not skip)) ≡ true
    → price_of o total skip basis ≡ computed price
    → is_some price ≡ true
price_of-is_some none total skip basis t e = cc t
price_of-is_some (some d) none skip basis t e = cc t
price_of-is_some (some d) (some total) true basis t e = cc t
price_of-is_some (some d) (some total) false basis {price} t e = go (priced_by basis total d) refl
  where
    go : (c : Computed Decimal) → priced_by basis total d ≡ c → is_some price ≡ true
    go (computed p) k =
        let found : computed (some p) ≡ computed price = ap as_known (sym k) ∙ e in
        let same : some p ≡ price = cc found in ap (λ (o : Option Decimal). is_some o) (sym same)
    go value_error k =
        let found : value_error ≡ computed price = ap as_known (sym k) ∙ e in cc found
    go invalid_operation k =
        let found : invalid_operation ≡ computed price = ap as_known (sym k) ∙ e in cc found

needs_met :
    (p n i : Bool) (c : Condition) (b : Bool) (d : Divisor) (total : Option Decimal)
    → IsDivisor b d
    → all_met p n i c b total ≡ true
    → (is_some d.divisor && (is_some total && n)) ≡ true
needs_met p n i c b d total (inl (_, _, _, some_divisor, _)) t =
    rw some_divisor (both_known p n i c b total t)
  where
    both_known :
        (p n i : Bool) (c : Condition) (b : Bool) (total : Option Decimal)
        → all_met p n i c b total ≡ true
        → (is_some total && n) ≡ true
    both_known true true true no_condition true (some x) t = refl
    both_known p n i c b total t = ground (arith, t)
needs_met p n i c b d total (inr (no_amount, _, _, _, _)) t = ground (arith, no_amount, t)

priced-is_some :
    (line : PricingLine) (d : Divisor) (b : Bool) {price : Option Decimal}
    → IsDivisor b d
    → price_of d.divisor line.net_line_total (any is_non_nok (known_reasons line d)) d.price_basis
      ≡ computed price
    → all_met
        (is_product line.line_type)
        (is_nok line.currency)
        (is_rankable_identity line.user_product_id line.identity_status)
        line.condition
        b
        line.net_line_total
      ≡ true
    → is_some price ≡ true
priced-is_some line d b h e t =
    price_of-is_some d.divisor line.net_line_total _ d.price_basis known e
  where
    nok : any is_non_nok (known_reasons line d) ≡ not (is_nok line.currency)
    nok =
        any-reasons_of (is_product line.line_type) (is_nok line.currency)
          (is_rankable_identity line.user_product_id line.identity_status) line.condition
          line.net_line_total b d h

    known :
        (is_some d.divisor
          && (is_some line.net_line_total && not (any is_non_nok (known_reasons line d))))
        ≡ true
    known =
        ap (λ (s : Bool). is_some d.divisor && (is_some line.net_line_total && s))
          (ap not nok ∙ sym (double_negation (is_nok line.currency)))
        ∙ needs_met (is_product line.line_type) (is_nok line.currency)
            (is_rankable_identity line.user_product_id line.identity_status) line.condition b d
            line.net_line_total h t

evaluated-Decided :
    (line : PricingLine) (d : Divisor) {r : PricingResult}
    → IsDivisor (has_amount line line.quantity_unit) d
    → evaluated line d ≡ computed r
    → Decided line (qualifies line) r
evaluated-Decided line d h e =
    concluded-Decided line d (known_reasons line d) _ (qualifies line) e
      (no_reasons-reasons_of (is_product line.line_type) (is_nok line.currency)
        (is_rankable_identity line.user_product_id line.identity_status) line.condition
        line.net_line_total (has_amount line line.quantity_unit) d h)
      (λ price. λ k. λ t. priced-is_some line d (has_amount line line.quantity_unit) h k t)

-- A line that is evaluated is eligible exactly if it is a product in NOK of a confirmed identity,
-- sold without a condition, with a known net total and a known positive amount. It counts in the
-- dated ranking exactly if it is eligible and dated, which is when no reason is left. An eligible
-- line has a comparison price.
pub evaluate_line-Decided :
    (line : PricingLine) {r : PricingResult}
    → evaluate_line line ≡ computed r
    → Decided line (qualifies line) r
unfolding evaluate_line
evaluate_line-Decided line {r} e = go (basis_and_divisor line line.quantity_unit) refl e
  where
    go :
        (c : Computed Divisor)
        → basis_and_divisor line line.quantity_unit ≡ c
        → evaluated_if line c ≡ computed r
        → Decided line (qualifies line) r
    go (computed d) k f =
        evaluated-Decided line d (basis_and_divisor-IsDivisor line line.quantity_unit k) f
    go value_error k f = cc f
    go invalid_operation k f = cc f
