-- ===== src/Prices/History/Orders.antt =====
-- backend/app/domain/price_history.py: the orders of the observations.
use prislapp.Prelude.{Option, arith, false, none, refl, some, true, ℕ, ◌≡◌}
use prislapp.Prelude.Decimal.{Decimal}
use prislapp.Prelude.DecimalOrder.{decimal_le_total, decimal_le_trans}
use prislapp.Prelude.Extremes.{IsOrder}
use prislapp.Prices.History.{
  Observation, amount_le, date_key_le, date_le, key_le, option_le, price_le, same_store, time_le,
}

key_le_total :
    (d : Option ℕ) (m : ℕ) (e : Option ℕ) (n : ℕ) → key_le d m e n ≡ false → key_le e n d m ≡ true
key_le_total none m none n h = ground (arith, h)
key_le_total none m (some e) n h = cc h
key_le_total (some d) m none n h = refl
key_le_total (some d) m (some e) n h = ground (arith, h)

key_le_trans :
    (d : Option ℕ) (m : ℕ) (e : Option ℕ) (n : ℕ) (f : Option ℕ) (k : ℕ)
    → key_le d m e n ≡ true
    → key_le e n f k ≡ true
    → key_le d m f k ≡ true
key_le_trans none m none n none k h i = ground (arith, h, i)
key_le_trans none m e n (some f) k h i = refl
key_le_trans none m (some e) n none k h i = cc i
key_le_trans (some d) m none n f k h i = cc h
key_le_trans (some d) m (some e) n none k h i = cc i
key_le_trans (some d) m (some e) n (some f) k h i = ground (arith, h, i)

pub date_key_le-IsOrder : IsOrder date_key_le
date_key_le-IsOrder = (
  (λ a. λ b. key_le_total a.purchase_date a.row_id b.purchase_date b.row_id),
  (λ a. λ b.
      λ c. key_le_trans a.purchase_date a.row_id b.purchase_date b.row_id c.purchase_date c.row_id),
)

amount_le_total : (a b : Option Decimal) → amount_le a b ≡ false → amount_le b a ≡ true
amount_le_total none b h = cc h
amount_le_total (some a) none h = refl
amount_le_total (some a) (some b) h = decimal_le_total a b h

amount_le_trans :
    (a b c : Option Decimal) → amount_le a b ≡ true → amount_le b c ≡ true → amount_le a c ≡ true
amount_le_trans none b c h k = refl
amount_le_trans (some a) none c h k = cc h
amount_le_trans (some a) (some b) none h k = cc k
amount_le_trans (some a) (some b) (some c) h k = decimal_le_trans a b c h k

pub price_le-IsOrder : IsOrder price_le
price_le-IsOrder = (
  (λ a. λ b. amount_le_total a.price b.price),
  (λ a. λ b. λ c. amount_le_trans a.price b.price c.price),
)

pub same_store_comm : (a b : Observation) → same_store a b ≡ same_store b a
same_store_comm a b = ground arith

pub same_store_refl : (row : Observation) → same_store row row ≡ true
same_store_refl row = ground arith

option_le_total : (d e : Option ℕ) → option_le d e ≡ false → option_le e d ≡ true
option_le_total none e h = cc h
option_le_total (some d) none h = refl
option_le_total (some d) (some e) h = ground (arith, h)

option_le_trans :
    (d e f : Option ℕ) → option_le d e ≡ true → option_le e f ≡ true → option_le d f ≡ true
option_le_trans none e f h k = refl
option_le_trans (some d) none f h k = cc h
option_le_trans (some d) (some e) none h k = cc k
option_le_trans (some d) (some e) (some f) h k = ground (arith, h, k)

pub date_le-IsOrder : IsOrder date_le
date_le-IsOrder = (
  (λ a. λ b. option_le_total a.purchase_date b.purchase_date),
  (λ a. λ b. λ c. option_le_trans a.purchase_date b.purchase_date c.purchase_date),
)

pub time_le-IsOrder : IsOrder time_le
time_le-IsOrder = (
  (λ a. λ b. option_le_total a.purchase_time b.purchase_time),
  (λ a. λ b. λ c. option_le_trans a.purchase_time b.purchase_time c.purchase_time),
)
