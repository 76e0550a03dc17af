-- ===== src/Auth/Counting.antt =====
-- How many rows of backend/app/models/auth_session.py meet a condition after an UPDATE.
use prislapp.Prelude.{
  Bool, Bool-cases, In, List, [], ap, arith, count, count-append, eq→==, false, inl, inr, map, suc,
  true, ◌++◌, ◌==◌, ◌∙◌, ◌∷◌, ◌≡◌, ◌≤◌,
}
use prislapp.Auth.Model.{RefreshSession}
use prislapp.Prelude.Table.{replace}

pub count-replace :
    (p : RefreshSession → Bool) (row : RefreshSession) (xs : List RefreshSession)
    → p row ≡ false
    → count p (replace (λ (s : RefreshSession). s.id) row xs) ≤ count p xs
count-replace p row [] h = omega arith
count-replace p row (x ∷ xs) h = elim (Bool-cases (x.id == row.id)) [
  | inl t ↦ rw (t, h) (ground (arith, count-replace p row xs h))
  | inr f ↦ rw f (ground (arith, count-replace p row xs h))
]

-- An UPDATE of a row that met the condition to one that does not.
pub count-replace_drop :
    (p : RefreshSession → Bool) (before row : RefreshSession) (xs : List RefreshSession)
    → p row ≡ false
    → In before xs
    → before.id ≡ row.id
    → p before ≡ true
    → suc (count p (replace (λ (s : RefreshSession). s.id) row xs)) ≤ count p xs
count-replace_drop p before row [] h i k t = absurd i
count-replace_drop p before row (x ∷ xs) h (inl e) k t =
    let here : (x.id == row.id) ≡ true = eq→== _ _ (ap (λ (s : RefreshSession). s.id) e ∙ k) in
    let was : p x ≡ true = ap p e ∙ t in
    rw (here, h, was) (ground (arith, count-replace p row xs h))
count-replace_drop p before row (x ∷ xs) h (inr i) k t = elim (Bool-cases (x.id == row.id)) [
  | inl q ↦ rw (q, h) (ground (arith, count-replace_drop p before row xs h i k t))
  | inr q ↦ rw q (ground (arith, count-replace_drop p before row xs h i k t))
]

pub count-map :
    (p : RefreshSession → Bool) (f : RefreshSession → RefreshSession) (xs : List RefreshSession)
    → ((x : RefreshSession) → p (f x) ≡ true → p x ≡ true)
    → count p (map f xs) ≤ count p xs
count-map p f [] h = omega arith
count-map p f (x ∷ xs) h = elim (Bool-cases (p (f x))) [
  | inl t ↦ rw (t, h x t) (ground (arith, count-map p f xs h))
  | inr q ↦ rw q (ground (arith, count-map p f xs h))
]

pub count-last :
    (p : RefreshSession → Bool) (xs : List RefreshSession) (x : RefreshSession)
    → p x ≡ false
    → count p (xs ++ x ∷ []) ≡ count p xs
count-last p xs x h = count-append p xs (x ∷ []) ∙ rw h (ground arith)

pub count-In :
    (p : RefreshSession → Bool) (x : RefreshSession) (xs : List RefreshSession)
    → In x xs
    → p x ≡ true
    → 1 ≤ count p xs
count-In p x [] i t = absurd i
count-In p x (y ∷ ys) (inl e) t = rw (ap p e ∙ t) (omega arith)
count-In p x (y ∷ ys) (inr i) t = ground (arith, count-In p x ys i t)
