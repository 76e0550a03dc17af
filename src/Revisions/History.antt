-- ===== src/Revisions/History.antt =====
-- backend/app/services/receipt_revision_service.py: confirmed revisions are not written again.
use mathlib.Core.Path.{subst}
use prislapp.Prelude.{
  ==→eq, Bool, Bool-cases, In, In-append, In-filter, Option, [], any, ap, arith, false, filter,
  find?-In, find?-holds, if-both, if◌then◌else◌, inl, inr, none, not, refl, some, sym, true, ℕ,
  ◌++◌, ◌==◌, ◌∙◌, ◌∷◌, ◌≡◌, ◌≢◌,
}
use prislapp.Prelude.Table.{Distinct, Distinct-In, In-replace_other, replace}
use prislapp.Revisions.Applying.{ApplyCall, alone, apply, draft_in, next_number, written}
use prislapp.Revisions.Cases.{Result, apply_cases}
use prislapp.Revisions.Model.{
  Revision, RevisionDb, RevisionLine, confirmed_revision, integrity_error, ok,
}
use prislapp.Revisions.Publishing.{left_alone, ok_injective, revision_in}
use prislapp.Revisions.Writing.{
  Fresh, Prepared, has_number, is_draft, is_draft_of, upsert_revision, written_id,
}
use prislapp.ShoppingList.Queries.{found}

-- A revision and its lines are in the tables.
abbrev pub IsKept : RevisionDb → Revision → RevisionDb → Type 0
IsKept db revision after =
    In revision after.revisions
    × ((line : RevisionLine)
        → In line db.lines
        → line.revision_id ≡ revision.id
        → In line after.lines)

other_id : (m n : ℕ) → m ≢ n → not (m == n) ≡ true
other_id m n h = elim (Bool-cases (m == n)) [ inl t ↦ absurd (h (==→eq m n t)) | inr f ↦ rw f refl ]

replaced-IsKept :
    (db : RevisionDb) (found row revision : Revision)
    → Distinct (λ (r : Revision). r.id) db.revisions
    → In found db.revisions
    → is_draft found.status ≡ true
    → row.id ≡ found.id
    → In revision db.revisions
    → revision.status ≡ confirmed_revision
    → IsKept db revision (record db {
      revisions = replace (λ (r : Revision). r.id) row db.revisions;
      lines = filter (λ line. not (line.revision_id == row.id)) db.lines;
    })
replaced-IsKept db found row revision d i is_open same j closed = (
  In-replace_other (λ (r : Revision). r.id) revision row db.revisions j apart,
  λ line. λ k. λ e.
      In-filter (λ (l : RevisionLine). not (l.revision_id == row.id)) line db.lines k
        (other_id line.revision_id row.id (λ f. apart (sym e ∙ f))),
)
  where
    apart : revision.id ≢ row.id
    apart e =
        let alike : revision ≡ found =
          Distinct-In (λ (r : Revision). r.id) revision found db.revisions d j i (e ∙ same) in
        let draft_too : is_draft revision.status ≡ true =
          subst (λ (r : Revision). is_draft r.status ≡ true) (sym alike) is_open in
        let not_draft : is_draft revision.status ≡ false = ap is_draft closed in
        cc (draft_too, not_draft)

upserted-IsKept :
    (o : Option Revision) (receipt_id number : ℕ) (row revision : Revision) (db : RevisionDb)
    {after : RevisionDb}
    → Distinct (λ (r : Revision). r.id) db.revisions
    → ((found : Revision)
        → o ≡ some found
        → In found db.revisions × (is_draft found.status ≡ true) × (row.id ≡ found.id))
    → In revision db.revisions
    → revision.status ≡ confirmed_revision
    → upsert_revision o receipt_id number row db ≡ ok after
    → IsKept db revision after
upserted-IsKept (some found) receipt_id number row revision db d is_open j closed e =
    let (i, draft_status, same) = is_open found refl in
    subst (IsKept db revision) (ok_injective e)
      (replaced-IsKept db found row revision d i draft_status same j closed)
upserted-IsKept none receipt_id number row revision db {after} d is_open j closed e =
    go (any (has_number receipt_id number) db.revisions) e
  where
    go :
        (b : Bool)
        → (if b then integrity_error else ok (record db { revisions = db.revisions ++ row ∷ [] }))
          ≡ ok after
        → IsKept db revision after
    go true k = cc k
    go false k =
        subst (IsKept db revision) (ok_injective k)
          (In-append revision db.revisions (row ∷ []) j, λ line. λ i. λ _. i)

written-IsKept :
    (call : ApplyCall) (fresh : Fresh) (prepared : Prepared) (row revision : Revision)
    (db up : RevisionDb)
    → IsKept db revision up
    → IsKept db revision (written call fresh prepared row up)
written-IsKept call fresh prepared row revision db up (i, lines) =
    if-both (IsKept db revision) call.confirming
      (λ t. (i, λ line. λ j. λ e. In-append line up.lines _ (lines line j e)))
      (λ f. (i, λ line. λ j. λ e. In-append line up.lines _ (lines line j e)))

-- Without other sessions in between, a call leaves every confirmed revision and its lines as they
-- are.
pub apply-IsKept :
    (call : ApplyCall) (fresh : Fresh) (db : RevisionDb) (revision : Revision)
    → Distinct (λ (r : Revision). r.id) db.revisions
    → In revision db.revisions
    → revision.status ≡ confirmed_revision
    → IsKept db revision (apply call fresh alone db).1
apply-IsKept call fresh db revision d i closed =
    apply_cases call fresh alone db (λ (result : Result). IsKept db revision result.1)
      (λ answer. λ k. untouched)
      (λ answer.
        λ left. λ f. λ l. subst (IsKept db revision) (sym (left_alone db left l)) untouched)
      (λ is_race. λ left. λ l. subst (IsKept db revision) (sym (left_alone db left l)) untouched)
      (λ prepared. λ upserted. λ h. λ u. λ new.
        written-IsKept call fresh prepared (revision_in call fresh db prepared) revision db upserted
          (upserted-IsKept (draft_in db prepared) prepared.receipt.id (next_number prepared)
            (revision_in call fresh db prepared) revision db d
            (λ found. λ e. open_draft prepared found e) i closed u))
  where
    untouched : IsKept db revision db
    untouched = (i, λ line. λ j. λ e. j)

    open_draft :
        (prepared : Prepared) (found : Revision)
        → draft_in db prepared ≡ some found
        → In found db.revisions
          × (is_draft found.status ≡ true)
          × ((revision_in call fresh db prepared).id ≡ found.id)
    open_draft prepared found e =
        let test =
          find?-holds (is_draft_of prepared.receipt.id (next_number prepared)) db.revisions e in
        (
          find?-In (is_draft_of prepared.receipt.id (next_number prepared)) db.revisions e,
          ground (arith, test),
          ap (λ (o : Option Revision). written_id o fresh.revision_id) e,
        )
