-- ===== src/Revisions/Cases.antt =====
-- backend/app/services/receipt_revision_service.py: the ways in which `_apply` ends.
use mathlib.Core.Path.{subst}
use prislapp.Prelude.{
  Bool, Option, [], any, ap, false, filter, if-both, if◌then◌else◌, inl, inr, none, not, refl, some,
  sym, true, ℕ, ◌++◌, ◌==◌, ◌∷◌, ◌≡◌, ◌⊎◌,
}
use prislapp.Prelude.Table.{replace}
use prislapp.Revisions.Applying.{
  ApplyCall, Commit, Others, apply, apply_unless_replayed, committed, draft_in, failed_commit,
  finished, integrity_failure, is_mutation_of, new_revision, prepare, recorded, replay, response_of,
  upserted_in, write_all, write_if_prepared, written,
}
use prislapp.Revisions.Model.{
  Answer, Revision, RevisionDb, RevisionResponse, arithmetic_error, integrity_error, ok, refused,
}
use prislapp.Revisions.Preparing.{IsPrepared, prepare-IsPrepared}
use prislapp.Revisions.Writing.{Fresh, Prepared, has_number, upsert_revision}

abbrev pub Result : Type 0
Result = Answer RevisionResponse × RevisionDb

abbrev pub is_ok : {A : Type 0} → Answer A → Bool
is_ok (ok _) = true
is_ok (refused _) = false
is_ok integrity_error = false
is_ok arithmetic_error = false

abbrev pub after_commit : Commit → RevisionDb → RevisionDb
after_commit committed before = before
after_commit (integrity_failure is_race others) before = others before

-- Tables that only the other sessions have written.
abbrev pub IsLeft : Others → RevisionDb → RevisionDb → Type 0
IsLeft others db left =
    (left ≡ db)
    ⊎ (left ≡ others.before_write db)
    ⊎ (left ≡ after_commit others.commit (others.before_write db))

-- The tables and the answer of a call that has written everything.
abbrev pub result_of : ApplyCall → Fresh → Prepared → Revision → RevisionDb → Result
result_of call fresh prepared revision upserted =
    let after = written call fresh prepared revision upserted in
    let response = response_of call prepared revision after in
    (ok response, recorded call prepared response after)

-- The four ends: a replay, an error, a lost commit, or everything is written.
module _ (call : ApplyCall) (fresh : Fresh) (others : Others) (db : RevisionDb) where
  abbrev pub Replays : (Result → Type 0) → Type 0
  Replays P = (answer : Answer RevisionResponse) → replay call db ≡ some answer → P (answer, db)

  abbrev pub Fails : (Result → Type 0) → Type 0
  Fails P =
      (answer : Answer RevisionResponse) (left : RevisionDb)
      → is_ok answer ≡ false
      → IsLeft others db left
      → P (answer, left)

  abbrev pub Loses : (Result → Type 0) → Type 0
  Loses P =
      (is_race : Bool) (left : RevisionDb)
      → IsLeft others db left
      → P (failed_commit call is_race left, left)

  abbrev pub Writes : (Result → Type 0) → Type 0
  Writes P =
      (prepared : Prepared) (upserted : RevisionDb)
      → IsPrepared call db prepared
      → upserted_in call fresh prepared (others.before_write db) ≡ ok upserted
      → any (is_mutation_of call) (others.before_write db).mutations ≡ false
      → P (
          result_of call fresh prepared
            (new_revision call fresh prepared (draft_in (others.before_write db) prepared))
            upserted)

  module _ (P : Result → Type 0) (replays : Replays P) (fails : Fails P) (loses : Loses P)
      (writes : Writes P) where
    finished_cases :
        (commit : Commit) (response : RevisionResponse) (after : RevisionDb)
        → others.commit ≡ commit
        → (any (is_mutation_of call) (others.before_write db).mutations ≡ false
            → P (ok response, after))
        → P (finished call commit response (others.before_write db) after)
    finished_cases committed response after c h =
        if-both P (any (is_mutation_of call) (others.before_write db).mutations)
          (λ t. loses false (others.before_write db) (inr (inl refl))) h
    finished_cases (integrity_failure is_race rival) response after c h =
        loses is_race (rival (others.before_write db)) (
          inr
            (inr (ap (λ (commit : Commit). after_commit commit (others.before_write db)) (sym c))))

    write_cases :
        (prepared : Prepared) (u : Answer RevisionDb)
        → IsPrepared call db prepared
        → upserted_in call fresh prepared (others.before_write db) ≡ u
        → P (
            write_all call fresh others.commit prepared
              (others.before_write db)
              (new_revision call fresh prepared (draft_in (others.before_write db) prepared))
              u)
    write_cases prepared (ok upserted) h e =
        finished_cases others.commit _ _ refl (writes prepared upserted h e)
    write_cases prepared (refused r) h e =
        fails (refused r) (others.before_write db) refl (inr (inl refl))
    write_cases prepared integrity_error h e =
        fails integrity_error (others.before_write db) refl (inr (inl refl))
    write_cases prepared arithmetic_error h e =
        fails arithmetic_error (others.before_write db) refl (inr (inl refl))

    prepare_cases :
        (p : Answer Prepared) → prepare call db ≡ p → P (write_if_prepared call fresh others db p)
    prepare_cases (ok prepared) e = write_cases prepared _ (prepare-IsPrepared call db e) refl
    prepare_cases (refused r) e = fails (refused r) db refl (inl refl)
    prepare_cases integrity_error e = fails integrity_error db refl (inl refl)
    prepare_cases arithmetic_error e = fails arithmetic_error db refl (inl refl)

    replay_cases :
        (o : Option (Answer RevisionResponse))
        → replay call db ≡ o
        → P (apply_unless_replayed call fresh others db o)
    replay_cases (some answer) e = replays answer e
    replay_cases none e = prepare_cases (prepare call db) refl

    pub apply_cases : P (apply call fresh others db)
    unfolding apply
    apply_cases = replay_cases (replay call db) refl

-- Writing the revision changes only the revisions and their lines.
pub upserted_only :
    (o : Option Revision) (receipt_id number : ℕ) (row : Revision) (db : RevisionDb)
    {after : RevisionDb}
    → upsert_revision o receipt_id number row db ≡ ok after
    → after ≡ record db { revisions = after.revisions; lines = after.lines }
upserted_only (some old_row) receipt_id number row db {after} e =
    let same : record db {
      revisions = replace (λ (r : Revision). r.id) row db.revisions;
      lines = filter (λ line. not (line.revision_id == row.id)) db.lines;
    }
        ≡ after =
      cc e in
    subst IsOnly same refl
  where
    IsOnly : RevisionDb → Type 0
    IsOnly up = up ≡ record db { revisions = up.revisions; lines = up.lines }
upserted_only none receipt_id number row db {after} e =
    go (any (has_number receipt_id number) db.revisions) e
  where
    go :
        (b : Bool)
        → (if b then integrity_error else ok (record db { revisions = db.revisions ++ row ∷ [] }))
          ≡ ok after
        → after ≡ record db { revisions = after.revisions; lines = after.lines }
    go true k = cc k
    go false k =
        let same : record db { revisions = db.revisions ++ row ∷ [] } ≡ after = cc k in
        subst (λ (up : RevisionDb). up ≡ record db { revisions = up.revisions; lines = up.lines })
          same refl
