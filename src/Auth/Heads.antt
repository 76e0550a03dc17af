-- ===== src/Auth/Heads.antt =====
-- backend/app/services/auth_service.py: at most one session of a family was not exchanged.
use prislapp.Prelude.{
  Bool, Bool-cases, In, List, [], arith, count, count-append, false, if-both, inl, inr, is_some,
  not, refl, suc, true, ℕ, ◌&&◌, ◌++◌, ◌+◌, ◌==◌, ◌∷◌, ◌≡◌, ◌≤◌,
}
use prislapp.Auth.Counting.{count-last, count-map, count-replace, count-replace_drop}
use prislapp.Auth.Families.{IsUnspent, is_last}
use prislapp.Auth.Model.{AuthDb, AuthSettings, Crypto, Drawn, RefreshSession}
use prislapp.Auth.Sessions.{close_if, in_family, new_session, revoke_if, rotated}
use prislapp.Auth.Steps.{AuthReaches, reaches_keeps}
use prislapp.Prelude.Table.{replace}

abbrev pub IsSingle : ℕ → List RefreshSession → Type 0
IsSingle family_id sessions = count (is_last family_id) sessions ≤ 1

module _ (crypto : Crypto) (settings : AuthSettings) (overlapping : Bool) (family_id : ℕ) where
  -- The session that replaces another one, and the one that is replaced.
  abbrev next : Drawn → RefreshSession → RefreshSession
  next drawn session = new_session crypto settings drawn session.user_id session.family_id

  revoked_last :
      (p : RefreshSession → Bool) (instant : ℕ) (x : RefreshSession)
      → is_last family_id (revoke_if p instant x) ≡ true
      → is_last family_id x ≡ true
  revoked_last p instant x h = elim (Bool-cases (p x && not (is_some x.revoked_at))) [
    | inl t ↦ ground (arith, rw t at h)
    | inr f ↦ rw f at h
  ]

  added_last :
      (x : RefreshSession) (xs : List RefreshSession)
      → count (is_last family_id) (xs ++ x ∷ []) ≤ suc (count (is_last family_id) xs)
  added_last x xs = rw (count-append (is_last family_id) xs (x ∷ [])) (
      if-both (λ n. count (is_last family_id) xs + n ≤ suc (count (is_last family_id) xs))
        (is_last family_id x) (λ _. omega arith) (λ _. omega arith))

  closed_last :
      (id instant : ℕ) (x : RefreshSession)
      → is_last family_id (close_if id instant x) ≡ true
      → is_last family_id x ≡ true
  closed_last id instant x h = elim (Bool-cases (x.id == id)) [
    | inl t ↦ rw t at h
    | inr f ↦ rw f at h
  ]

  rotated_last : (id : ℕ) (x : RefreshSession) → is_last family_id (rotated id x) ≡ false
  rotated_last id x = ground arith

  exchanged-IsSingle :
      (drawn : Drawn) (session : RefreshSession) (xs : List RefreshSession)
      → In session xs
      → IsUnspent overlapping session
      → IsSingle family_id xs
      → IsSingle family_id (
          replace (λ (s : RefreshSession). s.id) (rotated drawn.session_id session) xs
          ++ new_session crypto settings drawn session.user_id session.family_id ∷ [])
  exchanged-IsSingle drawn session xs i (_, unreplaced) h =
      let before = replace (λ (s : RefreshSession). s.id) (rotated drawn.session_id session) xs in
      elim (Bool-cases (in_family family_id session)) [
        | inl t ↦
            let dropped =
              count-replace_drop (is_last family_id) session (rotated drawn.session_id session) xs
                (rotated_last drawn.session_id session) i refl (ground (arith, t, unreplaced)) in
            ground (arith, added_last (next drawn session) before, dropped)
        | inr f ↦
            rw (count-last (is_last family_id) before (next drawn session) (ground (arith, f))) (
              ground (
                arith,
                count-replace (is_last family_id) (rotated drawn.session_id session) xs
                    (rotated_last drawn.session_id session),
              ))
      ]

  -- At most one session of a family was not exchanged for another one. No sequence of calls of any of
  -- the operations ends that, also if calls overlap, so that a call of `refresh` gets its lock after
  -- others, if each family that `uuid4` draws is new.
  pub reaches-IsSingle :
      (db after : AuthDb)
      → AuthReaches crypto settings overlapping family_id db after
      → IsSingle family_id db.sessions
      → IsSingle family_id after.sessions
  reaches-IsSingle =
      reaches_keeps crypto settings overlapping family_id (IsSingle family_id)
        (λ p. λ instant. λ xs. λ h.
          ground (
            arith,
            count-map (is_last family_id) (revoke_if p instant) xs (revoked_last p instant),
          ))
        exchanged-IsSingle
        (λ id. λ instant. λ xs. λ h.
          ground (
            arith,
            count-map (is_last family_id) (close_if id instant) xs (closed_last id instant),
          ))
        (λ session. λ xs. λ other.
          λ fresh. λ h. rw (count-last (is_last family_id) xs session (ground (arith, other))) h)
