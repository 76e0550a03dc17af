-- ===== src/Auth/Ending.antt =====
-- backend/app/services/auth_service.py: a family that has ended, with every session of it revoked.
use mathlib.Core.Path.{subst}
use prislapp.Prelude.{
  ==→eq, Bool, Bool-cases, In, List, Option, [], ap, arith, count, false, find?-In, find?-holds,
  if-both, inl, inr, is_some, map, not, refl, some, sym, true, ℕ, ◌&&◌, ◌++◌, ◌==◌, ◌∙◌, ◌∷◌, ◌≡◌,
}
use prislapp.Auth.Counting.{count-In, count-last, count-map, count-replace}
use prislapp.Auth.Families.{IsUnspent}
use prislapp.Auth.Model.{
  AuthDb, AuthSettings, Claims, Crypto, Drawn, RefreshSession, Reply, TokenResponse, denied,
  invalid_refresh_token,
}
use prislapp.Auth.Sessions.{
  close_if, in_family, is_accepted, is_repeatable, new_session, refresh, refresh_claims,
  refresh_session, revoke_family, revoke_if, rotated, session_by_id,
}
use prislapp.Auth.Steps.{AuthReaches, reaches_keeps}
use prislapp.Prelude.Table.{replace}

abbrev pub is_alive : ℕ → RefreshSession → Bool
is_alive family_id session = in_family family_id session && not (is_some session.revoked_at)

abbrev pub IsEnded : ℕ → List RefreshSession → Type 0
IsEnded family_id sessions = count (is_alive family_id) sessions ≡ 0

revoked_alive :
    (family_id : ℕ) (p : RefreshSession → Bool) (instant : ℕ) (x : RefreshSession)
    → is_alive family_id (revoke_if p instant x) ≡ true
    → is_alive family_id x ≡ true
revoked_alive family_id p instant x h = elim (Bool-cases (p x && not (is_some x.revoked_at))) [
  | inl t ↦ ground (arith, rw t at h)
  | inr f ↦ rw f at h
]

closed_alive :
    (family_id id instant : ℕ) (x : RefreshSession)
    → is_alive family_id (close_if id instant x) ≡ true
    → is_alive family_id x ≡ true
closed_alive family_id id instant x h = elim (Bool-cases (x.id == id)) [
  | inl t ↦ ground (arith, rw t at h)
  | inr f ↦ rw f at h
]

revoked_dead :
    (family_id instant : ℕ) (x : RefreshSession)
    → is_alive family_id (revoke_if (in_family family_id) instant x) ≡ false
revoked_dead family_id instant x = elim (Bool-cases (is_alive family_id x)) [
  | inl t ↦ rw t (ground arith)
  | inr f ↦ rw f f
]

pub revoke_family-IsEnded :
    (family_id instant : ℕ) (xs : List RefreshSession)
    → IsEnded family_id (map (revoke_if (in_family family_id) instant) xs)
revoke_family-IsEnded family_id instant [] = refl
revoke_family-IsEnded family_id instant (x ∷ xs) =
    rw (revoked_dead family_id instant x) (revoke_family-IsEnded family_id instant xs)

module _ (crypto : Crypto) (settings : AuthSettings) where
  exchanged-IsEnded :
      (family_id : ℕ) (drawn : Drawn) (session : RefreshSession) (xs : List RefreshSession)
      → In session xs
      → IsUnspent false session
      → IsEnded family_id xs
      → IsEnded family_id (
          replace (λ (s : RefreshSession). s.id) (rotated drawn.session_id session) xs
          ++ new_session crypto settings drawn session.user_id session.family_id ∷ [])
  exchanged-IsEnded family_id drawn session xs i (open_still, _) h =
      elim (Bool-cases (in_family family_id session)) [
        | inl t ↦
            let some_left =
              count-In (is_alive family_id) session xs i (ground (arith, t, open_still refl)) in
            absurd (omega (arith, some_left, h))
        | inr f ↦
            rw
              (count-last (is_alive family_id)
                (replace (λ (s : RefreshSession). s.id) (rotated drawn.session_id session) xs)
                (new_session crypto settings drawn session.user_id session.family_id)
                (ground (arith, f)))
              (ground (
                arith,
                h,
                count-replace (is_alive family_id) (rotated drawn.session_id session) xs
                    (ground (arith, f)),
              ))
      ]

  -- A family whose sessions are all revoked stays so, whatever calls follow.
  pub reaches-IsEnded :
      (family_id : ℕ) (db after : AuthDb)
      → AuthReaches crypto settings false family_id db after
      → IsEnded family_id db.sessions
      → IsEnded family_id after.sessions
  reaches-IsEnded family_id =
      reaches_keeps crypto settings false family_id (IsEnded family_id)
        (λ p. λ instant. λ xs. λ h. ground (
          arith,
          h,
          count-map (is_alive family_id) (revoke_if p instant) xs
              (revoked_alive family_id p instant),
        ))
        (exchanged-IsEnded family_id)
        (λ id. λ instant. λ xs. λ h. ground (
          arith,
          h,
          count-map (is_alive family_id) (close_if id instant) xs
              (closed_alive family_id id instant),
        ))
        (λ session. λ xs. λ other.
          λ fresh. λ h. rw (count-last (is_alive family_id) xs session (ground (arith, other))) h)

  -- A refresh token whose session is of a family with every session revoked is refused, and nothing
  -- changes.
  pub refresh-IsEnded :
      (drawn : Drawn) (others : AuthDb → AuthDb) (raw_token : ℕ) (db : AuthDb) {payload : Claims}
      {session : RefreshSession}
      → crypto.decode raw_token ≡ some payload
      → session_by_id payload.session_id db ≡ some session
      → IsEnded session.family_id db.sessions
      → refresh crypto settings drawn others raw_token db ≡ (denied invalid_refresh_token, db)
  unfolding refresh
  refresh-IsEnded drawn others raw_token db {payload} {session} d e h =
      ap (λ (o : Option Claims). refresh_claims crypto settings drawn others raw_token o db) d
      ∙ if-both (λ (r : Reply TokenResponse × AuthDb). r ≡ (denied invalid_refresh_token, db))
          payload.is_refresh
          (λ _.
            ap
              (λ (o : Option RefreshSession).
                refresh_session crypto settings drawn others raw_token o db)
              e
            ∙ rw refused refl)
          (λ _. refl)
    where
      found : In session db.sessions
      found = find?-In (λ (s : RefreshSession). s.id == payload.session_id) db.sessions e

      refused : is_accepted crypto raw_token drawn.instant session ≡ false
      refused = elim (Bool-cases (is_alive session.family_id session)) [
        | inl t ↦
            let some_left = count-In (is_alive session.family_id) session db.sessions found t in
            absurd (omega (arith, some_left, h))
        | inr f ↦ ground (arith, f)
      ]

  reused :
      (drawn : Drawn) (raw_token id : ℕ) (db : AuthDb) {payload : Claims}
      {session replacement : RefreshSession}
      → crypto.decode raw_token ≡ some payload
      → payload.is_refresh ≡ true
      → session_by_id payload.session_id db ≡ some session
      → is_accepted crypto raw_token drawn.instant session ≡ true
      → session.replaced_by ≡ some id
      → session_by_id id db ≡ some replacement
      → is_repeatable drawn.instant replacement ≡ false
      → refresh crypto settings drawn (λ d. d) raw_token db
        ≡ (denied invalid_refresh_token, revoke_family session.family_id drawn.instant db)
  unfolding refresh
  reused drawn raw_token id db {payload} {session} {replacement} d r e accepted replaced er
        spent_too =
      let found_id : (session.id == payload.session_id) ≡ true =
        find?-holds (λ (s : RefreshSession). s.id == payload.session_id) db.sessions e in
      let again : session_by_id session.id db ≡ some session =
        ap (λ (n : ℕ). session_by_id n db) (==→eq session.id payload.session_id found_id) ∙ e in
      rw (d, r, e, accepted, again, replaced, er, spent_too) refl

  -- A refresh token whose session is neither revoked nor run out, but was exchanged before for one that
  -- was exchanged, revoked or has run out, is refused, and after any calls that follow every session
  -- of its family is revoked, if each family that `uuid4` draws is new and calls do not overlap.
  pub reuse-IsEnded :
      (drawn : Drawn) (raw_token id : ℕ) (db after : AuthDb) {payload : Claims}
      {session replacement : RefreshSession}
      → crypto.decode raw_token ≡ some payload
      → payload.is_refresh ≡ true
      → session_by_id payload.session_id db ≡ some session
      → is_accepted crypto raw_token drawn.instant session ≡ true
      → session.replaced_by ≡ some id
      → session_by_id id db ≡ some replacement
      → is_repeatable drawn.instant replacement ≡ false
      → AuthReaches crypto settings false session.family_id
          (refresh crypto settings drawn (λ d. d) raw_token db).1
          after
      → ((refresh crypto settings drawn (λ d. d) raw_token db).0 ≡ denied invalid_refresh_token)
        × IsEnded session.family_id after.sessions
  reuse-IsEnded drawn raw_token id db after {session} d r e accepted replaced er spent_too reached =
      let ends = reused drawn raw_token id db d r e accepted replaced er spent_too in
      (
        ap (λ (r : Reply TokenResponse × AuthDb). r.0) ends,
        reaches-IsEnded session.family_id _ after reached (
            subst (λ (r : Reply TokenResponse × AuthDb). IsEnded session.family_id r.1.sessions)
              (sym ends) (revoke_family-IsEnded session.family_id drawn.instant db.sessions)),
      )
