-- ===== src/Auth/Families.antt =====
-- backend/app/services/auth_service.py: how calls change the sessions.
use mathlib.Core.Path.{subst}
use prislapp.Prelude.{
  ==→eq, Bool, In, Option, ap, arith, false, find?-In, find?-holds, if-both, is_some, none, not,
  refl, some, sym, true, ℕ, ◌&&◌, ◌==◌, ◌∙◌, ◌≡◌,
}
use prislapp.Auth.Model.{
  AuthDb, AuthSettings, Claims, Crypto, Drawn, RefreshSession, Reply, TokenResponse,
}
use prislapp.Auth.Sessions.{
  in_family, is_accepted, is_repeatable, refresh, refresh_claims, refresh_reread, refresh_session,
  refresh_token_of, repeat_or_revoke, revoke_family, rotate, session_by_id,
}

-- A session of the family that was not exchanged for another one.
abbrev pub is_last : ℕ → RefreshSession → Bool
is_last family_id session = in_family family_id session && not (is_some session.replaced_by)

-- A session that a call of `refresh` exchanges: if no other call overlaps with it, one that is not
-- revoked.
abbrev pub IsUnspent : Bool → RefreshSession → Type 0
IsUnspent overlapping session =
    (overlapping ≡ false → is_some session.revoked_at ≡ false)
    × (is_some session.replaced_by ≡ false)

-- A call of `refresh` without other sessions leaves the tables, ends a family, or exchanges a session.
module _ (crypto : Crypto) (settings : AuthSettings) (drawn : Drawn) (overlapping : Bool)
    (db : AuthDb) (P : AuthDb → Type 0) (same : P db)
    (revoked : (family_id : ℕ) → P (revoke_family family_id drawn.instant db))
    (exchanged : (session : RefreshSession)
      → In session db.sessions
      → IsUnspent overlapping session
      → P (rotate crypto settings drawn session db).1) where
  repeat_cases :
      (family_id : ℕ) (o : Option RefreshSession)
      → P (repeat_or_revoke crypto drawn.instant family_id o db).1
  repeat_cases family_id none = revoked family_id
  repeat_cases family_id (some replacement) =
      if-both (λ (r : Reply TokenResponse × AuthDb). P r.1)
        (is_repeatable drawn.instant replacement)
        (λ _.
          if-both (λ (r : Reply TokenResponse × AuthDb). P r.1)
            (crypto.hash_secret (refresh_token_of crypto replacement) == replacement.token_hash)
            (λ _. same) (λ _. same))
        (λ _. revoked family_id)

  pub reread_cases :
      (session : RefreshSession)
      → In session db.sessions
      → (overlapping ≡ false → is_some session.revoked_at ≡ false)
      → P (refresh_reread crypto settings drawn (some session) db).1
  reread_cases session i open_still = go session.replaced_by refl
    where
      go :
          (o : Option ℕ)
          → session.replaced_by ≡ o
          → P
              (elim o as (λ _. Reply TokenResponse × AuthDb) [
                | none ↦ rotate crypto settings drawn session db
                | some id ↦
                    repeat_or_revoke crypto drawn.instant session.family_id (session_by_id id db) db
              ]).1
      go none e = exchanged session i (open_still, ap (λ (r : Option ℕ). is_some r) e)
      go (some id) e = repeat_cases session.family_id (session_by_id id db)

  session_cases :
      (raw_token id : ℕ) (o : Option RefreshSession)
      → session_by_id id db ≡ o
      → P (refresh_session crypto settings drawn (λ d. d) raw_token o db).1
  session_cases raw_token id none e = same
  session_cases raw_token id (some session) e =
      if-both (λ (r : Reply TokenResponse × AuthDb). P r.1)
        (is_accepted crypto raw_token drawn.instant session)
        (λ t.
          let found_id : (session.id == id) ≡ true =
            find?-holds (λ (s : RefreshSession). s.id == id) db.sessions e in
          let again : session_by_id session.id db ≡ some session =
            ap (λ (n : ℕ). session_by_id n db) (==→eq session.id id found_id) ∙ e in
          subst (λ (o : Option RefreshSession). P (refresh_reread crypto settings drawn o db).1)
            (sym again)
            (reread_cases session (find?-In (λ (s : RefreshSession). s.id == id) db.sessions e)
              (λ _. ground (arith, t))))
        (λ f. same)

  claims_cases :
      (raw_token : ℕ) (o : Option Claims)
      → P (refresh_claims crypto settings drawn (λ d. d) raw_token o db).1
  claims_cases raw_token none = same
  claims_cases raw_token (some payload) =
      if-both (λ (r : Reply TokenResponse × AuthDb). P r.1) payload.is_refresh
        (λ _. session_cases raw_token payload.session_id (session_by_id payload.session_id db) refl)
        (λ _. same)

  pub refresh_cases : (raw_token : ℕ) → P (refresh crypto settings drawn (λ d. d) raw_token db).1
  unfolding refresh
  refresh_cases raw_token = claims_cases raw_token (crypto.decode raw_token)
