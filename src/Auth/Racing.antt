-- ===== src/Auth/Racing.antt =====
-- backend/app/services/auth_service.py: a refresh that waits while the user logs out everywhere.
use mathlib.Core.Path.{subst}
use prislapp.Prelude.{
  ==→eq, Bool, Bool-cases, In, In-append_last, List, [], ap, arith, find?, find?-holds, if-both,
  inl, inr, is_some, map, none, not, refl, some, sym, true, ℕ, ◌&&◌, ◌==◌, ◌∙◌, ◌∷◌, ◌≡◌,
}
use prislapp.Auth.Model.{
  AuthDb, AuthSettings, Claims, Crypto, Drawn, RefreshSession, Reply, TokenResponse, granted,
}
use prislapp.Auth.Sessions.{
  is_accepted, logout_all, new_session, of_user, refresh, revoke_if, rotate, rotated, session_by_id,
  tokens_of,
}
use prislapp.Prelude.Table.{replace}

revoked_id :
    (p : RefreshSession → Bool) (instant : ℕ) (x : RefreshSession)
    → (revoke_if p instant x).id ≡ x.id
revoked_id p instant x =
    if-both (λ (s : RefreshSession). s.id ≡ x.id) (p x && not (is_some x.revoked_at)) (λ _. refl)
      (λ _. refl)

find-revoked :
    (p : RefreshSession → Bool) (instant id : ℕ) (xs : List RefreshSession)
    {session : RefreshSession}
    → find? (λ (s : RefreshSession). s.id == id) xs ≡ some session
    → find? (λ (s : RefreshSession). s.id == id) (map (revoke_if p instant) xs)
      ≡ some (revoke_if p instant session)
find-revoked p instant id [] e = cc e
find-revoked p instant id (x ∷ xs) {session} e = elim (Bool-cases (x.id == id)) [
  | inl t ↦
      let same : some x ≡ some session = rw t at e in
      let head : x ≡ session = cc same in
      rw (revoked_id p instant x, t)
        (ap (λ (s : RefreshSession). some (revoke_if p instant s)) head)
  | inr f ↦ rw (revoked_id p instant x, f) (find-revoked p instant id xs (rw f at e))
]

-- If the user logs out everywhere after a call of `refresh` has accepted a session that was not
-- exchanged and before it holds the lock, the call still grants tokens, and the session behind them,
-- which is added, is not revoked.
pub refresh-race :
    (crypto : Crypto) (settings : AuthSettings) (drawn : Drawn) (instant raw_token : ℕ)
    (db : AuthDb) {payload : Claims} {session : RefreshSession}
    → crypto.decode raw_token ≡ some payload
    → payload.is_refresh ≡ true
    → session_by_id payload.session_id db ≡ some session
    → is_accepted crypto raw_token drawn.instant session ≡ true
    → session.replaced_by ≡ none
    → ((refresh crypto settings drawn (logout_all instant session.user_id) raw_token db).0
        ≡ granted (
            tokens_of crypto (new_session crypto settings drawn session.user_id session.family_id)))
      × In
          (new_session crypto settings drawn session.user_id session.family_id)
          (refresh crypto settings drawn
            (logout_all instant session.user_id)
            raw_token
            db).1.sessions
unfolding refresh logout_all
refresh-race crypto settings drawn instant raw_token db {payload} {session} d r e accepted
      unreplaced =
    (
      ap (λ (r : Reply TokenResponse × AuthDb). r.0) whole,
      subst (λ (r : Reply TokenResponse × AuthDb). In replacement r.1.sessions) (sym whole)
          (In-append_last replacement (
            replace (λ (s : RefreshSession). s.id) (rotated drawn.session_id revoked)
              rest.sessions)),
    )
  where
    replacement : RefreshSession
    replacement = new_session crypto settings drawn session.user_id session.family_id

    revoked : RefreshSession
    revoked = record session { revoked_at = some instant }

    rest : AuthDb
    rest = logout_all instant session.user_id db

    still_open : (of_user session.user_id session && not (is_some session.revoked_at)) ≡ true
    still_open = ground (arith, accepted)

    same_id : (session.id == payload.session_id) ≡ true
    same_id = find?-holds (λ (s : RefreshSession). s.id == payload.session_id) db.sessions e

    again : session_by_id session.id rest ≡ some revoked
    again =
        find-revoked (of_user session.user_id) instant session.id db.sessions
          (ap (λ (n : ℕ). session_by_id n db) (==→eq session.id payload.session_id same_id) ∙ e)
        ∙ rw still_open refl

    whole :
        refresh crypto settings drawn (logout_all instant session.user_id) raw_token db
        ≡ rotate crypto settings drawn revoked rest
    whole = rw (d, r, e, accepted, again, unreplaced) refl
