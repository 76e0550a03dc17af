-- ===== src/Auth/Steps.antt =====
-- backend/app/services/auth_service.py: sequences of calls, and what they keep of the sessions.
use prislapp.Prelude.{
  All, Bool, In, List, Option, [], false, find?, find?-In, if-both, if◌then◌else◌, is_some, map,
  none, refl, some, true, ℕ, ◌++◌, ◌==◌, ◌∷◌, ◌≡◌, ◌≢◌,
}
use prislapp.Auth.Accounts.{
  account_of_email, add_account, checked_login, complete_password_reset, google_account, has_sub,
  is_reset_of, is_valid_reset, login, login_or_register_google, new_reset, password_account,
  register, request_password_reset, reset_account, reset_with, spent, started,
}
use prislapp.Auth.Families.{IsUnspent, refresh_cases, reread_cases}
use prislapp.Auth.Model.{
  Account, AuthDb, AuthSettings, Claims, Crypto, Drawn, PasswordResetToken, RefreshSession, Reply,
  TokenResponse, account_link_required, denied, email_not_verified, granted, invalid_login,
}
use prislapp.Auth.Sessions.{
  close_if, in_family, is_own_token, logged_out, logout, logout_all, new_session, of_user, refresh,
  refresh_reread, revoke_if, rotated, session_by_id,
}
use prislapp.Prelude.Table.{replace}
use prislapp.Prelude.Text.{Text}

-- No session has the family that a call draws, and it is not `family_id`.
abbrev pub IsNewFamily : ℕ → Drawn → AuthDb → Type 0
IsNewFamily family_id drawn db =
    (drawn.family_id ≢ family_id) × All (λ s. s.family_id ≢ drawn.family_id) db.sessions

-- One call, after which the tables are committed; no login draws `family_id`. If calls may overlap, a
-- call of `refresh` gets its lock after the calls before, whatever it checked earlier.
pub data AuthStep (crypto : Crypto) (settings : AuthSettings) (overlapping : Bool) (family_id : ℕ)
    (db : AuthDb) : AuthDb → Type 0 where
  refreshes :
      (drawn : Drawn) (raw_token : ℕ)
      → AuthStep crypto settings overlapping family_id db
          (refresh crypto settings drawn (λ d. d) raw_token db).1
  gets_lock :
      (drawn : Drawn) (id : ℕ)
      → overlapping ≡ true
      → AuthStep crypto settings overlapping family_id db
          (refresh_reread crypto settings drawn (session_by_id id db) db).1
  registers :
      (drawn : Drawn) (email password : Text)
      → IsNewFamily family_id drawn db
      → AuthStep crypto settings overlapping family_id db
          (register crypto settings drawn email password db).1
  logs_in :
      (drawn : Drawn) (email password : Text)
      → IsNewFamily family_id drawn db
      → AuthStep crypto settings overlapping family_id db
          (login crypto settings drawn email password db).1
  logs_in_google :
      (drawn : Drawn) (google_sub : ℕ) (email : Text) (verified : Bool)
      → IsNewFamily family_id drawn db
      → AuthStep crypto settings overlapping family_id db
          (login_or_register_google crypto settings drawn google_sub email verified db).1
  requests_reset :
      (drawn : Drawn) (allowed : Bool) (email : Text)
      → AuthStep crypto settings overlapping family_id db
          (request_password_reset crypto settings drawn allowed email db).1
  completes_reset :
      (drawn : Drawn) (token : ℕ) (password : Text)
      → AuthStep crypto settings overlapping family_id db
          (complete_password_reset crypto settings drawn token password db).1
  logs_out :
      (instant user_id raw_token : ℕ)
      → AuthStep crypto settings overlapping family_id db
          (logout crypto instant user_id raw_token db)
  logs_out_all :
      (instant user_id : ℕ)
      → AuthStep crypto settings overlapping family_id db (logout_all instant user_id db)

pub data AuthReaches (crypto : Crypto) (settings : AuthSettings) (overlapping : Bool)
    (family_id : ℕ) : AuthDb → AuthDb → Type 0 where
  stays : (db : AuthDb) → AuthReaches crypto settings overlapping family_id db db
  goes :
      (db next last : AuthDb)
      → AuthStep crypto settings overlapping family_id db next
      → AuthReaches crypto settings overlapping family_id next last
      → AuthReaches crypto settings overlapping family_id db last

-- How the sessions of a family may change in one call: they are marked as revoked, one that was not
-- is exchanged, or a session of another family is added.
module _ (crypto : Crypto) (settings : AuthSettings) (overlapping : Bool) (family_id : ℕ)
    (P : List RefreshSession → Type 0)
    (revoked : (p : RefreshSession → Bool) (instant : ℕ) (xs : List RefreshSession)
      → P xs
      → P (map (revoke_if p instant) xs))
    (exchanged : (drawn : Drawn) (session : RefreshSession) (xs : List RefreshSession)
      → In session xs
      → IsUnspent overlapping session
      → P xs
      → P (
          replace (λ (s : RefreshSession). s.id) (rotated drawn.session_id session) xs
          ++ new_session crypto settings drawn session.user_id session.family_id ∷ []))
    (closed : (id instant : ℕ) (xs : List RefreshSession) → P xs → P (map (close_if id instant) xs))
    (started_family : (session : RefreshSession) (xs : List RefreshSession)
      → session.family_id ≢ family_id
      → All (λ s. s.family_id ≢ session.family_id) xs
      → P xs
      → P (xs ++ session ∷ [])) where
  start_keeps :
      (drawn : Drawn) (account : Account) (db : AuthDb)
      → IsNewFamily family_id drawn db
      → P db.sessions
      → P (started crypto settings drawn account db).1.sessions
  start_keeps drawn account db (other, fresh) h =
      started_family (new_session crypto settings drawn account.id drawn.family_id) db.sessions
        other fresh h

  login_keeps :
      (drawn : Drawn) (password : Text) (account : Account) (o : Option ℕ) (db : AuthDb)
      → IsNewFamily family_id drawn db
      → P db.sessions
      → P (checked_login crypto settings drawn password account o db).1.sessions
  login_keeps drawn password account none db new h = h
  login_keeps drawn password account (some hash) db new h =
      if-both (λ (r : Reply (Account × TokenResponse) × AuthDb). P r.1.sessions)
        (crypto.verify_password password hash) (λ _. start_keeps drawn account db new h) (λ _. h)

  reset_keeps :
      (drawn : Drawn) (password : Text) (o : Option PasswordResetToken) (db : AuthDb)
      → P db.sessions
      → P (reset_with crypto settings drawn password o db).1.sessions
  reset_keeps drawn password none db h = h
  reset_keeps drawn password (some row) db h =
      if-both (λ (r : Reply (Unit {0}) × AuthDb). P r.1.sessions)
        (is_valid_reset crypto settings drawn row)
        (λ _. go (find? (λ (a : Account). a.id == row.user_id) db.accounts)) (λ _. h)
    where
      go :
          (o : Option Account)
          → P (reset_account crypto settings drawn password row o db).1.sessions
      go none = h
      go (some account) = revoked (of_user account.id) drawn.instant db.sessions h

  logout_keeps :
      (instant user_id raw_token : ℕ) (o : Option RefreshSession) (db : AuthDb)
      → P db.sessions
      → P (logged_out crypto instant user_id raw_token o db).sessions
  logout_keeps instant user_id raw_token none db h = h
  logout_keeps instant user_id raw_token (some session) db h =
      if-both (λ (r : AuthDb). P r.sessions) (is_own_token crypto user_id raw_token session)
        (λ _. closed session.id instant db.sessions h) (λ _. h)

  lock_keeps :
      (drawn : Drawn) (id : ℕ) (o : Option RefreshSession) (db : AuthDb)
      → session_by_id id db ≡ o
      → overlapping ≡ true
      → P db.sessions
      → P (refresh_reread crypto settings drawn o db).1.sessions
  lock_keeps drawn id none db e o h = h
  lock_keeps drawn id (some session) db e t h =
      reread_cases crypto settings drawn overlapping db (λ after. P after.sessions) h
        (λ family. revoked (in_family family) drawn.instant db.sessions h)
        (λ session. λ i. λ u. exchanged drawn session db.sessions i u h) session
        (find?-In (λ (s : RefreshSession). s.id == id) db.sessions e) (λ f. cc (t, f))

  step_keeps :
      (db after : AuthDb)
      → AuthStep crypto settings overlapping family_id db after
      → P db.sessions
      → P after.sessions
  unfolding register login login_or_register_google request_password_reset complete_password_reset
      logout logout_all
  step_keeps db _ (refreshes drawn raw_token) h =
      refresh_cases crypto settings drawn overlapping db (λ after. P after.sessions) h
        (λ family. revoked (in_family family) drawn.instant db.sessions h)
        (λ session. λ i. λ o. exchanged drawn session db.sessions i o h) raw_token
  step_keeps db _ (gets_lock drawn id t) h = lock_keeps drawn id (session_by_id id db) db refl t h
  step_keeps db _ (registers drawn email password new) h =
      if-both (λ (r : Reply (Account × TokenResponse) × AuthDb). P r.1.sessions)
        (is_some (account_of_email (crypto.lower email) db)) (λ _. h)
        (λ _.
          let account = password_account crypto settings drawn email password in
          start_keeps drawn account (add_account account db) new h)
  step_keeps db _ (logs_in drawn email password new) h =
      go (account_of_email (crypto.lower email) db)
    where
      go :
          (o : Option Account)
          → P
              (elim o as (λ _. Reply (Account × TokenResponse) × AuthDb) [
                | none ↦ (denied invalid_login, db)
                | some account ↦
                    checked_login crypto settings drawn password account account.password_hash db
              ]).1.sessions
      go none = h
      go (some account) = login_keeps drawn password account account.password_hash db new h
  step_keeps db _ (logs_in_google drawn google_sub email verified new) h =
      go (find? (has_sub google_sub) db.accounts)
    where
      fresh_account : Account
      fresh_account = google_account crypto settings drawn google_sub email

      go :
          (o : Option Account)
          → P
              (elim o as (λ _. Reply (Account × TokenResponse) × AuthDb) [
                | some account ↦ started crypto settings drawn account db
                | none ↦
                    if is_some (account_of_email (crypto.lower email) db)
                    then (denied account_link_required, db)
                    else (if verified
                        then started crypto settings drawn fresh_account
                            (add_account fresh_account db)
                        else (denied email_not_verified, db))
              ]).1.sessions
      go (some account) = start_keeps drawn account db new h
      go none =
          if-both (λ (r : Reply (Account × TokenResponse) × AuthDb). P r.1.sessions)
            (is_some (account_of_email (crypto.lower email) db)) (λ _. h)
            (λ _.
              if-both (λ (r : Reply (Account × TokenResponse) × AuthDb). P r.1.sessions) verified
                (λ _. start_keeps drawn fresh_account (add_account fresh_account db) new h)
                (λ _. h))
  step_keeps db _ (requests_reset drawn false email) h = h
  step_keeps db _ (requests_reset drawn true email) h =
      go (account_of_email (crypto.lower email) db)
    where
      go :
          (o : Option Account)
          → P
              (elim o as (λ _. Reply (Unit {0}) × AuthDb) [
                | none ↦ (granted tt, db)
                | some account ↦ (
                  granted tt,
                  record db {
                    resets =
                        map (spent crypto settings drawn account.id) db.resets
                        ++ new_reset crypto settings drawn account.id ∷ [];
                  },
                )
              ]).1.sessions
      go none = h
      go (some account) = h
  step_keeps db _ (completes_reset drawn token password) h =
      reset_keeps drawn password (find? (is_reset_of crypto settings drawn token) db.resets) db h
  step_keeps db _ (logs_out instant user_id raw_token) h = go (crypto.decode raw_token)
    where
      go :
          (o : Option Claims)
          → P
              (elim o as (λ _. AuthDb) [
                | none ↦ db
                | some payload ↦
                    logged_out crypto instant user_id raw_token
                      (session_by_id payload.session_id db)
                      db
              ]).sessions
      go none = h
      go (some payload) =
          logout_keeps instant user_id raw_token (session_by_id payload.session_id db) db h
  step_keeps db _ (logs_out_all instant user_id) h = revoked (of_user user_id) instant db.sessions h

  pub reaches_keeps :
      (db after : AuthDb)
      → AuthReaches crypto settings overlapping family_id db after
      → P db.sessions
      → P after.sessions
  reaches_keeps db _ (stays _) h = h
  reaches_keeps db last (goes _ next _ t reached) h =
      reaches_keeps next last reached (step_keeps db next t h)
