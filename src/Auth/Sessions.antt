-- ===== src/Auth/Sessions.antt =====
-- backend/app/services/auth_service.py: refresh tokens and their families.
use prislapp.Prelude.{
  Bool, Option, [], find?, if◌then◌else◌, is_some, ltb, map, none, not, some, true, ℕ, ◌&&◌, ◌++◌,
  ◌+◌, ◌==◌, ◌∷◌,
}
use prislapp.Auth.Model.{
  AuthDb, AuthSettings, Claims, Crypto, Drawn, RefreshSession, Reply, TokenResponse, denied,
  granted, invalid_refresh_token,
}
use prislapp.Prelude.Table.{replace}

module _ (crypto : Crypto) where
  -- `create_refresh_token`
  abbrev pub refresh_token_of : RefreshSession → ℕ
  refresh_token_of session = crypto.encode (record {
    user_id = session.user_id;
    is_refresh = true;
    session_id = session.id;
    family_id = session.family_id;
    expires_at = session.expires_at;
  })

  abbrev pub new_session : AuthSettings → Drawn → ℕ → ℕ → RefreshSession
  new_session settings drawn user_id family_id =
      let bare : RefreshSession = record {
        id = drawn.session_id;
        user_id = user_id;
        token_hash = 0;
        family_id = family_id;
        revoked_at = none;
        replaced_by = none;
        expires_at = drawn.instant + settings.refresh_token_expire;
      } in
      record bare { token_hash = crypto.hash_secret (refresh_token_of bare) }

  abbrev pub tokens_of : RefreshSession → TokenResponse
  tokens_of session = record { user_id = session.user_id; refresh_token = refresh_token_of session }

  abbrev pub add_session : RefreshSession → AuthDb → AuthDb
  add_session session db = record db { sessions = db.sessions ++ session ∷ [] }

  -- `_issue_tokens` without a family.
  abbrev pub issue_tokens : AuthSettings → Drawn → ℕ → AuthDb → TokenResponse × AuthDb
  issue_tokens settings drawn user_id db =
      let session = new_session settings drawn user_id drawn.family_id in
      (tokens_of session, add_session session db)

abbrev pub revoke_if : (RefreshSession → Bool) → ℕ → RefreshSession → RefreshSession
revoke_if p instant session =
    if p session && not (is_some session.revoked_at)
    then record session { revoked_at = some instant }
    else session

abbrev pub in_family : ℕ → RefreshSession → Bool
in_family family_id session = session.family_id == family_id

abbrev pub of_user : ℕ → RefreshSession → Bool
of_user user_id session = session.user_id == user_id

-- `_revoke_family`
abbrev pub revoke_family : ℕ → ℕ → AuthDb → AuthDb
revoke_family family_id instant db = record db {
  sessions = map (revoke_if (in_family family_id) instant) db.sessions;
}

-- `_revoke_user_sessions`
abbrev pub revoke_user_sessions : ℕ → ℕ → AuthDb → AuthDb
revoke_user_sessions user_id instant db = record db {
  sessions = map (revoke_if (of_user user_id) instant) db.sessions;
}

-- `_session_by_id`
abbrev pub session_by_id : ℕ → AuthDb → Option RefreshSession
session_by_id id db = find? (λ (session : RefreshSession). session.id == id) db.sessions

abbrev pub is_live : ℕ → RefreshSession → Bool
is_live instant session = not (is_some session.revoked_at) && ltb instant session.expires_at

-- The checks of `_refresh_locked` before the lock.
abbrev pub is_accepted : Crypto → ℕ → ℕ → RefreshSession → Bool
is_accepted crypto raw_token instant session =
    session.token_hash == crypto.hash_secret raw_token && is_live instant session

abbrev pub rotated : ℕ → RefreshSession → RefreshSession
rotated session_id session = record session { replaced_by = some session_id }

-- `_rotate`
abbrev pub rotate :
    Crypto → AuthSettings → Drawn → RefreshSession → AuthDb → Reply TokenResponse × AuthDb
rotate crypto settings drawn session db =
    let replacement = new_session crypto settings drawn session.user_id session.family_id in
    (
      granted (tokens_of crypto replacement),
      record db {
        sessions =
            replace (λ (s : RefreshSession). s.id) (rotated drawn.session_id session) db.sessions
            ++ replacement ∷ [];
      },
    )

abbrev pub is_repeatable : ℕ → RefreshSession → Bool
is_repeatable instant replacement =
    not (is_some replacement.replaced_by) && is_live instant replacement

-- A token that was already exchanged: its replacement again, or the end of the family.
abbrev pub repeat_or_revoke :
    Crypto → ℕ → ℕ → Option RefreshSession → AuthDb → Reply TokenResponse × AuthDb
repeat_or_revoke crypto instant family_id none db =
    (denied invalid_refresh_token, revoke_family family_id instant db)
repeat_or_revoke crypto instant family_id (some replacement) db =
    if is_repeatable instant replacement
    then (if crypto.hash_secret (refresh_token_of crypto replacement) == replacement.token_hash
        then (granted (tokens_of crypto replacement), db)
        else (denied invalid_refresh_token, db))
    else (denied invalid_refresh_token, revoke_family family_id instant db)

-- Behind the lock, with the row as it is read again.
abbrev pub refresh_reread :
    Crypto → AuthSettings → Drawn → Option RefreshSession → AuthDb → Reply TokenResponse × AuthDb
refresh_reread crypto settings drawn none db = (denied invalid_refresh_token, db)
refresh_reread crypto settings drawn (some session) db = elim session.replaced_by [
  | none ↦ rotate crypto settings drawn session db
  | some id ↦ repeat_or_revoke crypto drawn.instant session.family_id (session_by_id id db) db
]

-- `others` is what other sessions commit while this one waits for the lock.
abbrev pub refresh_session :
    Crypto
    → AuthSettings
    → Drawn
    → (AuthDb → AuthDb)
    → ℕ
    → Option RefreshSession
    → AuthDb
    → Reply TokenResponse × AuthDb
refresh_session crypto settings drawn others raw_token none db = (denied invalid_refresh_token, db)
refresh_session crypto settings drawn others raw_token (some session) db =
    if is_accepted crypto raw_token drawn.instant session
    then refresh_reread crypto settings drawn (session_by_id session.id (others db)) (others db)
    else (denied invalid_refresh_token, db)

abbrev pub refresh_claims :
    Crypto
    → AuthSettings
    → Drawn
    → (AuthDb → AuthDb)
    → ℕ
    → Option Claims
    → AuthDb
    → Reply TokenResponse × AuthDb
refresh_claims crypto settings drawn others raw_token none db = (denied invalid_refresh_token, db)
refresh_claims crypto settings drawn others raw_token (some payload) db =
    if payload.is_refresh
    then refresh_session crypto settings drawn others raw_token
        (session_by_id payload.session_id db) db
    else (denied invalid_refresh_token, db)

-- `_refresh_locked`, which `refresh` calls
unfoldable pub refresh :
    Crypto → AuthSettings → Drawn → (AuthDb → AuthDb) → ℕ → AuthDb → Reply TokenResponse × AuthDb
refresh crypto settings drawn others raw_token db =
    refresh_claims crypto settings drawn others raw_token (crypto.decode raw_token) db

abbrev pub is_own_token : Crypto → ℕ → ℕ → RefreshSession → Bool
is_own_token crypto user_id raw_token session =
    session.user_id == user_id && session.token_hash == crypto.hash_secret raw_token

-- The UPDATE of one column that the assignment to `revoked_at` sends.
abbrev pub close_if : ℕ → ℕ → RefreshSession → RefreshSession
close_if id instant session =
    if session.id == id then record session { revoked_at = some instant } else session

abbrev pub logged_out : Crypto → ℕ → ℕ → ℕ → Option RefreshSession → AuthDb → AuthDb
logged_out crypto instant user_id raw_token none db = db
logged_out crypto instant user_id raw_token (some session) db =
    if is_own_token crypto user_id raw_token session
    then record db { sessions = map (close_if session.id instant) db.sessions }
    else db

unfoldable pub logout : Crypto → ℕ → ℕ → ℕ → AuthDb → AuthDb
logout crypto instant user_id raw_token db = elim (crypto.decode raw_token) [
  | none ↦ db
  | some payload ↦
      logged_out crypto instant user_id raw_token (session_by_id payload.session_id db) db
]

unfoldable pub logout_all : ℕ → ℕ → AuthDb → AuthDb
logout_all instant user_id db = revoke_user_sessions user_id instant db
