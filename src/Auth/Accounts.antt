-- ===== src/Auth/Accounts.antt =====
-- backend/app/services/auth_service.py: accounts and password resets.
use prislapp.Prelude.{
  Bool, Option, [], false, find?, if◌then◌else◌, is_some, ltb, map, none, not, some, true, ℕ, ◌&&◌,
  ◌++◌, ◌+◌, ◌==◌, ◌∷◌,
}
use prislapp.Auth.Model.{
  Account, AuthDb, AuthSettings, Crypto, Drawn, PasswordResetToken, Reply, TokenResponse,
  account_link_required, denied, email_not_verified, email_registered, granted, invalid_login,
  invalid_reset, rate_limited,
}
use prislapp.Auth.Sessions.{issue_tokens, revoke_user_sessions}
use prislapp.Prelude.Table.{replace}
use prislapp.Prelude.Text.{Text, text_le}

abbrev pub same_text : Text → Text → Bool
same_text s t = text_le s t && text_le t s

-- `get_user_by_email`
abbrev pub account_of_email : Text → AuthDb → Option Account
account_of_email email db = find? (λ account. same_text account.email email) db.accounts

abbrev pub has_sub : ℕ → Account → Bool
has_sub google_sub account = elim account.google_sub [ none ↦ false | some sub ↦ sub == google_sub ]

abbrev pub add_account : Account → AuthDb → AuthDb
add_account account db = record db { accounts = db.accounts ++ account ∷ [] }

abbrev pub started :
    Crypto → AuthSettings → Drawn → Account → AuthDb → Reply (Account × TokenResponse) × AuthDb
started crypto settings drawn account db =
    let (tokens, after) = issue_tokens crypto settings drawn account.id db in
    (granted (account, tokens), after)

module _ (crypto : Crypto) (settings : AuthSettings) (drawn : Drawn) where
  abbrev pub password_account : Text → Text → Account
  password_account email password = record {
    id = drawn.row_id;
    email = crypto.lower email;
    password_hash = some (crypto.hash_password password);
    google_sub = none;
  }

  abbrev pub google_account : ℕ → Text → Account
  google_account google_sub email = record {
    id = drawn.row_id;
    email = crypto.lower email;
    password_hash = none;
    google_sub = some google_sub;
  }

  -- An address that is taken is the commit's `IntegrityError`.
  unfoldable pub register : Text → Text → AuthDb → Reply (Account × TokenResponse) × AuthDb
  register email password db =
      if is_some (account_of_email (crypto.lower email) db)
      then (denied email_registered, db)
      else (let account = password_account email password in
          started crypto settings drawn account (add_account account db))

  abbrev pub checked_login :
      Text → Account → Option ℕ → AuthDb → Reply (Account × TokenResponse) × AuthDb
  checked_login password account none db = (denied invalid_login, db)
  checked_login password account (some hash) db =
      if crypto.verify_password password hash
      then started crypto settings drawn account db
      else (denied invalid_login, db)

  unfoldable pub login : Text → Text → AuthDb → Reply (Account × TokenResponse) × AuthDb
  login email password db = elim (account_of_email (crypto.lower email) db) [
    | none ↦ (denied invalid_login, db)
    | some account ↦ checked_login password account account.password_hash db
  ]

  -- Neither the subject nor the address is taken at the last commit, so it does not fail.
  unfoldable pub login_or_register_google :
      ℕ → Text → Bool → AuthDb → Reply (Account × TokenResponse) × AuthDb
  login_or_register_google google_sub email email_verified db =
      elim (find? (has_sub google_sub) db.accounts) [
        | some account ↦ started crypto settings drawn account db
        | none ↦
            if is_some (account_of_email (crypto.lower email) db)
            then (denied account_link_required, db)
            else (if email_verified
                then (let account = google_account google_sub email in
                    started crypto settings drawn account (add_account account db))
                else (denied email_not_verified, db))
      ]

  abbrev pub spent : ℕ → PasswordResetToken → PasswordResetToken
  spent user_id row =
      if row.user_id == user_id && not (is_some row.used_at)
      then record row { used_at = some drawn.instant }
      else row

  abbrev pub new_reset : ℕ → PasswordResetToken
  new_reset user_id = record {
    id = drawn.row_id;
    user_id = user_id;
    token_hash = crypto.hash_secret drawn.secret;
    expires_at = drawn.instant + settings.password_reset_expire;
    used_at = none;
  }

  -- `allowed` is the answer of the rate limiter.
  unfoldable pub request_password_reset : Bool → Text → AuthDb → Reply (Unit {0}) × AuthDb
  request_password_reset false email db = (denied rate_limited, db)
  request_password_reset true email db = elim (account_of_email (crypto.lower email) db) [
    | none ↦ (granted tt, db)
    | some account ↦ (
      granted tt,
      record db { resets = map (spent account.id) db.resets ++ new_reset account.id ∷ [] },
    )
  ]

  abbrev pub is_reset_of : ℕ → PasswordResetToken → Bool
  is_reset_of token row = row.token_hash == crypto.hash_secret token

  abbrev pub is_valid_reset : PasswordResetToken → Bool
  is_valid_reset row = not (is_some row.used_at) && ltb drawn.instant row.expires_at

  abbrev pub use_reset : PasswordResetToken → AuthDb → AuthDb
  use_reset row db = record db {
    resets =
        replace (λ (r : PasswordResetToken). r.id) (record row { used_at = some drawn.instant })
          db.resets;
  }

  abbrev pub set_password : Text → Account → AuthDb → AuthDb
  set_password password account db = record db {
    accounts =
        replace (λ (a : Account). a.id)
          (record account { password_hash = some (crypto.hash_password password) }) db.accounts;
  }

  abbrev pub reset_account :
      Text → PasswordResetToken → Option Account → AuthDb → Reply (Unit {0}) × AuthDb
  reset_account password row none db = (denied invalid_reset, use_reset row db)
  reset_account password row (some account) db = (
    granted tt,
    revoke_user_sessions account.id drawn.instant
        (set_password password account (use_reset row db)),
  )

  abbrev pub reset_with : Text → Option PasswordResetToken → AuthDb → Reply (Unit {0}) × AuthDb
  reset_with password none db = (denied invalid_reset, db)
  reset_with password (some row) db =
      if is_valid_reset row
      then reset_account password row (find? (λ (a : Account). a.id == row.user_id) db.accounts) db
      else (denied invalid_reset, db)

  unfoldable pub complete_password_reset : ℕ → Text → AuthDb → Reply (Unit {0}) × AuthDb
  complete_password_reset token password db =
      reset_with password (find? (is_reset_of token) db.resets) db
