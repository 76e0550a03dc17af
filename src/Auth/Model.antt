-- ===== src/Auth/Model.antt =====
-- backend/app/models/auth_session.py and user.py: the rows. A UUID is a number, an instant a number of
-- seconds, and a token, a hash of one and a hash of a password are numbers.
use prislapp.Prelude.{Bool, List, Option, ℕ}
use prislapp.Prelude.Text.{Text}

pub record RefreshSession : Type 0 where
  pub id : ℕ
  pub user_id : ℕ
  pub token_hash : ℕ
  pub family_id : ℕ
  pub revoked_at : Option ℕ
  pub replaced_by : Option ℕ
  pub expires_at : ℕ

pub record PasswordResetToken : Type 0 where
  pub id : ℕ
  pub user_id : ℕ
  pub token_hash : ℕ
  pub expires_at : ℕ
  pub used_at : Option ℕ

pub record Account : Type 0 where
  pub id : ℕ
  pub email : Text
  pub password_hash : Option ℕ
  pub google_sub : Option ℕ

pub record AuthDb : Type 0 where
  pub sessions : List RefreshSession
  pub resets : List PasswordResetToken
  pub accounts : List Account

-- The payload of a token; `is_refresh` says that its type is "refresh" and its subject a string.
pub record Claims : Type 0 where
  pub user_id : ℕ
  pub is_refresh : Bool
  pub session_id : ℕ
  pub family_id : ℕ
  pub expires_at : ℕ

-- What the service calls: `jwt.encode` and `jwt.decode` with the key, HMAC of a token, the password
-- hash and its check, and `str.lower`. `decode` has no payload where `jwt.decode` raises or the
-- payload's `jti` is not a UUID, which every caller answers in the same way.
pub record Crypto : Type 0 where
  pub encode : Claims → ℕ
  pub decode : ℕ → Option Claims
  pub hash_secret : ℕ → ℕ
  pub hash_password : Text → ℕ
  pub verify_password : Text → ℕ → Bool
  pub lower : Text → Text

-- The settings of config.py that the service uses, in seconds.
pub record AuthSettings : Type 0 where
  pub refresh_token_expire : ℕ
  pub password_reset_expire : ℕ

-- What a call draws: the instant that it reads, ids, and the secret of a reset.
pub record Drawn : Type 0 where
  pub instant : ℕ
  pub session_id : ℕ
  pub family_id : ℕ
  pub row_id : ℕ
  pub secret : ℕ

pub data AuthError : Type 0 where
  invalid_refresh_token email_registered invalid_login account_link_required : AuthError
  email_not_verified rate_limited invalid_reset : AuthError

pub data Reply (A : Type 0) : Type 0 where
  granted : A → Reply A
  denied : AuthError → Reply A

-- The access token is of the user.
pub record TokenResponse : Type 0 where
  pub user_id : ℕ
  pub refresh_token : ℕ
