-- ===== src/Auth/Resetting.antt =====
-- backend/app/services/auth_service.py: the token of a password reset counts once.
use prislapp.Prelude.{Option, ap, find?, find?-holds, if-both, none, refl, some, ℕ, ◌==◌, ◌≡◌}
use prislapp.Auth.Accounts.{
  complete_password_reset, is_reset_of, is_valid_reset, reset_account, reset_with,
}
use prislapp.Auth.Model.{
  Account, AuthDb, AuthSettings, Crypto, Drawn, PasswordResetToken, Reply, denied, granted,
  invalid_reset,
}
use prislapp.Prelude.Table.{find?-replace}
use prislapp.Prelude.Text.{Text}

module _ (crypto : Crypto) (settings : AuthSettings) (drawn later : Drawn) (token : ℕ)
    (password second : Text) where
  unfoldable UsedUp : Reply (Unit {0}) × AuthDb → Type 0
  UsedUp r =
      r.0 ≡ granted tt
      → complete_password_reset crypto settings later token second r.1 ≡ (denied invalid_reset, r.1)

  account-UsedUp :
      (row : PasswordResetToken) (o : Option Account) (db : AuthDb)
      → find? (is_reset_of crypto settings drawn token) db.resets ≡ some row
      → UsedUp (reset_account crypto settings drawn password row o db)
  unfolding complete_password_reset UsedUp
  account-UsedUp row none db e g = cc g
  account-UsedUp row (some account) db e g =
      ap
        (λ (o : Option PasswordResetToken).
          reset_with crypto settings later second o
            (reset_account crypto settings drawn password row (some account) db).1)
        (find?-replace (λ (r : PasswordResetToken). r.id) (is_reset_of crypto settings drawn token)
          row (record row { used_at = some drawn.instant }) db.resets e refl
          (find?-holds (is_reset_of crypto settings drawn token) db.resets e))

  row-UsedUp :
      (o : Option PasswordResetToken) (db : AuthDb)
      → find? (is_reset_of crypto settings drawn token) db.resets ≡ o
      → UsedUp (reset_with crypto settings drawn password o db)
  unfolding UsedUp
  row-UsedUp none db e = λ g. cc g
  row-UsedUp (some row) db e =
      if-both UsedUp (is_valid_reset crypto settings drawn row)
        (λ _. account-UsedUp row (find? (λ (a : Account). a.id == row.user_id) db.accounts) db e)
        (λ _. λ g. cc g)

-- A reset that is granted uses its token up: the next call with the token is refused and changes nothing.
pub reset-once :
    (crypto : Crypto) (settings : AuthSettings) (drawn later : Drawn) (token : ℕ)
    (password second : Text) (db : AuthDb)
    → (complete_password_reset crypto settings drawn token password db).0 ≡ granted tt
    → complete_password_reset crypto settings later token second
        (complete_password_reset crypto settings drawn token password db).1
      ≡ (denied invalid_reset, (complete_password_reset crypto settings drawn token password db).1)
unfolding complete_password_reset UsedUp
reset-once crypto settings drawn later token password second db =
    row-UsedUp crypto settings drawn later token password second
      (find? (is_reset_of crypto settings drawn token) db.resets) db refl
