-- ===== src/Tests/Logins.antt =====
-- Sessions that are started, exchanged, reused and ended. A token is the id of its session.
use prislapp.Prelude.{In, Option, [], arith, map, none, refl, some, true, ℕ, ◌+◌, ◌==◌, ◌∷◌, ◌≡◌}
use prislapp.Auth.Accounts.{
  complete_password_reset, login, login_or_register_google, register, request_password_reset,
}
use prislapp.Auth.Ending.{IsEnded, refresh-IsEnded, reuse-IsEnded}
use prislapp.Auth.Heads.{IsSingle, reaches-IsSingle}
use prislapp.Auth.Model.{
  Account, AuthDb, AuthSettings, Claims, Crypto, Drawn, RefreshSession, account_link_required,
  denied, email_registered, granted, invalid_refresh_token, invalid_reset,
}
use prislapp.Auth.Racing.{refresh-race}
use prislapp.Auth.Resetting.{reset-once}
use prislapp.Auth.Sessions.{
  logout, logout_all, new_session, refresh, refresh_reread, session_by_id, tokens_of,
}
use prislapp.Auth.Steps.{gets_lock, goes, logs_out_all, stays}

abbrev crypto : Crypto
crypto = record {
  encode = λ (c : Claims). c.session_id;
  decode = λ n. some (record {
    user_id = 7;
    is_refresh = true;
    session_id = n;
    family_id = 40;
    expires_at = 5000;
  });
  hash_secret = λ n. n + 1000;
  hash_password = λ _. 9;
  verify_password = λ _. λ hash. hash == 9;
  lower = λ text. text;
}

abbrev settings : AuthSettings
settings = record { refresh_token_expire = 500; password_reset_expire = 60 }

abbrev draws : ℕ → ℕ → Drawn
draws instant id = record {
  instant = instant;
  session_id = id;
  family_id = 40;
  row_id = 80;
  secret = 70;
}

abbrev account : Account
account = record { id = 7; email = 97 ∷ []; password_hash = some 9; google_sub = none }

abbrev before_login : AuthDb
before_login = record { sessions = []; resets = []; accounts = account ∷ [] }

abbrev logged_in : AuthDb
logged_in = (login crypto settings (draws 100 1) (97 ∷ []) (98 ∷ []) before_login).1

abbrev once : AuthDb
once = (refresh crypto settings (draws 110 2) (λ d. d) 1 logged_in).1

abbrev twice : AuthDb
twice = (refresh crypto settings (draws 120 3) (λ d. d) 2 once).1

-- The first token again, before and after its replacement is exchanged.
repeated_once :
    (refresh crypto settings (draws 115 9) (λ d. d) 1 once).0
    ≡ granted (record { user_id = 7; refresh_token = 2 })
unfolding login refresh
repeated_once = refl

repeated_twice :
    (refresh crypto settings (draws 125 9) (λ d. d) 1 twice).0 ≡ denied invalid_refresh_token
unfolding login refresh
repeated_twice = refl

google_refused :
    (login_or_register_google crypto settings (draws 100 1) 33 (97 ∷ []) true before_login).0
    ≡ denied account_link_required
unfolding login_or_register_google
google_refused = refl

taken :
    (register crypto settings (draws 100 1) (97 ∷ []) (98 ∷ []) before_login).0
    ≡ denied email_registered
unfolding register
taken = refl

left : map (λ s. s.revoked_at) (logout crypto 130 7 1 logged_in).sessions ≡ some 130 ∷ []
unfolding login logout
left = refl

logged_in-IsSingle : IsSingle 40 logged_in.sessions
unfolding login
logged_in-IsSingle = omega arith

-- A call of `refresh` that gets its lock after the user has logged out everywhere.
abbrev out : AuthDb
out = logout_all 105 7 logged_in

abbrev late : AuthDb
late = (refresh_reread crypto settings (draws 110 2) (session_by_id 1 out) out).1

reaches-IsSingle_example : IsSingle 40 late.sessions
reaches-IsSingle_example =
    reaches-IsSingle crypto settings true 40 logged_in late
      (goes logged_in out late (logs_out_all 105 7)
        (goes out late late (gets_lock (draws 110 2) 1 refl) (stays late)))
      logged_in-IsSingle

-- The sessions after both exchanges.
abbrev row : ℕ → Option ℕ → ℕ → RefreshSession
row id replaced_by expires_at = record {
  id = id;
  user_id = 7;
  token_hash = id + 1000;
  family_id = 40;
  revoked_at = none;
  replaced_by = replaced_by;
  expires_at = expires_at;
}

twice_sessions : twice.sessions ≡ row 1 (some 2) 600 ∷ row 2 (some 3) 610 ∷ row 3 none 620 ∷ []
unfolding login refresh
twice_sessions = refl

abbrev exchanged : AuthDb
exchanged = record before_login {
  sessions = row 1 (some 2) 600 ∷ row 2 (some 3) 610 ∷ row 3 none 620 ∷ [];
}

abbrev reused : AuthDb
reused = (refresh crypto settings (draws 125 9) (λ d. d) 1 exchanged).1

reuse-IsEnded_example :
    ((refresh crypto settings (draws 125 9) (λ d. d) 1 exchanged).0 ≡ denied invalid_refresh_token)
    × IsEnded 40 (logout_all 140 7 reused).sessions
reuse-IsEnded_example =
    reuse-IsEnded crypto settings (draws 125 9) 1 2 exchanged (logout_all 140 7 reused) refl refl
      refl refl refl refl refl
      (goes reused (logout_all 140 7 reused) (logout_all 140 7 reused) (logs_out_all 140 7)
        (stays (logout_all 140 7 reused)))

abbrev ended : AuthDb
ended = record before_login { sessions = record (row 1 none 600) { revoked_at = some 130 } ∷ [] }

refresh-IsEnded_example :
    refresh crypto settings (draws 140 9) (λ d. d) 1 ended ≡ (denied invalid_refresh_token, ended)
refresh-IsEnded_example =
    refresh-IsEnded crypto settings (draws 140 9) (λ d. d) 1 ended refl refl refl

abbrev fresh : AuthDb
fresh = record before_login { sessions = row 1 none 600 ∷ [] }

refresh-race_example :
    ((refresh crypto settings (draws 110 2) (logout_all 111 7) 1 fresh).0
      ≡ granted (tokens_of crypto (new_session crypto settings (draws 110 2) 7 40)))
    × In
        (new_session crypto settings (draws 110 2) 7 40)
        (refresh crypto settings (draws 110 2) (logout_all 111 7) 1 fresh).1.sessions
refresh-race_example =
    refresh-race crypto settings (draws 110 2) 111 1 fresh refl refl refl refl refl

abbrev asked : AuthDb
asked = (request_password_reset crypto settings (draws 100 1) true (97 ∷ []) before_login).1

asked_once :
    (complete_password_reset crypto settings (draws 130 2) 70 (99 ∷ []) asked).0 ≡ granted tt
unfolding request_password_reset complete_password_reset
asked_once = refl

reset-once_example :
    complete_password_reset crypto settings
      (draws 140 3)
      70
      (100 ∷ [])
      (complete_password_reset crypto settings (draws 130 2) 70 (99 ∷ []) asked).1
    ≡ (
      denied invalid_reset,
      (complete_password_reset crypto settings (draws 130 2) 70 (99 ∷ []) asked).1,
    )
reset-once_example =
    reset-once crypto settings (draws 130 2) (draws 140 3) 70 (99 ∷ []) (100 ∷ []) asked asked_once
