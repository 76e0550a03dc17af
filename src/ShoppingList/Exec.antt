-- ===== src/ShoppingList/Exec.antt =====
-- The session of shopping_list_service.py: a computation reads and writes the tables, reads the
-- clock and draws ids, and returns, is rejected, or ends by another exception.
use prislapp.Prelude.{Bool, Option, false, none, some, true, ℕ, ◌+◌}
use prislapp.Prelude.Text.{Text}
use prislapp.ShoppingList.Model.{CursorPayload, Db, Rejection, Request, Response}

-- What the service takes from outside: the n-th instant that the clock shows, the n-th `uuid4`,
-- SHA-256 of the canonical JSON of a request's content and its scope, the base64 of a cursor's JSON,
-- and what base64, JSON and the conversions of the fields read from a text (`none` where they raise).
pub record Env : Type 0 where
  pub clock : ℕ → ℕ
  pub uuid4 : ℕ → ℕ
  pub payload_hash : Request → ℕ
  pub encode_payload : CursorPayload → Text
  pub decode_payload : Text → Option CursorPayload

pub record World : Type 0 where
  pub db : Db
  pub clock_reads : ℕ
  pub uuid_draws : ℕ

-- `integrity_error` is the database's `IntegrityError`, `invalid_operation` the decimal module's.
pub data Outcome {ℓ} (A : Type ℓ) : Type ℓ where
  ok : A → Outcome A
  rejected : Rejection → Outcome A
  integrity_error invalid_operation : Outcome A

abbrev pub Exec {ℓ} : Type ℓ → Type ℓ
Exec A = World → Outcome A × World

module _ {A : Type 0} where
  pub pure : A → Exec A
  pure a w = (ok a, w)

  -- A query: it reads the tables and may be rejected.
  pub query : (Db → Outcome A) → Exec A
  query f w = (f w.db, w)

pub modify : (Db → Db) → Exec (Unit {0})
modify f w = (ok tt, record w { db = f w.db })

-- `_now()`
pub now : Env → Exec ℕ
now env w = (ok (env.clock w.clock_reads), record w { clock_reads = w.clock_reads + 1 })

-- `uuid.uuid4()`
pub fresh_id : Env → Exec ℕ
fresh_id env w = (ok (env.uuid4 w.uuid_draws), record w { uuid_draws = w.uuid_draws + 1 })

module _ {A B : Type 0} where
  abbrev pub continue : Outcome A → (A → Exec B) → Exec B
  continue (ok a) f w = f a w
  continue (rejected r) f w = (rejected r, w)
  continue integrity_error f w = (integrity_error, w)
  continue invalid_operation f w = (invalid_operation, w)

  infixl 5 ◌>>=◌ ◌>>◌
  -- Opening this opens the steps above too.
  unfoldable pub ◌>>=◌ : Exec A → (A → Exec B) → Exec B
  unfolding pure query modify now fresh_id
  ◌>>=◌ m f w = let (r, w') = m w in continue r f w'

  abbrev pub ◌>>◌ : Exec A → Exec B → Exec B
  m >> n = m >>= λ _. n

-- `if test: raise …`, in a query.
abbrev pub refuse_if : Bool → Rejection → Outcome (Unit {0})
refuse_if true r = rejected r
refuse_if false r = ok tt

-- `request.id or uuid.uuid4()`
unfoldable pub id_or_fresh : Env → Option ℕ → Exec ℕ
unfolding pure fresh_id
id_or_fresh env none = fresh_id env
id_or_fresh env (some id) = pure id

-- `_now()` where a tombstone is set, and the old mark where it is not.
unfoldable pub stamp_if : Env → Bool → Option ℕ → Exec (Option ℕ)
unfolding ◌>>=◌
stamp_if env true old = do time ← now env; pure (some time)
stamp_if env false old = pure old

-- Python's truth value of an optional flag.
abbrev pub is_set : Option Bool → Bool
is_set none = false
is_set (some b) = b

-- What a handler returns: the answer and the rows that it names.
pub record Applied : Type 0 where
  pub response : Response
  pub list_id : ℕ
  pub item_id : Option ℕ
