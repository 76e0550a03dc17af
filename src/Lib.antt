-- ===== src/Lib.antt =====
-- Verification of the prislapp backend, a server for shopping lists and for receipts that are read
-- by OCR. The files model Python code under backend/app.
--
-- Parts, and how they interact:
--
-- * ShoppingList models backend/app/services/shopping_list_service.py with its tables
--   (models/shopping_list.py) and bodies (schemas/shopping_list.py). Model has the rows, the tables
--   `Db`, the requests and the rejections; Exec has the session: a computation takes a `World` (the
--   tables, and how often the clock and `uuid4` were used) to an outcome and a new `World`. Queries,
--   Sequence and Validation are the helpers below the handlers, Lists, Items and Copies the six
--   handlers (`_create_list`, `_patch_list`, `_create_item`, `_patch_item`, `_copy_list`,
--   `_create_list_from_receipt`), Mutations the transaction around one of them (`_single`, `_record`,
--   `_replay`), and Sync the replay of a device's offline mutations and the answer to it (`sync`,
--   `_parse_sync_cursor`, `encode_sync_cursor`, `_sync_lists`). Paging has `get_list` and `list_lists`
--   with the keysets of services/pagination.py. Evolution and Invariant say how the tables may change
--   and what holds of them; Invariant/Rules carries a postcondition through a handler step by step.
-- * ListCopy models backend/app/domain/list_copy.py, which the copy handlers call, and Units
--   backend/app/domain/units.py.
-- * OcrOutbox models backend/app/services/ocr_outbox.py with its table (models/job_outbox.py). Jobs
--   has the enqueue, the claim, the completion and the failure of a job, Publishing the delivery,
--   the reconciliation and the readiness check, Worker one run of `process_receipt_with_db`
--   (worker/tasks.py), and Stores what a completion calls in services/receipt_service.py and
--   services/store_service.py. Steps has the invariant, Runs the step relation, Fencing, Leases and
--   Completion what a claim grants, Outcomes and Missing how a worker's run ends, Overlaps the late
--   UPDATE of a publish.
-- * Prices models backend/app/domain/money.py (Money), domain/pricing.py (Pricing: the qualification
--   of a receipt line for price statistics and its comparison price) and domain/price_history.py
--   (History: the lowest price and the price basis; Latest: the newest price of each store and of a
--   product). Qualification, Raising and the modules below History and Latest prove.
-- * Revisions models backend/app/services/receipt_revision_service.py with its tables
--   (models/receipt_revision.py) and bodies (schemas/receipt_v2.py): drafts, confirmations and
--   corrections of a receipt. Model has the rows and the tables, Reconciling the comparison of the lines
--   with the total, Qualifying the call of `evaluate_line` for a line, Writing the rows that a revision
--   writes (lines, price observations, the ledger, the version of the user's prices), Preparing what
--   its checks pass on, and Applying the call `_apply` as a whole, with its replay and its commit.
-- * Auth models backend/app/services/auth_service.py with its tables (models/auth_session.py,
--   models/user.py) and security/jwt.py. Sessions has refresh tokens, their families and the ends of
--   sessions, Accounts registration, logins and password resets. Steps has any sequence of calls,
--   Families and Counting what one call does to the sessions.
-- * RateLimit models backend/app/services/rate_limit.py: `allow`, and the window in the process over
--   any sequence of calls.
-- * Prelude has lists, sorting, text, decimals and tables with a primary key. Tests has test runs.
--
-- How the model stands for the code:
--
-- * A UUID is a number in the order of its `str`, an instant a number of seconds, a text a list of
--   code points. A decimal is a sign, digits and a number of decimal places; the context's 28 digits
--   bound `quantize`, which else raises `InvalidOperation`.
-- * A query returns what it finds in the tables; an UPDATE replaces the row with the same key, an
--   INSERT appends, and a taken key is an `IntegrityError`. A rejection is a value; `_single` rolls
--   the tables back on it, and the session of database.py drops them on another exception.
-- * The n-th reading of the clock, the n-th `uuid4`, SHA-256 of a request's canonical JSON, the NFKD
--   form of a name, the reading of an image and the broker's answer are arguments.
-- * Decimal arithmetic rounds to 28 digits, half to even, with the exponents written out. In Prices and
--   Revisions, `str.lower`, the hash of a body and `is_revision_race`, which reads the database's
--   message, are parameters; in Auth the record `Crypto` has the JWT library, HMAC, the password hash and
--   `str.lower`. A call reads the clock once. A numeric column holds what is written to it. The rows
--   that the price history ranks have a date and a store, as their query asks for.
-- * Two sessions are interleaved where the code leaves room for it: a rival that commits the same
--   mutation first (`race`), what others commit between the two reads of `sync` and while an image
--   is read or a job is delivered (`others`). A revision has what others commit before its writes
--   and how its commit ends (`Others`; `alone` is no one), and `refresh` what others commit while it
--   waits for its lock; rows of sessions are never deleted. For the outbox and for sessions, any
--   order of committed steps is a `Reaches` and an `AuthReaches`, in which a call of `refresh` may
--   also get its lock late. Row locks and advisory locks only order transactions, so they have no
--   counterpart. `_try_publish` takes no lock: a `Reaches` may have others commit between its
--   refresh and its UPDATE (`commit_published`), while `try_publish` and the loop of
--   `reconcile_job_outbox` leave them room only during the delivery.
-- * An active job is found as the first one. Where there were two, SQLAlchemy would raise; the partial
--   unique index of the table excludes it. Two stores of one normalized name, which nothing excludes,
--   make `get_or_create_store` raise, as does any error of the database in a completion, and the
--   worker then fails the attempt.
-- * A sync cursor is a text. Base64, JSON and the conversions of its fields are the two functions
--   `encode_payload` and `decode_payload` of the record `Env`.
-- * A transaction that the code leaves without a commit, as a completion whose receipt is gone, keeps
--   the tables from before.
-- * No function of the code needs fuel: the loops run over lists. A client that follows the cursors of
--   `list_lists` has fuel for one page per list and one more, as every page but an empty one has a
--   list.
--
-- Not modelled: the services that read prices for an answer, the backfill of revisions and of the private
-- catalogue, the parsing of OCR text (regular expressions), the private catalogue, images and calls of
-- the OCR engine, HTTP routes, the check of Google's tokens, pydantic's validation of fields,
-- migrations, scripts, and the Android app.
pub mod Prelude
pub mod Units
pub mod ListCopy
pub mod ShoppingList
pub mod OcrOutbox
pub mod RateLimit
pub mod Prices
pub mod Revisions
pub mod Auth
mod Tests
