-- ===== src/Revisions/Writing.antt =====
-- backend/app/services/receipt_revision_service.py: what a mutation writes.
use prislapp.Prelude.{
  Bool, List, Option, [], any, false, filter, if◌then◌else◌, map, none, not, or_default, some, true,
  ℕ, ◌&&◌, ◌++◌, ◌+◌, ◌==◌, ◌∷◌,
}
use prislapp.Prelude.Decimal.{Decimal}
use prislapp.Prelude.Table.{replace}
use prislapp.Revisions.Model.{
  Answer, DateSource, PriceObservation, PriceObservationV2, ReceiptDraftRequest, ReceiptLineInput,
  ReceiptOperation, Reconciliation, RevisedReceipt, Revision, RevisionDb, RevisionLine,
  RevisionStatus, UserStore, confirmed_revision, draft, from_user, integrity_error, ok,
  rankable_dated, rankable_undated, source_unknown,
}
use prislapp.Revisions.Qualifying.{QualifiedLine}
use prislapp.ShoppingList.Exec.{fresh_id}
use prislapp.ShoppingList.Model.{AccountLedger, ReceiptItem, confirmed}

-- What a transaction draws: the instant, the id of a new revision, and those of the rows of its lines.
pub record Fresh : Type 0 where
  pub instant : ℕ
  pub revision_id : ℕ
  pub line_id : ℕ → ℕ
  pub observation_id : ℕ → ℕ

-- What the checks have found.
pub record Prepared : Type 0 where
  pub receipt : RevisedReceipt
  pub store : Option UserStore
  pub reconciliation : Reconciliation
  pub qualified : List (ReceiptLineInput × QualifiedLine)

abbrev pub is_draft : RevisionStatus → Bool
is_draft draft = true
is_draft confirmed_revision = false

abbrev pub has_number : ℕ → ℕ → Revision → Bool
has_number receipt_id number row = row.receipt_id == receipt_id && row.revision == number

-- The draft of a revision number.
abbrev pub is_draft_of : ℕ → ℕ → Revision → Bool
is_draft_of receipt_id number row = has_number receipt_id number row && is_draft row.status

abbrev pub date_source_of : Option ℕ → DateSource
date_source_of none = source_unknown
date_source_of (some _) = from_user

abbrev pub revision_status : Bool → RevisionStatus
revision_status true = confirmed_revision
revision_status false = draft

-- The fields that `_upsert_revision` sets.
abbrev pub revision_row :
    ℕ
    → ℕ
    → ℕ
    → ReceiptDraftRequest
    → ReceiptOperation
    → ℕ
    → Reconciliation
    → Bool
    → ℕ
    → ℕ
    → Revision
revision_row id receipt_id user_id request operation digest reconciliation confirming number
      instant =
    record {
      id = id;
      receipt_id = receipt_id;
      user_id = user_id;
      revision = number;
      status = revision_status confirming;
      operation = operation;
      mutation_id = request.mutation_id;
      payload_hash = digest;
      user_store_id = request.store_id;
      purchase_date = request.purchase_date;
      purchase_time = request.purchase_time;
      date_precision = request.date_precision;
      date_source = date_source_of request.purchase_date;
      reconciliation = reconciliation;
      confirmed_at = if confirming then some instant else none;
    }

-- The id of the revision that is written: that of the draft, or a new one.
abbrev pub written_id : Option Revision → ℕ → ℕ
written_id none fresh_id = fresh_id
written_id (some row) fresh_id = row.id

-- `_upsert_revision` with its flush. The unique key (receipt_id, revision) refuses a new row of a
-- number that is taken.
abbrev pub upsert_revision : Option Revision → ℕ → ℕ → Revision → RevisionDb → Answer RevisionDb
upsert_revision (some old_row) receipt_id number row db = ok (record db {
  revisions = replace (λ (r : Revision). r.id) row db.revisions;
  lines = filter (λ line. not (line.revision_id == row.id)) db.lines;
})
upsert_revision none receipt_id number row db =
    if any (has_number receipt_id number) db.revisions
    then integrity_error
    else ok (record db { revisions = db.revisions ++ row ∷ [] })

abbrev line_row : (ℕ → ℕ) → ℕ → ReceiptLineInput → QualifiedLine → RevisionLine
line_row ids revision_id line qualification = record {
  id = ids qualification.position;
  revision_id = revision_id;
  line_id = line.id;
  position = qualification.position;
  raw_product_name = line.raw_product_name;
  user_product_id = line.user_product_id;
  quantity = line.quantity;
  quantity_unit = line.quantity_unit;
  line_type = line.line_type;
  net_line_total = line.net_line_total;
  printed_unit_price = line.printed_unit_price;
  price_basis = qualification.result.price_basis;
  condition = line.condition;
  comparison_price = qualification.result.comparison_price;
  eligible = qualification.eligible;
  eligible_for_dated_ranking =
      qualification.result.eligible_for_dated_ranking && qualification.eligible;
  exclusion_reasons = qualification.exclusion_reasons;
}

abbrev pub line_rows : (ℕ → ℕ) → ℕ → List (ReceiptLineInput × QualifiedLine) → List RevisionLine
line_rows ids revision_id qualified =
    map (λ (line, qualification). line_row ids revision_id line qualification) qualified

-- `_write_lines`
abbrev pub write_lines :
    (ℕ → ℕ) → ℕ → List (ReceiptLineInput × QualifiedLine) → RevisionDb → RevisionDb
write_lines ids revision_id qualified db = record db {
  lines = db.lines ++ line_rows ids revision_id qualified;
}

-- An observation that is no longer current, if it is one of the receipt.
abbrev pub retired : ℕ → PriceObservationV2 → PriceObservationV2
retired receipt_id row =
    if row.receipt_id == receipt_id && row.is_current
    then record row { is_current = false }
    else row

-- The older observations of other receipts.
abbrev pub is_kept_observation : ℕ → RevisionDb → PriceObservation → Bool
is_kept_observation receipt_id db row = not (
    any (λ (item : ReceiptItem). item.id == row.receipt_item_id && item.receipt_id == receipt_id)
      db.receipt_items)

-- The revision and its receipt have the same user.
abbrev pub observation_row :
    (ℕ → ℕ)
    → Revision
    → UserStore
    → ReceiptDraftRequest
    → ReceiptLineInput
    → QualifiedLine
    → Decimal
    → PriceObservationV2
observation_row ids revision store request line qualification price = record {
  id = ids qualification.position;
  user_id = revision.user_id;
  user_product_id = line.user_product_id;
  user_store_id = store.id;
  receipt_id = revision.receipt_id;
  revision_id = revision.id;
  line_id = line.id;
  revision = revision.revision;
  price = price;
  price_basis = qualification.result.price_basis;
  quantity_unit = line.quantity_unit;
  purchase_date = request.purchase_date;
  date_precision = request.date_precision;
  condition = line.condition;
  quality_status =
      if qualification.result.eligible_for_dated_ranking then rankable_dated else rankable_undated;
  is_current = true;
}

-- The price of a line that is eligible and has one.
abbrev pub published_price : QualifiedLine → Option Decimal
published_price qualification =
    if qualification.eligible then qualification.result.comparison_price else none

abbrev pub with_row :
    (Decimal → PriceObservationV2)
    → Option Decimal
    → List PriceObservationV2
    → List PriceObservationV2
with_row row none rows = rows
with_row row (some price) rows = row price ∷ rows

abbrev pub published_rows :
    (ℕ → ℕ)
    → Revision
    → UserStore
    → ReceiptDraftRequest
    → List (ReceiptLineInput × QualifiedLine)
    → List PriceObservationV2
published_rows ids revision store request [] = []
published_rows ids revision store request ((line, qualification) ∷ lines) =
    with_row (observation_row ids revision store request line qualification)
      (published_price qualification) (published_rows ids revision store request lines)

abbrev pub rows_to_publish :
    (ℕ → ℕ)
    → Revision
    → Option UserStore
    → ReceiptDraftRequest
    → List (ReceiptLineInput × QualifiedLine)
    → List PriceObservationV2
rows_to_publish ids revision none request lines = []
rows_to_publish ids revision (some store) request lines =
    published_rows ids revision store request lines

-- `_publish_prices`
abbrev pub publish_prices :
    Fresh → Revision → Prepared → ReceiptDraftRequest → RevisionDb → RevisionDb
publish_prices fresh revision prepared request db = record db {
  observations =
      map (retired revision.receipt_id) db.observations
      ++ rows_to_publish fresh.observation_id revision prepared.store request prepared.qualified;
  old_observations = filter (is_kept_observation revision.receipt_id db) db.old_observations;
}

-- `datetime.combine(purchase_date, purchase_time or time.min)`
abbrev instant_of : Option ℕ → Option ℕ → Option (ℕ × ℕ)
instant_of none time = none
instant_of (some day) time = some (day, or_default time 0)

abbrev known_time : Option ℕ → Option ℕ → Option ℕ
known_time none time = none
known_time (some day) time = time

-- `_apply_receipt_fields`, with the version and the status.
abbrev pub confirmed_receipt : ReceiptDraftRequest → ℕ → RevisedReceipt → RevisedReceipt
confirmed_receipt request number receipt = record receipt {
  version = number;
  status = confirmed;
  purchase_date = instant_of request.purchase_date request.purchase_time;
  purchase_time = known_time request.purchase_date request.purchase_time;
  date_precision = request.date_precision;
  date_source = date_source_of request.purchase_date;
  total = elim request.printed_total [ none ↦ receipt.total | some total ↦ some total ];
}

abbrev save_receipt : RevisedReceipt → RevisionDb → RevisionDb
save_receipt receipt db = record db {
  receipts = replace (λ (r : RevisedReceipt). r.id) receipt db.receipts;
}

-- `_ledger`: the account's ledger, with one that starts at 1 if there is none.
abbrev pub owns_ledger : ℕ → AccountLedger → Bool
owns_ledger user_id row = row.user_id == user_id

abbrev pub with_ledger : ℕ → List AccountLedger → List AccountLedger
with_ledger user_id ledgers =
    if any (owns_ledger user_id) ledgers
    then ledgers
    else ledgers ++ record { user_id = user_id; price_data_version = 1 } ∷ []

-- `_price_data_version` of tables that have the ledger.
abbrev pub price_data_version_of : ℕ → List AccountLedger → ℕ
price_data_version_of user_id [] = 1
price_data_version_of user_id (row ∷ rows) =
    if owns_ledger user_id row then row.price_data_version else price_data_version_of user_id rows

-- `_bump_price_data_version`
abbrev pub bumped : ℕ → AccountLedger → AccountLedger
bumped user_id row =
    if owns_ledger user_id row
    then record row { price_data_version = row.price_data_version + 1 }
    else row

abbrev pub confirm_writes :
    Fresh → Revision → Prepared → ReceiptDraftRequest → RevisionDb → RevisionDb
confirm_writes fresh revision prepared request db =
    let published = publish_prices fresh revision prepared request db in
    save_receipt (confirmed_receipt request revision.revision prepared.receipt)
      (record published { ledgers = map (bumped revision.user_id) published.ledgers })
