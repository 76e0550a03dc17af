-- ===== src/Revisions/Applying.antt =====
-- backend/app/services/receipt_revision_service.py: `_apply` and its three callers.
use prislapp.Prelude.{
  Bool, List, Option, [], any, false, find?, if◌then◌else◌, none, not, some, true, ℕ, ◌&&◌, ◌++◌,
  ◌+◌, ◌==◌, ◌∷◌,
}
use prislapp.Revisions.Model.{
  Answer, ReceiptConfirmRequest, ReceiptDraftRequest, ReceiptLineInput, ReceiptMutation,
  ReceiptOperation, Reconciliation, RevisedReceipt, Revision, RevisionDb, RevisionResponse,
  UserStore, arithmetic_error, duplicate_line_id, integrity_error, mutation_conflict, not_found, ok,
  receipt_confirm, receipt_draft, receipt_revision, receipt_state_conflict, refuse_if, refused,
  version_conflict, ◌>>=◌, ◌>>◌,
}
use prislapp.Revisions.Qualifying.{
  QualifiedLine, has_duplicate, is_foreign, owned_receipt, owned_store, qualify,
}
use prislapp.Revisions.Reconciling.{reconcile}
use prislapp.Revisions.Writing.{
  Fresh, Prepared, confirm_writes, is_draft_of, price_data_version_of, revision_row,
  upsert_revision, with_ledger, write_lines, written_id,
}
use prislapp.ShoppingList.Model.{ReceiptStatus, confirmed, ready_for_review, receipt_status_code}
use prislapp.ShoppingList.Queries.{found}

-- A body as it is hashed: a draft has no flag.
pub data Submission : Type 0 where
  of_draft : ReceiptDraftRequest → Submission
  of_confirm : ReceiptConfirmRequest → Submission

-- What happens at the commit: it succeeds unless the mutation's key is taken, or it raises
-- `IntegrityError` after others have written. `is_race` is what `is_revision_race` says of the error.
pub data Commit : Type 0 where
  committed : Commit
  integrity_failure : (is_race : Bool) (others : RevisionDb → RevisionDb) → Commit

-- What other sessions commit: between the checks and the first write, and at the commit.
pub record Others : Type 0 where
  pub before_write : RevisionDb → RevisionDb
  pub commit : Commit

abbrev pub alone : Others
alone = record { before_write = λ db. db; commit = committed }

-- SHA-256 of the canonical JSON of a body without its mutation id.
abbrev pub Digest : Type 0
Digest = Submission → ℕ

-- One call of `_apply`.
pub record ApplyCall : Type 0 where
  pub user_id : ℕ
  pub receipt_id : ℕ
  pub request : ReceiptDraftRequest
  pub operation : ReceiptOperation
  pub digest : ℕ
  pub allowed_status : ReceiptStatus
  pub confirming : Bool
  pub accept_gap : Bool

abbrev pub operation_code : ReceiptOperation → ℕ
operation_code receipt_draft = 0
operation_code receipt_confirm = 1
operation_code receipt_revision = 2

-- `_mutation_record`
abbrev pub is_mutation_of : ApplyCall → ReceiptMutation → Bool
is_mutation_of call row =
    row.user_id == call.user_id
    && (operation_code row.operation == operation_code call.operation
        && row.mutation_id == call.request.mutation_id)

abbrev pub replayed : ApplyCall → ReceiptMutation → Answer RevisionResponse
replayed call row =
    if row.payload_hash == call.digest && row.receipt_id == call.receipt_id
    then ok row.response
    else refused mutation_conflict

abbrev pub replay_found : ApplyCall → Option ReceiptMutation → Option (Answer RevisionResponse)
replay_found call none = none
replay_found call (some row) = some (replayed call row)

-- `_replay`
abbrev pub replay : ApplyCall → RevisionDb → Option (Answer RevisionResponse)
replay call db = replay_found call (find? (is_mutation_of call) db.mutations)

abbrev pub prepared_of :
    RevisedReceipt
    → Option UserStore
    → Reconciliation
    → List (ReceiptLineInput × QualifiedLine)
    → Answer Prepared
prepared_of receipt store reconciliation qualified = ok (record {
  receipt = receipt;
  store = store;
  reconciliation = reconciliation;
  qualified = qualified;
})

abbrev pub qualify_call :
    ApplyCall → RevisionDb → Option UserStore → Answer (List (ReceiptLineInput × QualifiedLine))
qualify_call call db store =
    qualify db call.user_id call.request.date_precision store 0 call.request.lines

abbrev pub reconcile_call : ApplyCall → Answer Reconciliation
reconcile_call call =
    reconcile call.request.lines call.request.printed_total call.accept_gap call.confirming

-- The checks of the request, once the receipt and the store are found.
abbrev pub prepare_request :
    ApplyCall → RevisionDb → RevisedReceipt → Option UserStore → Answer Prepared
prepare_request call db receipt store =
    refuse_if (any (is_foreign db call.user_id) call.request.lines) not_found
    >> (refuse_if (has_duplicate call.request.lines) duplicate_line_id
        >> (reconcile_call call >>= λ reconciliation.
            qualify_call call db store >>= prepared_of receipt store reconciliation))

abbrev pub is_wrong_status : ApplyCall → RevisedReceipt → Bool
is_wrong_status call receipt =
    not (receipt_status_code receipt.status == receipt_status_code call.allowed_status)

abbrev pub is_stale : ApplyCall → RevisedReceipt → Bool
is_stale call receipt = not (call.request.expected_version == receipt.version)

abbrev pub prepare_receipt : ApplyCall → RevisionDb → RevisedReceipt → Answer Prepared
prepare_receipt call db receipt =
    refuse_if (is_wrong_status call receipt) (receipt_state_conflict receipt.status)
    >> (refuse_if (is_stale call receipt) (version_conflict receipt.version)
        >> (owned_store db call.user_id call.request.store_id >>= prepare_request call db receipt))

-- The checks before the first write, in their order.
abbrev pub prepare : ApplyCall → RevisionDb → Answer Prepared
prepare call db = owned_receipt db call.user_id call.receipt_id >>= prepare_receipt call db

abbrev pub next_number : Prepared → ℕ
next_number prepared = prepared.receipt.version + 1

-- The revision that is written, given the draft of its number.
abbrev pub new_revision : ApplyCall → Fresh → Prepared → Option Revision → Revision
new_revision call fresh prepared found =
    revision_row (written_id found fresh.revision_id) prepared.receipt.id call.user_id call.request
      call.operation call.digest prepared.reconciliation call.confirming (next_number prepared)
      fresh.instant

abbrev pub draft_in : RevisionDb → Prepared → Option Revision
draft_in db prepared = find? (is_draft_of prepared.receipt.id (next_number prepared)) db.revisions

-- The writes after the revision, up to the mutation's record.
abbrev pub written : ApplyCall → Fresh → Prepared → Revision → RevisionDb → RevisionDb
written call fresh prepared revision db =
    let lined = write_lines fresh.line_id revision.id prepared.qualified db in
    let known = record lined { ledgers = with_ledger call.user_id lined.ledgers } in
    if call.confirming then confirm_writes fresh revision prepared call.request known else known

abbrev pub response_of : ApplyCall → Prepared → Revision → RevisionDb → RevisionResponse
response_of call prepared revision db = record {
  receipt_id = prepared.receipt.id;
  revision = next_number prepared;
  status = revision.status;
  price_data_version = price_data_version_of call.user_id db.ledgers;
  reconciliation = prepared.reconciliation;
}

abbrev pub mutation_row : ApplyCall → Prepared → RevisionResponse → ReceiptMutation
mutation_row call prepared response = record {
  user_id = call.user_id;
  operation = call.operation;
  mutation_id = call.request.mutation_id;
  payload_hash = call.digest;
  receipt_id = prepared.receipt.id;
  response = response;
}

abbrev pub recorded : ApplyCall → Prepared → RevisionResponse → RevisionDb → RevisionDb
recorded call prepared response db = record db {
  mutations = db.mutations ++ mutation_row call prepared response ∷ [];
}

-- After the roll back of a failed commit, from the tables that the others have written.
abbrev pub lost_revision : ApplyCall → RevisionDb → Answer RevisionResponse
lost_revision call db = do
  current ← owned_receipt db call.user_id call.receipt_id
  refused (version_conflict current.version)

abbrev pub unless_replayed :
    ApplyCall → Bool → RevisionDb → Option (Answer RevisionResponse) → Answer RevisionResponse
unless_replayed call is_race db (some answer) = answer
unless_replayed call is_race db none = if is_race then lost_revision call db else integrity_error

abbrev pub failed_commit : ApplyCall → Bool → RevisionDb → Answer RevisionResponse
failed_commit call is_race db = unless_replayed call is_race db (replay call db)

abbrev pub finished :
    ApplyCall
    → Commit
    → RevisionResponse
    → RevisionDb
    → RevisionDb
    → Answer RevisionResponse × RevisionDb
finished call committed response before after =
    if any (is_mutation_of call) before.mutations
    then (failed_commit call false before, before)
    else (ok response, after)
finished call (integrity_failure is_race others) response before after =
    (failed_commit call is_race (others before), others before)

-- The transaction from its first write; `before` are the tables that a roll back leaves.
abbrev pub write_all :
    ApplyCall
    → Fresh
    → Commit
    → Prepared
    → RevisionDb
    → Revision
    → Answer RevisionDb
    → Answer RevisionResponse × RevisionDb
write_all call fresh commit prepared before revision (ok upserted) =
    let after = written call fresh prepared revision upserted in
    let response = response_of call prepared revision after in
    finished call commit response before (recorded call prepared response after)
write_all call fresh commit prepared before revision (refused e) = (refused e, before)
write_all call fresh commit prepared before revision integrity_error = (integrity_error, before)
write_all call fresh commit prepared before revision arithmetic_error = (arithmetic_error, before)

abbrev pub upserted_in : ApplyCall → Fresh → Prepared → RevisionDb → Answer RevisionDb
upserted_in call fresh prepared db =
    upsert_revision (draft_in db prepared) prepared.receipt.id (next_number prepared)
      (new_revision call fresh prepared (draft_in db prepared)) db

abbrev pub write_if_prepared :
    ApplyCall → Fresh → Others → RevisionDb → Answer Prepared → Answer RevisionResponse × RevisionDb
write_if_prepared call fresh others db (ok prepared) =
    let before = others.before_write db in
    write_all call fresh others.commit prepared before
      (new_revision call fresh prepared (draft_in before prepared))
      (upserted_in call fresh prepared before)
write_if_prepared call fresh others db (refused e) = (refused e, db)
write_if_prepared call fresh others db integrity_error = (integrity_error, db)
write_if_prepared call fresh others db arithmetic_error = (arithmetic_error, db)

abbrev pub apply_unless_replayed :
    ApplyCall
    → Fresh
    → Others
    → RevisionDb
    → Option (Answer RevisionResponse)
    → Answer RevisionResponse × RevisionDb
apply_unless_replayed call fresh others db (some answer) = (answer, db)
apply_unless_replayed call fresh others db none =
    write_if_prepared call fresh others db (prepare call db)

-- `_apply`
unfoldable pub apply :
    ApplyCall → Fresh → Others → RevisionDb → Answer RevisionResponse × RevisionDb
apply call fresh others db = apply_unless_replayed call fresh others db (replay call db)

abbrev pub draft_call : Digest → ℕ → ℕ → ReceiptDraftRequest → ApplyCall
draft_call digest user_id receipt_id request = record {
  user_id = user_id;
  receipt_id = receipt_id;
  request = request;
  operation = receipt_draft;
  digest = digest (of_draft request);
  allowed_status = ready_for_review;
  confirming = false;
  accept_gap = false;
}

abbrev pub confirm_call : Digest → ℕ → ℕ → ReceiptConfirmRequest → ApplyCall
confirm_call digest user_id receipt_id body = record {
  user_id = user_id;
  receipt_id = receipt_id;
  request = body.content;
  operation = receipt_confirm;
  digest = digest (of_confirm body);
  allowed_status = ready_for_review;
  confirming = true;
  accept_gap = body.accept_reconciliation_gap;
}

abbrev pub revision_call : Digest → ℕ → ℕ → ReceiptConfirmRequest → ApplyCall
revision_call digest user_id receipt_id body =
    record (confirm_call digest user_id receipt_id body) {
      operation = receipt_revision;
      allowed_status = confirmed;
    }

module _ (digest : Digest) (fresh : Fresh) (others : Others) (user_id receipt_id : ℕ) where
  unfoldable pub save_draft :
      ReceiptDraftRequest → RevisionDb → Answer RevisionResponse × RevisionDb
  save_draft request = apply (draft_call digest user_id receipt_id request) fresh others

  unfoldable pub confirm : ReceiptConfirmRequest → RevisionDb → Answer RevisionResponse × RevisionDb
  confirm body = apply (confirm_call digest user_id receipt_id body) fresh others

  unfoldable pub create_revision :
      ReceiptConfirmRequest → RevisionDb → Answer RevisionResponse × RevisionDb
  create_revision body = apply (revision_call digest user_id receipt_id body) fresh others
