-- ===== src/Tests/Corrections.antt =====
-- A receipt of two lines that is drafted, confirmed and corrected.
use prislapp.Prelude.{All, In, [], false, inl, map, none, refl, some, true, ℕ, ◌++◌, ◌+◌, ◌∷◌, ◌≡◌}
use prislapp.ListCopy.{deposit, product}
use prislapp.Prelude.Arithmetic.{
  add, decimal_le, digit_count, divide, half_even, quantize_even, to_context,
}
use prislapp.Prelude.Decimal.{Decimal, quantize, whole}
use prislapp.Prelude.Table.{Distinct}
use prislapp.Prices.Money.{per_package_price}
use prislapp.Prices.Pricing.{
  evaluate_line, identity_confirmed, no_condition, precision_unknown, to_date, unknown_basis,
}
use prislapp.Revisions.Applying.{
  ApplyCall, Others, alone, apply, committed, confirm_call, replay, revision_call,
}
use prislapp.Revisions.Cases.{IsLeft}
use prislapp.Revisions.Current.{IsCurrent, apply-IsCurrent}
use prislapp.Revisions.History.{IsKept, apply-IsKept}
use prislapp.Revisions.Model.{
  ReceiptConfirmRequest, ReceiptLineInput, Reconciliation, RevisedReceipt, Revision, RevisionDb,
  RevisionResponse, balanced, confirmed_revision, integrity_error, ok, receipt_confirm,
  source_unknown,
}
use prislapp.Revisions.Publishing.{IsPublishedBy, apply-published}
use prislapp.Revisions.Racing.{apply-race}
use prislapp.Revisions.Reconciling.{reconcile}
use prislapp.Revisions.Retrying.{apply-retry, apply_atomic}
use prislapp.Revisions.Writing.{Fresh, revision_row}
use prislapp.ShoppingList.Model.{ready_for_review}
use prislapp.Units.{each, normalize_quantity, unknown}

abbrev kroner : ℕ → Decimal
kroner digits = record { negative = false; digits = digits; places = 2 }

abbrev scanned : RevisedReceipt
scanned = record {
  id = 1;
  user_id = 9;
  status = ready_for_review;
  version = 0;
  purchase_date = none;
  purchase_time = none;
  date_precision = precision_unknown;
  date_source = source_unknown;
  total = none;
}

abbrev tables : RevisionDb
tables = record {
  receipts = scanned ∷ [];
  revisions = [];
  lines = [];
  observations = [];
  old_observations = record { id = 1; receipt_item_id = 4 } ∷ [];
  receipt_items = [];
  products =
      record {
        id = 7;
        user_id = 9;
        identity_status = identity_confirmed;
        pack_content = none;
        pack_unit = unknown;
      }
      ∷ [];
  stores = record { id = 3; user_id = 9; display_name = 75 ∷ []; is_branch = true } ∷ [];
  mutations = [];
  ledgers = [];
}

abbrev milk : ReceiptLineInput
milk = record {
  id = 11;
  raw_product_name = 77 ∷ [];
  user_product_id = some 7;
  quantity = some (whole 2);
  quantity_unit = each;
  line_type = product;
  net_line_total = some (kroner 4000);
  printed_unit_price = none;
  price_basis = unknown_basis;
  condition = no_condition;
}

abbrev bottle : ReceiptLineInput
bottle = record milk {
  id = 12;
  user_product_id = none;
  quantity = none;
  line_type = deposit;
  net_line_total = some (kroner 200);
}

abbrev body : ReceiptConfirmRequest
body = record {
  content = record {
    expected_version = 0;
    mutation_id = 50;
    store_id = some 3;
    purchase_date = some 100;
    purchase_time = none;
    date_precision = to_date;
    printed_total = some (kroner 4200);
    lines = milk ∷ bottle ∷ [];
  };
  accept_reconciliation_gap = false;
}

abbrev drawn : Fresh
drawn = record {
  instant = 5;
  revision_id = 100;
  line_id = λ n. n + 200;
  observation_id = λ n. n + 300;
}

abbrev first_call : ApplyCall
first_call = confirm_call (λ _. 1) 9 1 body

abbrev confirmed_tables : RevisionDb
confirmed_tables = (apply first_call drawn alone tables).1

abbrev balanced_totals : Reconciliation
balanced_totals = record {
  status = balanced;
  printed_total = some (kroner 4200);
  computed_total = kroner 4200;
  difference = some (kroner 0);
  gap_accepted_by_user = false;
  reason = none;
}

abbrev first_response : RevisionResponse
first_response = record {
  receipt_id = 1;
  revision = 1;
  status = confirmed_revision;
  price_data_version = 2;
  reconciliation = balanced_totals;
}

answers : apply first_call drawn alone tables ≡ (ok first_response, confirmed_tables)
unfolding apply reconcile evaluate_line normalize_quantity per_package_price divide add to_context
    digit_count half_even quantize quantize_even decimal_le
answers = refl

apply-retry_example :
    apply first_call drawn alone confirmed_tables ≡ (ok first_response, confirmed_tables)
apply-retry_example = apply-retry first_call drawn drawn alone alone tables answers

not_replayed : replay first_call tables ≡ none
not_replayed = refl

apply-published_example :
    All (IsPublishedBy first_call tables first_response) confirmed_tables.observations
apply-published_example = apply-published first_call drawn tables refl not_replayed answers

tables-IsCurrent : IsCurrent tables
tables-IsCurrent = ((tt, tt), tt)

apply-IsCurrent_example : IsCurrent (apply first_call drawn alone tables).1
apply-IsCurrent_example = apply-IsCurrent first_call drawn tables tables-IsCurrent

-- One observation is published, at 20 kroner a pack; the older one stays, as it is of another receipt.
published_prices :
    map (λ row. row.price) confirmed_tables.observations
    ≡ record { negative = false; digits = 20000000; places = 6 } ∷ []
unfolding apply reconcile evaluate_line normalize_quantity per_package_price divide add to_context
    digit_count half_even quantize quantize_even decimal_le
published_prices = refl

-- A body with the same version again, under another mutation id, is stale and changes nothing.
abbrev stale_call : ApplyCall
stale_call =
    confirm_call (λ _. 2) 9 1 (record body { content = record body.content { mutation_id = 51 } })

stale_keeps_tables : IsLeft alone confirmed_tables (apply stale_call drawn alone confirmed_tables).1
unfolding apply reconcile evaluate_line normalize_quantity per_package_price divide add to_context
    digit_count half_even quantize quantize_even decimal_le
stale_keeps_tables = apply_atomic stale_call drawn alone confirmed_tables refl

abbrev first_revision : Revision
first_revision = revision_row 100 1 9 body.content receipt_confirm 1 balanced_totals true 1 5

first_stored : In first_revision confirmed_tables.revisions
unfolding apply reconcile evaluate_line normalize_quantity per_package_price divide add to_context
    digit_count half_even quantize quantize_even decimal_le
first_stored = inl refl

one_revision : Distinct (λ (r : Revision). r.id) confirmed_tables.revisions
unfolding apply reconcile evaluate_line normalize_quantity per_package_price divide add to_context
    digit_count half_even quantize quantize_even decimal_le
one_revision = (tt, tt)

-- A correction of it.
abbrev correction : ApplyCall
correction =
    revision_call (λ _. 3) 9 1
      (record body { content = record body.content { expected_version = 1; mutation_id = 52 } })

apply-IsKept_example :
    IsKept confirmed_tables first_revision (apply correction drawn alone confirmed_tables).1
apply-IsKept_example =
    apply-IsKept correction drawn confirmed_tables first_revision one_revision first_stored refl

-- Another session confirms first.
abbrev rival : Others
rival = record {
  before_write = λ db. record db { revisions = db.revisions ++ first_revision ∷ [] };
  commit = committed;
}

rival_confirms_first :
    apply first_call drawn rival tables ≡ (integrity_error, rival.before_write tables)
unfolding apply reconcile evaluate_line normalize_quantity per_package_price divide add to_context
    digit_count half_even quantize quantize_even decimal_le
rival_confirms_first = apply-race first_call drawn rival tables refl refl refl refl
