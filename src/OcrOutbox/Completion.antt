-- ===== src/OcrOutbox/Completion.antt =====
-- The completion of a claimed job (ocr_outbox.py).
-- What a completed reading leaves: the receipt has what was read and waits for review, and its job
-- is no longer active.
use prislapp.Prelude.{
  Bool, Bool-cases, List, Option, [], ap, arith, count, eq→==, false, filter, find?-holds,
  if◌then◌else◌, inl, inr, is_some, map, none, not, refl, some, true, ℕ, ◌++◌, ◌==◌, ◌∙◌, ◌∷◌, ◌≡◌,
  ◌≤◌,
}
use prislapp.OcrOutbox.Choosing.{Choice, IsShop, chosen_store-Choice, chosen_store-is_some}
use prislapp.OcrOutbox.Fencing.{Claimed, claim_ocr_job-Claimed, granted_job, still_active}
use prislapp.OcrOutbox.Jobs.{
  active_job, attempted_job, chosen_store, claim_ocr_job, claimed_job, closed_job,
  complete_ocr_result, finish, finish_with, is_active_for, is_attempt_on, is_live, receipt_of,
  save_job,
}
use prislapp.OcrOutbox.Model.{
  ClaimedOcrJob, JobOutbox, OcrDb, OcrReceipt, ReadLine, Settings, StoredLine, account_deleted,
  done,
}
use prislapp.OcrOutbox.Moving.Claims.{claim_ocr_job-Moves}
use prislapp.OcrOutbox.Receipts.{receipt_processing, receipt_ready}
use prislapp.OcrOutbox.Steps.{IsSound}
use prislapp.OcrOutbox.Stores.{ParsedReceipt, is_named, read_receipt, save_parsed_receipt}
use prislapp.Prelude.Lookup.{find?-replace-none, find?-replace_narrow}
use prislapp.Prelude.Table.{find?-replace, replace}
use prislapp.Prelude.Text.{Text}

pub record IsRead (fold : Text → Text) (store : Option ℕ) (receipt_id : ℕ) (parsed : ParsedReceipt)
    (b : OcrDb) : Type 0 where
  pub receipt : OcrReceipt
  pub stored : receipt_of receipt_id b ≡ some receipt
  pub ready : receipt.status ≡ receipt_ready
  pub text : receipt.raw_ocr_text ≡ some parsed.raw_text
  pub shop : IsShop fold store parsed.store_name receipt.store_id b.stores
  pub date : receipt.purchase_date ≡ parsed.purchase_date
  pub sum : receipt.total ≡ parsed.total
  pub extraction : receipt.ocr_extraction_json ≡ parsed.extraction_json
  pub quality : receipt.ocr_quality ≡ parsed.quality
  pub pipeline : receipt.ocr_pipeline_version ≡ parsed.pipeline_version
  pub lines :
      filter (λ l. l.receipt_id == receipt_id) b.receipt_lines
      ≡ map (λ line. record { receipt_id = receipt_id; line = line }) parsed.items
  pub closed : active_job receipt_id b ≡ none

module _ {settings : Settings} {time attempt_id receipt_id : ℕ} {db b : OcrDb}
    {claimed : ClaimedOcrJob}
    (grant : Claimed settings time attempt_id receipt_id db claimed b) where
  pub held_job :
      attempted_job receipt_id attempt_id b ≡ some (claimed_job settings time attempt_id grant.job)
  held_job = rw grant.result (
      find?-replace_narrow (λ j. j.id) (is_active_for receipt_id)
        (is_attempt_on receipt_id attempt_id) grant.job _ db.jobs narrow grant.was_active refl held)
    where
      narrow :
          (x : JobOutbox)
          → is_active_for receipt_id x ≡ false
          → is_attempt_on receipt_id attempt_id x ≡ false
      narrow x h = rw h refl

      held :
          is_attempt_on receipt_id attempt_id (claimed_job settings time attempt_id grant.job)
          ≡ true
      held = rw (still_active grant) (ground arith)

  pub granted_receipt :
      receipt_of receipt_id b ≡ some (record grant.receipt { status = receipt_processing })
  granted_receipt = rw grant.result (
      find?-replace (λ r. r.id) (λ r. r.id == receipt_id) grant.receipt _ db.receipts grant.stored
        refl (find?-holds (λ (r : OcrReceipt). r.id == receipt_id) db.receipts grant.stored))

  still_live : is_live (claimed_job settings time attempt_id grant.job).user_id b ≡ true
  still_live = rw grant.result grant.live

-- The lines of a receipt after its old ones made way for the new ones.
own_lines :
    (receipt_id : ℕ) (items : List ReadLine) (lines : List StoredLine)
    → filter
        (λ l. l.receipt_id == receipt_id)
        (filter (λ l. not (l.receipt_id == receipt_id)) lines
          ++ map (λ line. record { receipt_id = receipt_id; line = line }) items)
      ≡ map (λ line. record { receipt_id = receipt_id; line = line }) items
own_lines receipt_id (item ∷ items) [] = rw (eq→== receipt_id receipt_id refl) (
    ap (λ (rest : List StoredLine). record { receipt_id = receipt_id; line = item } ∷ rest)
      (own_lines receipt_id items []))
own_lines receipt_id [] [] = refl
own_lines receipt_id items (l ∷ lines) = elim (Bool-cases (l.receipt_id == receipt_id)) [
  | inl t ↦ rw t (own_lines receipt_id items lines)
  | inr f ↦ rw (f, f) (own_lines receipt_id items lines)
]

save_parsed-found :
    (receipt_id : ℕ) (store_id : Option ℕ) (parsed : ParsedReceipt) (b : OcrDb)
    {receipt : OcrReceipt}
    → receipt_of receipt_id b ≡ some receipt
    → save_parsed_receipt receipt_id store_id parsed b
      ≡ some (record b {
        receipts = replace (λ r. r.id) (read_receipt receipt store_id parsed) b.receipts;
        receipt_lines =
            filter (λ l. not (l.receipt_id == receipt_id)) b.receipt_lines
            ++ map (λ line. record { receipt_id = receipt_id; line = line }) parsed.items;
      })
save_parsed-found receipt_id store_id parsed b e =
    unfold save_parsed_receipt in
    ap
      (λ (row : Option OcrReceipt). elim row [
        | none ↦ none
        | some receipt ↦ some (record b {
          receipts = replace (λ r. r.id) (read_receipt receipt store_id parsed) b.receipts;
          receipt_lines =
              filter (λ l. not (l.receipt_id == receipt_id)) b.receipt_lines
              ++ map (λ line. record { receipt_id = receipt_id; line = line }) parsed.items;
        })
      ])
      e

module _ (fold : Text → Text) (fresh receipt_id : ℕ) (store : Option ℕ) (parsed : ParsedReceipt)
    (settings : Settings) (b : OcrDb) (sound : IsSound settings b.jobs) where
  pub complete_held :
      (attempt_id : ℕ) {job : JobOutbox}
      → attempted_job receipt_id attempt_id b ≡ some job
      → is_live job.user_id b ≡ true
      → complete_ocr_result fold fresh receipt_id attempt_id store parsed b
        ≡ finish fold fresh receipt_id store parsed job b
  complete_held attempt_id {job} e live =
      unfold complete_ocr_result in
      ap
        (λ (held : Option JobOutbox). elim held [
          | none ↦ (some false, b)
          | some job ↦
              if not (is_live job.user_id b)
              then (some false, save_job (closed_job job account_deleted) b)
              else finish fold fresh receipt_id store parsed job b
        ])
        e
      ∙ rw live refl

  -- What an answer of `finish` says.
  abbrev Finished : Option Bool × OcrDb → Type 0
  Finished out = (out.0 ≡ some true) × IsRead fold store receipt_id parsed out.1

  pub finish-IsRead :
      (job : JobOutbox) (receipt : OcrReceipt)
      → ((name : Text) → count (is_named name) b.stores ≤ 1)
      → active_job receipt_id b ≡ some job
      → receipt_of receipt_id b ≡ some receipt
      → Finished (finish fold fresh receipt_id store parsed job b)
  finish-IsRead job receipt distinct e stored_receipt =
      go (chosen_store fold fresh store parsed b) (chosen_store-Choice fold fresh b store parsed)
        (chosen_store-is_some fold fresh b store parsed distinct)
    where
      shut : is_active_for receipt_id (record job { status = done }) ≡ false
      shut = ground arith

      go :
          (choice : Option (Option ℕ × OcrDb))
          → Choice fold fresh b store parsed choice
          → is_some choice ≡ true
          → Finished (finish_with receipt_id parsed job b choice)
      go none _ raised = cc raised
      go (some (store_id, c)) chosen _ =
          let there : receipt_of receipt_id c ≡ some receipt = rw chosen.receipts stored_receipt in
          rw
            (save_parsed-found receipt_id store_id parsed
              (save_job (record job { status = done }) c) there)
            (
              refl,
              record {
                receipt = read_receipt receipt store_id parsed;
                stored =
                    find?-replace (λ r. r.id) (λ r. r.id == receipt_id) receipt _ c.receipts there
                      refl (find?-holds (λ (r : OcrReceipt). r.id == receipt_id) c.receipts there);
                ready = refl;
                text = refl;
                shop = chosen.shop;
                date = refl;
                sum = refl;
                extraction = refl;
                quality = refl;
                pipeline = refl;
                lines = own_lines receipt_id parsed.items c.receipt_lines;
                closed = rw chosen.jobs (
                    find?-replace-none (λ j. j.id) (is_active_for receipt_id)
                      (is_active_for receipt_id) job _ b.jobs (λ x h. h)
                      (sound.single_active receipt_id) e refl shut);
              },
            )

-- The worker that a claim on sound jobs was granted to completes it at once, if no two stores share
-- a normalized name: the completion says so, the receipt waits for review with the text, the store,
-- the date, the total, the metadata and exactly the lines that were read, and it has no active job.
pub complete_ocr_result-claim_ocr_job :
    (settings : Settings) (time attempt_id receipt_id : ℕ) (db : OcrDb) (claimed : ClaimedOcrJob)
    → IsSound settings db.jobs
    → ((name : Text) → count (is_named name) db.stores ≤ 1)
    → (claim_ocr_job settings time attempt_id receipt_id db).0 ≡ some claimed
    → (fold : Text → Text) (fresh : ℕ) (store : Option ℕ) (parsed : ParsedReceipt)
    → ((complete_ocr_result fold fresh receipt_id claimed.attempt_id store parsed
          (claim_ocr_job settings time attempt_id receipt_id db).1).0
        ≡ some true)
      × IsRead fold store receipt_id parsed
          (complete_ocr_result fold fresh receipt_id claimed.attempt_id store parsed
            (claim_ocr_job settings time attempt_id receipt_id db).1).1
complete_ocr_result-claim_ocr_job settings time attempt_id receipt_id db claimed sound distinct e
      fold fresh store parsed =
    let grant = claim_ocr_job-Claimed settings time attempt_id receipt_id db claimed e in
    let after = (claim_ocr_job-Moves settings db sound time attempt_id receipt_id).sound in
    let mine : claimed.attempt_id ≡ attempt_id =
      ap (λ (c : ClaimedOcrJob). c.attempt_id) grant.answer in
    let b : OcrDb = (claim_ocr_job settings time attempt_id receipt_id db).1 in
    let same_stores : b.stores ≡ db.stores = ap (λ (d : OcrDb). d.stores) grant.result in
    rw
      (
        mine,
        complete_held fold fresh receipt_id store parsed settings b after attempt_id
            (held_job grant) (still_live grant),
      )
      (finish-IsRead fold fresh receipt_id store parsed settings b after _ _
        (rw same_stores distinct) (granted_job grant) (granted_receipt grant))
