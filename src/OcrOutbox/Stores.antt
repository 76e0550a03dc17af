-- ===== src/OcrOutbox/Stores.antt =====
-- `normalize_store_name` of backend/app/services/store_service.py, and `get_or_create_store` and
-- `save_parsed_receipt` of backend/app/services/receipt_service.py.
use prislapp.Prelude.{
  Bool, List, Option, [], arith, count, false, filter, find?, if◌then◌else◌, leb, ltb, map, none,
  not, refl, some, true, ℕ, ◌&&◌, ◌++◌, ◌==◌, ◌||◌, ◌∷◌, ◌≡◌,
}
use prislapp.OcrOutbox.Model.{OcrDb, OcrReceipt, ReadLine, Store}
use prislapp.OcrOutbox.Receipts.{receipt_ready}
use prislapp.Prelude.Decimal.{Decimal}
use prislapp.Prelude.Table.{replace}
use prislapp.Prelude.Text.{Text, strip}

-- `[a-z0-9]`
abbrev is_kept : ℕ → Bool
is_kept c = (leb 97 c && leb c 122) || (leb 48 c && leb c 57)

-- `\s` in ASCII
abbrev is_gap : ℕ → Bool
is_gap c = (leb 9 c && leb c 13) || (leb 28 c && leb c 32)

-- The two substitutions: letters, digits and gaps are kept, and a run of gaps is one blank. Here
-- `gap` says that the last kept character was a gap.
abbrev squeeze : Bool → Text → Text
squeeze gap [] = []
squeeze gap (c ∷ cs) =
    let after_gap = squeeze true cs in
    let after_letter = squeeze false cs in
    if is_gap c
    then (if gap then after_gap else 32 ∷ after_gap)
    else if is_kept c
    then c ∷ after_letter
    else squeeze gap cs

-- `fold` is the library's NFKD form of the name in lower case; the characters outside ASCII are
-- dropped with the others.
unfoldable pub normalize_store_name : (Text → Text) → Text → Text
unfolding strip
normalize_store_name fold name = strip (squeeze false (fold name))

abbrev same_text : Text → Text → Bool
same_text [] [] = true
same_text (a ∷ s) (b ∷ t) = a == b && same_text s t
same_text _ _ = false

pub same_text_refl : (s : Text) → same_text s s ≡ true
same_text_refl [] = refl
same_text_refl (c ∷ cs) = ground (arith, same_text_refl cs)

abbrev pub is_named : Text → Store → Bool
is_named normalized store = same_text store.normalized_name normalized

abbrev pub new_store : ℕ → Text → Text → Option Text → Store
new_store fresh name normalized chain = record {
  id = fresh;
  name = name;
  normalized_name = normalized;
  chain = chain;
}

-- `get_or_create_store`; a new store gets the id `fresh`. Two stores of the name are the
-- `MultipleResultsFound` (`none`) of `scalar_one_or_none`.
unfoldable pub get_or_create_store :
    (Text → Text) → ℕ → Text → Option Text → OcrDb → Option (ℕ × OcrDb)
unfolding normalize_store_name
get_or_create_store fold fresh name chain db =
    let normalized = normalize_store_name fold name in
    if ltb 1 (count (is_named normalized) db.stores)
    then none
    else elim (find? (is_named normalized) db.stores) [
      | some store ↦ some (store.id, db)
      | none ↦
          some
            (fresh, record db { stores = db.stores ++ new_store fresh name normalized chain ∷ [] })
    ]

-- What a worker read from an image.
pub record ParsedReceipt : Type 0 where
  pub raw_text : Text
  pub store_name : Option Text
  pub store_chain : Option Text
  pub purchase_date : Option ℕ
  pub total : Option Decimal
  pub items : List ReadLine
  pub extraction_json : Option Text
  pub quality : Option Text
  pub pipeline_version : Option Text

abbrev pub read_receipt : OcrReceipt → Option ℕ → ParsedReceipt → OcrReceipt
read_receipt receipt store_id parsed = record receipt {
  raw_ocr_text = some parsed.raw_text;
  store_id = store_id;
  purchase_date = parsed.purchase_date;
  total = parsed.total;
  status = receipt_ready;
  ocr_extraction_json = parsed.extraction_json;
  ocr_quality = parsed.quality;
  ocr_pipeline_version = parsed.pipeline_version;
}

-- `save_parsed_receipt`: the receipt's old lines make way for those that were read. Without the
-- receipt nothing is committed (`none`), and what the caller had written is lost with its session.
unfoldable pub save_parsed_receipt : ℕ → Option ℕ → ParsedReceipt → OcrDb → Option OcrDb
save_parsed_receipt receipt_id store_id parsed db =
    elim (find? (λ r. r.id == receipt_id) db.receipts) [
      | none ↦ none
      | some receipt ↦ some (record db {
        receipts = replace (λ r. r.id) (read_receipt receipt store_id parsed) db.receipts;
        receipt_lines =
            filter (λ l. not (l.receipt_id == receipt_id)) db.receipt_lines
            ++ map (λ line. record { receipt_id = receipt_id; line = line }) parsed.items;
      })
    ]
