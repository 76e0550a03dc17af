-- ===== src/Revisions/Model.antt =====
-- backend/app/models/receipt_revision.py and backend/app/schemas/receipt_v2.py: the rows, the tables
-- and the requests. A date counts days and a time counts microseconds of the day; a column holds what
-- is written to it.
use prislapp.Prelude.{Bool, List, Option, false, true, ℕ}
use prislapp.ListCopy.{LineType}
use prislapp.Prelude.Decimal.{Decimal}
use prislapp.Prelude.Text.{Text}
use prislapp.Prices.History.{RankingExclusion}
use prislapp.Prices.Pricing.{Condition, DatePrecision, IdentityStatus, PriceBasis}
use prislapp.ShoppingList.Model.{AccountLedger, ReceiptItem, ReceiptStatus}
use prislapp.Units.{QuantityUnit}

pub data RevisionStatus : Type 0 where
  draft confirmed_revision : RevisionStatus

pub data ReconciliationStatus : Type 0 where
  balanced gap gap_accepted unverifiable : ReconciliationStatus

pub data ReceiptOperation : Type 0 where
  receipt_draft receipt_confirm receipt_revision : ReceiptOperation

-- backend/app/domain/pricing.py
pub data DateSource : Type 0 where
  from_ocr from_user source_unknown : DateSource

pub data ReconciliationReason : Type 0 where
  missing_printed_total unresolved_line_amounts : ReconciliationReason

pub data QualityStatus : Type 0 where
  rankable_dated rankable_undated : QualityStatus

-- backend/app/models/receipt.py: what a revision reads and writes. The purchase date is an instant: a
-- day and a time of the day.
pub record RevisedReceipt : Type 0 where
  pub id : ℕ
  pub user_id : ℕ
  pub status : ReceiptStatus
  pub version : ℕ
  pub purchase_date : Option (ℕ × ℕ)
  pub purchase_time : Option ℕ
  pub date_precision : DatePrecision
  pub date_source : DateSource
  pub total : Option Decimal

pub record Reconciliation : Type 0 where
  pub status : ReconciliationStatus
  pub printed_total : Option Decimal
  pub computed_total : Decimal
  pub difference : Option Decimal
  pub gap_accepted_by_user : Bool
  pub reason : Option ReconciliationReason

pub record Revision : Type 0 where
  pub id : ℕ
  pub receipt_id : ℕ
  pub user_id : ℕ
  pub revision : ℕ
  pub status : RevisionStatus
  pub operation : ReceiptOperation
  pub mutation_id : ℕ
  pub payload_hash : ℕ
  pub user_store_id : Option ℕ
  pub purchase_date : Option ℕ
  pub purchase_time : Option ℕ
  pub date_precision : DatePrecision
  pub date_source : DateSource
  pub reconciliation : Reconciliation
  pub confirmed_at : Option ℕ

pub record RevisionLine : Type 0 where
  pub id : ℕ
  pub revision_id : ℕ
  pub line_id : ℕ
  pub position : ℕ
  pub raw_product_name : Text
  pub user_product_id : Option ℕ
  pub quantity : Option Decimal
  pub quantity_unit : QuantityUnit
  pub line_type : LineType
  pub net_line_total : Option Decimal
  pub printed_unit_price : Option Decimal
  pub price_basis : PriceBasis
  pub condition : Condition
  pub comparison_price : Option Decimal
  pub eligible : Bool
  pub eligible_for_dated_ranking : Bool
  pub exclusion_reasons : List RankingExclusion

pub record PriceObservationV2 : Type 0 where
  pub id : ℕ
  pub user_id : ℕ
  pub user_product_id : Option ℕ
  pub user_store_id : ℕ
  pub receipt_id : ℕ
  pub revision_id : ℕ
  pub line_id : ℕ
  pub revision : ℕ
  pub price : Decimal
  pub price_basis : PriceBasis
  pub quantity_unit : QuantityUnit
  pub purchase_date : Option ℕ
  pub date_precision : DatePrecision
  pub condition : Condition
  pub quality_status : QualityStatus
  pub is_current : Bool

-- The older observations of backend/app/models/product.py, and the lines that they belong to.
pub record PriceObservation : Type 0 where
  pub id : ℕ
  pub receipt_item_id : ℕ

pub record OwnedProduct : Type 0 where
  pub id : ℕ
  pub user_id : ℕ
  pub identity_status : IdentityStatus
  pub pack_content : Option Decimal
  pub pack_unit : QuantityUnit

pub record UserStore : Type 0 where
  pub id : ℕ
  pub user_id : ℕ
  pub display_name : Text
  pub is_branch : Bool

pub record RevisionResponse : Type 0 where
  pub receipt_id : ℕ
  pub revision : ℕ
  pub status : RevisionStatus
  pub price_data_version : ℕ
  pub reconciliation : Reconciliation

pub record ReceiptMutation : Type 0 where
  pub user_id : ℕ
  pub operation : ReceiptOperation
  pub mutation_id : ℕ
  pub payload_hash : ℕ
  pub receipt_id : ℕ
  pub response : RevisionResponse

pub record RevisionDb : Type 0 where
  pub receipts : List RevisedReceipt
  pub revisions : List Revision
  pub lines : List RevisionLine
  pub observations : List PriceObservationV2
  pub old_observations : List PriceObservation
  pub receipt_items : List ReceiptItem
  pub products : List OwnedProduct
  pub stores : List UserStore
  pub mutations : List ReceiptMutation
  pub ledgers : List AccountLedger

pub record ReceiptLineInput : Type 0 where
  pub id : ℕ
  pub raw_product_name : Text
  pub user_product_id : Option ℕ
  pub quantity : Option Decimal
  pub quantity_unit : QuantityUnit
  pub line_type : LineType
  pub net_line_total : Option Decimal
  pub printed_unit_price : Option Decimal
  pub price_basis : PriceBasis
  pub condition : Condition

pub record ReceiptDraftRequest : Type 0 where
  pub expected_version : ℕ
  pub mutation_id : ℕ
  pub store_id : Option ℕ
  pub purchase_date : Option ℕ
  pub purchase_time : Option ℕ
  pub date_precision : DatePrecision
  pub printed_total : Option Decimal
  pub lines : List ReceiptLineInput

pub record ReceiptConfirmRequest : Type 0 where
  pub content : ReceiptDraftRequest
  pub accept_reconciliation_gap : Bool

-- The errors that the service raises as an `ApiError`.
pub data ApiError : Type 0 where
  not_found mutation_conflict duplicate_line_id : ApiError
  version_conflict : ℕ → ApiError
  receipt_state_conflict : ReceiptStatus → ApiError
  reconciliation_gap : Decimal → ApiError

-- What a part of the service ends with: a value, an `ApiError`, or an exception that nothing catches,
-- the database's `IntegrityError` or one of the decimal arithmetic.
pub data Answer {ℓ} (A : Type ℓ) : Type ℓ where
  ok : A → Answer A
  refused : ApiError → Answer A
  integrity_error arithmetic_error : Answer A

module _ {A B : Type 0} where
  infixl 5 ◌>>=◌ ◌>>◌
  abbrev pub ◌>>=◌ : Answer A → (A → Answer B) → Answer B
  ok a >>= f = f a
  refused e >>= f = refused e
  integrity_error >>= f = integrity_error
  arithmetic_error >>= f = arithmetic_error

  abbrev pub ◌>>◌ : Answer A → Answer B → Answer B
  m >> n = m >>= λ _. n

-- `if test: raise error`
abbrev pub refuse_if : Bool → ApiError → Answer (Unit {0})
refuse_if true e = refused e
refuse_if false e = ok tt
