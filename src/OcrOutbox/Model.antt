-- ===== src/OcrOutbox/Model.antt =====
-- backend/app/models/job_outbox.py and the tables around it. There is one job type and one
-- aggregate type, and a job's payload repeats its aggregate id, so a row does not keep them.
use prislapp.Prelude.{List, Option, ℕ}
use prislapp.Prelude.Decimal.{Decimal}
use prislapp.Prelude.Text.{Text}
use prislapp.ShoppingList.Model.{ReceiptStatus}

pub data JobOutboxStatus : Type 0 where
  pending published processing done failed_permanent : JobOutboxStatus

-- The error codes of ocr_outbox.py and of `_error_code` in worker/tasks.py.
pub data ErrorCode : Type 0 where
  account_deleted receipt_missing max_attempts empty_ocr storage_error ocr_failed : ErrorCode

pub record JobOutbox : Type 0 where
  pub id : ℕ
  pub user_id : ℕ
  pub aggregate_id : ℕ
  pub status : JobOutboxStatus
  pub attempt_id : Option ℕ
  pub lease_expires_at : Option ℕ
  pub attempt_count : ℕ
  pub last_error_code : Option ErrorCode
  pub created_at : ℕ
  pub published_at : Option ℕ

pub record User : Type 0 where
  pub id : ℕ
  pub deleted_at : Option ℕ

-- What is read from an image; `extraction` stands for the metadata in JSON.
pub record ReadLine : Type 0 where
  pub raw_product_name : Text
  pub quantity : Decimal
  pub unit_price : Option Decimal
  pub line_total : Decimal

pub record OcrReceipt : Type 0 where
  pub id : ℕ
  pub user_id : ℕ
  pub status : ReceiptStatus
  pub image_path : Text
  pub raw_ocr_text : Option Text
  pub store_id : Option ℕ
  pub purchase_date : Option ℕ
  pub total : Option Decimal
  pub ocr_extraction_json : Option Text
  pub ocr_quality : Option Text
  pub ocr_pipeline_version : Option Text

-- A line of a receipt, with the receipt that it belongs to.
pub record StoredLine : Type 0 where
  pub receipt_id : ℕ
  pub line : ReadLine

pub record Store : Type 0 where
  pub id : ℕ
  pub name : Text
  pub normalized_name : Text
  pub chain : Option Text

pub record OcrDb : Type 0 where
  pub jobs : List JobOutbox
  pub users : List User
  pub receipts : List OcrReceipt
  pub receipt_lines : List StoredLine
  pub stores : List Store

-- The settings of config.py that the outbox uses.
pub record Settings : Type 0 where
  pub outbox_reconcile_min_age_seconds : ℕ
  pub outbox_lease_seconds : ℕ
  pub outbox_max_attempts : ℕ
  pub ready_stale_pending_seconds : ℕ

-- Their defaults.
abbrev pub default_settings : Settings
default_settings = record {
  outbox_reconcile_min_age_seconds = 5;
  outbox_lease_seconds = 300;
  outbox_max_attempts = 5;
  ready_stale_pending_seconds = 60;
}

pub record ClaimedOcrJob : Type 0 where
  pub outbox_id : ℕ
  pub attempt_id : ℕ
  pub image_path : Text
