-- ===== src/ShoppingList/Model.antt =====
-- backend/app/models/shopping_list.py and backend/app/schemas/shopping_list.py: the rows, the tables
-- that the service reads and writes, and the requests. A UUID is a number in the order of its
-- `str`, an instant is a number of seconds. A request has passed its schema.
use prislapp.Prelude.{Bool, List, Option, ℕ}
use prislapp.ListCopy.{LineType}
use prislapp.Prelude.Decimal.{Decimal}
use prislapp.Prelude.Text.{Text}
use prislapp.Units.{QuantityUnit}

-- The JSON of a sync cursor.
pub record CursorPayload : Type 0 where
  pub version : ℕ
  pub user_id : ℕ
  pub negative : Bool
  pub sequence : ℕ
  pub issued_at : ℕ

-- `MAX_ACTIVE_ITEMS` of shopping_list_service.py
abbrev pub max_active_items : ℕ
max_active_items = 200

pub data ShoppingListStatus : Type 0 where
  active archived : ShoppingListStatus

pub data ShoppingListOperation : Type 0 where
  list_create list_patch item_create item_patch list_copy list_from_receipt : ShoppingListOperation

pub record ShoppingList : Type 0 where
  pub id : ℕ
  pub user_id : ℕ
  pub name : Text
  pub status : ShoppingListStatus
  pub version : ℕ
  pub content_seq : ℕ
  pub created_at : ℕ
  pub updated_at : ℕ
  pub deleted_at : Option ℕ

pub record ShoppingListItem : Type 0 where
  pub id : ℕ
  pub user_id : ℕ
  pub list_id : ℕ
  pub user_product_id : Option ℕ
  pub free_text : Option Text
  pub quantity : Decimal
  pub quantity_unit : QuantityUnit
  pub checked : Bool
  pub position : ℕ
  pub version : ℕ
  pub sync_seq : ℕ
  pub created_at : ℕ
  pub updated_at : ℕ
  pub deleted_at : Option ℕ

pub record ItemResponse : Type 0 where
  pub id : ℕ
  pub user_product_id : Option ℕ
  pub free_text : Option Text
  pub quantity : Decimal
  pub quantity_unit : QuantityUnit
  pub checked : Bool
  pub position : ℕ
  pub version : ℕ
  pub deleted : Bool

pub record ListResponse : Type 0 where
  pub id : ℕ
  pub name : Text
  pub status : ShoppingListStatus
  pub version : ℕ
  pub deleted : Bool
  pub content_revision : ℕ
  pub created_at : ℕ
  pub updated_at : ℕ
  pub items : List ItemResponse

-- The body of a mutation's answer: a list or a line.
pub data Response : Type 0 where
  of_list : ListResponse → Response
  of_item : ItemResponse → Response

-- A stored idempotency key with its answer.
pub record ShoppingListMutation : Type 0 where
  pub user_id : ℕ
  pub operation : ShoppingListOperation
  pub mutation_id : ℕ
  pub payload_hash : ℕ
  pub list_id : ℕ
  pub item_id : Option ℕ
  pub response : Response

pub record ShoppingListSyncState : Type 0 where
  pub user_id : ℕ
  pub sequence : ℕ

pub record UserProduct : Type 0 where
  pub id : ℕ
  pub user_id : ℕ

pub record AccountLedger : Type 0 where
  pub user_id : ℕ
  pub price_data_version : ℕ

pub data ReceiptStatus : Type 0 where
  uploaded processing ready_for_review confirmed failed : ReceiptStatus

abbrev pub receipt_status_code : ReceiptStatus → ℕ
receipt_status_code uploaded = 0
receipt_status_code processing = 1
receipt_status_code ready_for_review = 2
receipt_status_code confirmed = 3
receipt_status_code failed = 4

pub record Receipt : Type 0 where
  pub id : ℕ
  pub user_id : ℕ
  pub status : ReceiptStatus

-- A revision of a receipt; `is_confirmed` says that its status is `confirmed`.
pub record ReceiptRevision : Type 0 where
  pub id : ℕ
  pub receipt_id : ℕ
  pub user_id : ℕ
  pub is_confirmed : Bool
  pub revision : ℕ

pub record ReceiptRevisionLine : Type 0 where
  pub id : ℕ
  pub revision_id : ℕ
  pub line_type : LineType
  pub raw_product_name : Text
  pub user_product_id : Option ℕ
  pub quantity : Option Decimal
  pub quantity_unit : QuantityUnit
  pub position : ℕ

pub record ReceiptItem : Type 0 where
  pub id : ℕ
  pub receipt_id : ℕ
  pub line_type : LineType
  pub raw_product_name : Text
  pub quantity : Decimal
  pub quantity_unit : QuantityUnit

-- The tables that the service reads or writes.
pub record Db : Type 0 where
  pub lists : List ShoppingList
  pub items : List ShoppingListItem
  pub mutations : List ShoppingListMutation
  pub sync_states : List ShoppingListSyncState
  pub products : List UserProduct
  pub ledgers : List AccountLedger
  pub receipts : List Receipt
  pub revisions : List ReceiptRevision
  pub revision_lines : List ReceiptRevisionLine
  pub receipt_items : List ReceiptItem

pub record ListCreateRequest : Type 0 where
  pub id : Option ℕ
  pub name : Text

pub record ListPatchRequest : Type 0 where
  pub expected_version : ℕ
  pub name : Option Text
  pub status : Option ShoppingListStatus
  pub deleted : Option Bool

pub record ListCopyRequest : Type 0 where
  pub id : Option ℕ
  pub name : Option Text
  pub unchecked_only : Bool

pub record ListFromReceiptRequest : Type 0 where
  pub receipt_id : ℕ
  pub id : Option ℕ
  pub name : Option Text

pub record ItemCreateRequest : Type 0 where
  pub id : Option ℕ
  pub user_product_id : Option ℕ
  pub free_text : Option Text
  pub quantity : Decimal
  pub quantity_unit : QuantityUnit
  pub checked : Bool
  pub position : Option ℕ

pub record ItemPatchRequest : Type 0 where
  pub expected_version : ℕ
  pub quantity : Option Decimal
  pub quantity_unit : Option QuantityUnit
  pub checked : Option Bool
  pub position : Option ℕ
  pub deleted : Option Bool

-- A request with the resource that its path or its sync entry names, without its mutation id.
pub data Request : Type 0 where
  create_list : ListCreateRequest → Request
  patch_list : ℕ → ListPatchRequest → Request
  copy_list : ℕ → ListCopyRequest → Request
  create_from_receipt : ListFromReceiptRequest → Request
  create_item : ℕ → ItemCreateRequest → Request
  patch_item : ℕ → ℕ → ItemPatchRequest → Request

abbrev pub operation_of : Request → ShoppingListOperation
operation_of (create_list _) = list_create
operation_of (patch_list _ _) = list_patch
operation_of (copy_list _ _) = list_copy
operation_of (create_from_receipt _) = list_from_receipt
operation_of (create_item _ _) = item_create
operation_of (patch_item _ _ _) = item_patch

-- The codes of `MutationRejected`, with what the conflict carries of the server's version.
pub data Rejection : Type 0 where
  not_found : Rejection
  validation_error duplicate_id : Rejection
  mutation_conflict : Rejection
  version_conflict : ℕ → Response → Rejection
  list_deleted list_archived item_deleted : Response → Rejection
  item_limit : Rejection
  cursor_expired : Rejection
