-- ===== src/ShoppingList.antt =====
-- backend/app/services/shopping_list_service.py with its models and schemas: shopping lists with
-- ownership, idempotent mutations, tombstones and incremental sync.
pub mod Model
pub mod Exec
pub mod Responses
pub mod Validation
pub mod Queries
pub mod Sequence
pub mod Evolution
pub mod Invariant
pub mod Lists
pub mod Items
pub mod Copies
pub mod Mutations
pub mod Sync
pub mod Paging
