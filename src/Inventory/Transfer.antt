-- ===== src/Inventory/Transfer.antt =====
-- `confirm`, `dispatch` and `acknowledgeStoreReceipt` of
-- backend/src/inventory/services/stock-transfer.service.ts: stock leaves a branch, is in transit,
-- and is cleared when the store has acknowledged it. `dispatch_hash` and `receipt_hash` are the
-- SHA-256 hashes of the requests. `confirm` and `acknowledgeStoreReceipt` are modelled inside their
-- transactions, after which they write an audit row; `create` is not modelled.
pub mod Receipt
pub mod Custody
pub mod Moves
pub mod Sync
pub mod Once
use pasalho.Prelude.{
  ℕ, Bool, true, false, Option, none, some, List, [], ◌∷◌, ◌++◌, ◌==◌, ◌&&◌, not, if◌then◌else◌,
  find_row, update_row, length,
}
use pasalho.Prelude.Int.{ℤ, pos, ◌+ℤ◌, -ℤ◌, leb_ℤ}
use pasalho.Prelude.Result.{
  Result, ok, err, app_error, not_found, validation_error, conflict, p2025, Tx, ◌>>=◌, ◌>>◌, pure,
  throw_if, lift, modify,
}
use pasalho.Audit
use pasalho.Inventory.Data.{
  StockKey, StockState, EventType, EventKey, EventStatus, MovementType, MovementInput,
  PostEventInput, Inventory,
}
use pasalho.Inventory.Ledger.{post_event, create_event}

pub data TransferStatus : Type 0 where
  draft confirmed in_transit shipped received cancelled : TransferStatus

pub record TransferItem : Type 0 where
  pub product : ℕ
  pub batch : Option ℕ
  pub unit : ℕ
  pub quantity : ℤ
  pub base_quantity : ℤ
  pub received_quantity : Option ℤ
  pub received_base_quantity : Option ℤ

-- A row of `StockTransfer` with its items and the code of the destination branch.
pub record Transfer : Type 0 where
  pub id : ℕ
  pub from_branch : ℕ
  pub from_location : ℕ
  pub to_branch : ℕ
  pub to_branch_code : ℕ
  pub status : TransferStatus
  pub created_by : ℕ
  pub dispatched_by : Option ℕ
  pub items : List TransferItem

-- Whether the request of a key has been completed, in one of the two scopes.
pub record RequestRecord : Type 0 where
  pub key : ℕ
  pub request_hash : ℕ
  pub is_completed : Bool
  pub resource_id : Option ℕ

pub record Depot : Type 0 where
  pub stock : Inventory
  pub transfers : List Transfer
  pub dispatches : List RequestRecord
  pub receipts : List RequestRecord

-- A step of the stock ledger in the same transaction.
unfoldable pub in_stock : {A : Type 0} → Tx Inventory A → Tx Depot A
in_stock m db = elim (m db.stock) [ ok (a, s) ↦ ok (a, record db { stock = s }) | err e ↦ err e ]

abbrev pub find_transfer : ℕ → List Transfer → Option Transfer
find_transfer = find_row (λ (t : Transfer). t.id)

-- `lockTransfer` and the read that follows it.
unfoldable pub locked_transfer : ℕ → Depot → Result Transfer
locked_transfer id db = elim (find_transfer id db.transfers) [
  | none ↦ err (app_error not_found 404)
  | some t ↦ ok t
]

-- `stockTransfer.update`, of the row that has been locked.
abbrev pub update_transfer : ℕ → (Transfer → Transfer) → Tx Depot Unit
update_transfer id f = modify (λ (db : Depot). record db {
  transfers = update_row (λ (t : Transfer). t.id) id f db.transfers;
})

abbrev pub find_record : ℕ → List RequestRecord → Option RequestRecord
find_record = find_row (λ (r : RequestRecord). r.key)

-- `beginIdempotency`
unfoldable pub begin_idempotency : ℕ → ℕ → List RequestRecord → Result (List RequestRecord)
begin_idempotency key hash rs = elim (find_record key rs) [
  | some r ↦
      if not (r.request_hash == hash)
      then err (app_error conflict 409)
      else if r.is_completed
      then ok rs
      else err (app_error conflict 409)
  | none ↦ ok (
      rs
      ++ record { key = key; request_hash = hash; is_completed = false; resource_id = none } ∷ [])
]

-- `completeIdempotency`
unfoldable pub complete_idempotency : ℕ → ℕ → List RequestRecord → Result (List RequestRecord)
complete_idempotency key id rs = elim (find_record key rs) [
  | none ↦ err p2025
  | some r ↦ ok (
      update_row (λ (r : RequestRecord). r.key) key
        (λ (r : RequestRecord). record r { is_completed = true; resource_id = some id }) rs)
]

abbrev pub with_dispatches : Depot → Result (List RequestRecord) → Result (Unit {0} × Depot)
with_dispatches db (ok rs) = ok (tt, record db { dispatches = rs })
with_dispatches db (err e) = err e

abbrev pub with_receipts : Depot → Result (List RequestRecord) → Result (Unit {0} × Depot)
with_receipts db (ok rs) = ok (tt, record db { receipts = rs })
with_receipts db (err e) = err e

abbrev pub set_status : TransferStatus → Transfer → Transfer
set_status status t = record t { status = status }

unfoldable pub confirm_found : Transfer → Tx Depot Transfer
confirm_found t = elim t.status [
  | confirmed ↦ pure t
  | draft ↦ (do update_transfer t.id (set_status confirmed); pure (set_status confirmed t))
  | _ ↦ λ (db : Depot). err (app_error validation_error 422)
]

-- `confirm` inside its transaction.
unfoldable pub confirm : ℕ → Tx Depot Transfer
confirm id = do t ← lift (locked_transfer id); confirm_found t

abbrev pub key_of : Transfer → TransferItem → StockState → StockKey
key_of t item state = record {
  location = t.from_location;
  product = item.product;
  batch = item.batch;
  state = state;
  unit = item.unit;
}

abbrev pub ship_out : Transfer → TransferItem → MovementInput
ship_out t item = record {
  key = key_of t item StockState.available;
  quantity_delta = -ℤ◌ item.quantity;
  base_quantity_delta = -ℤ◌ item.base_quantity;
  movement_type = MovementType.transfer_out;
  reason_code = some "TRANSFER_SHIP_OUT";
}

abbrev pub ship_in : Transfer → TransferItem → MovementInput
ship_in t item = record {
  key = key_of t item StockState.in_transit;
  quantity_delta = item.quantity;
  base_quantity_delta = item.base_quantity;
  movement_type = MovementType.transfer_out;
  reason_code = some "TRANSFER_IN_TRANSIT";
}

unfoldable pub dispatch_movements : Transfer → List TransferItem → List MovementInput
dispatch_movements t [] = []
dispatch_movements t (item ∷ items) = ship_out t item ∷ ship_in t item ∷ dispatch_movements t items

abbrev pub arrived : Transfer → TransferItem → MovementInput
arrived t item = record {
  key = key_of t item StockState.in_transit;
  quantity_delta = -ℤ◌ item.quantity;
  base_quantity_delta = -ℤ◌ item.base_quantity;
  movement_type = MovementType.transfer_in;
  reason_code = some "STORE_RECEIPT_ACKNOWLEDGED";
}

unfoldable pub receipt_movements : Transfer → List TransferItem → List MovementInput
receipt_movements t [] = []
receipt_movements t (item ∷ items) = arrived t item ∷ receipt_movements t items

abbrev pub transfer_event : Transfer → ℕ → ℕ → EventKey → List MovementInput → PostEventInput
transfer_event t branch actor key movements = record {
  event_type = EventType.stock_transfer;
  branch = branch;
  reference_type = Audit.stock_transfer;
  reference_id = t.id;
  created_by = actor;
  approved_by = none;
  idempotency_key = some key;
  movements = movements;
}

abbrev pub dispatch_event : Transfer → ℕ → PostEventInput
dispatch_event t actor =
    transfer_event t t.from_branch actor (EventKey.transfer_dispatch t.id)
      (dispatch_movements t t.items)

-- The event of `ensureStoreSyncOutbox`, which waits as a draft for its delivery.
abbrev pub outbox_event : Transfer → ℕ → PostEventInput
outbox_event t actor = transfer_event t t.to_branch actor (EventKey.store_sync t.id) []

abbrev pub dispatched_by : ℕ → Transfer → Transfer
dispatched_by actor t = record t { status = in_transit; dispatched_by = some actor }

unfoldable pub dispatch_confirmed : Transfer → ℕ → ℕ → ℕ → Tx Depot Transfer
dispatch_confirmed t actor key hash = do
  λ (db : Depot). with_dispatches db (begin_idempotency key hash db.dispatches)
  in_stock (post_event (dispatch_event t actor))
  update_transfer t.id (dispatched_by actor)
  in_stock (create_event (outbox_event t actor) EventStatus.draft)
  λ (db : Depot). with_dispatches db (complete_idempotency key t.id db.dispatches)
  pure (dispatched_by actor t)

unfoldable pub dispatch_found : Transfer → ℕ → ℕ → ℕ → Tx Depot Transfer
dispatch_found t actor key hash = elim t.status [
  | in_transit ↦ pure t
  | shipped ↦ pure t
  | received ↦ pure t
  | confirmed ↦ dispatch_confirmed t actor key hash
  | _ ↦ λ (db : Depot). err (app_error validation_error 422)
]

-- `dispatch` inside its transaction, once there is an idempotency key.
unfoldable pub dispatch_in : (ℕ → ℕ) → ℕ → ℕ → ℕ → Tx Depot Transfer
dispatch_in dispatch_hash id actor key = do
  t ← lift (locked_transfer id)
  dispatch_found t actor key (dispatch_hash id)
