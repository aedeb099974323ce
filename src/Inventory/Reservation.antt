-- ===== src/Inventory/Reservation.antt =====
-- `reserveStock` and `releaseStock` of
-- backend/src/inventory/services/stock-reservation.service.ts: they move a base quantity between
-- the AVAILABLE and the RESERVED row of one location, product, batch and unit. The field
-- `reason`, which goes into an event's metadata, is left out.
mod Steps
pub mod Totals
pub mod RoundTrip
pub mod Outcome
use Prim.Native.String.{String}
use pasalho.Prelude.{ℕ, Bool, Option, none, some, List, [], ◌∷◌, if◌then◌else◌}
use pasalho.Prelude.Int.{ℤ, pos, pos_part, ◌+ℤ◌, ◌-ℤ◌, ◌*ℤ◌, -ℤ◌, ltb_ℤ, leb_ℤ, round_div}
use pasalho.Prelude.Result.{
  Result, ok, err, app_error, insufficient_stock, validation_error, Tx, Action, ◌>>=◌, ◌>>◌, pure,
  throw_if, transaction, committed,
}
use pasalho.Audit.{ReferenceType, product, AuditEntry, AuditAction, stock_adjustment_posted, log}
use pasalho.Inventory.Data.{
  StockKey, StockState, available, reserved, Snapshot, EventType, manual_adjustment, posted,
  MovementType, stock_in, adjustment, MovementInput, PostEventInput, Inventory,
}
use pasalho.Inventory.Snapshots.{find_snapshot, update_snapshot, delete_snapshot, create_snapshot}
use pasalho.Inventory.Ledger.{on_snapshots, create_event, create_movement}

pub record ReserveStockInput : Type 0 where
  pub branch : ℕ
  pub location : ℕ
  pub product : ℕ
  pub batch : Option ℕ
  pub unit : ℕ
  pub quantity : ℤ
  pub base_quantity : ℤ
  pub reference_type : ReferenceType
  pub reference_id : ℕ
  pub created_by : ℕ

abbrev pub key_of : ReserveStockInput → StockState → StockKey
key_of input state = record {
  location = input.location;
  product = input.product;
  batch = input.batch;
  state = state;
  unit = input.unit;
}

-- Steps 1 and 2 of `reserveStock`: the AVAILABLE row is checked and reduced. Its display quantity
-- keeps its ratio to the base quantity, rounded to the last decimal place of the column.
unfoldable pub deduct_available : ReserveStockInput → List Snapshot → Result (List Snapshot)
deduct_available input rows = elim (find_snapshot (key_of input available) rows) [
  | none ↦ err (app_error insufficient_stock 422)
  | some row ↦
      let new_avail_base = row.base_quantity -ℤ input.base_quantity in
      let new_avail_qty = round_div (new_avail_base *ℤ row.quantity) row.base_quantity in
      if ltb_ℤ row.base_quantity input.base_quantity
      then err (app_error insufficient_stock 422)
      else ok (update_snapshot (key_of input available) new_avail_qty new_avail_base none rows)
]

-- Step 3 of both: the row in `state` is increased, or opened.
unfoldable pub add_to : StockState → ReserveStockInput → List Snapshot → Result (List Snapshot)
add_to state input rows = elim (find_snapshot (key_of input state) rows) [
  | some row ↦ ok (
      update_snapshot (key_of input state) (row.quantity +ℤ input.quantity)
        (row.base_quantity +ℤ input.base_quantity) none rows)
  | none ↦ create_snapshot (key_of input state) input.quantity input.base_quantity none rows
]

-- Steps 1 and 2 of `releaseStock`: the RESERVED row is checked, and reduced or deleted.
unfoldable pub deduct_reserved : ReserveStockInput → List Snapshot → Result (List Snapshot)
deduct_reserved input rows = elim (find_snapshot (key_of input reserved) rows) [
  | none ↦ err (app_error insufficient_stock 422)
  | some row ↦
      let new_res_base = row.base_quantity -ℤ input.base_quantity in
      let new_res_qty =
        if ltb_ℤ (pos 0) row.base_quantity
        then round_div (new_res_base *ℤ row.quantity) row.base_quantity
        else new_res_base in
      if ltb_ℤ row.base_quantity input.base_quantity
      then err (app_error insufficient_stock 422)
      else if leb_ℤ new_res_base (pos 0)
      then ok (delete_snapshot (key_of input reserved) rows)
      else ok (update_snapshot (key_of input reserved) new_res_qty new_res_base none rows)
]

abbrev pub event_of : ReserveStockInput → PostEventInput
event_of input = record {
  event_type = manual_adjustment;
  branch = input.branch;
  reference_type = input.reference_type;
  reference_id = input.reference_id;
  created_by = input.created_by;
  approved_by = none;
  idempotency_key = none;
  movements = [];
}

-- The movement of the reserved quantity out of a state, and the one into a state.
abbrev pub moved_out : ReserveStockInput → StockState → MovementType → String → MovementInput
moved_out input state movement_type reason = record {
  key = key_of input state;
  quantity_delta = -ℤ◌ input.quantity;
  base_quantity_delta = -ℤ◌ input.base_quantity;
  movement_type = movement_type;
  reason_code = some reason;
}

abbrev pub moved_in : ReserveStockInput → StockState → MovementType → String → MovementInput
moved_in input state movement_type reason = record {
  key = key_of input state;
  quantity_delta = input.quantity;
  base_quantity_delta = input.base_quantity;
  movement_type = movement_type;
  reason_code = some reason;
}

-- `reserveStock` inside a transaction; it returns the event and the base quantity.
unfoldable pub reserve : ReserveStockInput → Tx Inventory (ℕ × ℤ)
reserve input = do
  throw_if (leb_ℤ input.base_quantity (pos 0)) (app_error validation_error 422)
  on_snapshots (deduct_available input)
  on_snapshots (add_to reserved input)
  event ← create_event (event_of input) posted
  create_movement event (event_of input) (moved_out input available adjustment "STOCK_RESERVED")
  create_movement event (event_of input) (moved_in input reserved adjustment "STOCK_RESERVED")
  pure (event, input.base_quantity)

-- `releaseStock` inside a transaction.
unfoldable pub release : ReserveStockInput → Tx Inventory (ℕ × ℤ)
release input = do
  throw_if (leb_ℤ input.base_quantity (pos 0)) (app_error validation_error 422)
  on_snapshots (deduct_reserved input)
  on_snapshots (add_to available input)
  event ← create_event (event_of input) posted
  create_movement event (event_of input)
      (moved_out input reserved adjustment "RESERVATION_RELEASED")
  create_movement event (event_of input) (moved_in input available stock_in "RESERVATION_RELEASED")
  pure (event, input.base_quantity)

abbrev audit_of : ReserveStockInput → AuditEntry
audit_of input = record {
  actor = input.created_by;
  action = stock_adjustment_posted;
  entity_type = product;
  entity_id = input.product;
  branch = some input.branch;
}

abbrev with_audit : AuditEntry → Inventory → Inventory
with_audit e db = record db { audit = log e db.audit }

-- `reserveStock` and `releaseStock` as the controller calls them, with no transaction given.
unfoldable pub reserve_stock : ReserveStockInput → Action Inventory (ℕ × ℤ)
reserve_stock input = committed (transaction (reserve input)) (λ r. with_audit (audit_of input))

unfoldable pub release_stock : ReserveStockInput → Action Inventory (ℕ × ℤ)
release_stock input = committed (transaction (release input)) (λ r. with_audit (audit_of input))
