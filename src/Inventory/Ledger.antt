-- ===== src/Inventory/Ledger.antt =====
-- backend/src/inventory/services/inventory-ledger.service.ts: events with their movements, and
-- the snapshot rows that they change. `findMany` listings are not modelled. The input of a call
-- without a transaction of its own is `transaction (post_event input)`.
pub mod Effects
pub mod Posting
pub mod Keys
use pasalho.Prelude.{
  ℕ, ◌+◌, Bool, false, Option, none, some, List, [], ◌∷◌, ◌++◌, if◌then◌else◌, is_some, not, ◌&&◌,
}
use pasalho.Prelude.Int.{ℤ, pos, ◌+ℤ◌, ltb_ℤ}
use pasalho.Prelude.Result.{
  Result, ok, err, app_error, insufficient_stock, validation_error, p2002, Tx, ◌>>=◌, ◌>>◌,
  for_each, pure,
}
use pasalho.Inventory.Data.{
  StockKey, available, Snapshot, Event, EventKey, EventStatus, posted, Movement, MovementInput,
  PostEventInput, Inventory, same_event_key,
}
use pasalho.Inventory.Snapshots.{find_snapshot, update_snapshot, create_snapshot}

-- `assertSnapshotWillNotGoNegative`
unfoldable pub assert_snapshot_will_not_go_negative : ℤ → ℤ → Result (Unit {0})
assert_snapshot_will_not_go_negative current_base delta =
    if ltb_ℤ (current_base +ℤ delta) (pos 0) then err (app_error insufficient_stock 422) else ok tt

-- `calculateNextBaseQuantity`
unfoldable pub calculate_next_base_quantity : ℤ → ℤ → ℤ
calculate_next_base_quantity current delta = current +ℤ delta

-- `assertBatchRequirements`
unfoldable pub assert_batch_requirements : Bool → Option ℕ → Result (Unit {0})
assert_batch_requirements is_batch_tracked batch =
    if is_batch_tracked && not (is_some batch) then err (app_error validation_error 422) else ok tt

unfoldable pub has_key : EventKey → Option EventKey → Bool
has_key k none = false
has_key k (some j) = same_event_key k j

-- `inventoryEvent.findUnique({ where: { idempotencyKey } })`
unfoldable pub find_event : EventKey → List Event → Option Event
unfolding has_key
find_event k [] = none
find_event k (e ∷ es) = if has_key k e.idempotency_key then some e else find_event k es

unfoldable pub existing_event : Option EventKey → List Event → Option Event
unfolding find_event
existing_event none es = none
existing_event (some k) es = find_event k es

abbrev pub event_row : PostEventInput → EventStatus → ℕ → Event
event_row input status id = record {
  id = id;
  event_type = input.event_type;
  event_status = status;
  branch = input.branch;
  reference_type = input.reference_type;
  reference_id = input.reference_id;
  created_by = input.created_by;
  approved_by = input.approved_by;
  idempotency_key = input.idempotency_key;
}

-- `inventoryEvent.create`, under the unique index on the idempotency key.
unfoldable pub create_event : PostEventInput → EventStatus → Tx Inventory ℕ
unfolding existing_event
create_event input status db =
    if is_some (existing_event input.idempotency_key db.events)
    then err p2002
    else ok (
      db.next_id,
      record db {
        events = db.events ++ event_row input status db.next_id ∷ [];
        next_id = db.next_id + 1;
      },
    )

abbrev pub movement_row : ℕ → PostEventInput → MovementInput → ℕ → Movement
movement_row event input m id = record {
  id = id;
  event = event;
  branch = input.branch;
  key = m.key;
  quantity_delta = m.quantity_delta;
  base_quantity_delta = m.base_quantity_delta;
  movement_type = m.movement_type;
  reference_type = input.reference_type;
  reference_id = input.reference_id;
  reason_code = m.reason_code;
  created_by = input.created_by;
}

abbrev pub with_movement : ℕ → PostEventInput → MovementInput → Inventory → Inventory
with_movement event input m db = record db {
  movements = db.movements ++ movement_row event input m db.next_id ∷ [];
  next_id = db.next_id + 1;
}

-- `inventoryMovement.create`
unfoldable pub create_movement : ℕ → PostEventInput → MovementInput → Tx Inventory ℕ
create_movement event input m db = ok (db.next_id, with_movement event input m db)

-- The snapshot half of `applyMovementWithinTransaction`.
unfoldable pub apply_snapshot : MovementInput → ℕ → List Snapshot → Result (List Snapshot)
apply_snapshot m movement rows = elim (find_snapshot m.key rows) [
  | some snapshot ↦
      let new_base_qty = snapshot.base_quantity +ℤ m.base_quantity_delta in
      let new_qty = snapshot.quantity +ℤ m.quantity_delta in
      if ltb_ℤ new_base_qty (pos 0)
      then err (app_error insufficient_stock 422)
      else ok (update_snapshot m.key new_qty new_base_qty (some movement) rows)
  | none ↦
      if ltb_ℤ m.base_quantity_delta (pos 0)
      then err (app_error insufficient_stock 422)
      else create_snapshot m.key m.quantity_delta m.base_quantity_delta (some movement) rows
]

abbrev pub with_rows : Inventory → Result (List Snapshot) → Result (Unit {0} × Inventory)
with_rows db (ok rows) = ok (tt, record db { snapshots = rows })
with_rows db (err e) = err e

-- Runs a change of the snapshot table in the transaction.
abbrev pub on_snapshots : (List Snapshot → Result (List Snapshot)) → Tx Inventory Unit
on_snapshots f db = with_rows db (f db.snapshots)

-- `applyMovementWithinTransaction`
unfoldable pub apply_movement : ℕ → PostEventInput → MovementInput → Tx Inventory Unit
unfolding create_movement
apply_movement event input m = do
  movement ← create_movement event input m
  on_snapshots (apply_snapshot m movement)

unfoldable pub post_new_event : PostEventInput → Tx Inventory ℕ
post_new_event input = do
  event ← create_event input posted
  for_each (apply_movement event input) input.movements
  pure event

-- `postEvent`: an event that has been posted under the key is returned as it is.
unfoldable pub post_event : PostEventInput → Tx Inventory ℕ
unfolding existing_event
post_event input db = elim (existing_event input.idempotency_key db.events) [
  | some existing ↦ ok (existing.id, db)
  | none ↦ post_new_event input db
]

-- `validateAndLockStock`
unfoldable pub validate_and_lock_stock : StockKey → ℤ → Tx Inventory Snapshot
validate_and_lock_stock k required_base_qty db =
    elim (find_snapshot (record k { state = available }) db.snapshots) [
      | none ↦ err (app_error insufficient_stock 422)
      | some snapshot ↦
          if ltb_ℤ snapshot.base_quantity required_base_qty
          then err (app_error insufficient_stock 422)
          else ok (snapshot, db)
    ]
