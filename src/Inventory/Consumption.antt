-- ===== src/Inventory/Consumption.antt =====
-- `consumeForOrder` and `consumeForOnlineDispatch` of
-- backend/src/inventory/services/stock-reservation.service.ts: the reserved stock of an order
-- leaves the inventory when its invoice is posted, or when an online order is dispatched. The
-- rows with the locked ids are the open reservations themselves, since ids are unique.
pub mod Once
pub mod Takes
pub mod Dispatch
use pasalho.Prelude.{
  ℕ, Bool, true, false, Option, none, some, List, [], ◌∷◌, ◌++◌, ◌==◌, ◌&&◌, if◌then◌else◌, map,
  all, length,
}
use Prim.Native.String.{String}
use pasalho.Prelude.Int.{ -ℤ◌}
use pasalho.Prelude.Result.{
  err, app_error, conflict, validation_error, Tx, ◌>>=◌, ◌>>◌, pure, throw_if, modify,
}
use pasalho.Audit.{invoice, sales_order}
use pasalho.Inventory.Data.{
  reserved, EventType, sale_deducted, invoice_reservation_consume, online_order_dispatch,
  ReservationStatus, active, consumed, ReservationItem, Reservation, MovementType, sale_deduction,
  MovementInput, PostEventInput, Inventory,
}
use pasalho.Inventory.Ledger.{post_event}

abbrev pub is_active : ReservationStatus → Bool
is_active active = true
is_active _ = false

abbrev pub is_consumed : ReservationStatus → Bool
is_consumed consumed = true
is_consumed _ = false

-- `WHERE "salesOrderId" = ... AND status = 'ACTIVE'`
abbrev pub is_open : ℕ → Reservation → Bool
is_open order r = (r.sales_order == order) && is_active r.status

unfoldable pub filter {ℓ} : {A : Type ℓ} → (A → Bool) → List A → List A
filter p [] = []
filter p (x ∷ xs) = if p x then x ∷ filter p xs else filter p xs

abbrev pub is_empty {ℓ} : {A : Type ℓ} → List A → Bool
is_empty [] = true
is_empty (x ∷ xs) = false

abbrev pub movement_of : String → ℕ → ReservationItem → MovementInput
movement_of reason location item = record {
  key = record {
    location = location;
    product = item.product;
    batch = item.batch;
    state = reserved;
    unit = item.unit;
  };
  quantity_delta = -ℤ◌ item.quantity;
  base_quantity_delta = -ℤ◌ item.base_quantity;
  movement_type = sale_deduction;
  reason_code = some reason;
}

-- `reservations.flatMap`
unfoldable pub movements_of : String → List Reservation → List MovementInput
movements_of reason [] = []
movements_of reason (r ∷ rs) = map (movement_of reason r.location) r.items ++ movements_of reason rs

-- `stockReservation.updateMany`
unfoldable pub mark_consumed : ℕ → List Reservation → List Reservation
mark_consumed order [] = []
mark_consumed order (r ∷ rs) =
    (if is_open order r then record r { status = consumed } else r) ∷ mark_consumed order rs

pub record Consumed : Type 0 where
  pub event : ℕ
  pub reservation_ids : List ℕ
  pub movement_count : ℕ

pub record ConsumeInput : Type 0 where
  pub sales_order : ℕ
  pub invoice : ℕ
  pub branch : ℕ
  pub created_by : ℕ

pub record DispatchInput : Type 0 where
  pub sales_order : ℕ
  pub branch : ℕ
  pub created_by : ℕ

-- The event of an order's invoice, and the one of its dispatch.
abbrev pub invoice_event : ConsumeInput → List MovementInput → PostEventInput
invoice_event input movements = record {
  event_type = sale_deducted;
  branch = input.branch;
  reference_type = invoice;
  reference_id = input.invoice;
  created_by = input.created_by;
  approved_by = none;
  idempotency_key = some (invoice_reservation_consume input.invoice);
  movements = movements;
}

abbrev pub dispatch_event : DispatchInput → List MovementInput → PostEventInput
dispatch_event input movements = record {
  event_type = sale_deducted;
  branch = input.branch;
  reference_type = sales_order;
  reference_id = input.sales_order;
  created_by = input.created_by;
  approved_by = none;
  idempotency_key = some (online_order_dispatch input.sales_order);
  movements = movements;
}

-- What both methods do with the open reservations: one event with all their items.
unfoldable pub consume :
    ℕ
    → (List MovementInput → PostEventInput)
    → List MovementInput
    → List Reservation
    → Tx Inventory Consumed
consume order event movements rs = do
  throw_if (is_empty movements) (app_error validation_error 422)
  id ← post_event (event movements)
  modify (λ (db : Inventory). record db { reservations = mark_consumed order db.reservations })
  pure (record {
    event = id;
    reservation_ids = map (λ (r : Reservation). r.id) rs;
    movement_count = length movements;
  })

abbrev pub open_of : ℕ → Inventory → List Reservation
open_of order db = filter (is_open order) db.reservations

-- `consumeForOrder`
unfoldable pub consume_for_order : ConsumeInput → Tx Inventory Consumed
consume_for_order input db =
    let rs = open_of input.sales_order db in
    if is_empty rs
    then err (app_error conflict 409)
    else consume input.sales_order (invoice_event input) (movements_of "RESERVATION_CONSUMED" rs) rs
        db

-- `prior.length > 0 && prior.every(...)`
abbrev pub all_consumed : List Reservation → Bool
all_consumed [] = false
all_consumed rs = all (λ (r : Reservation). is_consumed r.status) rs

abbrev pub prior_of : ℕ → Inventory → List Reservation
prior_of order db = filter (λ (r : Reservation). r.sales_order == order) db.reservations

unfoldable pub dispatch_open : DispatchInput → List Reservation → Tx Inventory (Option Consumed)
dispatch_open input rs = do
  c ←
      consume input.sales_order (dispatch_event input) (movements_of "ONLINE_ORDER_DISPATCHED" rs)
        rs
  pure (some c)

-- `consumeForOnlineDispatch`; `none` stands for `{ alreadyProcessed: true }`.
unfoldable pub consume_for_online_dispatch : DispatchInput → Tx Inventory (Option Consumed)
consume_for_online_dispatch input db =
    let rs = open_of input.sales_order db in
    if is_empty rs
    then if all_consumed (prior_of input.sales_order db)
      then pure none db
      else err (app_error conflict 409)
    else dispatch_open input rs db
