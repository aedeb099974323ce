-- ===== src/Sales/Order.antt =====
-- `confirm`, `updateStatus` and `cancel` of backend/src/sales-orders/sales-order.service.ts: the
-- life of an order, whose reserved stock leaves the inventory when it is dispatched and goes back
-- when it is cancelled. The listing is not modelled.
pub mod Life
pub mod Progress
pub mod Release
pub mod Convert
pub mod Overlap
pub mod Validate
pub mod Write
pub mod Create
use pasalho.Prelude.{
  ℕ, Bool, true, false, Option, none, some, List, [], ◌∷◌, if◌then◌else◌, ◌==◌, ◌&&◌, ◌||◌, not,
  any, is_some, find_row,
}
use pasalho.Prelude.Result.{
  Result, ok, err, app_error, not_found, validation_error, internal_error, Tx, Action, ◌>>=◌, ◌>>◌,
  pure, for_each, transaction, modify, throw_if,
}
use pasalho.Audit
use pasalho.Audit.{AuditAction, sales_order_confirmed, sales_order_cancelled}
use pasalho.Inventory.Data.{ReservationStatus, ReservationItem, Reservation, Inventory}
use pasalho.Inventory.Reservation.{ReserveStockInput, release}
use pasalho.Inventory.Consumption.{filter, is_open, consume_for_online_dispatch}
use pasalho.Finance.Data.{InvoiceStatus, Invoice}
use pasalho.Sales.Data.{
  OrderStatus, OrderSource, SalesOrder, Catalog, Shop, in_stock, invoice_id, order_id, set_order,
  audited,
}

abbrev pub find_order : ℕ → List SalesOrder → Option SalesOrder
find_order = find_row order_id

abbrev pub set_status : OrderStatus → SalesOrder → SalesOrder
set_status s o = record o { status = s }

abbrev pub is_draft : OrderStatus → Bool
is_draft OrderStatus.draft = true
is_draft _ = false

-- `findById`, and what a handler does with the row.
unfoldable pub with_found : ℕ → (SalesOrder → Action Shop SalesOrder) → Action Shop SalesOrder
with_found id k db = elim (find_order id db.orders) [
  | none ↦ (err (app_error not_found 404), db)
  | some o ↦ k o db
]

-- `findById` at the end of a handler.
unfoldable pub read_back : ℕ → Shop → Result SalesOrder × Shop
read_back id db = elim (find_order id db.orders) [
  | none ↦ (err (app_error not_found 404), db)
  | some o ↦ (ok o, db)
]

unfoldable pub confirm_found : ℕ → SalesOrder → Action Shop SalesOrder
confirm_found actor o db =
    if is_draft o.status
    then read_back o.id (
        audited actor sales_order_confirmed Audit.sales_order o.id o.branch
          (set_order o.id (set_status OrderStatus.confirmed) db))
    else (err (app_error validation_error 422), db)

-- `confirm`, which does not lock the order: `others` is what other calls do to the database between
-- its read and its write.
unfoldable pub confirm_while : (Shop → Shop) → ℕ → ℕ → Action Shop SalesOrder
confirm_while others id actor = with_found id (λ o db. confirm_found actor o (others db))

-- `confirm` with no other call in between.
unfoldable pub confirm : ℕ → ℕ → Action Shop SalesOrder
unfolding confirm_while
confirm id actor = confirm_while (λ db. db) id actor

-- The states to which `updateStatus` can be asked to go.
pub data Target : Type 0 where
  picking packed dispatched delivered : Target

abbrev pub status_of : Target → OrderStatus
status_of Target.picking = OrderStatus.picking
status_of Target.packed = OrderStatus.packed
status_of Target.dispatched = OrderStatus.dispatched
status_of Target.delivered = OrderStatus.delivered

-- `order.status === status`
abbrev pub is_at : OrderStatus → Target → Bool
is_at OrderStatus.picking Target.picking = true
is_at OrderStatus.packed Target.packed = true
is_at OrderStatus.dispatched Target.dispatched = true
is_at OrderStatus.delivered Target.delivered = true
is_at _ _ = false

-- `validTransitions`, which also lists CANCELLED, for which the method is not called.
abbrev pub is_valid_transition : OrderStatus → Target → Bool
is_valid_transition OrderStatus.confirmed Target.picking = true
is_valid_transition OrderStatus.placed Target.picking = true
is_valid_transition OrderStatus.picking Target.packed = true
is_valid_transition OrderStatus.packed Target.dispatched = true
is_valid_transition OrderStatus.invoiced Target.dispatched = true
is_valid_transition OrderStatus.dispatched Target.delivered = true
is_valid_transition _ _ = false

abbrev pub is_storefront : OrderSource → Bool
is_storefront OrderSource.storefront = true
is_storefront _ = false

abbrev pub is_dnp : OrderSource → Bool
is_dnp OrderSource.dnp = true
is_dnp _ = false

abbrev pub is_franchise : OrderSource → Bool
is_franchise OrderSource.franchise = true
is_franchise _ = false

-- `order.source === "DNP" && order.retailerId`
abbrev pub is_central_retailer : SalesOrder → Bool
is_central_retailer o = is_dnp o.source && is_some o.retailer

-- Whether the order is progressed by this workflow.
abbrev pub is_online : SalesOrder → Catalog → Bool
is_online o c =
    is_storefront o.source
    || is_central_retailer o
    || (is_franchise o.source && any (λ id. id == o.id) c.franchise_orders)

abbrev pub is_dispatched : Target → Bool
is_dispatched Target.dispatched = true
is_dispatched _ = false

-- `["CREDIT_OPEN", "POSTED"].includes(invoice.status)`
abbrev pub is_owed : InvoiceStatus → Bool
is_owed InvoiceStatus.credit_open = true
is_owed InvoiceStatus.posted = true
is_owed _ = false

-- Whether the order has an invoice that has been posted.
unfoldable pub has_posted_invoice : Option ℕ → List Invoice → Bool
has_posted_invoice none is = false
has_posted_invoice (some id) is = elim (find_row invoice_id id is) [
  | none ↦ false
  | some i ↦ is_owed i.status
]

-- The consumption of the reserved stock on dispatch, where no invoice has consumed it.
unfoldable pub dispatch_stock : SalesOrder → ℕ → Option ℕ → Tx Shop Unit
dispatch_stock o actor none db = err (app_error validation_error 422)
dispatch_stock o actor (some branch) db =
    (do
      in_stock (
          consume_for_online_dispatch
            (record { sales_order = o.id; branch = branch; created_by = actor }))
      pure tt)
      db

abbrev pub takes_stock : SalesOrder → Target → Bool
takes_stock o target = is_dispatched target && not (is_central_retailer o)

abbrev pub needs_invoice : SalesOrder → Target → Bool
needs_invoice o target = is_central_retailer o && is_dispatched target

-- The last two statements of the transaction.
unfoldable pub progress_order : SalesOrder → Target → ℕ → Tx Shop SalesOrder
progress_order o target actor = do
  if takes_stock o target then dispatch_stock o actor o.branch else pure tt
  modify (set_order o.id (set_status (status_of target)))
  pure (set_status (status_of target) o)

unfoldable pub update_found : SalesOrder → Target → ℕ → Tx Shop SalesOrder
update_found o target actor db =
    if not (is_online o db.catalog)
    then err (app_error validation_error 422)
    else if is_at o.status target
    then ok (o, db)
    else if needs_invoice o target && not (has_posted_invoice o.invoice db.books.invoices)
    then err (app_error validation_error 422)
    else if not (is_valid_transition o.status target)
    then err (app_error validation_error 422)
    else progress_order o target actor db

-- `updateStatus` inside its transaction.
unfoldable pub update_in : ℕ → Target → ℕ → Tx Shop SalesOrder
update_in id target actor db = elim (find_order id db.orders) [
  | none ↦ err (app_error not_found 404)
  | some o ↦ update_found o target actor db
]

-- An outcome, with the audit entry behind a success.
abbrev pub and_audit : ℕ → AuditAction → ℕ → Result SalesOrder × Shop → Result SalesOrder × Shop
and_audit actor action id (ok o, db) = (ok o, audited actor action Audit.sales_order id o.branch db)
and_audit actor action id (err e, db) = (err e, db)

-- `updateStatus`, which records each of its changes as a confirmation.
unfoldable pub update_status : ℕ → Target → ℕ → Action Shop SalesOrder
update_status id target actor db =
    and_audit actor sales_order_confirmed id (transaction (update_in id target actor) db)

-- `["DRAFT", "CONFIRMED", "PLACED", "PICKING", "PACKED"].includes(order.status)`
abbrev pub is_cancellable : OrderStatus → Bool
is_cancellable OrderStatus.draft = true
is_cancellable OrderStatus.confirmed = true
is_cancellable OrderStatus.placed = true
is_cancellable OrderStatus.picking = true
is_cancellable OrderStatus.packed = true
is_cancellable _ = false

abbrev pub is_cancelled : OrderStatus → Bool
is_cancelled OrderStatus.cancelled = true
is_cancelled _ = false

abbrev pub release_input : SalesOrder → ℕ → ℕ → ℕ → ReservationItem → ReserveStockInput
release_input o branch actor location item = record {
  branch = branch;
  location = location;
  product = item.product;
  batch = item.batch;
  unit = item.unit;
  quantity = item.quantity;
  base_quantity = item.base_quantity;
  reference_type = Audit.sales_order;
  reference_id = o.id;
  created_by = actor;
}

-- `releaseStock` of one reserved item. An event without a branch is refused by the database client.
unfoldable pub release_item : SalesOrder → ℕ → Option ℕ → ℕ → ReservationItem → Tx Inventory Unit
release_item o actor none location item db = err (app_error internal_error 500)
release_item o actor (some branch) location item db =
    (do release (release_input o branch actor location item); pure tt) db

-- `stockReservation.update` with the status RELEASED.
unfoldable pub mark_released : ℕ → List Reservation → List Reservation
mark_released id [] = []
mark_released id (r ∷ rs) =
    (if r.id == id then record r { status = ReservationStatus.released } else r)
    ∷ mark_released id rs

abbrev pub with_released : ℕ → Inventory → Inventory
with_released id db = record db { reservations = mark_released id db.reservations }

-- One round of the loop over the open reservations.
unfoldable pub release_reservation : SalesOrder → ℕ → Reservation → Tx Inventory Unit
release_reservation o actor r = do
  for_each (release_item o actor o.branch r.location) r.items
  modify (with_released r.id)

unfoldable pub release_all : SalesOrder → ℕ → Tx Inventory Unit
release_all o actor db =
    for_each (release_reservation o actor) (filter (is_open o.id) db.reservations) db

unfoldable pub cancel_found : SalesOrder → ℕ → Tx Shop SalesOrder
cancel_found o actor db =
    if is_cancelled o.status
    then ok (o, db)
    else if not (is_cancellable o.status)
    then err (app_error validation_error 422)
    else (do
      in_stock (release_all o actor)
      modify (set_order o.id (set_status OrderStatus.cancelled))
      modify (audited actor sales_order_cancelled Audit.sales_order o.id o.branch)
      pure (set_status OrderStatus.cancelled o))
        db

unfoldable pub cancel_in : ℕ → ℕ → Tx Shop SalesOrder
cancel_in id actor db = elim (find_order id db.orders) [
  | none ↦ err (app_error not_found 404)
  | some o ↦ cancel_found o actor db
]

-- `cancel`, and `cancelPublicOrder`, which only calls it.
unfoldable pub cancel : ℕ → ℕ → Action Shop SalesOrder
cancel id actor = transaction (cancel_in id actor)
