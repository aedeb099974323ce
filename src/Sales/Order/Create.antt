-- ===== src/Sales/Order/Create.antt =====
-- `create` of backend/src/sales-orders/sales-order.service.ts: the order, its reserved stock and
-- the record of its request are written in one transaction, and a request that is repeated returns
-- the order that is there. `request_hash` is the SHA-256 hash of the request, `id_before` the order
-- that `localeCompare` gives ids, `number` stands for `ORD-${Date.now()}-...`, and `today` is the
-- CURRENT_DATE of the database at the time of a call.
pub mod Lines
pub mod Credit
pub mod Replay
use pasalho.Prelude.{
  ℕ, ◌+◌, Bool, true, false, Option, none, some, List, [], ◌∷◌, ◌++◌, if◌then◌else◌, ◌==◌, ◌&&◌,
  ◌||◌, not, is_some, same_id?, find_row, update_row,
}
use pasalho.Prelude.Int.{ℤ, pos, round_div}
use pasalho.Prelude.Result.{
  Result, Failure, ok, err, app_error, validation_error, not_found, conflict, p2002, p2025, Tx,
  Action, ◌>>=◌, ◌>>◌, pure, for_each, transaction, modify, lift,
}
use pasalho.Audit
use pasalho.Audit.{sales_order_created}
use pasalho.Inventory.Data.{ReservationStatus, Reservation, Inventory}
use pasalho.Inventory.Allocation.{ItemInput, reserve_sales_order_item}
use pasalho.Sales.Data.{
  OrderStatus, OrderSource, OrderLine, SalesOrder, OrderRequest, Shop, in_stock, order_id,
  set_order, audited,
}
use pasalho.Sales.Invoice.{stored}
use pasalho.Sales.Order.{find_order}
use pasalho.Sales.Order.Validate.{
  OrderInput, ValidItem, check_parties, validate_items, subtotal_from, check_credit,
}
use pasalho.Sales.Order.Write.{
  request_key, find_request, batch_before, item_before, insert, sort_items, source_of, order_row,
  is_taken, with_order, create_order, reservation_row, with_reservation, create_reservation,
  line_row, with_line, create_line, reservation_input, add_line, begin_request, complete_request,
}

module _ (request_hash : OrderInput → ℕ) (id_before : ℕ → ℕ → Bool) (today : ℕ) where
  -- What the transaction writes once everything is checked.
  unfoldable pub write_order : OrderInput → ℕ → ℕ → ℕ → ℕ → List ValidItem → Tx Shop SalesOrder
  write_order input key number actor location items = do
    o ← create_order input key number (subtotal_from (pos 0) items) actor
    reservation ← create_reservation o location actor
    for_each (add_line input o location actor today reservation) (sort_items id_before items)
    complete_request key o.id
    pure o

  unfoldable pub create_new : OrderInput → ℕ → ℕ → ℕ → Tx Shop SalesOrder
  create_new input key number actor = do
    begin_request key (request_hash input)
    location ← lift (λ (db : Shop). check_parties input actor db.catalog db.books.retailers)
    items ← lift (λ (db : Shop). validate_items input.items db.catalog.products db.stock.batches)
    lift (λ (db : Shop). check_credit input.retailer (subtotal_from (pos 0) items) db.books)
    write_order input key number actor location items

  -- The order of a request that is on record.
  unfoldable pub known_order : OrderInput → OrderRequest → Shop → Result SalesOrder
  known_order input r db =
      if not (r.request_hash == request_hash input)
      then err (app_error conflict 409)
      else if not r.is_completed
      then err (app_error conflict 409)
      else elim r.resource_id [
        | none ↦ err (app_error conflict 409)
        | some id ↦ elim (find_order id db.orders) [
          | none ↦ err (app_error conflict 409)
          | some o ↦ ok o
        ]
      ]

  abbrev pub as_replay : Result SalesOrder → Shop → Result ((SalesOrder × Bool) × Shop)
  as_replay (ok o) db = ok ((o, false), db)
  as_replay (err e) db = err e

  -- The transaction: the order, and whether it is new.
  unfoldable pub create_in : OrderInput → ℕ → ℕ → ℕ → Tx Shop (SalesOrder × Bool)
  create_in input key number actor db = elim (find_request key db.requests) [
    | some r ↦ as_replay (known_order input r db) db
    | none ↦ (do o ← create_new input key number actor; pure (o, true)) db
  ]

  -- The handler of a violated unique index. The record of this request has been rolled back, so it
  -- finds one only if another call made it.
  unfoldable pub after_conflict : OrderInput → ℕ → Shop → Result SalesOrder
  after_conflict input key db = elim (find_request key db.requests) [
    | none ↦ err (app_error conflict 409)
    | some r ↦
        if not (r.request_hash == request_hash input)
        then err (app_error conflict 409)
        else elim r.resource_id [
          | none ↦ err p2002
          | some id ↦ elim (find_order id db.orders) [
            | none ↦ err (app_error not_found 404)
            | some o ↦ ok o
          ]
        ]
  ]

  abbrev pub is_conflict : Failure → Bool
  is_conflict p2002 = true
  is_conflict _ = false

  -- `findById` at the end of the handler.
  unfoldable pub reread : ℕ → Shop → Result SalesOrder
  reread id db = elim (find_order id db.orders) [
    | none ↦ err (app_error not_found 404)
    | some o ↦ ok o
  ]

  abbrev pub finish :
      OrderInput → ℕ → ℕ → Result (SalesOrder × Bool) × Shop → Result SalesOrder × Shop
  finish input key actor (ok (o, true), db) =
      (reread o.id db, audited actor sales_order_created Audit.sales_order o.id input.dto_branch db)
  finish input key actor (ok (o, false), db) = (reread o.id db, db)
  finish input key actor (err e, db) =
      if is_conflict e then (after_conflict input key db, db) else (err e, db)

  -- `create`, and `createOnline`, which calls it with its options.
  unfoldable pub create : Option ℕ → ℕ → OrderInput → ℕ → Action Shop SalesOrder
  create none number input actor db = (err (app_error validation_error 422), db)
  create (some key) number input actor db =
      finish input key actor (transaction (create_in input key number actor) db)
