-- ===== src/Sales/Order/Write.antt =====
-- What `create` of backend/src/sales-orders/sales-order.service.ts writes: the order with its lines,
-- the reservation and the record of the request. `id_before` is the order that `localeCompare` gives
-- ids.
use pasalho.Prelude.{
  ℕ, ◌+◌, Bool, true, false, Option, none, some, List, [], ◌∷◌, ◌++◌, if◌then◌else◌, ◌==◌, ◌||◌,
  not, is_some, same_id?, find_row, update_row,
}
use pasalho.Prelude.Int.{ℤ}
use pasalho.Prelude.Result.{ok, err, p2002, p2025, Tx, ◌>>=◌, ◌>>◌, pure}
use pasalho.Audit
use pasalho.Audit.{sales_order_created}
use pasalho.Inventory.Data.{ReservationStatus, Reservation}
use pasalho.Inventory.Allocation.{ItemInput, reserve_sales_order_item}
use pasalho.Sales.Data.{
  OrderStatus, OrderSource, OrderLine, SalesOrder, OrderRequest, Shop, in_stock, set_order,
}
use pasalho.Sales.Invoice.{stored}
use pasalho.Sales.Order.Validate.{OrderInput, ValidItem}

abbrev pub request_key : OrderRequest → ℕ
request_key r = r.key

abbrev pub find_request : ℕ → List OrderRequest → Option OrderRequest
find_request = find_row request_key

-- `a.localeCompare(b) || ...` on products, units and batches, an absent batch being the empty text.
unfoldable pub batch_before : (ℕ → ℕ → Bool) → Option ℕ → Option ℕ → Bool
batch_before id_before none none = false
batch_before id_before none (some b) = true
batch_before id_before (some a) none = false
batch_before id_before (some a) (some b) = id_before a b

unfoldable pub item_before : (ℕ → ℕ → Bool) → ValidItem → ValidItem → Bool
unfolding batch_before
item_before id_before a b =
    if not (a.product == b.product)
    then id_before a.product b.product
    else if not (a.unit == b.unit)
    then id_before a.unit b.unit
    else batch_before id_before a.batch b.batch

unfoldable pub insert : (ℕ → ℕ → Bool) → ValidItem → List ValidItem → List ValidItem
unfolding item_before
insert id_before v [] = v ∷ []
insert id_before v (w ∷ ws) =
    if item_before id_before w v then w ∷ insert id_before v ws else v ∷ w ∷ ws

-- The stable sort of the items.
unfoldable pub sort_items : (ℕ → ℕ → Bool) → List ValidItem → List ValidItem
unfolding insert
sort_items id_before [] = []
sort_items id_before (v ∷ vs) = insert id_before v (sort_items id_before vs)

-- `dto.channel ?? (online ? STOREFRONT : SALES_REP)`
abbrev pub source_of : OrderInput → OrderSource
source_of input = elim input.channel [
  | some s ↦ s
  | none ↦ if input.is_online then OrderSource.storefront else OrderSource.sales_rep
]

-- The order as it is first written, without its items.
abbrev pub order_row : OrderInput → ℕ → ℕ → ℤ → ℕ → ℕ → SalesOrder
order_row input key number subtotal actor id = record {
  id = id;
  order_no = number;
  source = source_of input;
  idempotency_key = some key;
  branch = some input.branch;
  sales_rep = if input.is_online then none else some input.sales_rep;
  route = if input.is_online then none else input.route;
  retailer = input.retailer;
  status = OrderStatus.confirmed;
  grand_total = stored subtotal;
  invoice = none;
  created_by = actor;
  items = [];
}

-- Whether the number or the key of a new order is taken, each under a unique index.
unfoldable pub is_taken : ℕ → ℕ → List SalesOrder → Bool
is_taken key number [] = false
is_taken key number (o ∷ os) =
    (o.order_no == number) || same_id? o.idempotency_key (some key) || is_taken key number os

abbrev pub with_order : SalesOrder → Shop → Shop
with_order o db = record db {
  orders = db.orders ++ o ∷ [];
  stock = record db.stock { next_id = db.stock.next_id + 1 };
}

-- `salesOrder.create`
unfoldable pub create_order : OrderInput → ℕ → ℕ → ℤ → ℕ → Tx Shop SalesOrder
create_order input key number subtotal actor db =
    let o = order_row input key number subtotal actor db.stock.next_id in
    if is_taken key number db.orders then err p2002 else ok (o, with_order o db)

abbrev pub reservation_row : SalesOrder → ℕ → ℕ → ℕ → Reservation
reservation_row o location actor id = record {
  id = id;
  sales_order = o.id;
  location = location;
  status = ReservationStatus.active;
  created_by = actor;
  items = [];
}

abbrev pub with_reservation : SalesOrder → ℕ → ℕ → Shop → Shop
with_reservation o location actor db = record db {
  stock = record db.stock {
    reservations = db.stock.reservations ++ reservation_row o location actor db.stock.next_id ∷ [];
    next_id = db.stock.next_id + 1;
  };
}

-- `stockReservation.create`
unfoldable pub create_reservation : SalesOrder → ℕ → ℕ → Tx Shop ℕ
create_reservation o location actor db = ok (db.stock.next_id, with_reservation o location actor db)

abbrev pub line_row : ValidItem → ℕ → OrderLine
line_row v id = record {
  id = id;
  product = v.product;
  batch = v.batch;
  unit = v.unit;
  quantity = v.quantity;
  base_quantity = v.base_quantity;
  unit_price = v.unit_price;
  line_total = stored v.line_total;
}

abbrev pub with_line : OrderLine → SalesOrder → SalesOrder
with_line l o = record o { items = o.items ++ l ∷ [] }

-- `salesOrderItem.create`
unfoldable pub create_line : SalesOrder → ValidItem → Tx Shop ℕ
create_line o v db =
    let id = db.stock.next_id in
    ok (
      id,
      set_order o.id (with_line (line_row v id))
          (record db { stock = record db.stock { next_id = id + 1 } }),
    )

abbrev pub reservation_input : OrderInput → SalesOrder → ℕ → ℕ → ℕ → ValidItem → ℕ → ItemInput
reservation_input input o location actor reservation v line = record {
  stock = record {
    branch = input.branch;
    location = location;
    product = v.product;
    batch = v.batch;
    unit = v.unit;
    quantity = v.quantity;
    base_quantity = v.base_quantity;
    reference_type = Audit.sales_order;
    reference_id = o.id;
    created_by = actor;
  };
  sales_order_item = line;
  reservation = reservation;
  is_batch_tracked = v.is_batch_tracked;
}

-- One round of the loop over the sorted items.
unfoldable pub add_line : OrderInput → SalesOrder → ℕ → ℕ → ℕ → ℕ → ValidItem → Tx Shop Unit
add_line input o location actor today reservation v = do
  line ← create_line o v
  in_stock
      (reserve_sales_order_item today (reservation_input input o location actor reservation v line))
  pure tt

-- `idempotencyRecord.create` and the update that completes it.
unfoldable pub begin_request : ℕ → ℕ → Tx Shop Unit
begin_request key hash db =
    if is_some (find_request key db.requests)
    then err p2002
    else ok (
      tt,
      record db {
        requests =
            db.requests
            ++ record { key = key; request_hash = hash; is_completed = false; resource_id = none }
              ∷ [];
      },
    )

unfoldable pub complete_request : ℕ → ℕ → Tx Shop Unit
complete_request key id db = elim (find_request key db.requests) [
  | none ↦ err p2025
  | some r ↦ ok (
    tt,
    record db {
      requests =
          update_row request_key key
            (λ (r : OrderRequest). record r { is_completed = true; resource_id = some id })
            db.requests;
    },
  )
]
