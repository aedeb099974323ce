-- ===== src/Tests/Sales.antt =====
-- An invoice and an order of a shop that holds six units of a product.
use pasalho.Prelude.{
  List, map, ℕ, ◌≡◌, refl, true, false, none, some, [], ◌∷◌, ltb, find_row, update_row, is_some,
}
use pasalho.Prelude.Int.{pos, ◌+ℤ◌, ◌-ℤ◌, -ℤ◌, ◌*ℤ◌, round_div, floor_div}
use pasalho.Prelude.Result.{Result, ok, err, for_each, transaction}
use pasalho.Finance.Data.{Invoice, InvoiceStatus, InvoicePaymentStatus}
use pasalho.Finance.RetailerLedger.{
  create_invoice_debit, get_outstanding, calculate_outstanding, outstanding_from, entries_of,
}
use pasalho.Inventory.Data.{
  StockKey, StockState, EventKey, ReservationStatus, same_event_key, same_key, same_unit_free_key,
}
use pasalho.Inventory.Snapshots.{
  on_hand, find_snapshot, update_snapshot, create_snapshot, delete_snapshot, collides,
}
use pasalho.Inventory.Ledger.{
  post_event, post_new_event, create_event, create_movement, apply_movement, apply_snapshot,
  existing_event, find_event, has_key,
}
use pasalho.Inventory.Reservation.{reserve, release, deduct_available, deduct_reserved, add_to}
use pasalho.Inventory.Allocation.{
  reserve_sales_order_item, choose_allocations, reserve_allocation, add_item,
}
use pasalho.Inventory.Consumption.{filter, is_open}
use pasalho.Inventory.Count.{find_first}
use pasalho.Sales.Data.{OrderStatus, OrderSource, SalesOrder, Shop, in_stock, in_books, invoice_id}
use pasalho.Sales.Invoice.Post.{
  post, post_in, post_draft, posted_row, take_stock, order_of, enter_debt, check_batches,
  check_batch,
}
use pasalho.Sales.Invoice.Void.{void_invoice, void_found, with_found, voided_row}
use pasalho.Sales.Invoice.Posting.{IsEntered, post_in-IsEntered}
use pasalho.Sales.Invoice.Reversal.{post_void-restores}
use pasalho.Sales.Order
use pasalho.Sales.Invoice.Void
use pasalho.Sales.Order.Overlap.{Advances, overlapped-Advances}
use pasalho.Sales.Order.{
  confirm_while, confirm_found, Target, confirm, update_status, cancel, cancel_in, cancel_found,
  release_all, release_reservation, release_item, mark_released, set_status,
}
use pasalho.Sales.Order.Convert.{convert, convert_while}
use pasalho.Sales.Order.Life.{Follows}
use pasalho.Sales.Order.Progress.{orders-Follow}
use pasalho.Sales.Order.Release.{freed_all, cancel_in-releases}
use pasalho.Sales.Order.Validate.{
  OrderInput, check_parties, allows_retailer, find_location, validate_items, validate_item,
  validate_unit, unit_for, allows_batch, subtotal_from, check_credit,
}
use pasalho.Sales.Order.Write.{
  begin_request, complete_request, create_order, create_reservation, create_line, add_line,
  sort_items, insert, is_taken,
}
use pasalho.Sales.Order.Create.{create_in, create_new, write_order}
use pasalho.Sales.Order.Create.Replay.{create_in_replay}

abbrev shelf : StockKey
shelf = record { location = 1; product = 2; batch = none; state = StockState.available; unit = 4 }

abbrev bill : Invoice
bill = record {
  id = 20;
  branch = 7;
  invoice_number = 1;
  retailer = some 3;
  warehouse = 6;
  source_location = 1;
  status = InvoiceStatus.draft;
  payment_status = InvoicePaymentStatus.unpaid;
  subtotal = pos 500;
  discount_total = pos 0;
  tax_total = pos 0;
  grand_total = pos 500;
  paid_amount = pos 0;
  due_amount = pos 500;
  created_by = 9;
  posted_by = none;
  voided_by = none;
  items =
      record {
        product = 2;
        batch = none;
        unit = 4;
        quantity = pos 2;
        base_quantity = pos 2;
        unit_price = pos 250;
        discount_amount = pos 0;
        tax_amount = pos 0;
        line_total = pos 500;
      }
      ∷ [];
}

abbrev order : SalesOrder
order = record {
  id = 40;
  order_no = 1;
  source = OrderSource.storefront;
  idempotency_key = some 60;
  branch = some 7;
  sales_rep = none;
  route = none;
  retailer = none;
  status = OrderStatus.picking;
  grand_total = pos 250;
  invoice = none;
  created_by = 9;
  items = [];
}

abbrev shop : Shop
shop = record {
  catalog = record {
    branches = 7 ∷ [];
    warehouses = record { id = 6; branch = 7 } ∷ [];
    locations = record { id = 1; branch = 7; is_active = true } ∷ [];
    products =
        record {
          id = 2;
          is_active = true;
          is_batch_tracked = false;
          selling_price = some (pos 1000000);
          default_unit = 4;
          units = record { unit = 4; conversion_to_base = pos 1000000; is_base_unit = true } ∷ [];
        }
        ∷ [];
    sales_reps = [];
    routes = [];
    franchise_orders = [];
  };
  stock = record {
    snapshots =
        record {
          key = shelf;
          quantity = pos 5;
          base_quantity = pos 5;
          version = 0;
          last_movement = none;
        }
        ∷ record {
          key = record shelf { state = StockState.reserved };
          quantity = pos 1;
          base_quantity = pos 1;
          version = 0;
          last_movement = none;
        }
        ∷ [];
    movements = [];
    events = [];
    batches = [];
    reservations =
        record {
          id = 50;
          sales_order = 40;
          location = 1;
          status = ReservationStatus.active;
          created_by = 9;
          items =
              record {
                sales_order_item = 41;
                product = 2;
                batch = none;
                unit = 4;
                quantity = pos 1;
                base_quantity = pos 1;
              }
              ∷ [];
        }
        ∷ [];
    audit = [];
    next_id = 100;
  };
  books = record {
    retailers = record { id = 3; branch = 7; credit_limit = pos 1000; is_active = true } ∷ [];
    invoices = bill ∷ [];
    payments = [];
    ledger = [];
    financial = [];
    approvals = [];
    idempotency = [];
    audit = [];
    next_id = 200;
    now = 0;
  };
  orders = order ∷ [];
  requests = [];
}

abbrev after {ℓ} : {S A : Type ℓ} → S → Result (A × S) → S
after s (ok (a, t)) = t
after s (err e) = s

abbrev entered : Shop
entered = after shop (post_in 20 9 shop)

shop-posted : post_in 20 9 shop ≡ ok ((posted_row 9 bill, false), entered)
unfolding post_in post_draft take_stock order_of enter_debt check_batches check_batch in_stock
    in_books create_invoice_debit get_outstanding calculate_outstanding outstanding_from entries_of
    find_row post_event post_new_event create_event create_movement apply_movement apply_snapshot
    for_each find_snapshot update_snapshot create_snapshot collides same_key same_unit_free_key
    existing_event find_event has_key same_event_key ◌+ℤ◌ -ℤ◌
shop-posted = refl

post_in-IsEntered_example : IsEntered (posted_row 9 bill) (some 3) 3 shop.books entered.books
post_in-IsEntered_example = post_in-IsEntered 20 9 3 shop entered (posted_row 9 bill) shop-posted

abbrev sold : Shop
sold = (post 20 9 shop).1

post-bill : post 20 9 shop ≡ (ok (posted_row 9 bill), sold)
unfolding post transaction post_in post_draft take_stock order_of enter_debt check_batches
    check_batch in_stock in_books create_invoice_debit get_outstanding calculate_outstanding
    outstanding_from entries_of find_row post_event post_new_event create_event create_movement
    apply_movement apply_snapshot for_each find_snapshot update_snapshot create_snapshot collides
    same_key same_unit_free_key existing_event find_event has_key same_event_key ◌+ℤ◌ -ℤ◌
post-bill = refl

abbrev voided : Shop
voided = (void_invoice 20 8 sold).1

abbrev voided_bill : Invoice
voided_bill = voided_row 8 (posted_row 9 bill)

void-bill : void_invoice 20 8 sold ≡ (ok voided_bill, voided)
unfolding void_invoice void_found with_found Void.read_back post transaction post_in post_draft
    take_stock order_of enter_debt check_batches check_batch in_stock in_books create_invoice_debit
    get_outstanding calculate_outstanding outstanding_from entries_of find_row update_row post_event
    post_new_event create_event create_movement apply_movement apply_snapshot for_each find_snapshot
    update_snapshot create_snapshot collides same_key same_unit_free_key existing_event find_event
    has_key same_event_key ◌+ℤ◌ -ℤ◌
void-bill = refl

found_bill : find_row invoice_id 20 shop.books.invoices ≡ some bill
unfolding find_row
found_bill = refl

no_order : order_of 20 shop.orders ≡ none
unfolding order_of
no_order = refl

no_sale : is_some (find_event (EventKey.invoice_post 20) shop.stock.events) ≡ false
unfolding find_event
no_sale = refl

no_void : is_some (find_event (EventKey.invoice_void 20) shop.stock.events) ≡ false
unfolding find_event
no_void = refl

post_void-restores_example :
    (on_hand shelf voided.stock.snapshots ≡ on_hand shelf shop.stock.snapshots)
    × (find_row invoice_id 20 voided.books.invoices ≡ some voided_bill)
    × (InvoiceStatus.voided ≡ InvoiceStatus.voided)
    × (voided.books.ledger ≡ sold.books.ledger)
    × (voided.books.financial ≡ sold.books.financial)
post_void-restores_example =
    post_void-restores 20 9 8 shelf shop sold voided bill (posted_row 9 bill) voided_bill found_bill
      refl no_order no_sale no_void post-bill void-bill

orders-Follow_example :
    Follows shop (confirm 40 9 shop).1
    × Follows shop (update_status 40 Target.packed 9 shop).1
    × Follows shop (cancel 40 9 shop).1
    × Follows shop (convert 2 40 6 1 9 shop).1
orders-Follow_example = orders-Follow 2 40 6 1 9 Target.packed shop

found_order : find_row (λ (o : SalesOrder). o.id) 40 shop.orders ≡ some order
unfolding find_row
found_order = refl

abbrev dropped : Shop
dropped = after shop (cancel_in 40 9 shop)

cancel-order : cancel_in 40 9 shop ≡ ok (set_status OrderStatus.cancelled order, dropped)
unfolding cancel_in cancel_found release_all release_reservation release_item mark_released filter
    in_stock find_row update_row release deduct_reserved add_to create_event create_movement
    for_each find_snapshot update_snapshot create_snapshot delete_snapshot collides same_key
    same_unit_free_key existing_event ◌+ℤ◌ ◌-ℤ◌ -ℤ◌ round_div ◌*ℤ◌ floor_div
cancel-order = refl

-- Another call that changes no order.
abbrev others : Shop → Shop
others db = record db { requests = [] }

overlapped-Advances_example :
    Advances 40 shop.orders (confirm_while others 40 9 shop).1.orders
    × Advances 40 shop.orders (convert_while others others 2 40 6 1 9 shop).1.orders
overlapped-Advances_example =
    overlapped-Advances 40 9 2 6 1 others others shop (λ db a found. (a, found, refl))
      (λ db a found. (a, found, refl))

-- An order that is cancelled between the read and the write of its confirmation ends up confirmed.
abbrev drafted : Shop
drafted = record shop { orders = set_status OrderStatus.draft order ∷ [] }

abbrev statuses : Shop → List OrderStatus
statuses db = map (λ (o : SalesOrder). o.status) db.orders

cancelled_then_confirmed :
    statuses
      (confirm_while
        (λ db. record db { orders = set_status OrderStatus.cancelled order ∷ [] })
        40
        9
        drafted).1
    ≡ OrderStatus.confirmed ∷ []
unfolding confirm_while Order.with_found confirm_found Order.read_back find_row update_row
cancelled_then_confirmed = refl

cancel_in-releases_example :
    (OrderStatus.cancelled ≡ OrderStatus.cancelled)
    × (filter (is_open 40) dropped.stock.reservations ≡ [])
    × (on_hand shelf dropped.stock.snapshots
        ≡ on_hand shelf shop.stock.snapshots
          +ℤ freed_all shelf (filter (is_open 40) shop.stock.reservations))
cancel_in-releases_example =
    cancel_in-releases 40 9 shelf shop dropped order (set_status OrderStatus.cancelled order)
      found_order refl cancel-order

abbrev input : OrderInput
input = record {
  is_online = true;
  dto_branch = some 7;
  branch = 7;
  retailer = some 3;
  location = none;
  sales_rep = 9;
  route = none;
  channel = none;
  items = record { product = 2; batch = none; unit = none; quantity = pos 2 } ∷ [];
}

abbrev hash : OrderInput → ℕ
hash i = 5

abbrev ordered : Shop
ordered = after shop (create_in hash ltb 0 input 61 2 9 shop)

abbrev new_order : SalesOrder
new_order = record {
  id = 100;
  order_no = 2;
  source = OrderSource.storefront;
  idempotency_key = some 61;
  branch = some 7;
  sales_rep = none;
  route = none;
  retailer = some 3;
  status = OrderStatus.confirmed;
  grand_total = pos 2;
  invoice = none;
  created_by = 9;
  items = [];
}

create-order : create_in hash ltb 0 input 61 2 9 shop ≡ ok ((new_order, true), ordered)
unfolding create_in create_new begin_request complete_request write_order create_order
    create_reservation create_line add_line sort_items insert is_taken check_parties allows_retailer
    find_location find_first validate_items validate_item validate_unit unit_for allows_batch
    subtotal_from check_credit reserve_sales_order_item choose_allocations reserve_allocation
    add_item reserve deduct_available add_to in_stock get_outstanding calculate_outstanding
    outstanding_from entries_of find_row update_row create_event create_movement for_each
    find_snapshot update_snapshot create_snapshot collides same_key same_unit_free_key
    existing_event ◌+ℤ◌ ◌-ℤ◌ -ℤ◌ ◌*ℤ◌ round_div floor_div
create-order = refl

create_in_replay_example :
    (r : SalesOrder) × (r.id ≡ 100)
    × (create_in hash ltb 7 input 61 3 8 ordered ≡ ok ((r, false), ordered))
create_in_replay_example =
    create_in_replay hash ltb 0 input input 61 2 3 9 8 7 shop ordered new_order refl create-order
