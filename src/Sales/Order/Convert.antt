-- ===== src/Sales/Order/Convert.antt =====
-- `convertToInvoice` of backend/src/sales-orders/sales-order.service.ts: the invoice of an order is
-- drafted in one transaction, and linked to the order afterwards.
use pasalho.Prelude.{
  ℕ, Bool, true, false, Option, none, some, if◌then◌else◌, ◌&&◌, ◌||◌, not, is_some, map,
}
use pasalho.Prelude.Int.{pos}
use pasalho.Prelude.Result.{Result, ok, err, app_error, validation_error, conflict, Action}
use pasalho.Audit
use pasalho.Audit.{sales_order_invoiced}
use pasalho.Finance.Data.{Invoice}
use pasalho.Sales.Data.{OrderStatus, OrderLine, SalesOrder, Shop, set_order, audited}
use pasalho.Sales.Invoice.{LineDto, InvoiceDto, create}
use pasalho.Sales.Order.{with_found, read_back, is_central_retailer}

abbrev pub is_confirmed : OrderStatus → Bool
is_confirmed OrderStatus.confirmed = true
is_confirmed _ = false

abbrev pub is_packed : OrderStatus → Bool
is_packed OrderStatus.packed = true
is_packed _ = false

-- The guard on the status of the order.
abbrev pub is_convertible : SalesOrder → Bool
is_convertible o = is_confirmed o.status || (is_central_retailer o && is_packed o.status)

abbrev pub line_of : OrderLine → LineDto
line_of item = record {
  product = item.product;
  batch = item.batch;
  unit = item.unit;
  quantity = item.quantity;
  base_quantity = item.base_quantity;
  unit_price = item.unit_price;
  discount_amount = some (pos 0);
  tax_amount = some (pos 0);
}

abbrev pub dto_of : SalesOrder → ℕ → ℕ → ℕ → InvoiceDto
dto_of o branch warehouse location = record {
  branch = branch;
  retailer = o.retailer;
  warehouse = warehouse;
  source_location = location;
  items = map line_of o.items;
}

abbrev pub invoiced_row : ℕ → SalesOrder → SalesOrder
invoiced_row invoice o = record o { status = OrderStatus.invoiced; invoice = some invoice }

-- What follows the draft of the invoice.
abbrev pub linked : SalesOrder → ℕ → Result Invoice × Shop → Result SalesOrder × Shop
linked o actor (err e, db) = (err e, db)
linked o actor (ok i, db) = read_back o.id (
    audited actor sales_order_invoiced Audit.sales_order o.id o.branch
      (set_order o.id (invoiced_row i.id) db))

-- A result, and what other calls make of the database that it left.
abbrev pub then_others : (Shop → Shop) → Result Invoice × Shop → Result Invoice × Shop
then_others others r = (r.0, others r.1)

unfoldable pub convert_with_branch :
    (Shop → Shop) → ℕ → ℕ → ℕ → ℕ → Option ℕ → SalesOrder → Action Shop SalesOrder
convert_with_branch later number warehouse location actor none o db =
    (err (app_error validation_error 422), db)
convert_with_branch later number warehouse location actor (some branch) o db =
    linked o actor (then_others later (create number (dto_of o branch warehouse location) actor db))

unfoldable pub convert_found : (Shop → Shop) → ℕ → ℕ → ℕ → ℕ → SalesOrder → Action Shop SalesOrder
convert_found later number warehouse location actor o db =
    if not (is_convertible o)
    then (err (app_error validation_error 422), db)
    else if is_some o.invoice
    then (err (app_error conflict 409), db)
    else convert_with_branch later number warehouse location actor o.branch o db

-- `convertToInvoice`, which does not lock the order: `others` is what other calls do to the database
-- between its read and the draft of the invoice, and `later` what they do before the link.
unfoldable pub convert_while :
    (Shop → Shop) → (Shop → Shop) → ℕ → ℕ → ℕ → ℕ → ℕ → Action Shop SalesOrder
convert_while others later number id warehouse location actor =
    with_found id (λ o db. convert_found later number warehouse location actor o (others db))

-- `convertToInvoice` with no other call in between.
unfoldable pub convert : ℕ → ℕ → ℕ → ℕ → ℕ → Action Shop SalesOrder
unfolding convert_while
convert number id warehouse location actor =
    convert_while (λ db. db) (λ db. db) number id warehouse location actor
