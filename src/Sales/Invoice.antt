-- ===== src/Sales/Invoice.antt =====
-- `create` of backend/src/sales/invoice.service.ts. The listings are not modelled, `number` stands for `INV-${Date.now()}`, and the sums
-- of JavaScript numbers are taken as exact, in units of 0.0000000001, until a column rounds them.
pub mod Post
pub mod Void
pub mod Posting
pub mod Reversal
use pasalho.Prelude.{
  ℕ, ◌+◌, Bool, true, false, Option, none, some, List, [], ◌∷◌, ◌++◌, map, if◌then◌else◌, ◌==◌,
  ◌&&◌, ◌||◌, not, any, is_some, find_row, same_id?,
}
use Prim.Native.String.{String}
use pasalho.Prelude.Int.{ℤ, pos, ◌+ℤ◌, ◌-ℤ◌, ◌*ℤ◌, -ℤ◌, sum_by, round_div}
use pasalho.Prelude.Result.{
  Result, ok, err, app_error, not_found, validation_error, expired_batch, p2002, Tx, Action, ◌>>=◌,
  ◌>>◌, pure, throw, for_each, transaction, modify, lift, throw_if,
}
use pasalho.Audit
use pasalho.Audit.{AuditAction, invoice_created, invoice_posted, invoice_voided, invoice_cancelled}
use pasalho.Inventory.Data.{
  StockState, EventType, MovementType, EventKey, BatchStatus, Batch, MovementInput, PostEventInput,
  Inventory,
}
use pasalho.Inventory.Ledger.{post_event}
use pasalho.Inventory.Consumption.{consume_for_order}
use pasalho.Finance.Data.{
  InvoiceStatus, InvoicePaymentStatus, InvoiceLine, Invoice, FinancialEntryType, FinancialEntry,
  Books,
}
use pasalho.Finance.RetailerLedger.{EntryInput, create_invoice_debit}
use pasalho.Sales.Data.{
  Warehouse, Location, SalesOrder, Catalog, Shop, in_stock, in_books, invoice_id, set_invoice,
  audited,
}

pub record LineDto : Type 0 where
  pub product : ℕ
  pub batch : Option ℕ
  pub unit : ℕ
  pub quantity : ℤ
  pub base_quantity : ℤ
  pub unit_price : ℤ
  pub discount_amount : Option ℤ
  pub tax_amount : Option ℤ

pub record InvoiceDto : Type 0 where
  pub branch : ℕ
  pub retailer : Option ℕ
  pub warehouse : ℕ
  pub source_location : ℕ
  pub items : List LineDto

-- `x ?? 0`
abbrev pub or_zero : Option ℤ → ℤ
or_zero none = pos 0
or_zero (some x) = x

-- An amount in units of 0.0001 as an exact one, and what a column holds of an exact amount.
abbrev pub exact : ℤ → ℤ
exact x = x *ℤ pos 1000000

abbrev pub stored : ℤ → ℤ
stored x = round_div x (pos 1000000)

abbrev pub gross : LineDto → ℤ
gross item = item.quantity *ℤ item.unit_price

abbrev pub line_total : LineDto → ℤ
line_total item =
    gross item -ℤ exact (or_zero item.discount_amount) +ℤ exact (or_zero item.tax_amount)

pub record InvoiceTotals : Type 0 where
  pub subtotal : ℤ
  pub discount_total : ℤ
  pub tax_total : ℤ

-- The loop over the items, from the totals so far.
unfoldable pub add_totals : List LineDto → InvoiceTotals → InvoiceTotals
add_totals [] t = t
add_totals (item ∷ items) t = add_totals items (record {
  subtotal = t.subtotal +ℤ gross item;
  discount_total = t.discount_total +ℤ or_zero item.discount_amount;
  tax_total = t.tax_total +ℤ or_zero item.tax_amount;
})

unfoldable pub totals_of : List LineDto → InvoiceTotals
unfolding add_totals
totals_of items =
    add_totals items (record { subtotal = pos 0; discount_total = pos 0; tax_total = pos 0 })

abbrev pub grand_total : InvoiceTotals → ℤ
grand_total t = t.subtotal -ℤ exact t.discount_total +ℤ exact t.tax_total

abbrev pub line_row : LineDto → InvoiceLine
line_row item = record {
  product = item.product;
  batch = item.batch;
  unit = item.unit;
  quantity = item.quantity;
  base_quantity = item.base_quantity;
  unit_price = item.unit_price;
  discount_amount = or_zero item.discount_amount;
  tax_amount = or_zero item.tax_amount;
  line_total = stored (line_total item);
}

abbrev pub invoice_row : ℕ → InvoiceDto → InvoiceTotals → ℕ → ℕ → Invoice
invoice_row number dto t actor id = record {
  id = id;
  branch = dto.branch;
  invoice_number = number;
  retailer = dto.retailer;
  warehouse = dto.warehouse;
  source_location = dto.source_location;
  status = InvoiceStatus.draft;
  payment_status = InvoicePaymentStatus.unpaid;
  subtotal = stored t.subtotal;
  discount_total = t.discount_total;
  tax_total = t.tax_total;
  grand_total = stored (grand_total t);
  paid_amount = pos 0;
  due_amount = stored (grand_total t);
  created_by = actor;
  posted_by = none;
  voided_by = none;
  items = map line_row dto.items;
}

abbrev pub warehouse_branch : ℕ → Catalog → Option ℕ
warehouse_branch id c = elim (find_row (λ (w : Warehouse). w.id) id c.warehouses) [
  | none ↦ none
  | some w ↦ some w.branch
]

abbrev pub location_branch : ℕ → Catalog → Option ℕ
location_branch id c = elim (find_row (λ (l : Location). l.id) id c.locations) [
  | none ↦ none
  | some l ↦ some l.branch
]

-- Whether the branch is there, and the warehouse and the location belong to it.
unfoldable pub is_one_branch : InvoiceDto → Catalog → Bool
is_one_branch dto c =
    any (λ b. b == dto.branch) c.branches
    && same_id? (warehouse_branch dto.warehouse c) (some dto.branch)
    && same_id? (location_branch dto.source_location c) (some dto.branch)

abbrev pub with_invoice : Invoice → Shop → Shop
with_invoice i db = record db {
  books = record db.books {
    invoices = db.books.invoices ++ i ∷ [];
    next_id = db.books.next_id + 1;
  };
}

-- `create`; the number is under a unique index.
unfoldable pub create : ℕ → InvoiceDto → ℕ → Action Shop Invoice
unfolding totals_of
create number dto actor db =
    let row = invoice_row number dto (totals_of dto.items) actor db.books.next_id in
    if not (is_one_branch dto db.catalog)
    then (err (app_error validation_error 422), db)
    else if is_some (find_row (λ (i : Invoice). i.invoice_number) number db.books.invoices)
    then (err p2002, db)
    else (
      ok row,
      audited actor invoice_created Audit.invoice row.id (some dto.branch) (with_invoice row db),
    )
