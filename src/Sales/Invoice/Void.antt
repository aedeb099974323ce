-- ===== src/Sales/Invoice/Void.antt =====
-- `void` and `cancel` of backend/src/sales/invoice.service.ts: a posted invoice is voided by putting
-- its items back into the stock. The text of the reason is left out. Neither locks the invoice, and
-- `void` commits the event before the new status; the calls here run without another between them.
use pasalho.Prelude.{ℕ, Bool, true, false, none, some, map, if◌then◌else◌, find_row}
use pasalho.Prelude.Result.{Result, ok, err, app_error, not_found, validation_error, Action}
use pasalho.Audit
use pasalho.Audit.{AuditAction, invoice_created, invoice_posted, invoice_voided, invoice_cancelled}
use pasalho.Inventory.Data.{
  StockState, EventType, MovementType, EventKey, MovementInput, PostEventInput, Inventory,
}
use pasalho.Inventory.Ledger.{post_event}
use pasalho.Finance.Data.{InvoiceStatus, InvoiceLine, Invoice}
use pasalho.Sales.Data.{Shop, invoice_id, set_invoice, audited}
use pasalho.Sales.Invoice.Post.{invoice_event, is_draft}

-- `['POSTED', 'CREDIT_OPEN', 'PARTIALLY_PAID'].includes(invoice.status)`
abbrev pub is_voidable : InvoiceStatus → Bool
is_voidable InvoiceStatus.posted = true
is_voidable InvoiceStatus.credit_open = true
is_voidable InvoiceStatus.partially_paid = true
is_voidable _ = false

abbrev pub returned : Invoice → InvoiceLine → MovementInput
returned i item = record {
  key = record {
    location = i.source_location;
    product = item.product;
    batch = item.batch;
    state = StockState.available;
    unit = item.unit;
  };
  quantity_delta = item.quantity;
  base_quantity_delta = item.base_quantity;
  movement_type = MovementType.reversal;
  reason_code = some "INVOICE_VOID";
}

abbrev pub void_event : Invoice → ℕ → PostEventInput
void_event i actor =
    invoice_event i EventType.reversal_event (EventKey.invoice_void i.id) actor
      (map (returned i) i.items)

abbrev pub voided_row : ℕ → Invoice → Invoice
voided_row actor i = record i { status = InvoiceStatus.voided; voided_by = some actor }

-- `findById` at the end of a handler.
unfoldable pub read_back : ℕ → Shop → Result Invoice × Shop
read_back id db = elim (find_row invoice_id id db.books.invoices) [
  | none ↦ (err (app_error not_found 404), db)
  | some i ↦ (ok i, db)
]

-- What `void` does when its event, a transaction of its own, has been committed.
abbrev pub after_reversal : Invoice → ℕ → Result (ℕ × Inventory) → Shop → Result Invoice × Shop
after_reversal i actor (err e) db = (err e, db)
after_reversal i actor (ok (_, s)) db = read_back i.id (
    audited actor invoice_voided Audit.invoice i.id (some i.branch)
      (set_invoice i.id (voided_row actor) (record db { stock = s })))

unfoldable pub void_found : Invoice → ℕ → Action Shop Invoice
void_found i actor db =
    if is_voidable i.status
    then after_reversal i actor (post_event (void_event i actor) db.stock) db
    else (err (app_error validation_error 422), db)

-- `findById`, and what a handler does with the row.
unfoldable pub with_found : ℕ → (Invoice → Action Shop Invoice) → Action Shop Invoice
with_found id k db = elim (find_row invoice_id id db.books.invoices) [
  | none ↦ (err (app_error not_found 404), db)
  | some i ↦ k i db
]

-- `void`
unfoldable pub void_invoice : ℕ → ℕ → Action Shop Invoice
void_invoice id actor = with_found id (λ i. void_found i actor)

abbrev pub cancelled_row : Invoice → Invoice
cancelled_row i = record i { status = InvoiceStatus.cancelled }

unfoldable pub cancel_found : Invoice → ℕ → Action Shop Invoice
cancel_found i actor db =
    if is_draft i.status
    then read_back i.id (
        audited actor invoice_cancelled Audit.invoice i.id (some i.branch)
          (set_invoice i.id cancelled_row db))
    else (err (app_error validation_error 422), db)

-- `cancel`
unfoldable pub cancel_invoice : ℕ → ℕ → Action Shop Invoice
cancel_invoice id actor = with_found id (λ i. cancel_found i actor)
