-- ===== src/Sales/Invoice/Post.antt =====
-- `post` of backend/src/sales/invoice.service.ts: it takes the sold stock out of the inventory and
-- enters the debt in the books, in one transaction.
use pasalho.Prelude.{
  ℕ, ◌+◌, Bool, true, false, Option, none, some, List, [], ◌∷◌, ◌++◌, map, if◌then◌else◌, find_row,
  same_id?,
}
use pasalho.Prelude.Int.{ℤ, pos, -ℤ◌}
use pasalho.Prelude.Result.{
  Result, ok, err, app_error, not_found, validation_error, expired_batch, Tx, Action, ◌>>◌, pure,
  transaction, modify, lift,
}
use pasalho.Audit
use pasalho.Audit.{AuditAction, invoice_created, invoice_posted, invoice_voided, invoice_cancelled}
use pasalho.Inventory.Data.{
  StockState, EventType, MovementType, EventKey, BatchStatus, Batch, MovementInput, PostEventInput,
  Inventory,
}
use pasalho.Inventory.Ledger.{post_event}
use pasalho.Inventory.Consumption.{consume_for_order}
use pasalho.Finance.Data.{
  InvoiceStatus, InvoicePaymentStatus, InvoiceLine, Invoice, FinancialEntryType, FinancialEntry,
  Books,
}
use pasalho.Finance.RetailerLedger.{EntryInput, create_invoice_debit}
use pasalho.Sales.Data.{SalesOrder, Shop, in_stock, in_books, invoice_id, set_invoice, audited}

abbrev pub find_batch : ℕ → List Batch → Option Batch
find_batch = find_row (λ (b : Batch). b.id)

abbrev pub sale_allowed : BatchStatus → Result (Unit {0})
sale_allowed BatchStatus.expired = err (app_error expired_batch 422)
sale_allowed BatchStatus.blocked = err (app_error validation_error 422)
sale_allowed BatchStatus.active = ok tt

unfoldable pub check_batch : List Batch → Option ℕ → Result (Unit {0})
check_batch batches none = ok tt
check_batch batches (some id) = elim (find_batch id batches) [
  | none ↦ err (app_error not_found 404)
  | some b ↦ sale_allowed b.status
]

-- The loop of `post` over the batches of the items.
unfoldable pub check_batches : List InvoiceLine → Inventory → Result (Unit {0})
check_batches [] db = ok tt
check_batches (item ∷ items) db = elim (check_batch db.batches item.batch) [
  | err e ↦ err e
  | ok _ ↦ check_batches items db
]

abbrev pub sold : Invoice → InvoiceLine → MovementInput
sold i item = record {
  key = record {
    location = i.source_location;
    product = item.product;
    batch = item.batch;
    state = StockState.available;
    unit = item.unit;
  };
  quantity_delta = -ℤ◌ item.quantity;
  base_quantity_delta = -ℤ◌ item.base_quantity;
  movement_type = MovementType.sale_deduction;
  reason_code = some "INVOICE_SALE";
}

abbrev pub invoice_event : Invoice → EventType → EventKey → ℕ → List MovementInput → PostEventInput
invoice_event i type key actor movements = record {
  event_type = type;
  branch = i.branch;
  reference_type = Audit.invoice;
  reference_id = i.id;
  created_by = actor;
  approved_by = none;
  idempotency_key = some key;
  movements = movements;
}

abbrev pub sale_event : Invoice → ℕ → PostEventInput
sale_event i actor =
    invoice_event i EventType.sale_deducted (EventKey.invoice_post i.id) actor
      (map (sold i) i.items)

-- The relation `salesOrder` of an invoice.
unfoldable pub order_of : ℕ → List SalesOrder → Option SalesOrder
order_of id [] = none
order_of id (o ∷ os) = if same_id? o.invoice (some id) then some o else order_of id os

-- The stock half of `post`: the reserved stock of the order, or the available stock of the items.
unfoldable pub take_stock : Invoice → ℕ → Tx Shop Unit
take_stock i actor db = elim (order_of i.id db.orders) [
  | some o ↦
      (do
        in_stock (
            consume_for_order (record {
              sales_order = o.id;
              invoice = i.id;
              branch = i.branch;
              created_by = actor;
            }))
        pure tt)
        db
  | none ↦ (do in_stock (post_event (sale_event i actor)); pure tt) db
]

abbrev pub posted_status : Option ℕ → InvoiceStatus
posted_status none = InvoiceStatus.posted
posted_status (some _) = InvoiceStatus.credit_open

abbrev pub posted_row : ℕ → Invoice → Invoice
posted_row actor i = record i {
  status = posted_status i.retailer;
  payment_status = InvoicePaymentStatus.unpaid;
  posted_by = some actor;
}

abbrev pub financial_row : Invoice → FinancialEntryType → ℤ → ℤ → ℕ → ℕ → FinancialEntry
financial_row i type debit credit actor id = record {
  id = id;
  branch = i.branch;
  entry_type = type;
  reference_type = Audit.invoice;
  reference_id = i.id;
  debit_amount = debit;
  credit_amount = credit;
  created_by = actor;
}

-- `financialLedgerEntry.createMany`
abbrev pub enter_sale : Invoice → ℕ → Books → Books
enter_sale i actor db = record db {
  financial =
      db.financial
      ++ financial_row i FinancialEntryType.receivable_debit i.grand_total (pos 0) actor db.next_id
        ∷ financial_row i FinancialEntryType.sales_credit (pos 0) i.grand_total actor
            (db.next_id + 1)
        ∷ [];
  next_id = db.next_id + 2;
}

abbrev pub debit_of : Invoice → ℕ → ℕ → EntryInput
debit_of i retailer actor = record {
  branch = i.branch;
  retailer = retailer;
  reference = i.id;
  amount = i.grand_total;
  created_by = actor;
}

-- The entries that `post` makes for the invoice of a retailer.
unfoldable pub enter_debt : Invoice → ℕ → Option ℕ → Tx Books Unit
enter_debt i actor none = pure tt
enter_debt i actor (some retailer) = do
  create_invoice_debit (debit_of i retailer actor)
  modify (enter_sale i actor)

unfoldable pub post_draft : Invoice → ℕ → Tx Shop (Invoice × Bool)
post_draft i actor = do
  lift (λ (db : Shop). check_batches i.items db.stock)
  take_stock i actor
  modify (set_invoice i.id (posted_row actor))
  in_books (enter_debt i actor i.retailer)
  pure (posted_row actor i, false)

abbrev pub is_draft : InvoiceStatus → Bool
is_draft InvoiceStatus.draft = true
is_draft _ = false

-- `post` inside its transaction: the invoice, and whether it had been posted before.
unfoldable pub post_in : ℕ → ℕ → Tx Shop (Invoice × Bool)
post_in id actor db = elim (find_row invoice_id id db.books.invoices) [
  | none ↦ err (app_error not_found 404)
  | some i ↦ if is_draft i.status then post_draft i actor db else ok ((i, true), db)
]

abbrev pub after_post : ℕ → Result (Invoice × Bool) × Shop → Result Invoice × Shop
after_post actor (ok (i, true), db) = (ok i, db)
after_post actor (ok (i, false), db) =
    (ok i, audited actor invoice_posted Audit.invoice i.id (some i.branch) db)
after_post actor (err e, db) = (err e, db)

-- `post`
unfoldable pub post : ℕ → ℕ → Action Shop Invoice
post id actor db = after_post actor (transaction (post_in id actor) db)
