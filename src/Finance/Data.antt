-- ===== src/Finance/Data.antt =====
-- The tables of backend/prisma/schema.prisma that hold money. Amounts are integers in units of
-- 0.0001, as the columns `Decimal(18, 4)` hold them, instants are numbers of milliseconds, and
-- `now` is the clock. A table holds its rows in the order of their creation.
use pasalho.Prelude.{ℕ, Bool, Option, List}
use pasalho.Prelude.Int.{ℤ}
use pasalho.Audit.{ReferenceType, AuditEntry}

pub data InvoiceStatus : Type 0 where
  draft posted paid partially_paid credit_open voided cancelled : InvoiceStatus

pub data InvoicePaymentStatus : Type 0 where
  unpaid partially_paid paid : InvoicePaymentStatus

pub data PaymentMethod : Type 0 where
  cash qr bank wallet cheque : PaymentMethod

pub data PaymentStatus : Type 0 where
  recorded voided : PaymentStatus

pub data EntryType : Type 0 where
  invoice_debit payment_credit reversal adjustment_debit adjustment_credit : EntryType
  credit_limit_increase credit_limit_decrease : EntryType

pub data ApprovalStatus : Type 0 where
  pending approved rejected : ApprovalStatus

pub data IdempotencyStatus : Type 0 where
  processing completed failed : IdempotencyStatus

pub record Retailer : Type 0 where
  pub id : ℕ
  pub branch : ℕ
  pub credit_limit : ℤ
  pub is_active : Bool

-- Quantities are in units of 0.000001, as in the inventory.
pub record InvoiceLine : Type 0 where
  pub product : ℕ
  pub batch : Option ℕ
  pub unit : ℕ
  pub quantity : ℤ
  pub base_quantity : ℤ
  pub unit_price : ℤ
  pub discount_amount : ℤ
  pub tax_amount : ℤ
  pub line_total : ℤ

-- A row of `Invoice` with its items.
pub record Invoice : Type 0 where
  pub id : ℕ
  pub branch : ℕ
  pub invoice_number : ℕ
  pub retailer : Option ℕ
  pub warehouse : ℕ
  pub source_location : ℕ
  pub status : InvoiceStatus
  pub payment_status : InvoicePaymentStatus
  pub subtotal : ℤ
  pub discount_total : ℤ
  pub tax_total : ℤ
  pub grand_total : ℤ
  pub paid_amount : ℤ
  pub due_amount : ℤ
  pub created_by : ℕ
  pub posted_by : Option ℕ
  pub voided_by : Option ℕ
  pub items : List InvoiceLine

pub record Payment : Type 0 where
  pub id : ℕ
  pub branch : ℕ
  pub retailer : Option ℕ
  pub invoice : Option ℕ
  pub amount : ℤ
  pub method : PaymentMethod
  pub reference_number : Option ℕ
  pub received_by : ℕ
  pub status : PaymentStatus

pub record LedgerEntry : Type 0 where
  pub id : ℕ
  pub branch : ℕ
  pub retailer : ℕ
  pub entry_type : EntryType
  pub reference_type : ReferenceType
  pub reference_id : ℕ
  pub debit_amount : ℤ
  pub credit_amount : ℤ
  pub balance_after : ℤ
  pub created_by : ℕ
  pub created_at : ℕ

pub data FinancialEntryType : Type 0 where
  cash_debit receivable_debit sales_credit payment_credit expense_debit : FinancialEntryType
  adjustment : FinancialEntryType

-- A row of `FinancialLedgerEntry`.
pub record FinancialEntry : Type 0 where
  pub id : ℕ
  pub branch : ℕ
  pub entry_type : FinancialEntryType
  pub reference_type : ReferenceType
  pub reference_id : ℕ
  pub debit_amount : ℤ
  pub credit_amount : ℤ
  pub created_by : ℕ

pub record CreditApproval : Type 0 where
  pub id : ℕ
  pub retailer : ℕ
  pub branch : ℕ
  pub requested_by : ℕ
  pub approved_by : Option ℕ
  pub old_limit : ℤ
  pub new_limit : ℤ
  pub status : ApprovalStatus

-- The records of the scope `payment.create`.
pub record IdempotencyRecord : Type 0 where
  pub key : ℕ
  pub request_hash : ℕ
  pub status : IdempotencyStatus
  pub resource_id : Option ℕ

pub record Books : Type 0 where
  pub retailers : List Retailer
  pub invoices : List Invoice
  pub payments : List Payment
  pub ledger : List LedgerEntry
  pub financial : List FinancialEntry
  pub approvals : List CreditApproval
  pub idempotency : List IdempotencyRecord
  pub audit : List AuditEntry
  pub next_id : ℕ
  pub now : ℕ
