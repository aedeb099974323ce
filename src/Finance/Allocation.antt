-- ===== src/Finance/Allocation.antt =====
-- backend/src/finance/payment-allocation/payment-allocation.service.ts: a payment is spread over
-- invoices, by the caller or over the retailer's oldest unpaid ones. `getPaymentAllocation` is a
-- listing and is not modelled.

pub mod Plan
pub mod Totals
use pasalho.Prelude.{
  ℕ, Bool, true, false, Option, none, some, List, [], ◌∷◌, ◌&&◌, not, is_some, same_id?,
  if◌then◌else◌,
}
use pasalho.Prelude.Int.{ℤ, pos, ◌+ℤ◌, ◌-ℤ◌, ltb_ℤ, leb_ℤ, min_ℤ, sum_by}
use pasalho.Prelude.Result.{
  Result, ok, err, bad_request, Tx, Action, ◌>>=◌, ◌>>◌, pure, for_each, modify, transaction,
  committed,
}
use pasalho.Audit.{AuditEntry, payment, payment_allocated}
use pasalho.Finance.Data.{
  InvoiceStatus, InvoicePaymentStatus, PaymentStatus, Invoice, Payment, Books,
}
use pasalho.Finance.Tables.{find_invoice, find_payment, update_invoice, update_payment, with_audit}

pub record AllocationItem : Type 0 where
  pub invoice : ℕ
  pub amount : ℤ

abbrev is_posted : InvoiceStatus → Bool
is_posted InvoiceStatus.posted = true
is_posted InvoiceStatus.credit_open = true
is_posted _ = false

abbrev is_unpaid : InvoicePaymentStatus → Bool
is_unpaid InvoicePaymentStatus.paid = false
is_unpaid _ = true

abbrev pub is_paid_in_part : InvoicePaymentStatus → Bool
is_paid_in_part InvoicePaymentStatus.unpaid = false
is_paid_in_part _ = true

-- `findMany` of the unpaid invoices of a retailer. The table is in the order of creation.
unfoldable pub unpaid_invoices : ℕ → List Invoice → List Invoice
unpaid_invoices retailer [] = []
unpaid_invoices retailer (i ∷ is) =
    if same_id? i.retailer (some retailer) && is_posted i.status && is_unpaid i.payment_status
    then i ∷ unpaid_invoices retailer is
    else unpaid_invoices retailer is

-- The loop of `autoAllocate`.
unfoldable pub plan : ℤ → List Invoice → List AllocationItem
plan remaining_amount [] = []
plan remaining_amount (i ∷ is) =
    let allocation_amount = min_ℤ remaining_amount i.due_amount in
    let rest = plan (remaining_amount -ℤ allocation_amount) is in
    let skipped = plan remaining_amount is in
    if leb_ℤ remaining_amount (pos 0)
    then []
    else if ltb_ℤ (pos 0) allocation_amount
    then record { invoice = i.id; amount = allocation_amount } ∷ rest
    else skipped

-- The new payment status of an invoice on which `new_paid` has been paid.
abbrev pub status_after : ℤ → Invoice → InvoicePaymentStatus
status_after new_paid i =
    if leb_ℤ i.grand_total new_paid
    then InvoicePaymentStatus.paid
    else if ltb_ℤ (pos 0) new_paid
    then InvoicePaymentStatus.partially_paid
    else i.payment_status

abbrev pub paid_more : ℤ → Invoice → Invoice
paid_more amount i =
    let new_paid = i.paid_amount +ℤ amount in
    record i {
      paid_amount = new_paid;
      due_amount = i.grand_total -ℤ new_paid;
      payment_status = status_after new_paid i;
    }

-- One round of the loop of `allocatePayment`.
unfoldable pub apply_allocation : AllocationItem → Tx Books Unit
apply_allocation a db = elim (find_invoice a.invoice db.invoices) [
  | none ↦ err bad_request
  | some i ↦ update_invoice a.invoice (paid_more a.amount) db
]

-- The payment of a first invoice's retailer is linked to that retailer.
unfoldable pub link_retailer : Payment → List AllocationItem → Tx Books Unit
link_retailer p [] db = ok (tt, db)
link_retailer p (a ∷ others) db =
    if is_some p.retailer then ok (tt, db) else elim (find_invoice a.invoice db.invoices) [
      | none ↦ ok (tt, db)
      | some i ↦ elim i.retailer [
        | none ↦ ok (tt, db)
        | some r ↦ update_payment p.id (λ (p : Payment). record p { retailer = some r }) db
      ]
    ]

unfoldable pub apply_allocations : Payment → List AllocationItem → Tx Books Unit
apply_allocations p allocations = do
  for_each apply_allocation allocations
  link_retailer p allocations

abbrev pub total_amount : List AllocationItem → ℤ
total_amount = sum_by (λ (a : AllocationItem). a.amount)

pub record Allocated : Type 0 where
  pub payment : ℕ
  pub allocations : List AllocationItem
  pub total_allocated : ℤ
  pub remaining : ℤ

abbrev audit_of : ℕ → Payment → AuditEntry
audit_of actor p = record {
  actor = actor;
  action = payment_allocated;
  entity_type = payment;
  entity_id = p.id;
  branch = some p.branch;
}

unfoldable pub allocate_found : Payment → List AllocationItem → Tx Books Allocated
allocate_found p allocations = do
  apply_allocations p allocations
  pure (record {
    payment = p.id;
    allocations = allocations;
    total_allocated = total_amount allocations;
    remaining = p.amount -ℤ total_amount allocations;
  })

-- `allocatePayment`
unfoldable pub allocate_payment : ℕ → List AllocationItem → ℕ → Action Books Allocated
allocate_payment id allocations by db = elim (find_payment id db.payments) [
  | none ↦ (err bad_request, db)
  | some p ↦
      if ltb_ℤ p.amount (total_amount allocations)
      then (err bad_request, db)
      else committed (transaction (allocate_found p allocations)) (λ r. with_audit (audit_of by p))
          db
]

abbrev allocate_plan : ℕ → List AllocationItem → ℕ → Action Books Allocated
allocate_plan id [] by db = (err bad_request, db)
allocate_plan id allocations by db = allocate_payment id allocations by db

-- `autoAllocate`
unfoldable pub auto_allocate : ℕ → ℕ → Action Books Allocated
auto_allocate id by db = elim (find_payment id db.payments) [
  | none ↦ (err bad_request, db)
  | some p ↦ elim p.retailer [
    | none ↦ (err bad_request, db)
    | some r ↦ allocate_plan id (plan p.amount (unpaid_invoices r db.invoices)) by db
  ]
]

abbrev pub unpaid_again : Invoice → Invoice
unpaid_again i = record i {
  paid_amount = pos 0;
  due_amount = i.grand_total;
  payment_status = InvoicePaymentStatus.unpaid;
}

-- The loop of `reverseAllocation` over all invoices of the retailer that are paid in part.
unfoldable pub reset_invoices : ℕ → List Invoice → List Invoice
reset_invoices retailer [] = []
reset_invoices retailer (i ∷ is) =
    (if same_id? i.retailer (some retailer) && is_paid_in_part i.payment_status
      then unpaid_again i
      else i)
    ∷ reset_invoices retailer is

unfoldable pub reverse : Payment → ℕ → Tx Books ℕ
reverse p retailer = do
  update_payment p.id (λ (p : Payment). record p { status = PaymentStatus.voided })
  modify (λ (db : Books). record db { invoices = reset_invoices retailer db.invoices })
  pure p.id

-- `reverseAllocation`
unfoldable pub reverse_allocation : ℕ → ℕ → Action Books ℕ
reverse_allocation id by db = elim (find_payment id db.payments) [
  | none ↦ (err bad_request, db)
  | some p ↦ elim p.retailer [
    | none ↦ (err bad_request, db)
    | some r ↦ committed (transaction (reverse p r)) (λ x. with_audit (audit_of by p)) db
  ]
]
