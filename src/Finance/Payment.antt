-- ===== src/Finance/Payment.antt =====
-- `create` of backend/src/sales/payment.service.ts: a payment is recorded once for each
-- idempotency key, on an invoice or on account. `hash` is the SHA-256 hash of the request's JSON
-- text. The payment's number, which is made from the clock, is left out, and so are the listings.

pub mod Settled
pub mod Replay
use pasalho.Prelude.{
  ℕ, ◌+◌, Bool, true, false, Option, none, some, List, [], ◌∷◌, ◌++◌, ◌==◌, ◌&&◌, not, is_some,
  same_id?, if◌then◌else◌, find_row, update_row,
}
use pasalho.Prelude.Int.{ℤ, pos, ◌+ℤ◌, ◌-ℤ◌, ltb_ℤ, leb_ℤ, max_ℤ}
use pasalho.Prelude.Result.{
  Result, Failure, ok, err, app_error, validation_error, not_found, forbidden, conflict, p2002,
  p2025, Tx, Action, ◌>>=◌, ◌>>◌, pure, lift, modify, transaction,
}
use pasalho.Audit
use pasalho.Finance.Data.{
  InvoiceStatus, InvoicePaymentStatus, PaymentMethod, PaymentStatus, IdempotencyStatus, Retailer,
  Invoice, Payment, IdempotencyRecord, Books,
}
use pasalho.Finance.Tables.{find_retailer, find_invoice, find_payment, update_invoice, with_audit}
use pasalho.Finance.RetailerLedger.{create_payment_credit}

-- `CreatePaymentDto`
pub record PaymentInput : Type 0 where
  pub branch : ℕ
  pub retailer : Option ℕ
  pub invoice : Option ℕ
  pub amount : ℤ
  pub method : PaymentMethod
  pub reference_number : Option ℕ

abbrev pub find_record : ℕ → List IdempotencyRecord → Option IdempotencyRecord
find_record = find_row (λ (r : IdempotencyRecord). r.key)

abbrev pub begun : ℕ → ℕ → IdempotencyRecord
begun key request_hash = record {
  key = key;
  request_hash = request_hash;
  status = IdempotencyStatus.processing;
  resource_id = none;
}

abbrev pub completed_with : ℕ → IdempotencyRecord → IdempotencyRecord
completed_with id r = record r { status = IdempotencyStatus.completed; resource_id = some id }

-- `idempotencyRecord.create`, after the key was found to be new.
abbrev pub begin : ℕ → ℕ → Books → Books
begin key request_hash db = record db {
  idempotency = db.idempotency ++ begun key request_hash ∷ [];
}

-- `idempotencyRecord.update`
unfoldable pub complete : ℕ → ℕ → Tx Books Unit
complete key id db = elim (find_record key db.idempotency) [
  | none ↦ err p2025
  | some r ↦ ok (
    tt,
    record db {
      idempotency =
          update_row (λ (r : IdempotencyRecord). r.key) key (completed_with id) db.idempotency;
    },
  )
]

unfoldable pub locked_invoice : Option ℕ → Books → Result (Option Invoice)
locked_invoice none db = ok none
locked_invoice (some id) db = elim (find_invoice id db.invoices) [
  | none ↦ err (app_error not_found 404)
  | some i ↦ ok (some i)
]

-- `invoice?.retailerId ?? dto.retailerId`
abbrev pub retailer_of : Option Invoice → Option ℕ → Option ℕ
retailer_of none asked = asked
retailer_of (some i) asked = elim i.retailer [ none ↦ asked | some r ↦ some r ]

abbrev pub differ : Option ℕ → Option ℕ → Bool
differ (some a) (some b) = not (a == b)
differ _ _ = false

unfoldable pub check_invoice : PaymentInput → Option Invoice → Result (Unit {0})
check_invoice input none = ok tt
check_invoice input (some i) =
    if not (input.branch == i.branch)
    then err (app_error forbidden 403)
    else if differ i.retailer input.retailer
    then err (app_error forbidden 403)
    else ok tt

unfoldable pub check_retailer : ℕ → Option ℕ → Books → Result (Unit {0})
check_retailer branch none db = ok tt
check_retailer branch (some id) db = elim (find_retailer id db.retailers) [
  | none ↦ err (app_error forbidden 403)
  | some r ↦ if r.branch == branch then ok tt else err (app_error forbidden 403)
]

abbrev pub outstanding : Invoice → ℤ
outstanding i = max_ℤ (pos 0) (i.grand_total -ℤ i.paid_amount)

unfoldable pub check_outstanding : PaymentInput → Option Invoice → Result (Unit {0})
check_outstanding input none = ok tt
check_outstanding input (some i) =
    if ltb_ℤ (outstanding i) input.amount then err (app_error validation_error 422) else ok tt

-- The reads and the guards, in their order. The branch is the invoice's, which by then is the
-- input's.
unfoldable pub validate : PaymentInput → Tx Books (Option Invoice)
validate input = do
  invoice ← lift (locked_invoice input.invoice)
  lift (λ (db : Books). check_invoice input invoice)
  lift (check_retailer input.branch (retailer_of invoice input.retailer))
  lift (λ (db : Books). check_outstanding input invoice)
  pure invoice

abbrev pub payment_row : PaymentInput → Option ℕ → ℕ → ℕ → Payment
payment_row input retailer actor id = record {
  id = id;
  branch = input.branch;
  retailer = retailer;
  invoice = input.invoice;
  amount = input.amount;
  method = input.method;
  reference_number = input.reference_number;
  received_by = actor;
  status = PaymentStatus.recorded;
}

-- `payment.create`
unfoldable pub create_payment : PaymentInput → Option ℕ → ℕ → Tx Books Payment
create_payment input retailer actor db =
    let p = payment_row input retailer actor db.next_id in
    ok (p, record db { payments = db.payments ++ p ∷ []; next_id = db.next_id + 1 })

-- The invoice with the payment on it. The row that is updated is the one that was read.
abbrev pub settled : ℤ → Invoice → Invoice
settled amount i =
    let new_paid = i.paid_amount +ℤ amount in
    let new_due = i.grand_total -ℤ new_paid in
    record i {
      paid_amount = new_paid;
      due_amount = max_ℤ (pos 0) new_due;
      payment_status =
          if leb_ℤ new_due (pos 0)
          then InvoicePaymentStatus.paid
          else InvoicePaymentStatus.partially_paid;
      status = if leb_ℤ new_due (pos 0) then InvoiceStatus.paid else i.status;
    }

unfoldable pub settle : ℤ → Option Invoice → Tx Books Unit
settle amount none db = ok (tt, db)
settle amount (some i) db = update_invoice i.id (settled amount) db

unfoldable pub enter_credit : PaymentInput → Option ℕ → ℕ → ℕ → Tx Books Unit
enter_credit input none actor id db = ok (tt, db)
enter_credit input (some retailer) actor id db =
    elim (create_payment_credit
      (record {
        branch = input.branch;
        retailer = retailer;
        reference = id;
        amount = input.amount;
        created_by = actor;
      })
      db) [ ok (e, t) ↦ ok (tt, t) | err x ↦ err x ]

unfoldable pub record_payment : PaymentInput → ℕ → Option Invoice → Tx Books Payment
record_payment input actor invoice = do
  p ← create_payment input (retailer_of invoice input.retailer) actor
  settle input.amount invoice
  enter_credit input (retailer_of invoice input.retailer) actor p.id
  pure p

-- The payment, and whether it is new.
unfoldable pub new_payment : ℕ → ℕ → PaymentInput → ℕ → Tx Books (Payment × Bool)
new_payment key request_hash input actor = do
  modify (begin key request_hash)
  invoice ← validate input
  p ← record_payment input actor invoice
  complete key p.id
  pure (p, true)

abbrev pub is_completed : IdempotencyStatus → Bool
is_completed IdempotencyStatus.completed = true
is_completed _ = false

-- The payment that the key's record names.
unfoldable pub recorded_payment : Option ℕ → List Payment → Option Payment
recorded_payment none ps = none
recorded_payment (some id) ps = find_payment id ps

unfoldable pub replay : IdempotencyRecord → ℕ → Tx Books (Payment × Bool)
replay existing request_hash db =
    if not (existing.request_hash == request_hash)
    then err (app_error conflict 409)
    else if is_completed existing.status
    then elim (recorded_payment existing.resource_id db.payments) [
      | none ↦ err (app_error conflict 409)
      | some p ↦ ok ((p, false), db)
    ]
    else err (app_error conflict 409)

-- The callback of the transaction.
unfoldable pub create_in : ℕ → ℕ → PaymentInput → ℕ → Tx Books (Payment × Bool)
create_in key request_hash input actor db = elim (find_record key db.idempotency) [
  | some existing ↦ replay existing request_hash db
  | none ↦ new_payment key request_hash input actor db
]

-- The `catch` clause for a unique violation.
unfoldable pub recover : ℕ → ℕ → Books → Result Payment
recover key request_hash db = elim (find_record key db.idempotency) [
  | none ↦ err (app_error conflict 409)
  | some r ↦
      if not (r.request_hash == request_hash)
      then err (app_error conflict 409)
      else elim r.resource_id [
        | none ↦ err p2002
        | some id ↦ elim (find_payment id db.payments) [
          | none ↦ err (app_error not_found 404)
          | some p ↦ ok p
        ]
      ]
]

abbrev audit_of : ℕ → Payment → Audit.AuditEntry
audit_of actor p = record {
  actor = actor;
  action = Audit.payment_recorded;
  entity_type = Audit.payment;
  entity_id = p.id;
  branch = some p.branch;
}

-- What follows the transaction.
abbrev pub finish : ℕ → ℕ → ℕ → Result (Payment × Bool) × Books → Result Payment × Books
finish key request_hash actor (ok (p, true), t) = (ok p, with_audit (audit_of actor p) t)
finish key request_hash actor (ok (p, false), t) = (ok p, t)
finish key request_hash actor (err p2002, t) = (recover key request_hash t, t)
finish key request_hash actor (err e, t) = (err e, t)

module _ (hash : PaymentInput → ℕ) where
  -- `create`
  unfoldable pub create : Option ℕ → PaymentInput → ℕ → Action Books Payment
  create none input actor db = (err (app_error validation_error 422), db)
  create (some key) input actor db =
      finish key (hash input) actor (transaction (create_in key (hash input) input actor) db)
