-- ===== src/Tests/Money.antt =====
-- Payments, accounts and credit limits in small books.
use pasalho.Prelude.{
  not, true, ℕ, ◌≡◌, refl, none, some, List, [], ◌∷◌, arith, find_row, update_row,
}
use pasalho.Prelude.Int.{pos, ◌+ℤ◌, ◌-ℤ◌, ◌≤ℤ◌, sum_by, min_ℤ}
use pasalho.Prelude.Result.{ok, err, bad_request, for_each, transaction, committed}
use pasalho.Prelude.Loops.{Ensures}
use pasalho.Audit
use pasalho.Finance.Data
use pasalho.Finance.Data.{
  Books, Invoice, LedgerEntry, CreditApproval, InvoiceStatus, InvoicePaymentStatus, PaymentMethod,
  EntryType,
}
use pasalho.Finance.Tables.{find_payment, update_retailer, update_approval, update_invoice}
use pasalho.Finance.RetailerLedger.{
  EntryInput, get_outstanding, calculate_outstanding, outstanding_from, entries_of,
  get_aging_report, invoice_debits, create_invoice_debit, create_payment_credit,
  create_adjustment_debit, create_adjustment_credit,
}
use pasalho.Finance.RetailerLedger.Balance.{
  IsRunning, HasMoved, owed, entries-IsRunning, get_outstanding-entries,
}
use pasalho.Finance.RetailerLedger.Aging.{
  IsBucketOf, is_between, is_younger, aging_report_partitions,
}
use pasalho.Finance.CreditLimit.{approve_request, reject_request, approve}
use pasalho.Finance.CreditLimit.Decision.{IsApproved, approve_request_decides}
use pasalho.Finance.Allocation
use pasalho.Finance.Allocation.{
  AllocationItem, Allocated, plan, allocate_payment, reverse_allocation, allocate_found,
  apply_allocations, apply_allocation, link_retailer,
}
use pasalho.Finance.Allocation.Plan.{total_due, plan-total}
use pasalho.Finance.Allocation.Totals.{
  total_paid, AreBalanced, allocate_payment_total, allocations-AreBalanced,
}
use pasalho.Finance.Payment.{
  PaymentInput, create, create_in, new_payment, validate, locked_invoice, check_invoice,
  check_retailer, check_outstanding, create_payment, settle, enter_credit, record_payment, complete,
}
use pasalho.Finance.Payment.Settled.{AreSettled, create-AreSettled}
use pasalho.Finance.Payment.Replay.{create_replay}

abbrev bill : ℕ → ℕ → Invoice
bill id total = record {
  id = id;
  branch = 7;
  invoice_number = id;
  retailer = some 3;
  warehouse = 6;
  source_location = 1;
  status = InvoiceStatus.credit_open;
  payment_status = InvoicePaymentStatus.unpaid;
  subtotal = pos total;
  discount_total = pos 0;
  tax_total = pos 0;
  grand_total = pos total;
  paid_amount = pos 0;
  due_amount = pos total;
  created_by = 9;
  posted_by = some 9;
  voided_by = none;
  items = [];
}

-- Retailer 3 owes 500 for invoice 20 and 300 for invoice 21, and has asked for more credit.
abbrev books : Books
books = record {
  retailers = record { id = 3; branch = 7; credit_limit = pos 1000; is_active = true } ∷ [];
  invoices = bill 20 500 ∷ bill 21 300 ∷ [];
  payments =
      record {
        id = 30;
        branch = 7;
        retailer = some 3;
        invoice = none;
        amount = pos 600;
        method = PaymentMethod.cash;
        reference_number = none;
        received_by = 9;
        status = Data.recorded;
      }
      ∷ [];
  financial = [];
  ledger =
      record {
        id = 40;
        branch = 7;
        retailer = 3;
        entry_type = EntryType.invoice_debit;
        reference_type = Audit.invoice;
        reference_id = 20;
        debit_amount = pos 500;
        credit_amount = pos 0;
        balance_after = pos 500;
        created_by = 9;
        created_at = 0;
      }
      ∷ [];
  approvals =
      record {
        id = 50;
        retailer = 3;
        branch = 7;
        requested_by = 9;
        approved_by = none;
        old_limit = pos 1000;
        new_limit = pos 1500;
        status = Data.pending;
      }
      ∷ [];
  idempotency = [];
  audit = [];
  next_id = 100;
  now = 5000000000;
}

abbrev paid_in : EntryInput
paid_in = record { branch = 7; retailer = 3; reference = 30; amount = pos 200; created_by = 9 }

books-IsRunning : IsRunning [] books.ledger
unfolding owed ◌+ℤ◌ ◌-ℤ◌
books-IsRunning = (refl, tt)

entries-IsRunning_example :
    Ensures (create_invoice_debit paid_in books) (λ t. IsRunning [] t.ledger)
    × Ensures (create_payment_credit paid_in books) (λ t. IsRunning [] t.ledger)
    × Ensures (create_adjustment_debit paid_in books) (λ t. IsRunning [] t.ledger)
    × Ensures (create_adjustment_credit paid_in books) (λ t. IsRunning [] t.ledger)
entries-IsRunning_example = entries-IsRunning paid_in books books-IsRunning

get_outstanding-entries_example :
    Ensures (create_invoice_debit paid_in books) (HasMoved 3 paid_in (pos 200 -ℤ pos 0) books)
    × Ensures (create_payment_credit paid_in books) (HasMoved 3 paid_in (pos 0 -ℤ pos 200) books)
    × Ensures (create_adjustment_debit paid_in books) (HasMoved 3 paid_in (pos 200 -ℤ pos 0) books)
    × Ensures (create_adjustment_credit paid_in books) (HasMoved 3 paid_in (pos 0 -ℤ pos 200) books)
get_outstanding-entries_example = get_outstanding-entries 3 paid_in books

aging_report_partitions_example :
    IsBucketOf
      (is_between 0 31 books.now)
      (invoice_debits (entries_of 3 books.ledger))
      (get_aging_report 3 books).buckets.to_30
    × IsBucketOf
        (is_between 31 61 books.now)
        (invoice_debits (entries_of 3 books.ledger))
        (get_aging_report 3 books).buckets.to_60
    × IsBucketOf
        (is_between 61 91 books.now)
        (invoice_debits (entries_of 3 books.ledger))
        (get_aging_report 3 books).buckets.to_90
    × IsBucketOf
        (λ d. not (is_younger 91 books.now d))
        (invoice_debits (entries_of 3 books.ledger))
        (get_aging_report 3 books).buckets.over_90
aging_report_partitions_example = aging_report_partitions 3 books

abbrev after_approval : Books
after_approval = (approve_request 50 8 books).1

abbrev decided : CreditApproval
decided = record {
  id = 50;
  retailer = 3;
  branch = 7;
  requested_by = 9;
  approved_by = some 8;
  old_limit = pos 1000;
  new_limit = pos 1500;
  status = Data.approved;
}

approve_books : approve_request 50 8 books ≡ (ok decided, after_approval)
unfolding approve_request approve transaction committed update_retailer update_approval find_row
    update_row
approve_books = refl

approve_request_decides_example :
    IsApproved decided 50 after_approval
    × (approve_request 50 9 after_approval ≡ (err bad_request, after_approval))
    × (reject_request 50 9 after_approval ≡ (err bad_request, after_approval))
approve_request_decides_example =
    approve_request_decides 50 8 9 books after_approval decided approve_books

plan-total_example :
    Allocation.total_amount (plan (pos 600) books.invoices)
    ≡ min_ℤ (pos 600) (total_due books.invoices)
plan-total_example = plan-total (pos 600) books.invoices (omega arith)

abbrev parts : List AllocationItem
parts = record { invoice = 20; amount = pos 500 } ∷ record { invoice = 21; amount = pos 100 } ∷ []

abbrev receipt : Allocated
receipt = record { payment = 30; allocations = parts; total_allocated = pos 600; remaining = pos 0 }

abbrev after_parts : Books
after_parts = (allocate_payment 30 parts 9 books).1

allocate-parts : allocate_payment 30 parts 9 books ≡ (ok receipt, after_parts)
unfolding allocate_payment allocate_found apply_allocations apply_allocation link_retailer
    transaction committed update_invoice find_row update_row for_each sum_by ◌+ℤ◌ ◌-ℤ◌
allocate-parts = refl

allocate_payment_total_example :
    (total_paid after_parts ≡ total_paid books +ℤ Allocation.total_amount parts)
    × (p : Data.Payment) × (find_payment 30 books.payments ≡ some p)
    × (Allocation.total_amount parts ≤ℤ p.amount)
allocate_payment_total_example =
    allocate_payment_total 30 parts 9 books after_parts receipt allocate-parts

books-AreBalanced : AreBalanced books
unfolding ◌-ℤ◌
books-AreBalanced = (refl, (refl, tt))

allocations-AreBalanced_example :
    AreBalanced (allocate_payment 30 parts 9 books).1
    × AreBalanced (reverse_allocation 30 9 books).1
allocations-AreBalanced_example = allocations-AreBalanced 30 parts 9 books books-AreBalanced

books-AreSettled : AreSettled books
unfolding ◌-ℤ◌
books-AreSettled = ((refl, omega arith), ((refl, omega arith), tt))

abbrev cash_in : PaymentInput
cash_in = record {
  branch = 7;
  retailer = none;
  invoice = some 20;
  amount = pos 200;
  method = PaymentMethod.cash;
  reference_number = none;
}

-- A stand-in for SHA-256.
abbrev no_hash : PaymentInput → ℕ
no_hash input = 0

create-AreSettled_example : AreSettled (create no_hash (some 60) cash_in 9 books).1
create-AreSettled_example = create-AreSettled no_hash (some 60) cash_in 9 books books-AreSettled

abbrev new_payment_row : Data.Payment
new_payment_row = record {
  id = 100;
  branch = 7;
  retailer = some 3;
  invoice = some 20;
  amount = pos 200;
  method = PaymentMethod.cash;
  reference_number = none;
  received_by = 9;
  status = Data.recorded;
}

abbrev after_payment : Books
after_payment = (create no_hash (some 60) cash_in 9 books).1

create-cash : create no_hash (some 60) cash_in 9 books ≡ (ok new_payment_row, after_payment)
unfolding create create_in new_payment validate locked_invoice check_invoice check_retailer
    check_outstanding create_payment settle enter_credit record_payment complete
    create_payment_credit get_outstanding calculate_outstanding outstanding_from entries_of
    transaction update_invoice find_row update_row ◌+ℤ◌ ◌-ℤ◌
create-cash = refl

no_record_60 : find_row (λ (r : Data.IdempotencyRecord). r.key) 60 books.idempotency ≡ none
unfolding find_row
no_record_60 = refl

create_replay_example :
    create no_hash (some 60) cash_in 8 after_payment ≡ (ok new_payment_row, after_payment)
create_replay_example =
    create_replay no_hash 60 cash_in 9 8 books after_payment new_payment_row (omega arith, tt)
      no_record_60 create-cash
