-- ===== src/Finance/RetailerLedger.antt =====
-- backend/src/finance/retailer-ledger/retailer-ledger.service.ts: the account of each retailer,
-- with the balance after each entry, and the aging report. `getLedger` and
-- `getEntriesByDateRange` are listings and are not modelled.
pub mod Balance
pub mod Aging
use pasalho.Prelude.{
  ℕ, ◌+◌, ◌-◌, ◌/◌, Bool, true, false, List, [], ◌∷◌, ◌++◌, ◌==◌, leb, if◌then◌else◌,
}
use pasalho.Prelude.Int.{ℤ, pos, ◌+ℤ◌, ◌-ℤ◌}
use pasalho.Prelude.Result.{Tx, ok}
use pasalho.Audit.{ReferenceType, invoice, payment, retailer_ledger}
use pasalho.Finance.Data.{
  EntryType, invoice_debit, payment_credit, adjustment_debit, adjustment_credit, LedgerEntry, Books,
}

unfoldable pub outstanding_from : ℤ → List LedgerEntry → ℤ
outstanding_from acc [] = acc
outstanding_from acc (e ∷ es) = outstanding_from (acc +ℤ e.debit_amount -ℤ e.credit_amount) es

-- `calculateOutstanding`: `entries.reduce(..., 0)`
unfoldable pub calculate_outstanding : List LedgerEntry → ℤ
calculate_outstanding es = outstanding_from (pos 0) es

-- `findMany({ where: { retailerId } })`
unfoldable pub entries_of : ℕ → List LedgerEntry → List LedgerEntry
entries_of retailer [] = []
entries_of retailer (e ∷ es) =
    if e.retailer == retailer then e ∷ entries_of retailer es else entries_of retailer es

-- `getOutstanding`, and `getOutstandingWithTx` inside a transaction.
unfoldable pub get_outstanding : ℕ → Books → ℤ
get_outstanding retailer db = calculate_outstanding (entries_of retailer db.ledger)

-- The options of the four operations. `reference` is the invoice, the payment or the reference id.
pub record EntryInput : Type 0 where
  pub branch : ℕ
  pub retailer : ℕ
  pub reference : ℕ
  pub amount : ℤ
  pub created_by : ℕ

abbrev pub entry_row : EntryInput → EntryType → ReferenceType → ℤ → ℤ → ℤ → Books → LedgerEntry
entry_row input type reference_type debit credit balance db = record {
  id = db.next_id;
  branch = input.branch;
  retailer = input.retailer;
  entry_type = type;
  reference_type = reference_type;
  reference_id = input.reference;
  debit_amount = debit;
  credit_amount = credit;
  balance_after = balance;
  created_by = input.created_by;
  created_at = db.now;
}

-- `retailerLedgerEntry.create`
abbrev pub create_entry : LedgerEntry → Tx Books ℕ
create_entry e db = ok (e.id, record db { ledger = db.ledger ++ e ∷ []; next_id = db.next_id + 1 })

unfoldable pub create_invoice_debit : EntryInput → Tx Books ℕ
create_invoice_debit input db =
    let current = get_outstanding input.retailer db in
    let balance_after = current +ℤ input.amount in
    create_entry (entry_row input invoice_debit invoice input.amount (pos 0) balance_after db) db

unfoldable pub create_payment_credit : EntryInput → Tx Books ℕ
create_payment_credit input db =
    let current = get_outstanding input.retailer db in
    let balance_after = current -ℤ input.amount in
    create_entry (entry_row input payment_credit payment (pos 0) input.amount balance_after db) db

unfoldable pub create_adjustment_debit : EntryInput → Tx Books ℕ
create_adjustment_debit input db =
    let current = get_outstanding input.retailer db in
    let balance_after = current +ℤ input.amount in
    create_entry
      (entry_row input adjustment_debit retailer_ledger input.amount (pos 0) balance_after db) db

unfoldable pub create_adjustment_credit : EntryInput → Tx Books ℕ
create_adjustment_credit input db =
    let current = get_outstanding input.retailer db in
    let balance_after = current -ℤ input.amount in
    create_entry
      (entry_row input adjustment_credit retailer_ledger (pos 0) input.amount balance_after db) db

pub record AgingBucket : Type 0 where
  pub amount : ℤ
  pub count : ℕ

-- The buckets of 0-30, 31-60, 61-90 and more days.
pub record AgingBuckets : Type 0 where
  pub to_30 : AgingBucket
  pub to_60 : AgingBucket
  pub to_90 : AgingBucket
  pub over_90 : AgingBucket

abbrev pub no_buckets : AgingBuckets
no_buckets =
    let none : AgingBucket = record { amount = pos 0; count = 0 } in
    record { to_30 = none; to_60 = none; to_90 = none; over_90 = none }

abbrev pub counted : ℤ → AgingBucket → AgingBucket
counted amount b = record { amount = b.amount +ℤ amount; count = b.count + 1 }

-- A day has 1000 * 60 * 60 * 24 milliseconds; no entry was created after `now`.
abbrev pub days_since : ℕ → ℕ → ℕ
days_since now created_at = (now - created_at) / 86400000

-- One round of the loop.
unfoldable pub add_debit : ℕ → LedgerEntry → AgingBuckets → AgingBuckets
add_debit now debit bs =
    let days = days_since now debit.created_at in
    let amount = debit.debit_amount in
    if leb days 30
    then record bs { to_30 = counted amount bs.to_30 }
    else if leb days 60
    then record bs { to_60 = counted amount bs.to_60 }
    else if leb days 90
    then record bs { to_90 = counted amount bs.to_90 }
    else record bs { over_90 = counted amount bs.over_90 }

unfoldable pub add_debits : ℕ → List LedgerEntry → AgingBuckets → AgingBuckets
add_debits now [] bs = bs
add_debits now (d ∷ ds) bs = add_debits now ds (add_debit now d bs)

abbrev pub is_invoice_debit : EntryType → Bool
is_invoice_debit invoice_debit = true
is_invoice_debit _ = false

unfoldable pub invoice_debits : List LedgerEntry → List LedgerEntry
invoice_debits [] = []
invoice_debits (e ∷ es) =
    if is_invoice_debit e.entry_type then e ∷ invoice_debits es else invoice_debits es

pub record AgingReport : Type 0 where
  pub outstanding : ℤ
  pub buckets : AgingBuckets

-- `getAgingReport`; the payment credits that it also reads are not used.
unfoldable pub get_aging_report : ℕ → Books → AgingReport
get_aging_report retailer db = record {
  outstanding = get_outstanding retailer db;
  buckets = add_debits db.now (invoice_debits (entries_of retailer db.ledger)) no_buckets;
}
