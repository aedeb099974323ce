-- ===== src/Finance/Tables.antt =====
-- Lookups and updates by id in the tables that hold money. An update of a row that is not there
-- throws P2025.
use pasalho.Prelude.{ℕ, Option, none, some, List, find_row, update_row}
use pasalho.Prelude.Result.{err, ok, p2025, Tx}
use pasalho.Audit.{AuditEntry, log}
use pasalho.Finance.Data.{Retailer, Invoice, Payment, CreditApproval, Books}

abbrev pub find_retailer : ℕ → List Retailer → Option Retailer
find_retailer = find_row (λ (r : Retailer). r.id)

abbrev pub find_invoice : ℕ → List Invoice → Option Invoice
find_invoice = find_row (λ (r : Invoice). r.id)

abbrev pub find_payment : ℕ → List Payment → Option Payment
find_payment = find_row (λ (r : Payment). r.id)

abbrev pub find_approval : ℕ → List CreditApproval → Option CreditApproval
find_approval = find_row (λ (r : CreditApproval). r.id)

unfoldable pub update_retailer : ℕ → (Retailer → Retailer) → Tx Books Unit
update_retailer id f db = elim (find_retailer id db.retailers) [
  | none ↦ err p2025
  | some r ↦
      ok (tt, record db { retailers = update_row (λ (r : Retailer). r.id) id f db.retailers })
]

unfoldable pub update_invoice : ℕ → (Invoice → Invoice) → Tx Books Unit
update_invoice id f db = elim (find_invoice id db.invoices) [
  | none ↦ err p2025
  | some r ↦ ok (tt, record db { invoices = update_row (λ (r : Invoice). r.id) id f db.invoices })
]

unfoldable pub update_payment : ℕ → (Payment → Payment) → Tx Books Unit
update_payment id f db = elim (find_payment id db.payments) [
  | none ↦ err p2025
  | some r ↦ ok (tt, record db { payments = update_row (λ (r : Payment). r.id) id f db.payments })
]

unfoldable pub update_approval : ℕ → (CreditApproval → CreditApproval) → Tx Books Unit
update_approval id f db = elim (find_approval id db.approvals) [
  | none ↦ err p2025
  | some r ↦
      ok (tt, record db { approvals = update_row (λ (r : CreditApproval). r.id) id f db.approvals })
]

abbrev pub with_audit : AuditEntry → Books → Books
with_audit e db = record db { audit = log e db.audit }
