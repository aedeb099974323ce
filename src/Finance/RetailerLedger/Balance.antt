-- ===== src/Finance/RetailerLedger/Balance.antt =====
-- The outstanding amount of a retailer and the balances that the entries carry.
use pasalho.Prelude.{
  ℕ, ◌≡◌, refl, sym, ◌∙◌, ap, List, [], ◌∷◌, ◌++◌, ◌==◌, ==-refl, Bool-cases, inl, inr,
  if◌then◌else◌, append_assoc, append-nil,
}
use pasalho.Prelude.Int.{ℤ, pos, ◌+ℤ◌, ◌-ℤ◌, -ℤ◌, int_laws}
use pasalho.Prelude.Loops.{Ensures}
use pasalho.Finance.Data.{LedgerEntry, Books}
use pasalho.Finance.RetailerLedger.{
  outstanding_from, calculate_outstanding, entries_of, get_outstanding, EntryInput,
  create_invoice_debit, create_payment_credit, create_adjustment_debit, create_adjustment_credit,
}

-- What the entries of a retailer add up to, debits less credits.
unfoldable pub owed : ℕ → List LedgerEntry → ℤ
owed retailer [] = pos 0
owed retailer (e ∷ es) =
    (if e.retailer == retailer then e.debit_amount -ℤ e.credit_amount else pos 0)
    +ℤ owed retailer es

outstanding_from-owed :
    (acc : ℤ) (retailer : ℕ) (es : List LedgerEntry)
    → outstanding_from acc (entries_of retailer es) ≡ acc +ℤ owed retailer es
unfolding outstanding_from entries_of owed
outstanding_from-owed acc retailer [] = omega int_laws
outstanding_from-owed acc retailer (e ∷ es) = elim (Bool-cases (e.retailer == retailer)) [
  | inl same ↦ rw same (
      rw (outstanding_from-owed (acc +ℤ e.debit_amount -ℤ e.credit_amount) retailer es)
        (omega int_laws))
  | inr other ↦ rw other (rw (outstanding_from-owed acc retailer es) (omega int_laws))
]

pub get_outstanding-owed :
    (retailer : ℕ) (db : Books) → get_outstanding retailer db ≡ owed retailer db.ledger
unfolding get_outstanding calculate_outstanding
get_outstanding-owed retailer db =
    rw (outstanding_from-owed (pos 0) retailer db.ledger) (omega int_laws)

owed-append :
    (retailer : ℕ) (xs ys : List LedgerEntry)
    → owed retailer (xs ++ ys) ≡ owed retailer xs +ℤ owed retailer ys
unfolding owed
owed-append retailer [] ys = omega int_laws
owed-append retailer (e ∷ xs) ys = rw (owed-append retailer xs ys) (omega int_laws)

-- The entries `es`, behind `before`, each carry what their retailer owed when they were made.
abbrev pub IsRunning : List LedgerEntry → List LedgerEntry → Type 0
IsRunning before [] = Unit
IsRunning before (e ∷ es) =
    (e.balance_after ≡ owed e.retailer (before ++ e ∷ [])) × IsRunning (before ++ e ∷ []) es

IsRunning-append :
    (before es : List LedgerEntry) (e : LedgerEntry)
    → IsRunning before es
    → e.balance_after ≡ owed e.retailer ((before ++ es) ++ e ∷ [])
    → IsRunning before (es ++ e ∷ [])
IsRunning-append before [] e h k =
    (k ∙ ap (λ (xs : List LedgerEntry). owed e.retailer (xs ++ e ∷ [])) (append-nil before), tt)
IsRunning-append before (x ∷ es) e (p, h) k = (
  p,
  IsRunning-append (before ++ x ∷ []) es e h (
      k
      ∙ ap (λ (xs : List LedgerEntry). owed e.retailer (xs ++ e ∷ []))
          (sym (append_assoc before (x ∷ []) es))),
)

-- An entry behind the others: what it carries, and what it changes.
module _ (db : Books) (e : LedgerEntry) where
  entry-owed :
      (r : ℕ)
      → owed r (db.ledger ++ e ∷ [])
        ≡ owed r db.ledger +ℤ (if e.retailer == r then e.debit_amount -ℤ e.credit_amount else pos 0)
  unfolding owed
  entry-owed r = rw (owed-append r db.ledger (e ∷ [])) (omega int_laws)

  entry-IsRunning :
      IsRunning [] db.ledger
      → e.balance_after ≡ get_outstanding e.retailer db +ℤ (e.debit_amount -ℤ e.credit_amount)
      → IsRunning [] (db.ledger ++ e ∷ [])
  entry-IsRunning h k =
      IsRunning-append [] db.ledger e h (
        k ∙ rw (get_outstanding-owed e.retailer db, entry-owed e.retailer, ==-refl e.retailer) refl)

  entry-outstanding :
      (r : ℕ) (t : Books)
      → t.ledger ≡ db.ledger ++ e ∷ []
      → get_outstanding r t
        ≡ get_outstanding r db
          +ℤ (if e.retailer == r then e.debit_amount -ℤ e.credit_amount else pos 0)
  entry-outstanding r t h =
      rw (get_outstanding-owed r t, get_outstanding-owed r db, h) (entry-owed r)

debit : (a b : ℤ) → a +ℤ b ≡ a +ℤ (b -ℤ pos 0)
debit a b = omega int_laws

credit : (a b : ℤ) → a -ℤ b ≡ a +ℤ (pos 0 -ℤ b)
credit a b = omega int_laws

-- If every entry carries what its retailer owed when it was made, that still holds after an
-- invoice, a payment or an adjustment has been entered.
pub entries-IsRunning :
    (input : EntryInput) (db : Books)
    → IsRunning [] db.ledger
    → Ensures (create_invoice_debit input db) (λ t. IsRunning [] t.ledger)
      × Ensures (create_payment_credit input db) (λ t. IsRunning [] t.ledger)
      × Ensures (create_adjustment_debit input db) (λ t. IsRunning [] t.ledger)
      × Ensures (create_adjustment_credit input db) (λ t. IsRunning [] t.ledger)
unfolding create_invoice_debit create_payment_credit create_adjustment_debit
    create_adjustment_credit
entries-IsRunning input db h =
    let current = get_outstanding input.retailer db in
    (
      entry-IsRunning db _ h (debit current input.amount),
      entry-IsRunning db _ h (credit current input.amount),
      entry-IsRunning db _ h (debit current input.amount),
      entry-IsRunning db _ h (credit current input.amount),
    )

-- What a retailer owes after an entry.
abbrev pub HasMoved : ℕ → EntryInput → ℤ → Books → Books → Type 0
HasMoved r input d db t =
    get_outstanding r t ≡ get_outstanding r db +ℤ (if input.retailer == r then d else pos 0)

-- An invoice and a debit adjustment raise what their retailer owes by their amount, a payment and
-- a credit adjustment lower it by theirs, and no other retailer's account changes.
pub get_outstanding-entries :
    (r : ℕ) (input : EntryInput) (db : Books)
    → Ensures (create_invoice_debit input db) (HasMoved r input (input.amount -ℤ pos 0) db)
      × Ensures (create_payment_credit input db) (HasMoved r input (pos 0 -ℤ input.amount) db)
      × Ensures (create_adjustment_debit input db) (HasMoved r input (input.amount -ℤ pos 0) db)
      × Ensures (create_adjustment_credit input db) (HasMoved r input (pos 0 -ℤ input.amount) db)
unfolding create_invoice_debit create_payment_credit create_adjustment_debit
    create_adjustment_credit
get_outstanding-entries r input db = (
  entry-outstanding db _ r _ refl,
  entry-outstanding db _ r _ refl,
  entry-outstanding db _ r _ refl,
  entry-outstanding db _ r _ refl,
)
