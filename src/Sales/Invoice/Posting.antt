-- ===== src/Sales/Invoice/Posting.antt =====
-- What posting an invoice leaves behind.
use mathlib.Core.Path.{subst}
use pasalho.Prelude.{
  ℕ, ◌≡◌, refl, sym, ◌∙◌, ap, Bool, true, false, Option, none, some, List, arith, Bool-cases,
  Option-cases, inl, inr, find_row, if◌then◌else◌, same_id?, is_some, ◌==◌,
}
use pasalho.Prelude.Int.{ℤ, pos, ◌+ℤ◌, ◌-ℤ◌, sum_by, sum_by-append, int_laws}
use pasalho.Prelude.Result.{Result-cases, ok, Tx}
use pasalho.Inventory.Data.{Inventory}
use pasalho.Inventory.Ledger.{post_event}
use pasalho.Inventory.Consumption.{consume_for_order}
use pasalho.Prelude.Loops.{Ensures, Ensures-ok}
use pasalho.Finance.Data.{Invoice, FinancialEntry, Books}
use pasalho.Finance.RetailerLedger.{get_outstanding, create_invoice_debit}
use pasalho.Finance.RetailerLedger.Balance.{get_outstanding-entries}
use pasalho.Sales.Data.{Shop, in_stock, in_books, invoice_id, set_invoice}
use pasalho.Sales.Invoice.Post.{
  check_batches, take_stock, order_of, sale_event, posted_row, enter_debt, debit_of, post_draft,
  post_in, is_draft,
}

-- A step of the stock ledger leaves the other tables alone.
in_stock-inverted :
    {A : Type 0} (m : Tx Inventory A) (db t : Shop) {a : A}
    → in_stock m db ≡ ok (a, t)
    → (s : Inventory) × (m db.stock ≡ ok (a, s)) × (t ≡ record db { stock = s })
unfolding in_stock
in_stock-inverted m db t {a} h = elim (Result-cases (m db.stock)) [
  | inl ((b, s), e) ↦
      let same : b ≡ a = ground (arith, h, e) in (s, rw same at e, ground (arith, h, e))
  | inr (x, e) ↦ absurd (ground (arith, h, e))
]

-- The stock half of a post changes nothing but the stock.
take_stock-rest :
    (i : Invoice) (actor : ℕ) (db s : Shop)
    → take_stock i actor db ≡ ok (tt, s)
    → (stock : Inventory) × (s ≡ record db { stock = stock })
unfolding take_stock in_stock
take_stock-rest i actor db s h = elim (Option-cases (order_of i.id db.orders)) [
  | inl e ↦ elim (Result-cases (post_event (sale_event i actor) db.stock)) [
    | inl ((n, stock), e') ↦ (stock, ground (arith, h, e, e'))
    | inr (x, e') ↦ absurd (ground (arith, h, e, e'))
  ]
  | inr (o, e) ↦
      elim (Result-cases (
        consume_for_order
          (record { sales_order = o.id; invoice = i.id; branch = i.branch; created_by = actor })
          db.stock)) [
            | inl ((c, stock), e') ↦ (stock, ground (arith, h, e, e'))
            | inr (x, e') ↦ absurd (ground (arith, h, e, e'))
          ]
]

-- The steps of a post that went through.
pub post_draft-inverted :
    (i : Invoice) (actor : ℕ) (db t : Shop) (r : Invoice × Bool)
    → post_draft i actor db ≡ ok (r, t)
    → (s : Shop) × (take_stock i actor db ≡ ok (tt, s))
      × (b : Books) × (enter_debt i actor i.retailer (set_invoice i.id (posted_row actor) s).books
          ≡ ok (tt, b))
      × (r ≡ (posted_row actor i, false))
      × (t ≡ record (set_invoice i.id (posted_row actor) s) { books = b })
unfolding post_draft in_books
post_draft-inverted i actor db t r h = elim (Result-cases (check_batches i.items db.stock)) [
  | inr (x, e) ↦ absurd (ground (arith, h, e))
  | inl (_, e) ↦ elim (Result-cases (take_stock i actor db)) [
    | inr (x, e1) ↦ absurd (ground (arith, h, e, e1))
    | inl ((_, s), e1) ↦
        elim (Result-cases
          (enter_debt i actor i.retailer (set_invoice i.id (posted_row actor) s).books)) [
            | inr (x, e2) ↦ absurd (ground (arith, h, e, e1, e2))
            | inl ((_, b), e2) ↦
                (s, e1, b, e2, ground (arith, h, e, e1, e2), ground (arith, h, e, e1, e2))
          ]
  ]
]

-- What an invoice adds to the account of a retailer, and to each side of the financial ledger.
abbrev pub debt_of : Invoice → Option ℕ → ℕ → ℤ
debt_of i retailer c = if same_id? retailer (some c) then i.grand_total else pos 0

abbrev pub booked : Invoice → Option ℕ → ℤ
booked i retailer = if is_some retailer then i.grand_total else pos 0

abbrev pub total_debit : List FinancialEntry → ℤ
total_debit = sum_by (λ (e : FinancialEntry). e.debit_amount)

abbrev pub total_credit : List FinancialEntry → ℤ
total_credit = sum_by (λ (e : FinancialEntry). e.credit_amount)

-- The books after an invoice has been entered.
abbrev pub IsEntered : Invoice → Option ℕ → ℕ → Books → Books → Type 0
IsEntered i retailer c db t =
    (get_outstanding c t ≡ get_outstanding c db +ℤ debt_of i retailer c)
    × (total_debit t.financial ≡ total_debit db.financial +ℤ booked i retailer)
    × (total_credit t.financial ≡ total_credit db.financial +ℤ booked i retailer)
    × (is_some retailer ≡ false → (t.ledger ≡ db.ledger) × (t.financial ≡ db.financial))

debited :
    (b : Bool) (x v : ℤ) → x +ℤ (if b then v -ℤ pos 0 else pos 0) ≡ x +ℤ (if b then v else pos 0)
debited true x v = omega int_laws
debited false x v = omega int_laws

enter_debt-IsEntered :
    (i : Invoice) (actor : ℕ) (retailer : Option ℕ) (c : ℕ) (db : Books)
    → Ensures (enter_debt i actor retailer db) (IsEntered i retailer c db)
unfolding enter_debt create_invoice_debit get_outstanding sum_by
enter_debt-IsEntered i actor none c db =
    (omega int_laws, omega int_laws, omega int_laws, λ n. (refl, refl))
enter_debt-IsEntered i actor (some r) c db = (
  (get_outstanding-entries c (debit_of i r actor) db).0
      ∙ debited (r == c) (get_outstanding c db) i.grand_total,
  rw (sum_by-append (λ (e : FinancialEntry). e.debit_amount) db.financial _) (omega int_laws),
  rw (sum_by-append (λ (e : FinancialEntry). e.credit_amount) db.financial _) (omega int_laws),
  λ n. absurd (ground (arith, n)),
)

-- Only the two ledgers count.
IsEntered-same :
    (i : Invoice) (retailer : Option ℕ) (c : ℕ) (x db t : Books)
    → x.ledger ≡ db.ledger
    → x.financial ≡ db.financial
    → IsEntered i retailer c x t
    → IsEntered i retailer c db t
unfolding get_outstanding
IsEntered-same i retailer c x db t l f h = rw (← l, ← f) h

-- A row of the invoices of a post.
post_in-inverted :
    (id actor : ℕ) (db t : Shop) (r : Invoice)
    → post_in id actor db ≡ ok ((r, false), t)
    → (i : Invoice) × (find_row invoice_id id db.books.invoices ≡ some i)
      × (post_draft i actor db ≡ ok ((r, false), t))
unfolding post_in
post_in-inverted id actor db t r h =
    elim (Option-cases (find_row invoice_id id db.books.invoices)) [
      | inl e ↦ absurd (ground (arith, h, e))
      | inr (i, e) ↦ elim (Bool-cases (is_draft i.status)) [
        | inl e1 ↦ (i, e, ground (arith, h, e, e1))
        | inr e1 ↦ absurd (ground (arith, h, e, e1))
      ]
    ]

-- When a draft is posted, its retailer's account rises by the grand total and no other account
-- changes, and both sides of the financial ledger rise by the grand total; an invoice without a
-- retailer makes no entry in either ledger.
pub post_in-IsEntered :
    (id actor c : ℕ) (db t : Shop) (r : Invoice)
    → post_in id actor db ≡ ok ((r, false), t)
    → IsEntered r r.retailer c db.books t.books
post_in-IsEntered id actor c db t r h =
    let (i, found, h1) = post_in-inverted id actor db t r h in
    let (s, h2, b, h3, same, after) = post_draft-inverted i actor db t (r, false) h1 in
    let (stock, rest) = take_stock-rest i actor db s h2 in
    let row : r ≡ posted_row actor i = ap (λ (p : Invoice × Bool). p.0) same in
    let entered =
      Ensures-ok (IsEntered i i.retailer c (set_invoice i.id (posted_row actor) s).books)
        (enter_debt i actor i.retailer (set_invoice i.id (posted_row actor) s).books)
        (enter_debt-IsEntered i actor i.retailer c (set_invoice i.id (posted_row actor) s).books)
        h3 in
    let before =
      IsEntered-same i i.retailer c (set_invoice i.id (posted_row actor) s).books db.books b
        (ap (λ (v : Shop). v.books.ledger) rest) (ap (λ (v : Shop). v.books.financial) rest)
        entered in
    subst (λ (x : Invoice). IsEntered x x.retailer c db.books t.books) (sym row)
      (subst (λ (x : Books). IsEntered i i.retailer c db.books x)
        (sym (ap (λ (v : Shop). v.books) after)) before)
