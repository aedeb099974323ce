-- ===== src/Finance/Payment/Settled.antt =====
-- Payments keep the paid and due amounts of the invoices right.
use pasalho.Prelude.{
  ℕ, ◌≡◌, refl, ◌∙◌, ap, Bool, true, false, Option, none, some, [], ◌∷◌, ◌++◌, ◌+◌, arith,
  Option-cases, inl, inr, All, All-update_row, find_row-id,
}
use pasalho.Prelude.Int.{ℤ, pos, ◌+ℤ◌, ◌-ℤ◌, ◌≤ℤ◌, ltb_ℤ, max_ℤ, int_laws}
use pasalho.Prelude.Result.{
  Result, Result-cases, ok, err, p2002, p2025, bad_request, app_error, transaction,
}
use pasalho.Prelude.Loops.{Ensures, Ensures-then, Ensures-bind, Ensures-ok, Ensures-map}
use pasalho.Finance.Data.{Invoice, Payment, IdempotencyRecord, Books}
use pasalho.Finance.Tables.{find_invoice, update_invoice}
use pasalho.Finance.RetailerLedger.{create_payment_credit}
use pasalho.Finance.Payment.{
  PaymentInput, begin, complete, find_record, locked_invoice, check_invoice, check_retailer,
  check_outstanding, retailer_of, validate, create_payment, settled, settle, enter_credit,
  record_payment, new_payment, replay, create_in, finish, create, payment_row,
}

-- An invoice that is not overpaid, and whose due amount is what has not been paid of it.
abbrev pub IsSettled : Invoice → Type 0
IsSettled i = (i.due_amount ≡ i.grand_total -ℤ i.paid_amount) × (i.paid_amount ≤ℤ i.grand_total)

abbrev pub AreSettled : Books → Type 0
AreSettled db = All IsSettled db.invoices

-- What the guards leave: nothing is written, and the amount fits.
pub validate-ok :
    (input : PaymentInput) (db t : Books) (o : Option Invoice)
    → validate input db ≡ ok (o, t)
    → (t ≡ db) × (locked_invoice input.invoice db ≡ ok o) × (check_outstanding input o ≡ ok tt)
unfolding validate
validate-ok input db t o h = elim (Result-cases (locked_invoice input.invoice db)) [
  | inr (x, e) ↦ absurd (ground (arith, h, e))
  | inl (i, e) ↦ elim (Result-cases (check_invoice input i)) [
    | inr (x, e1) ↦ absurd (ground (arith, h, e, e1))
    | inl (u, e1) ↦
        elim (Result-cases (check_retailer input.branch (retailer_of i input.retailer) db)) [
          | inr (x, e2) ↦ absurd (ground (arith, h, e, e1, e2))
          | inl (v, e2) ↦ elim (Result-cases (check_outstanding input i)) [
            | inr (x, e3) ↦ absurd (ground (arith, h, e, e1, e2, e3))
            | inl (w, e3) ↦
                let same : i ≡ o = ground (arith, h, e, e1, e2, e3) in
                (ground (arith, h, e, e1, e2, e3), rw e (ap ok same), rw (← same) e3)
          ]
        ]
  ]
]

fits :
    (g p a : ℤ)
    → p ≤ℤ g
    → ltb_ℤ (max_ℤ (pos 0) (g -ℤ p)) a ≡ false
    → (max_ℤ (pos 0) (g -ℤ (p +ℤ a)) ≡ g -ℤ (p +ℤ a)) × (p +ℤ a ≤ℤ g)
fits g p a h k = grind int_laws

outstanding-ok :
    (input : PaymentInput) (i : Invoice)
    → check_outstanding input (some i) ≡ ok tt
    → ltb_ℤ (max_ℤ (pos 0) (i.grand_total -ℤ i.paid_amount)) input.amount ≡ false
unfolding check_outstanding
outstanding-ok input i h = ground (arith, h)

locked_invoice-finds :
    (id : Option ℕ) (db : Books) (i : Invoice)
    → locked_invoice id db ≡ ok (some i)
    → find_invoice i.id db.invoices ≡ some i
unfolding locked_invoice
locked_invoice-finds none db i h = absurd (ground (arith, h))
locked_invoice-finds (some id) db i h =
    let found : find_invoice id db.invoices ≡ some i = ground (arith, h) in
    ap (λ k. find_invoice k db.invoices) (find_row-id (λ (r : Invoice). r.id) id db.invoices found)
    ∙ found

settle-AreSettled :
    (input : PaymentInput) (o : Option Invoice) (db : Books)
    → ((i : Invoice) → o ≡ some i → find_invoice i.id db.invoices ≡ some i)
    → check_outstanding input o ≡ ok tt
    → AreSettled db
    → Ensures (settle input.amount o db) AreSettled
unfolding settle update_invoice
settle-AreSettled input none db found c h = h
settle-AreSettled input (some i) db found c h =
    rw (found i refl, Ensures)
      (All-update_row (λ (r : Invoice). r.id) IsSettled i.id (settled input.amount) db.invoices
        (λ r f s.
          let same : r ≡ i = ground (arith, f, found i refl) in
          rw same (
            fits i.grand_total i.paid_amount input.amount (rw same at s.1)
              (outstanding-ok input i c)))
        h)

invoices-enter_credit :
    (input : PaymentInput) (retailer : Option ℕ) (actor id : ℕ) (db : Books)
    → Ensures (enter_credit input retailer actor id db) (λ t. t.invoices ≡ db.invoices)
unfolding enter_credit create_payment_credit
invoices-enter_credit input none actor id db = refl
invoices-enter_credit input (some r) actor id db = refl

record_payment-AreSettled :
    (input : PaymentInput) (actor : ℕ) (o : Option Invoice) (db : Books)
    → ((i : Invoice) → o ≡ some i → find_invoice i.id db.invoices ≡ some i)
    → check_outstanding input o ≡ ok tt
    → AreSettled db
    → Ensures (record_payment input actor o db) AreSettled
unfolding record_payment create_payment
record_payment-AreSettled input actor o db found c h =
    let db1 : Books = record db {
      payments =
          db.payments ++ payment_row input (retailer_of o input.retailer) actor db.next_id ∷ [];
      next_id = db.next_id + 1;
    } in
    Ensures-then AreSettled AreSettled (settle input.amount o db1) _
      (settle-AreSettled input o db1 found c h)
      λ u t s.
        Ensures-then AreSettled AreSettled
          (enter_credit input (retailer_of o input.retailer) actor db.next_id t) _
          (Ensures-map (enter_credit input (retailer_of o input.retailer) actor db.next_id t)
            (invoices-enter_credit input (retailer_of o input.retailer) actor db.next_id t)
            (λ t' e. rw e s))
          (λ v t' s'. s')

complete-AreSettled :
    (key id : ℕ) (db : Books) → AreSettled db → Ensures (complete key id db) AreSettled
unfolding complete
complete-AreSettled key id db h = elim (Option-cases (find_record key db.idempotency)) [
  | inl missing ↦ rw (missing, Ensures) tt
  | inr (r, found) ↦ rw (found, Ensures) h
]

new_payment-AreSettled :
    (key request_hash : ℕ) (input : PaymentInput) (actor : ℕ) (db : Books)
    → AreSettled db
    → Ensures (new_payment key request_hash input actor db) AreSettled
unfolding new_payment
new_payment-AreSettled key request_hash input actor db h =
    let db1 = begin key request_hash db in
    Ensures-bind AreSettled (validate input db1) _ λ o t e.
      let (same, locked, c) = validate-ok input db1 t o e in
      let found : (i : Invoice) → o ≡ some i → find_invoice i.id t.invoices ≡ some i =
        λ i is. rw same (locked_invoice-finds input.invoice db1 i (locked ∙ ap ok is)) in
      Ensures-then AreSettled AreSettled (record_payment input actor o t) _
        (record_payment-AreSettled input actor o t found c (rw same h))
        λ p t' s.
          Ensures-then AreSettled AreSettled (complete key p.id t') _
            (complete-AreSettled key p.id t' s) (λ u t'' s'. s')

replay-AreSettled :
    (r : IdempotencyRecord) (request_hash : ℕ) (db : Books)
    → AreSettled db
    → Ensures (replay r request_hash db) AreSettled
unfolding replay
replay-AreSettled r request_hash db h = elim (Result-cases (replay r request_hash db)) [
  | inl ((a, t), e) ↦ let same : t ≡ db = ground (arith, e) in rw (e, Ensures) (rw same h)
  | inr (x, e) ↦ rw (e, Ensures) tt
]

create_in-AreSettled :
    (key request_hash : ℕ) (input : PaymentInput) (actor : ℕ) (db : Books)
    → AreSettled db
    → Ensures (create_in key request_hash input actor db) AreSettled
unfolding create_in
create_in-AreSettled key request_hash input actor db h =
    elim (Option-cases (find_record key db.idempotency)) [
      | inl new ↦ rw (new, Ensures) (new_payment-AreSettled key request_hash input actor db h)
      | inr (r, known) ↦ rw (known, Ensures) (replay-AreSettled r request_hash db h)
    ]

-- The invoices after a handler are those of its transaction.
finish-AreSettled :
    (key request_hash actor : ℕ) (m : Result (Payment × Bool) × Books)
    → AreSettled m.1
    → AreSettled (finish key request_hash actor m).1
finish-AreSettled key request_hash actor (ok (p, true), t) h = h
finish-AreSettled key request_hash actor (ok (p, false), t) h = h
finish-AreSettled key request_hash actor (err p2002, t) h = h
finish-AreSettled key request_hash actor (err p2025, t) h = h
finish-AreSettled key request_hash actor (err bad_request, t) h = h
finish-AreSettled key request_hash actor (err (app_error c n), t) h = h

transaction-AreSettled :
    (m : Books → Result ((Payment × Bool) × Books)) (db : Books)
    → AreSettled db
    → Ensures (m db) AreSettled
    → AreSettled (transaction m db).1
unfolding transaction
transaction-AreSettled m db h k = elim (Result-cases (m db)) [
  | inl ((a, t), e) ↦
      let same : (transaction m db).1 ≡ t = ground (arith, e) in
      rw same (Ensures-ok AreSettled (m db) k e)
  | inr (x, e) ↦ let same : (transaction m db).1 ≡ db = ground (arith, e) in rw same h
]

-- If no invoice is overpaid and every due amount is the total less what has been paid, that still
-- holds after a payment, whether it is recorded, replayed or refused.
pub create-AreSettled :
    (hash : PaymentInput → ℕ) (key : Option ℕ) (input : PaymentInput) (actor : ℕ) (db : Books)
    → AreSettled db
    → AreSettled (create hash key input actor db).1
unfolding create
create-AreSettled hash none input actor db h = h
create-AreSettled hash (some key) input actor db h =
    finish-AreSettled key (hash input) actor
      (transaction (create_in key (hash input) input actor) db)
      (transaction-AreSettled (create_in key (hash input) input actor) db h
        (create_in-AreSettled key (hash input) input actor db h))
