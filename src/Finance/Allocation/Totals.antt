-- ===== src/Finance/Allocation/Totals.antt =====
-- What allocations and their reversal do to the paid and due amounts.
use pasalho.Prelude.{
  ℕ, ◌≡◌, refl, ◌∙◌, some, List, [], ◌∷◌, arith, Bool-cases, Option-cases, inl, inr, All,
  All-update_row, sum_by-update_row, ◌&&◌, same_id?,
}
use pasalho.Prelude.Int.{ℤ, ◌+ℤ◌, ◌-ℤ◌, ◌≤ℤ◌, ltb_ℤ, sum_by, int_laws}
use pasalho.Prelude.Result.{
  Result, Failure, Result-cases, ok, err, bad_request, for_each, transaction, committed,
}
use pasalho.Prelude.Loops.{
  Ensures, Ensures-then, Ensures-ok, Ensures-map, for_each-keeps, for_each-sums,
}
use pasalho.Finance.Data.{Invoice, Payment, Books}
use pasalho.Finance.Tables.{find_invoice, find_payment, update_invoice, update_payment}
use pasalho.Finance.Allocation.{
  AllocationItem, Allocated, apply_allocation, apply_allocations, link_retailer, allocate_found,
  allocate_payment, paid_more, total_amount, is_paid_in_part, reset_invoices, reverse,
  reverse_allocation,
}

-- What has been paid on the invoices together.
abbrev pub total_paid : Books → ℤ
total_paid db = sum_by (λ (i : Invoice). i.paid_amount) db.invoices

-- An invoice whose due amount is what has not been paid of it.
abbrev pub IsBalanced : Invoice → Type 0
IsBalanced i = i.due_amount ≡ i.grand_total -ℤ i.paid_amount

abbrev pub AreBalanced : Books → Type 0
AreBalanced db = All IsBalanced db.invoices

add_sub : (a d : ℤ) → a +ℤ d -ℤ a ≡ d
add_sub a d = omega int_laws

total_paid-apply :
    (a : AllocationItem) (db : Books)
    → Ensures (apply_allocation a db) (λ t. total_paid t ≡ total_paid db +ℤ a.amount)
unfolding apply_allocation update_invoice
total_paid-apply a db = elim (Option-cases (find_invoice a.invoice db.invoices)) [
  | inl missing ↦ rw (missing, Ensures) tt
  | inr (i, found) ↦
      rw (found, Ensures)
        (rw (found, Ensures)
          (sum_by-update_row (λ (i : Invoice). i.id) (λ (i : Invoice). i.paid_amount) a.invoice
              (paid_more a.amount) db.invoices found
            ∙ rw (add_sub i.paid_amount a.amount) refl))
]

AreBalanced-apply :
    (a : AllocationItem) (db : Books) → AreBalanced db → Ensures (apply_allocation a db) AreBalanced
unfolding apply_allocation update_invoice
AreBalanced-apply a db h = elim (Option-cases (find_invoice a.invoice db.invoices)) [
  | inl missing ↦ rw (missing, Ensures) tt
  | inr (i, found) ↦
      rw (found, Ensures)
        (rw (found, Ensures)
          (All-update_row (λ (i : Invoice). i.id) IsBalanced a.invoice (paid_more a.amount)
            db.invoices (λ r f p. refl) h))
]

-- Linking the payment to a retailer leaves the invoices alone.
invoices-link :
    (p : Payment) (list : List AllocationItem) (db : Books)
    → Ensures (link_retailer p list db) (λ t. t.invoices ≡ db.invoices)
unfolding link_retailer update_payment
invoices-link p [] db = refl
invoices-link p (a ∷ others) db = ground arith

total_paid-allocate_found :
    (p : Payment) (list : List AllocationItem) (db : Books)
    → Ensures (allocate_found p list db) (λ t. total_paid t ≡ total_paid db +ℤ total_amount list)
unfolding allocate_found apply_allocations
total_paid-allocate_found p list db =
    let P : Books → Type 0 = λ t. total_paid t ≡ total_paid db +ℤ total_amount list in
    Ensures-then P P (apply_allocations p list db) _
      (Ensures-then P P (for_each apply_allocation list db) (λ u t. link_retailer p list t)
        (for_each-sums apply_allocation total_paid (λ (a : AllocationItem). a.amount)
          total_paid-apply list db)
        (λ u t h. Ensures-map (link_retailer p list t) (invoices-link p list t) (λ t' e. rw e h)))
      (λ u t h. h)

AreBalanced-allocate_found :
    (p : Payment) (list : List AllocationItem) (db : Books)
    → AreBalanced db
    → Ensures (allocate_found p list db) AreBalanced
unfolding allocate_found apply_allocations
AreBalanced-allocate_found p list db b =
    Ensures-then AreBalanced AreBalanced (apply_allocations p list db) _
      (Ensures-then AreBalanced AreBalanced (for_each apply_allocation list db)
        (λ u t. link_retailer p list t)
        (for_each-keeps apply_allocation AreBalanced AreBalanced-apply list db b)
        (λ u t h. Ensures-map (link_retailer p list t) (invoices-link p list t) (λ t' e. rw e h)))
      (λ u t h. h)

-- A call either changed nothing, or ran its transaction and recorded it.
data Ran (id : ℕ) (list : List AllocationItem) (db : Books) (r : Result Allocated) (t : Books)
    : Type 0 where
  refused : (f : Failure) → r ≡ err f → t ≡ db → Ran id list db r t
  ran :
      (p : Payment) (a : Allocated) (u : Books)
      → find_payment id db.payments ≡ some p
      → total_amount list ≤ℤ p.amount
      → allocate_found p list db ≡ ok (a, u)
      → r ≡ ok a
      → t.invoices ≡ u.invoices
      → Ran id list db r t

allocate_payment-Ran :
    (id : ℕ) (list : List AllocationItem) (by : ℕ) (db : Books)
    → Ran id list db (allocate_payment id list by db).0 (allocate_payment id list by db).1
unfolding allocate_payment transaction committed
allocate_payment-Ran id list by db = elim (Option-cases (find_payment id db.payments)) [
  | inl missing ↦ refused bad_request (ground (arith, missing)) (ground (arith, missing))
  | inr (p, found) ↦ elim (Bool-cases (ltb_ℤ p.amount (total_amount list))) [
    | inl over ↦ refused bad_request (ground (arith, found, over)) (ground (arith, found, over))
    | inr fits ↦ elim (Result-cases (allocate_found p list db)) [
      | inl ((a, u), done) ↦
          ran p a u found (ground (arith, fits)) done (ground (arith, found, fits, done))
            (ground (arith, found, fits, done))
      | inr (f, failed) ↦
          refused f (ground (arith, found, fits, failed)) (ground (arith, found, fits, failed))
    ]
  ]
]

total_of_Ran :
    (id : ℕ) (list : List AllocationItem) (db t : Books) (r : Result Allocated) (b : Allocated)
    → Ran id list db r t
    → r ≡ ok b
    → (total_paid t ≡ total_paid db +ℤ total_amount list)
      × (p : Payment) × (find_payment id db.payments ≡ some p)
      × (total_amount list ≤ℤ p.amount)
total_of_Ran id list db t r b (refused f failed e) h = absurd (ground (arith, failed, h))
total_of_Ran id list db t r b (ran p a u found fits step e rows) h = (
  rw rows (
      Ensures-ok (λ t. total_paid t ≡ total_paid db +ℤ total_amount list) (allocate_found p list db)
        (total_paid-allocate_found p list db) step),
  p,
  found,
  fits,
)

AreBalanced-of_Ran :
    (id : ℕ) (list : List AllocationItem) (db t : Books) (r : Result Allocated)
    → AreBalanced db
    → Ran id list db r t
    → AreBalanced t
AreBalanced-of_Ran id list db t r b (refused f failed e) = rw e b
AreBalanced-of_Ran id list db t r b (ran p a u found fits step e rows) = rw rows (
    Ensures-ok AreBalanced (allocate_found p list db) (AreBalanced-allocate_found p list db b) step)

reset_invoices-IsBalanced :
    (retailer : ℕ) (is : List Invoice)
    → All IsBalanced is
    → All IsBalanced (reset_invoices retailer is)
unfolding reset_invoices
reset_invoices-IsBalanced retailer [] h = tt
reset_invoices-IsBalanced retailer (i ∷ is) (p, h) =
    elim (Bool-cases (same_id? i.retailer (some retailer) && is_paid_in_part i.payment_status)) [
      | inl e ↦ rw e (omega int_laws, reset_invoices-IsBalanced retailer is h)
      | inr e ↦ rw e (p, reset_invoices-IsBalanced retailer is h)
    ]

reverse-AreBalanced :
    (p : Payment) (retailer : ℕ) (db : Books)
    → AreBalanced db
    → Ensures (reverse p retailer db) AreBalanced
unfolding reverse update_payment
reverse-AreBalanced p retailer db b = elim (Option-cases (find_payment p.id db.payments)) [
  | inl missing ↦ rw (missing, Ensures) tt
  | inr (q, found) ↦ rw (found, Ensures) (reset_invoices-IsBalanced retailer db.invoices b)
]

reverse_allocation-AreBalanced :
    (id by : ℕ) (db : Books) → AreBalanced db → AreBalanced (reverse_allocation id by db).1
unfolding reverse_allocation transaction committed
reverse_allocation-AreBalanced id by db b = elim (Option-cases (find_payment id db.payments)) [
  | inl missing ↦
      let e : (reverse_allocation id by db).1.invoices ≡ db.invoices = ground (arith, missing) in
      rw e b
  | inr (p, found) ↦ elim (Option-cases p.retailer) [
    | inl unlinked ↦
        let e : (reverse_allocation id by db).1.invoices ≡ db.invoices =
          ground (arith, found, unlinked) in
        rw e b
    | inr (r, linked) ↦ elim (Result-cases (reverse p r db)) [
      | inl ((a, u), done) ↦
          let e : (reverse_allocation id by db).1.invoices ≡ u.invoices =
            ground (arith, found, linked, done) in
          rw e (Ensures-ok AreBalanced (reverse p r db) (reverse-AreBalanced p r db b) done)
      | inr (f, failed) ↦
          let e : (reverse_allocation id by db).1.invoices ≡ db.invoices =
            ground (arith, found, linked, failed) in
          rw e b
    ]
  ]
]

-- An allocation that goes through raises what is paid on the invoices by exactly the amounts that
-- were allocated, and they are together no more than the payment.
pub allocate_payment_total :
    (id : ℕ) (list : List AllocationItem) (by : ℕ) (db t : Books) (r : Allocated)
    → allocate_payment id list by db ≡ (ok r, t)
    → (total_paid t ≡ total_paid db +ℤ total_amount list)
      × (p : Payment) × (find_payment id db.payments ≡ some p)
      × (total_amount list ≤ℤ p.amount)
allocate_payment_total id list by db t r h =
    total_of_Ran id list db t (ok r) r (rw h at (allocate_payment-Ran id list by db)) refl

-- If every due amount is the total less what has been paid, that still holds after an allocation
-- and after a reversal, whether they go through or not.
pub allocations-AreBalanced :
    (id : ℕ) (list : List AllocationItem) (by : ℕ) (db : Books)
    → AreBalanced db
    → AreBalanced (allocate_payment id list by db).1 × AreBalanced (reverse_allocation id by db).1
allocations-AreBalanced id list by db b = (
  AreBalanced-of_Ran id list db (allocate_payment id list by db).1
      (allocate_payment id list by db).0 b (allocate_payment-Ran id list by db),
  reverse_allocation-AreBalanced id by db b,
)
