-- ===== src/Finance/Payment/Replay.antt =====
-- A payment is recorded once for its idempotency key.
use pasalho.Prelude.{
  ℕ, ◌+◌, ◌<◌, ◌≡◌, refl, ◌∙◌, ap, Bool, true, false, Option, none, some, [], ◌∷◌, ◌++◌, arith,
  Option-cases, inl, inr, All, find_row-update_row, find_row-append, find_row-append_new, ◌==◌,
  ==-refl,
}
use pasalho.Prelude.Result.{
  Failure, Result-cases, ok, err, p2002, p2025, bad_request, app_error, transaction,
}
use pasalho.Prelude.Loops.{
  Returns, Returns-then, Returns-bind, Returns-ok, Returns_of_Ensures, Ensures,
}
use pasalho.Finance.Data.{Invoice, Payment, IdempotencyRecord, IdempotencyStatus, Books}
use pasalho.Finance.Tables.{find_payment, find_invoice, update_invoice}
use pasalho.Finance.RetailerLedger.{create_payment_credit}
use pasalho.Finance.Payment.{
  PaymentInput, begin, begun, completed_with, complete, find_record, retailer_of, validate,
  payment_row, create_payment, settle, enter_credit, record_payment, new_payment, replay,
  recorded_payment, create_in, finish, create, recover,
}
use pasalho.Finance.Payment.Settled.{validate-ok}

-- What a payment leaves of the tables that a replay reads.
abbrev SameTables : Books → Books → Type 0
SameTables db t = (t.payments ≡ db.payments) × (t.idempotency ≡ db.idempotency)

tables-settle :
    (input : PaymentInput) (o : Option Invoice) (db : Books)
    → Ensures (settle input.amount o db) (SameTables db)
unfolding settle update_invoice
tables-settle input none db = (refl, refl)
tables-settle input (some i) db = elim (Option-cases (find_invoice i.id db.invoices)) [
  | inl missing ↦ rw (missing, Ensures) tt
  | inr (r, found) ↦ rw (found, Ensures) (refl, refl)
]

tables-enter_credit :
    (input : PaymentInput) (retailer : Option ℕ) (actor id : ℕ) (db : Books)
    → Ensures (enter_credit input retailer actor id db) (SameTables db)
unfolding enter_credit create_payment_credit
tables-enter_credit input none actor id db = (refl, refl)
tables-enter_credit input (some r) actor id db = (refl, refl)

-- The new payment stands behind the others under a new id.
abbrev Recorded : Books → Payment → Books → Type 0
Recorded db p t =
    (p.id ≡ db.next_id) × (t.payments ≡ db.payments ++ p ∷ []) × (t.idempotency ≡ db.idempotency)

record_payment-Recorded :
    (input : PaymentInput) (actor : ℕ) (o : Option Invoice) (db : Books)
    → Returns (record_payment input actor o db) (Recorded db)
unfolding record_payment create_payment
record_payment-Recorded input actor o db =
    let r = retailer_of o input.retailer in
    let p = payment_row input r actor db.next_id in
    let db1 : Books = record db { payments = db.payments ++ p ∷ []; next_id = db.next_id + 1 } in
    Returns-then (λ u t. SameTables db1 t) (Recorded db) (settle input.amount o db1) _
      (Returns_of_Ensures (SameTables db1) (settle input.amount o db1) (tables-settle input o db1))
      λ u t s.
        Returns-then (λ u t'. SameTables t t') (Recorded db)
          (enter_credit input r actor db.next_id t) _
          (Returns_of_Ensures (SameTables t) (enter_credit input r actor db.next_id t)
            (tables-enter_credit input r actor db.next_id t))
          (λ v t' s'. (refl, s'.0 ∙ s.0, s'.1 ∙ s.1))

-- What a replay under the key finds.
abbrev Known : ℕ → ℕ → Payment → Books → Type 0
Known key request_hash p t =
    (r : IdempotencyRecord) × (find_record key t.idempotency ≡ some r)
    × (r.request_hash ≡ request_hash)
    × (r.status ≡ IdempotencyStatus.completed)
    × (r.resource_id ≡ some p.id)
    × (find_payment p.id t.payments ≡ some p)

replay-Known :
    (key request_hash : ℕ) (input : PaymentInput) (actor : ℕ) (p : Payment) (t : Books)
    → Known key request_hash p t
    → create_in key request_hash input actor t ≡ ok ((p, false), t)
unfolding create_in replay recorded_payment
replay-Known key request_hash input actor p t (r, found, hash, status, id, row) =
    let same : (r.request_hash == request_hash) ≡ true = rw hash (==-refl request_hash) in
    ground (arith, found, same, status, id, row)

-- The record of the key, once it has been completed.
completed-Known :
    (key request_hash : ℕ) (p : Payment) (db t : Books)
    → find_record key db.idempotency ≡ none
    → t.idempotency ≡ db.idempotency ++ begun key request_hash ∷ []
    → find_payment p.id t.payments ≡ some p
    → Ensures (complete key p.id t) (Known key request_hash p)
unfolding complete
completed-Known key request_hash p db t new records row =
    let key_of = λ (r : IdempotencyRecord). r.key in
    let begun_row : find_record key t.idempotency ≡ some (begun key request_hash) =
      ap (find_record key) records
      ∙ find_row-append_new key_of db.idempotency (begun key request_hash) new in
    rw (begun_row, Ensures)
      (
        completed_with p.id (begun key request_hash),
        find_row-update_row key_of key (completed_with p.id) t.idempotency refl begun_row,
        refl,
        refl,
        refl,
        row,
      )

new_payment-Known :
    (key request_hash : ℕ) (input : PaymentInput) (actor : ℕ) (db : Books)
    → find_record key db.idempotency ≡ none
    → All (λ (p : Payment). p.id < db.next_id) db.payments
    → Returns
        (new_payment key request_hash input actor db)
        (λ x t. (x.1 ≡ true) × Known key request_hash x.0 t)
unfolding new_payment
new_payment-Known key request_hash input actor db new fresh =
    let db1 = begin key request_hash db in
    let Q = λ (x : Payment × Bool) (t : Books). (x.1 ≡ true) × Known key request_hash x.0 t in
    Returns-bind Q (validate input db1) _ λ o t e.
      let same = (validate-ok input db1 t o e).0 in
      Returns-then (Recorded t) Q (record_payment input actor o t) _
        (record_payment-Recorded input actor o t)
        λ p t' (id, payments, records).
          let new_id : p.id ≡ db.next_id = id ∙ ap (λ (b : Books). b.next_id) same in
          let all_before : All (λ (q : Payment). q.id < p.id) t.payments =
            rw (same, new_id) fresh in
          let row : find_payment p.id t'.payments ≡ some p =
            ap (find_payment p.id) payments
            ∙ find_row-append (λ (p : Payment). p.id) t.payments p all_before in
          Returns-then (λ u t''. Known key request_hash p t'') Q (complete key p.id t') _
            (Returns_of_Ensures (Known key request_hash p) (complete key p.id t') (
              completed-Known key request_hash p db t' new
                (records ∙ ap (λ (b : Books). b.idempotency) same) row))
            (λ u t'' k. (refl, k))

-- A call under a key that names a payment returns that payment and changes nothing.
create-Known :
    (hash : PaymentInput → ℕ) (key : ℕ) (input : PaymentInput) (actor : ℕ) (p : Payment) (t : Books)
    → Known key (hash input) p t
    → create hash (some key) input actor t ≡ (ok p, t)
unfolding create transaction
create-Known hash key input actor p t k =
    let e = replay-Known key (hash input) input actor p t k in ground (arith, e)

-- A failed transaction under a new key gives no payment.
failed_create :
    (key request_hash actor : ℕ) (x : Failure) (db t : Books) (p : Payment)
    → find_record key db.idempotency ≡ none
    → finish key request_hash actor (err x, db) ≡ (ok p, t)
    → ⊥
unfolding recover
failed_create key request_hash actor p2002 db t p new h = ground (arith, new, h)
failed_create key request_hash actor p2025 db t p new h = ground (arith, h)
failed_create key request_hash actor bad_request db t p new h = ground (arith, h)
failed_create key request_hash actor (app_error c n) db t p new h = ground (arith, h)

-- The state that a new payment leaves, up to the audit log.
new_create :
    (hash : PaymentInput → ℕ) (key : ℕ) (input : PaymentInput) (actor : ℕ) (db t : Books)
    (p : Payment)
    → All (λ (q : Payment). q.id < db.next_id) db.payments
    → find_record key db.idempotency ≡ none
    → create hash (some key) input actor db ≡ (ok p, t)
    → (u : Books) × Known key (hash input) p u
      × (t.payments ≡ u.payments)
      × (t.idempotency ≡ u.idempotency)
unfolding create transaction create_in
new_create hash key input actor db t p fresh new h =
    elim (Result-cases (new_payment key (hash input) input actor db)) [
      | inr (x, failed) ↦
          let step : finish key (hash input) actor (err x, db) ≡ (ok p, t) =
            ground (arith, h, new, failed) in
          absurd (failed_create key (hash input) actor x db t p new step)
      | inl (((q, c), u), done) ↦
          let (is_new, known) =
            Returns-ok
              (λ (x : Payment × Bool) (t : Books). (x.1 ≡ true) × Known key (hash input) x.0 t)
              (new_payment key (hash input) input actor db)
              (new_payment-Known key (hash input) input actor db new fresh) done in
          let same : q ≡ p = ground (arith, h, new, done, is_new) in
          (
            u,
            rw (← same) known,
            ground (arith, h, new, done, is_new),
            ground (arith, h, new, done, is_new),
          )
    ]

-- If the ids of the payments are all below the next id, a payment that was recorded under a new key
-- is what a second call under the key with the same request returns, and that changes nothing.
pub create_replay :
    (hash : PaymentInput → ℕ) (key : ℕ) (input : PaymentInput) (actor again : ℕ) (db t : Books)
    (p : Payment)
    → All (λ (q : Payment). q.id < db.next_id) db.payments
    → find_record key db.idempotency ≡ none
    → create hash (some key) input actor db ≡ (ok p, t)
    → create hash (some key) input again t ≡ (ok p, t)
create_replay hash key input actor again db t p fresh new h =
    let (u, known, payments, records) = new_create hash key input actor db t p fresh new h in
    create-Known hash key input again p t (rw (payments, records) known)
