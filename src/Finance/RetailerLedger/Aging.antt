-- ===== src/Finance/RetailerLedger/Aging.antt =====
-- The aging report sorts every invoice debit by its age.
use pasalho.Prelude.{
  ℕ, ◌-◌, ◌*◌, ◌/◌, ◌≡◌, refl, ◌∙◌, ap, Bool, true, false, List, [], ◌∷◌, arith, Bool-cases, inl,
  inr, leb, ltb, ◌&&◌, not, if◌then◌else◌,
}
use pasalho.Prelude.Int.{ℤ, pos, ◌+ℤ◌, sum_by, int_laws}
use pasalho.Finance.Data.{LedgerEntry, Books}
use pasalho.Finance.RetailerLedger.{
  AgingBucket, AgingBuckets, counted, add_debit, add_debits, invoice_debits, entries_of,
  get_aging_report, no_buckets,
}

-- The age of an entry in milliseconds, compared with a number of days.
abbrev pub is_younger : ℕ → ℕ → LedgerEntry → Bool
is_younger days now d = ltb (now - d.created_at) (days * 86400000)

-- At least so many days old, and younger than so many.
abbrev pub is_between : ℕ → ℕ → ℕ → LedgerEntry → Bool
is_between from to now d = not (is_younger from now d) && is_younger to now d

-- What a bucket holds of the debits of an age: their sum and their number.
abbrev pub IsBucketOf : (LedgerEntry → Bool) → List LedgerEntry → AgingBucket → Type 0
IsBucketOf p ds b =
    (b.amount ≡ sum_by (λ (d : LedgerEntry). if p d then d.debit_amount else pos 0) ds)
    × (pos b.count ≡ sum_by (λ (d : LedgerEntry). if p d then pos 1 else pos 0) ds)

young : (x : ℕ) → leb (x / 86400000) 30 ≡ ltb x (31 * 86400000)
young x = ground arith

middle : (x : ℕ) → leb (x / 86400000) 60 ≡ ltb x (61 * 86400000)
middle x = ground arith

old : (x : ℕ) → leb (x / 86400000) 90 ≡ ltb x (91 * 86400000)
old x = ground arith

one_more :
    (b : Bool) (x y v : ℤ) → (if b then x +ℤ v else x) +ℤ y ≡ x +ℤ ((if b then v else pos 0) +ℤ y)
one_more true x y v = omega int_laws
one_more false x y v = omega int_laws

-- A bucket into which each round puts the debits of an age.
module _ (now : ℕ) (bucket : AgingBuckets → AgingBucket) (p : LedgerEntry → Bool)
    (step : (d : LedgerEntry) (bs : AgingBuckets)
      → bucket (add_debit now d bs)
        ≡ (if p d then counted d.debit_amount (bucket bs) else bucket bs)) where
  amount_step :
      (d : LedgerEntry) (bs : AgingBuckets)
      → (bucket (add_debit now d bs)).amount
        ≡ (if p d then (bucket bs).amount +ℤ d.debit_amount else (bucket bs).amount)
  amount_step d bs = elim (Bool-cases (p d)) [
    | inl e ↦ ap (λ (b : AgingBucket). b.amount) (step d bs) ∙ rw e refl
    | inr e ↦ ap (λ (b : AgingBucket). b.amount) (step d bs) ∙ rw e refl
  ]

  count_step :
      (d : LedgerEntry) (bs : AgingBuckets)
      → pos (bucket (add_debit now d bs)).count
        ≡ (if p d then pos (bucket bs).count +ℤ pos 1 else pos (bucket bs).count)
  count_step d bs = elim (Bool-cases (p d)) [
    | inl e ↦ ap (λ (b : AgingBucket). pos b.count) (step d bs) ∙ rw e (omega int_laws)
    | inr e ↦ ap (λ (b : AgingBucket). pos b.count) (step d bs) ∙ rw e refl
  ]

  amount-add_debits :
      (ds : List LedgerEntry) (bs : AgingBuckets)
      → (bucket (add_debits now ds bs)).amount
        ≡ (bucket bs).amount
          +ℤ sum_by (λ (d : LedgerEntry). if p d then d.debit_amount else pos 0) ds
  unfolding add_debits sum_by
  amount-add_debits [] bs = omega int_laws
  amount-add_debits (d ∷ ds) bs =
      let rest = sum_by (λ (d : LedgerEntry). if p d then d.debit_amount else pos 0) ds in
      amount-add_debits ds (add_debit now d bs)
      ∙ ap (λ x. x +ℤ rest) (amount_step d bs)
      ∙ one_more (p d) (bucket bs).amount rest d.debit_amount

  count-add_debits :
      (ds : List LedgerEntry) (bs : AgingBuckets)
      → pos (bucket (add_debits now ds bs)).count
        ≡ pos (bucket bs).count +ℤ sum_by (λ (d : LedgerEntry). if p d then pos 1 else pos 0) ds
  unfolding add_debits sum_by
  count-add_debits [] bs = omega int_laws
  count-add_debits (d ∷ ds) bs =
      let rest = sum_by (λ (d : LedgerEntry). if p d then pos 1 else pos 0) ds in
      count-add_debits ds (add_debit now d bs)
      ∙ ap (λ x. x +ℤ rest) (count_step d bs)
      ∙ one_more (p d) (pos (bucket bs).count) rest (pos 1)

  add_debits-IsBucketOf :
      (ds : List LedgerEntry)
      → (bucket no_buckets).amount ≡ pos 0
      → (bucket no_buckets).count ≡ 0
      → IsBucketOf p ds (bucket (add_debits now ds no_buckets))
  add_debits-IsBucketOf ds empty none_in = (
    amount-add_debits ds no_buckets ∙ rw empty (omega int_laws),
    count-add_debits ds no_buckets ∙ rw none_in (omega int_laws),
  )

module _ (now : ℕ) (d : LedgerEntry) (bs : AgingBuckets) where
  to_30-add_debit :
      (add_debit now d bs).to_30
      ≡ (if is_between 0 31 now d then counted d.debit_amount bs.to_30 else bs.to_30)
  unfolding add_debit
  to_30-add_debit = ground (arith, young (now - d.created_at))

  to_60-add_debit :
      (add_debit now d bs).to_60
      ≡ (if is_between 31 61 now d then counted d.debit_amount bs.to_60 else bs.to_60)
  unfolding add_debit
  to_60-add_debit = ground (arith, young (now - d.created_at), middle (now - d.created_at))

  to_90-add_debit :
      (add_debit now d bs).to_90
      ≡ (if is_between 61 91 now d then counted d.debit_amount bs.to_90 else bs.to_90)
  unfolding add_debit
  to_90-add_debit =
      ground
        (arith, young (now - d.created_at), middle (now - d.created_at), old (now - d.created_at))

  over_90-add_debit :
      (add_debit now d bs).over_90
      ≡ (if not (is_younger 91 now d) then counted d.debit_amount bs.over_90 else bs.over_90)
  unfolding add_debit
  over_90-add_debit =
      ground
        (arith, young (now - d.created_at), middle (now - d.created_at), old (now - d.created_at))

-- The aging report puts each invoice debit of the retailer into the bucket of its age, which is the
-- time since it was created: the first one holds the sum and the number of those younger than 31
-- days, the next two those from 31 and from 61 days on, and the last one those of 91 days or more.
-- It does so whether or not the invoices have been paid.
pub aging_report_partitions :
    (retailer : ℕ) (db : Books)
    → IsBucketOf
        (is_between 0 31 db.now)
        (invoice_debits (entries_of retailer db.ledger))
        (get_aging_report retailer db).buckets.to_30
      × IsBucketOf
          (is_between 31 61 db.now)
          (invoice_debits (entries_of retailer db.ledger))
          (get_aging_report retailer db).buckets.to_60
      × IsBucketOf
          (is_between 61 91 db.now)
          (invoice_debits (entries_of retailer db.ledger))
          (get_aging_report retailer db).buckets.to_90
      × IsBucketOf
          (λ d. not (is_younger 91 db.now d))
          (invoice_debits (entries_of retailer db.ledger))
          (get_aging_report retailer db).buckets.over_90
unfolding get_aging_report
aging_report_partitions retailer db =
    let ds = invoice_debits (entries_of retailer db.ledger) in
    (
      add_debits-IsBucketOf db.now (λ (b : AgingBuckets). b.to_30) (is_between 0 31 db.now)
          (to_30-add_debit db.now) ds refl refl,
      add_debits-IsBucketOf db.now (λ (b : AgingBuckets). b.to_60) (is_between 31 61 db.now)
          (to_60-add_debit db.now) ds refl refl,
      add_debits-IsBucketOf db.now (λ (b : AgingBuckets). b.to_90) (is_between 61 91 db.now)
          (to_90-add_debit db.now) ds refl refl,
      add_debits-IsBucketOf db.now (λ (b : AgingBuckets). b.over_90)
          (λ d. not (is_younger 91 db.now d)) (over_90-add_debit db.now) ds refl refl,
    )
