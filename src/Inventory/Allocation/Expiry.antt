-- ===== src/Inventory/Allocation/Expiry.antt =====
-- The candidate query: which batches it offers, and in which order.
use pasalho.Prelude.{
  ℕ, ◌≡◌, refl, true, false, Option, none, some, List, [], ◌∷◌, arith, Bool-cases, inl, inr, All,
}
use pasalho.Prelude.Int.{pos, ◌<ℤ◌}
use pasalho.Inventory.Data.{Batch, Snapshot}
use pasalho.Inventory.Reservation.{ReserveStockInput}
use pasalho.Inventory.Allocation.{
  Candidate, candidates, candidate_of, insert, insert?, comes_first, expires_first, not_expired,
}

-- A stocked batch that has not expired.
abbrev pub IsSaleable : ℕ → Candidate → Type 0
IsSaleable today c = (pos 0 <ℤ c.base_quantity) × (not_expired today c.expiry_date ≡ true)

-- No candidate expires before one that stands in front of it.
abbrev pub InExpiryOrder : List Candidate → Type 0
InExpiryOrder [] = Unit
InExpiryOrder (c ∷ cs) =
    All (λ (d : Candidate). expires_first d.expiry_date c.expiry_date ≡ false) cs × InExpiryOrder cs

candidate_of-IsSaleable :
    (today : ℕ) (input : ReserveStockInput) (batches : List Batch) (row : Snapshot) (c : Candidate)
    → candidate_of today input batches row ≡ some c
    → IsSaleable today c
unfolding candidate_of
candidate_of-IsSaleable today input batches row c h = ground arith

expires_first_trans :
    (a b c : Option ℕ)
    → expires_first b a ≡ false
    → expires_first c b ≡ false
    → expires_first c a ≡ false
expires_first_trans a b c h k = ground arith

comes_first_yes :
    (c d : Candidate) → comes_first c d ≡ true → expires_first d.expiry_date c.expiry_date ≡ false
unfolding comes_first
comes_first_yes c d h = ground arith

comes_first_no :
    (c d : Candidate) → comes_first c d ≡ false → expires_first c.expiry_date d.expiry_date ≡ false
unfolding comes_first
comes_first_no c d h = ground arith

module _ (P : Candidate → Type 0) where
  All-insert : (c : Candidate) (cs : List Candidate) → P c → All P cs → All P (insert c cs)
  unfolding insert
  All-insert c [] p h = (p, tt)
  All-insert c (d ∷ ds) p h = elim (Bool-cases (comes_first c d)) [
    | inl e ↦ rw e (p, h)
    | inr e ↦ rw e (h.0, All-insert c ds p h.1)
  ]

  All-insert? :
      (o : Option Candidate) (cs : List Candidate)
      → ((c : Candidate) → o ≡ some c → P c)
      → All P cs
      → All P (insert? o cs)
  All-insert? none cs p h = h
  All-insert? (some c) cs p h = All-insert c cs (p c refl) h

  All-candidates :
      (today : ℕ) (input : ReserveStockInput) (batches : List Batch)
      → ((row : Snapshot) (c : Candidate) → candidate_of today input batches row ≡ some c → P c)
      → (rows : List Snapshot) → All P (candidates today input batches rows)
  unfolding candidates
  All-candidates today input batches keep [] = tt
  All-candidates today input batches keep (row ∷ rows) =
      All-insert? (candidate_of today input batches row) (candidates today input batches rows)
        (keep row) (All-candidates today input batches keep rows)

-- `d` does not expire before `c`.
abbrev After : Candidate → Candidate → Type 0
After c d = expires_first d.expiry_date c.expiry_date ≡ false

All-After :
    (a b : Candidate) (cs : List Candidate) → After a b → All (After b) cs → All (After a) cs
All-After a b [] h k = tt
All-After a b (c ∷ cs) h (p, k) =
    (expires_first_trans a.expiry_date b.expiry_date c.expiry_date h p, All-After a b cs h k)

insert-InExpiryOrder :
    (c : Candidate) (cs : List Candidate) → InExpiryOrder cs → InExpiryOrder (insert c cs)
unfolding insert
insert-InExpiryOrder c [] h = (tt, tt)
insert-InExpiryOrder c (d ∷ ds) (h, k) = elim (Bool-cases (comes_first c d)) [
  | inl e ↦ let p = comes_first_yes c d e in rw e ((p, All-After c d ds p h), (h, k))
  | inr e ↦ rw e (All-insert (After d) c ds (comes_first_no c d e) h, insert-InExpiryOrder c ds k)
]

insert?-InExpiryOrder :
    (o : Option Candidate) (cs : List Candidate) → InExpiryOrder cs → InExpiryOrder (insert? o cs)
insert?-InExpiryOrder none cs h = h
insert?-InExpiryOrder (some c) cs h = insert-InExpiryOrder c cs h

candidates-InExpiryOrder :
    (today : ℕ) (input : ReserveStockInput) (batches : List Batch) (rows : List Snapshot)
    → InExpiryOrder (candidates today input batches rows)
unfolding candidates
candidates-InExpiryOrder today input batches [] = tt
candidates-InExpiryOrder today input batches (row ∷ rows) =
    insert?-InExpiryOrder (candidate_of today input batches row)
      (candidates today input batches rows) (candidates-InExpiryOrder today input batches rows)

-- The candidates that the query offers are stocked and have not expired, and they stand in the
-- order in which they expire, those that never do last.
pub candidates_first_expired_first :
    (today : ℕ) (input : ReserveStockInput) (batches : List Batch) (rows : List Snapshot)
    → All (IsSaleable today) (candidates today input batches rows)
      × InExpiryOrder (candidates today input batches rows)
candidates_first_expired_first today input batches rows = (
  All-candidates (IsSaleable today) today input batches
      (candidate_of-IsSaleable today input batches) rows,
  candidates-InExpiryOrder today input batches rows,
)
