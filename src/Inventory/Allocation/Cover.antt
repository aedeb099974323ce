-- ===== src/Inventory/Allocation/Cover.antt =====
-- The allocation loop: how much it takes, and from which candidates.
use pasalho.Prelude.{
  ◌≡◌, ◌≢◌, ◌⊎◌, refl, true, false, some, List, [], ◌∷◌, arith, Bool-cases, inl, inr, All,
}
use pasalho.Prelude.Int.{ℤ, pos, ◌+ℤ◌, ◌-ℤ◌, ◌≤ℤ◌, ◌<ℤ◌, ltb_ℤ, leb_ℤ, min_ℤ, sum_by, int_laws}
use pasalho.Prelude.Result.{ok, err, app_error, insufficient_stock}
use pasalho.Inventory.Reservation.{ReserveStockInput}
use pasalho.Inventory.Allocation.{
  Allocation, Candidate, allocate, allocations_from, total_available,
}

abbrev pub IsStocked : List Candidate → Type 0
IsStocked = All (λ (c : Candidate). pos 0 <ℤ c.base_quantity)

-- The base quantity of all allocations together.
abbrev pub total_allocated : List Allocation → ℤ
total_allocated = sum_by (λ (a : Allocation). a.base_quantity)

-- Allocations taken from the candidates in their order: each takes from its candidate no more
-- than it has, and all of it unless it is the last one.
abbrev pub TakesInOrder : List Candidate → List Allocation → Type 0
TakesInOrder cs [] = Unit
TakesInOrder [] (a ∷ others) = ⊥
TakesInOrder (c ∷ cs) (a ∷ others) =
    (a.batch ≡ some c.batch)
    × (pos 0 <ℤ a.base_quantity)
    × (a.base_quantity ≤ℤ c.base_quantity)
    × (others ≢ [] → a.base_quantity ≡ c.base_quantity)
    × TakesInOrder cs others

none_left : (r : ℤ) → pos 0 ≤ℤ r → leb_ℤ r (pos 0) ≡ true → pos 0 ≡ r
none_left r p h = grind int_laws

take_min :
    (r t c : ℤ)
    → leb_ℤ r (pos 0) ≡ false
    → r ≤ℤ c +ℤ t
    → pos 0 <ℤ c
    → pos 0 ≤ℤ t
    → (pos 0 ≤ℤ r -ℤ min_ℤ r c) × (r -ℤ min_ℤ r c ≤ℤ t)
take_min r t c p h q n = grind int_laws

total-nonneg : (cs : List Candidate) → IsStocked cs → pos 0 ≤ℤ total_available cs
unfolding sum_by
total-nonneg [] s = omega arith
total-nonneg (c ∷ cs) (p, s) = omega (int_laws, total-nonneg cs s)

put_back : (m r : ℤ) → m +ℤ (r -ℤ m) ≡ r
put_back m r = omega int_laws

allocate-covers :
    (q b r : ℤ) (cs : List Candidate)
    → IsStocked cs
    → pos 0 ≤ℤ r
    → r ≤ℤ total_available cs
    → total_allocated (allocate q b r cs) ≡ r
unfolding allocate sum_by
allocate-covers q b r [] s p h = omega int_laws
allocate-covers q b r (c ∷ cs) s p h = elim (Bool-cases (leb_ℤ r (pos 0))) [
  | inl done ↦ rw done (none_left r p done)
  | inr more ↦
      let m = min_ℤ r c.base_quantity in
      let (p', h') =
        take_min r (total_available cs) c.base_quantity more h s.0 (total-nonneg cs s.1) in
      rw more (rw (allocate-covers q b (r -ℤ m) cs s.1 p' h') (put_back m r))
]

allocate-done : (q b r : ℤ) (cs : List Candidate) → leb_ℤ r (pos 0) ≡ true → allocate q b r cs ≡ []
unfolding allocate
allocate-done q b r [] h = refl
allocate-done q b r (c ∷ cs) h = rw h

min_bounds :
    (r c : ℤ) → leb_ℤ r (pos 0) ≡ false → pos 0 <ℤ c → (pos 0 <ℤ min_ℤ r c) × (min_ℤ r c ≤ℤ c)
min_bounds r c h p = grind int_laws

used_up : (r c : ℤ) → leb_ℤ r c ≡ true → leb_ℤ (r -ℤ min_ℤ r c) (pos 0) ≡ true
used_up r c h = grind int_laws

-- A candidate that is followed by another allocation has been taken whole.
whole_if_more :
    (q b r : ℤ) (c : Candidate) (cs : List Candidate)
    → allocate q b (r -ℤ min_ℤ r c.base_quantity) cs ≢ []
    → min_ℤ r c.base_quantity ≡ c.base_quantity
whole_if_more q b r c cs h = elim (Bool-cases (leb_ℤ r c.base_quantity)) [
  | inl last ↦
      absurd
        (h (allocate-done q b (r -ℤ min_ℤ r c.base_quantity) cs (used_up r c.base_quantity last)))
  | inr more ↦ rw more refl
]

allocate-TakesInOrder :
    (q b r : ℤ) (cs : List Candidate) → IsStocked cs → TakesInOrder cs (allocate q b r cs)
unfolding allocate
allocate-TakesInOrder q b r [] s = tt
allocate-TakesInOrder q b r (c ∷ cs) s = elim (Bool-cases (leb_ℤ r (pos 0))) [
  | inl done ↦ rw done tt
  | inr more ↦
      let (p, le) = min_bounds r c.base_quantity more s.0 in
      rw more (
        refl,
        p,
        le,
        whole_if_more q b r c cs,
        allocate-TakesInOrder q b (r -ℤ min_ℤ r c.base_quantity) cs s.1,
      )
]

-- For candidates with stock and a base quantity that is not negative: if the candidates hold the
-- base quantity, they are allocated it exactly, in their order, each but the last one whole; if
-- they do not, the call is refused.
pub allocations_from-IsExact :
    (input : ReserveStockInput) (cs : List Candidate)
    → pos 0 ≤ℤ input.base_quantity
    → IsStocked cs
    → ((list : List Allocation) × (allocations_from input cs ≡ ok list)
        × (total_allocated list ≡ input.base_quantity)
        × TakesInOrder cs list
        × (input.base_quantity ≤ℤ total_available cs))
      ⊎ ((allocations_from input cs ≡ err (app_error insufficient_stock 422))
          × (total_available cs <ℤ input.base_quantity))
unfolding allocations_from
allocations_from-IsExact input cs p s =
    elim (Bool-cases (ltb_ℤ (total_available cs) input.base_quantity)) [
      | inl short ↦ inr (rw short refl, ground arith)
      | inr enough ↦
          let q = input.quantity in
          let b = input.base_quantity in
          let le : b ≤ℤ total_available cs = ground arith in
          inl (
            allocate q b b cs,
            rw enough refl,
            allocate-covers q b b cs s p le,
            allocate-TakesInOrder q b b cs s,
            le,
          )
    ]
