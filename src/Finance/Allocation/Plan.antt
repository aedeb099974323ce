-- ===== src/Finance/Allocation/Plan.antt =====
-- How much an automatic allocation takes.
use pasalho.Prelude.{◌≡◌, true, false, List, [], ◌∷◌, arith, Bool-cases, inl, inr}
use pasalho.Prelude.Int.{
  ℤ, pos, ◌+ℤ◌, ◌-ℤ◌, ◌≤ℤ◌, ◌<ℤ◌, ltb_ℤ, leb_ℤ, min_ℤ, max_ℤ, sum_by, int_laws, zero-+ℤ,
}
use pasalho.Finance.Data.{Invoice}
use pasalho.Finance.Allocation.{plan, total_amount}

-- What is due on the invoices, where anything is.
abbrev pub total_due : List Invoice → ℤ
total_due = sum_by (λ (i : Invoice). max_ℤ (pos 0) i.due_amount)

total_due-nonneg : (is : List Invoice) → pos 0 ≤ℤ total_due is
unfolding sum_by
total_due-nonneg [] = omega arith
total_due-nonneg (i ∷ is) = grind (int_laws, total_due-nonneg is)

all_spent : (r d : ℤ) → pos 0 ≤ℤ r → pos 0 ≤ℤ d → leb_ℤ r (pos 0) ≡ true → pos 0 ≡ min_ℤ r d
all_spent r d p q h = grind int_laws

less_left : (r m : ℤ) → m ≤ℤ r → pos 0 ≤ℤ r -ℤ m
less_left r m h = omega int_laws

min_le : (r c : ℤ) → min_ℤ r c ≤ℤ r
min_le r c = grind int_laws

-- Taking from the first and then from the rest is taking from both.
min_twice :
    (r c t : ℤ) → pos 0 ≤ℤ t → pos 0 <ℤ c → min_ℤ r c +ℤ min_ℤ (r -ℤ min_ℤ r c) t ≡ min_ℤ r (c +ℤ t)
min_twice r c t p q = elim (Bool-cases (leb_ℤ r c)) [
  | inl h ↦ rw h (grind int_laws)
  | inr h ↦ rw h (grind int_laws)
]

is_due : (r c : ℤ) → ltb_ℤ (pos 0) (min_ℤ r c) ≡ true → pos 0 <ℤ c
is_due r c h = grind int_laws

due_max : (c : ℤ) → pos 0 <ℤ c → max_ℤ (pos 0) c ≡ c
due_max c h = grind int_laws

not_due :
    (r c : ℤ)
    → leb_ℤ r (pos 0) ≡ false
    → ltb_ℤ (pos 0) (min_ℤ r c) ≡ false
    → max_ℤ (pos 0) c ≡ pos 0
not_due r c h k = grind int_laws

-- An automatic allocation of an amount that is not negative takes all of it, or all that is due on
-- the invoices if that is less.
pub plan-total :
    (amount : ℤ) (is : List Invoice)
    → pos 0 ≤ℤ amount
    → total_amount (plan amount is) ≡ min_ℤ amount (total_due is)
unfolding plan sum_by
plan-total amount [] p = grind int_laws
plan-total amount (i ∷ is) p = elim (Bool-cases (leb_ℤ amount (pos 0))) [
  | inl done ↦ rw done (all_spent amount (total_due (i ∷ is)) p (total_due-nonneg (i ∷ is)) done)
  | inr more ↦ elim (Bool-cases (ltb_ℤ (pos 0) (min_ℤ amount i.due_amount))) [
    | inl due ↦
        let c = i.due_amount in
        let first = min_ℤ amount c in
        let more_due = is_due amount c due in
        rw (more, due)
          (rw (plan-total (amount -ℤ first) is (less_left amount first (min_le amount c))) (
            rw (due_max c more_due)
              (min_twice amount c (total_due is) (total_due-nonneg is) more_due)))
    | inr none_due ↦
        rw (more, none_due)
          (rw (not_due amount i.due_amount more none_due)
            (rw (zero-+ℤ (total_due is)) (plan-total amount is p)))
  ]
]
