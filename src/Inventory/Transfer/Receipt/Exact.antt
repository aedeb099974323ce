-- ===== src/Inventory/Transfer/Receipt/Exact.antt =====
-- An accepted receipt names what was sent.
use pasalho.Prelude.{
  ℕ, ◌≡◌, refl, ◌∙◌, sym, true, false, Option, none, some, List, [], ◌∷◌, ◌==◌, ◌||◌, any, arith,
  Bool-cases, inl, inr, if◌then◌else◌, is_some,
}
use pasalho.Prelude.Int.{ℤ, pos, ◌+ℤ◌, int_laws, zero-+ℤ}
use pasalho.Prelude.Result.{Result-cases, ok}
use pasalho.Inventory.Transfer.{TransferItem, Transfer}
use pasalho.Inventory.Transfer.Receipt.{
  ReceiptItem, ReceiptInput, Quantities, quantity_of, add_quantity, expected_from, received_from,
  same_quantity, all_received, check_receipt,
}

-- The quantity of a product that was sent, and the one that was received, over all lines.
unfoldable pub sent : ℕ → List TransferItem → ℤ
sent p [] = pos 0
sent p (i ∷ is) = (if i.product == p then i.quantity else pos 0) +ℤ sent p is

unfoldable pub got : ℕ → List ReceiptItem → ℤ
got p [] = pos 0
got p (i ∷ is) = (if i.product == p then i.quantity else pos 0) +ℤ got p is

abbrev value : Option ℤ → ℤ
value none = pos 0
value (some n) = n

value-add_quantity :
    (p q : ℕ) (n : ℤ) (m : Quantities)
    → value (quantity_of p (add_quantity q n m))
      ≡ value (quantity_of p m) +ℤ (if q == p then n else pos 0)
unfolding quantity_of add_quantity
value-add_quantity p q n [] = elim (Bool-cases (q == p)) [
  | inl e ↦ rw e (omega int_laws)
  | inr e ↦ rw e (omega int_laws)
]
value-add_quantity p q n ((r, k) ∷ m) = elim (Bool-cases (r == q)) [
  | inl same ↦ elim (Bool-cases (r == p)) [
    | inl e ↦ let e' : (q == p) ≡ true = ground (arith, same, e) in rw (same, e, e') refl
    | inr e ↦
        let e' : (q == p) ≡ false = ground (arith, same, e) in rw (same, e, e') (omega int_laws)
  ]
  | inr other ↦ elim (Bool-cases (r == p)) [
    | inl e ↦
        let e' : (q == p) ≡ false = ground (arith, other, e) in rw (other, e, e') (omega int_laws)
    | inr e ↦ rw (other, e) (value-add_quantity p q n m)
  ]
]

value-expected_from :
    (p : ℕ) (m : Quantities) (is : List TransferItem)
    → value (quantity_of p (expected_from m is)) ≡ value (quantity_of p m) +ℤ sent p is
unfolding expected_from sent
value-expected_from p m [] = omega int_laws
value-expected_from p m (i ∷ is) =
    rw
      (
        value-expected_from p (add_quantity i.product i.quantity m) is,
        value-add_quantity p i.product i.quantity m,
      )
      (omega int_laws)

value-received_from :
    (p : ℕ) (m : Quantities) (is : List ReceiptItem) (r : Quantities)
    → received_from m is ≡ ok r
    → value (quantity_of p r) ≡ value (quantity_of p m) +ℤ got p is
unfolding received_from got
value-received_from p m [] r h = let same : m ≡ r = ground (arith, h) in rw same (omega int_laws)
value-received_from p m (i ∷ is) r h =
    let rest : received_from (add_quantity i.product i.quantity m) is ≡ ok r = ground (arith, h) in
    rw
      (
        value-received_from p (add_quantity i.product i.quantity m) is r rest,
        value-add_quantity p i.product i.quantity m,
      )
      (omega int_laws)

-- A product stays in the map, and enters it with its line.
is_some-add_quantity :
    (p q : ℕ) (n : ℤ) (m : Quantities)
    → is_some (quantity_of p (add_quantity q n m)) ≡ is_some (quantity_of p m) || (q == p)
unfolding quantity_of add_quantity
is_some-add_quantity p q n [] = ground arith
is_some-add_quantity p q n ((r, k) ∷ m) = ground (arith, is_some-add_quantity p q n m)

is_some-expected_from :
    (p : ℕ) (m : Quantities) (is : List TransferItem)
    → is_some (quantity_of p (expected_from m is))
      ≡ is_some (quantity_of p m) || any (λ (i : TransferItem). i.product == p) is
unfolding expected_from
is_some-expected_from p m [] = ground arith
is_some-expected_from p m (i ∷ is) = ground (
  arith,
  is_some-expected_from p (add_quantity i.product i.quantity m) is,
  is_some-add_quantity p i.product i.quantity m,
)

equal_of_same : (o : Option ℤ) (n : ℤ) → same_quantity o n ≡ true → value o ≡ n
equal_of_same none n h = absurd (ground (arith, h))
equal_of_same (some k) n h = grind int_laws

value-all_received :
    (p : ℕ) (r m : Quantities)
    → all_received r m ≡ true
    → is_some (quantity_of p m) ≡ true
    → value (quantity_of p r) ≡ value (quantity_of p m)
unfolding all_received quantity_of
value-all_received p r [] h k = absurd (ground (arith, k))
value-all_received p r ((q, n) ∷ m) h k = elim (Bool-cases (q == p)) [
  | inl e ↦
      let here : same_quantity (quantity_of q r) n ≡ true = ground (arith, h) in
      let same : q ≡ p = ground (arith, e) in
      rw e (rw (← same) (equal_of_same (quantity_of q r) n here))
  | inr e ↦ rw e (value-all_received p r m (ground (arith, h)) (ground (arith, k, e)))
]

-- A receipt that is accepted names, for every product of the transfer, the quantity that was sent,
-- over all lines of the product.
pub check_receipt-exact :
    (t : Transfer) (input : ReceiptInput) (p : ℕ)
    → check_receipt t input ≡ ok tt
    → any (λ (i : TransferItem). i.product == p) t.items ≡ true
    → got p input.items ≡ sent p t.items
unfolding check_receipt quantity_of
check_receipt-exact t input p h here = elim (Result-cases (received_from [] input.items)) [
  | inr (x, e) ↦ absurd (ground (arith, h, e))
  | inl (r, e) ↦
      let wanted = expected_from [] t.items in
      let all : all_received r wanted ≡ true = ground (arith, h, e) in
      let known : is_some (quantity_of p wanted) ≡ true =
        is_some-expected_from p [] t.items ∙ here in
      sym (zero-+ℤ (got p input.items))
      ∙ (sym (value-received_from p [] input.items r e)
          ∙ (value-all_received p r wanted all known
              ∙ (value-expected_from p [] t.items ∙ zero-+ℤ (sent p t.items))))
]
