-- ===== src/Sales/Order/Create/Lines.antt =====
-- What the items of an order are for, once they have passed their checks.
use pasalho.Prelude.{
  ℕ, ◌≡◌, sym, ◌∙◌, ap, Bool, true, Option, none, some, List, [], ◌∷◌, arith, Bool-cases,
  Option-cases, inl, inr, ◌==◌, ==_iff, find_row,
}
use pasalho.Prelude.Int.{ℤ, pos, ◌+ℤ◌, ◌*ℤ◌, sum_by, int_laws}
use pasalho.Prelude.Result.{Result-cases, ok}
use pasalho.Inventory.Data.{BatchStatus, Batch}
use pasalho.Inventory.Count.{find_first}
use pasalho.Sales.Data.{ProductUnit, Product}
use pasalho.Sales.Invoice.Post.{find_batch}
use pasalho.Sales.Order.Validate.{
  ItemDto, ValidItem, unit_for, is_active_batch, allows_batch, price_of, valid_item, validate_unit,
  validate_item, validate_items, subtotal_from,
}

-- A batch that is there, is active, and is of the product.
abbrev pub IsFrom : List Batch → ℕ → ℕ → Type 0
IsFrom batches product id =
    (b : Batch) × (find_batch id batches ≡ some b)
    × (b.product ≡ product)
    × (b.status ≡ BatchStatus.active)

-- An item of an order, and what was asked for.
abbrev pub IsFor : List Product → List Batch → ItemDto → ValidItem → Type 0
IsFor products batches dto v =
    (p : Product) × (find_row (λ (p : Product). p.id) dto.product products ≡ some p)
    × (p.is_active ≡ true)
    × (v.product ≡ p.id)
    × (v.quantity ≡ dto.quantity)
    × (v.line_total ≡ dto.quantity *ℤ price_of p.selling_price)
    × (v.batch ≡ dto.batch)
    × ((n : ℕ) → dto.unit ≡ some n → v.unit ≡ n)
    × ((n : ℕ) → dto.batch ≡ some n → IsFrom batches p.id n)

abbrev pub AreFor : List Product → List Batch → List ItemDto → List ValidItem → Type 0
AreFor products batches [] [] = Unit
AreFor products batches (dto ∷ dtos) (v ∷ vs) =
    IsFor products batches dto v × AreFor products batches dtos vs
AreFor products batches [] (v ∷ vs) = ⊥
AreFor products batches (dto ∷ dtos) [] = ⊥

find_first-holds :
    {A : Type 0} (p : A → Bool) (xs : List A) {x : A} → find_first p xs ≡ some x → p x ≡ true
unfolding find_first
find_first-holds p [] h = absurd (ground (arith, h))
find_first-holds p (y ∷ ys) h = elim (Bool-cases (p y)) [
  | inl e ↦ ground (arith, h, e)
  | inr e ↦ find_first-holds p ys (ground (arith, h, e))
]

named_unit :
    (unit : Option ℕ) (p : Product) (u : ProductUnit) (n : ℕ)
    → unit_for unit p ≡ some u
    → unit ≡ some n
    → u.unit ≡ n
unfolding unit_for
named_unit none p u n h e = absurd (ground (arith, e))
named_unit (some m) p u n h e =
    let at_unit = find_first-holds (λ (x : ProductUnit). x.unit == m) p.units h in
    let same : m ≡ n = ground (arith, e) in (==_iff u.unit m).0 at_unit ∙ same

active_status : (s : BatchStatus) → is_active_batch s ≡ true → s ≡ BatchStatus.active
active_status s h = ground (arith, h)

allowed_batch :
    (product : ℕ) (batches : List Batch) (batch : Option ℕ) (n : ℕ)
    → allows_batch product batches batch ≡ true
    → batch ≡ some n
    → IsFrom batches product n
unfolding allows_batch
allowed_batch product batches none n h e = absurd (ground (arith, e))
allowed_batch product batches (some m) n h e = elim (Option-cases (find_batch m batches)) [
  | inl e1 ↦ absurd (ground (arith, h, e1))
  | inr (b, e1) ↦
      let same : m ≡ n = ground (arith, e) in
      let of_product : (b.product == product) ≡ true = ground (arith, h, e1) in
      let is_active : is_active_batch b.status ≡ true = ground (arith, h, e1) in
      (
        b,
        ap (λ j. find_batch j batches) (sym same) ∙ e1,
        (==_iff b.product product).0 of_product,
        active_status b.status is_active,
      )
]

validate_unit-inverted :
    (dto : ItemDto) (p : Product) (batches : List Batch) (v : ValidItem)
    → validate_unit dto p batches ≡ ok v
    → (u : ProductUnit) × (unit_for dto.unit p ≡ some u)
      × (allows_batch p.id batches dto.batch ≡ true)
      × (v ≡ valid_item dto p u)
unfolding validate_unit
validate_unit-inverted dto p batches v h = elim (Option-cases (unit_for dto.unit p)) [
  | inl e ↦ absurd (ground (arith, h, e))
  | inr (u, e) ↦ elim (Bool-cases (allows_batch p.id batches dto.batch)) [
    | inr e1 ↦ absurd (ground (arith, h, e, e1))
    | inl e1 ↦ (u, e, e1, ground (arith, h, e, e1))
  ]
]

validate_item-IsFor :
    (products : List Product) (batches : List Batch) (dto : ItemDto) (v : ValidItem)
    → validate_item dto products batches ≡ ok v
    → IsFor products batches dto v
unfolding validate_item
validate_item-IsFor products batches dto v h =
    elim (Option-cases (find_row (λ (p : Product). p.id) dto.product products)) [
      | inl e ↦ absurd (ground (arith, h, e))
      | inr (p, e) ↦ elim (Bool-cases p.is_active) [
        | inr e1 ↦ absurd (ground (arith, h, e, e1))
        | inl e1 ↦
            let (u, unit, allowed, same) =
              validate_unit-inverted dto p batches v (ground (arith, h, e, e1)) in
            (
              p,
              e,
              e1,
              ap (λ (v : ValidItem). v.product) same,
              ap (λ (v : ValidItem). v.quantity) same,
              ap (λ (v : ValidItem). v.line_total) same,
              ap (λ (v : ValidItem). v.batch) same,
              λ n named. ap (λ (v : ValidItem). v.unit) same ∙ named_unit dto.unit p u n unit named,
              λ n named. allowed_batch p.id batches dto.batch n allowed named,
            )
      ]
    ]

pub validate_items-AreFor :
    (products : List Product) (batches : List Batch) (dtos : List ItemDto) (vs : List ValidItem)
    → validate_items dtos products batches ≡ ok vs
    → AreFor products batches dtos vs
unfolding validate_items
validate_items-AreFor products batches [] [] h = tt
validate_items-AreFor products batches [] (v ∷ vs) h = absurd (ground (arith, h))
validate_items-AreFor products batches (dto ∷ dtos) [] h =
    elim (Result-cases (validate_item dto products batches)) [
      | inr (x, e) ↦ absurd (ground (arith, h, e))
      | inl (w, e) ↦ elim (Result-cases (validate_items dtos products batches)) [
        | inr (x, e1) ↦ absurd (ground (arith, h, e, e1))
        | inl (ws, e1) ↦ absurd (ground (arith, h, e, e1))
      ]
    ]
validate_items-AreFor products batches (dto ∷ dtos) (v ∷ vs) h =
    elim (Result-cases (validate_item dto products batches)) [
      | inr (x, e) ↦ absurd (ground (arith, h, e))
      | inl (w, e) ↦ elim (Result-cases (validate_items dtos products batches)) [
        | inr (x, e1) ↦ absurd (ground (arith, h, e, e1))
        | inl (ws, e1) ↦
            let same : w ≡ v = ground (arith, h, e, e1) in
            let rest : ws ≡ vs = ground (arith, h, e, e1) in
            (
              validate_item-IsFor products batches dto v (e ∙ ap ok same),
              validate_items-AreFor products batches dtos vs (e1 ∙ ap ok rest),
            )
      ]
    ]

subtotal_from-sum :
    (acc : ℤ) (vs : List ValidItem)
    → subtotal_from acc vs ≡ acc +ℤ sum_by (λ (v : ValidItem). v.line_total) vs
unfolding subtotal_from sum_by
subtotal_from-sum acc [] = omega int_laws
subtotal_from-sum acc (v ∷ vs) = subtotal_from-sum (acc +ℤ v.line_total) vs ∙ omega int_laws

pub subtotal-sum :
    (vs : List ValidItem) → subtotal_from (pos 0) vs ≡ sum_by (λ (v : ValidItem). v.line_total) vs
subtotal-sum vs = subtotal_from-sum (pos 0) vs ∙ omega int_laws
