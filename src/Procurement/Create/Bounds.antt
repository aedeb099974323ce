-- ===== src/Procurement/Create/Bounds.antt =====
-- A new purchase order has received nothing, so it is within what was ordered.
use pasalho.Prelude.{
  ℕ, ◌≡◌, ◌+◌, List, [], ◌∷◌, arith, Bool-cases, Option-cases, inl, inr, ◌==◌, All, All-append,
  length,
}
use pasalho.Prelude.Int.{pos, ◌≤ℤ◌}
use pasalho.Prelude.Result.{Result, Result-cases, ok, err}
use pasalho.Inventory.Consumption.{filter}
use pasalho.Inventory.Count.{find_first}
use pasalho.Procurement.Data.{ProductUnit, Purchasing, find_supplier, find_warehouse}
use pasalho.Procurement.Create.{
  PurchaseLine, PurchaseDto, is_unit_of, is_wanted, item_rows, check_lines, check_supplier,
  check_warehouse, new_order, create_purchase_order,
}
use pasalho.Procurement.Receive.Bounds.{IsWithin}
use pasalho.Procurement.Receive.Limits.{IsOrderWithin, AreWithin}

-- `@Min(0.000001)`, which the validation of the request checks.
abbrev pub AreOrdered : List PurchaseLine → Type 0
AreOrdered = All (λ (l : PurchaseLine). pos 1 ≤ℤ l.ordered_quantity)

-- What a result holds, if it is a success.
abbrev Holds : {A : Type 0} → (A → Type 0) → Result A → Type 0
Holds P (ok a) = P a
Holds P (err e) = Unit

Holds-ok : {A : Type 0} (P : A → Type 0) (r : Result A) {a : A} → Holds P r → r ≡ ok a → P a
Holds-ok P r {a} h e = rw e at h

item_rows-AreWithin :
    (units : List ProductUnit) (id : ℕ) (lines : List PurchaseLine)
    → AreOrdered lines
    → Holds (All IsWithin) (item_rows units id lines)
unfolding item_rows
item_rows-AreWithin units id [] h = tt
item_rows-AreWithin units id (l ∷ lines) (first, rest) =
    elim (Option-cases (find_first (is_unit_of l) units)) [
      | inl e ↦ rw (e, Holds) tt
      | inr (u, e) ↦ elim (Result-cases (item_rows units (id + 1) lines)) [
        | inr (x, e1) ↦ rw (e, e1, Holds) tt
        | inl (rows, e1) ↦
            rw (e, e1, Holds)
              (
                grind (arith, first),
                Holds-ok (All IsWithin) (item_rows units (id + 1) lines)
                    (item_rows-AreWithin units (id + 1) lines rest) e1,
              )
      ]
    ]

check_lines-AreWithin :
    (units : List ProductUnit) (id : ℕ) (lines : List PurchaseLine)
    → AreOrdered lines
    → Holds (All IsWithin) (check_lines units id lines)
unfolding check_lines
check_lines-AreWithin units id lines h = elim (Bool-cases (length units == length lines)) [
  | inl e ↦ rw (e, Holds) (item_rows-AreWithin units id lines h)
  | inr e ↦ rw (e, Holds) tt
]

new_order-IsWithin :
    (dto : PurchaseDto) (actor : ℕ) (db : Purchasing)
    → AreOrdered dto.items
    → Holds IsOrderWithin (new_order dto actor db)
unfolding new_order
new_order-IsWithin dto actor db h =
    elim (Result-cases (check_supplier (find_supplier dto.supplier db.suppliers))) [
      | inr (x, e) ↦ rw (e, Holds) tt
      | inl (s, e) ↦
          elim (Result-cases (check_warehouse (find_warehouse dto.warehouse db.warehouses))) [
            | inr (x, e1) ↦ rw (e, e1, Holds) tt
            | inl (w, e1) ↦
                let units = filter (is_wanted dto.items) db.product_units in
                let id = db.stock.next_id + 1 in
                elim (Result-cases (check_lines units id dto.items)) [
                  | inr (x, e2) ↦ rw (e, e1, e2, Holds) tt
                  | inl (items, e2) ↦
                      rw (e, e1, e2, Holds)
                        (Holds-ok (All IsWithin) (check_lines units id dto.items)
                          (check_lines-AreWithin units id dto.items h) e2)
                ]
          ]
    ]

-- An order that `createPurchaseOrder` writes for positive quantities is within what was ordered,
-- and so are the orders before it.
pub create_purchase_order-AreWithin :
    (dto : PurchaseDto) (actor : ℕ) (db : Purchasing)
    → AreOrdered dto.items
    → AreWithin db
    → AreWithin (create_purchase_order dto actor db).1
unfolding create_purchase_order
create_purchase_order-AreWithin dto actor db ordered h = elim (Bool-cases (length dto.items == 0)) [
  | inl e ↦ rw e h
  | inr e ↦ elim (Result-cases (new_order dto actor db)) [
    | inr (x, e1) ↦ rw (e, e1) h
    | inl (o, e1) ↦
        let kept =
          Holds-ok IsOrderWithin (new_order dto actor db) (new_order-IsWithin dto actor db ordered)
            e1 in
        rw (e, e1) (All-append IsOrderWithin db.orders (o ∷ []) h (kept, tt))
  ]
]
