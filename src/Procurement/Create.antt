-- ===== src/Procurement/Create.antt =====
-- `createPurchaseOrder` of backend/src/procurement/procurement.service.ts.
pub mod Bounds
use pasalho.Prelude.{
  ℕ, ◌+◌, Bool, true, false, Option, none, some, List, [], ◌∷◌, ◌++◌, if◌then◌else◌, ◌==◌, ◌&&◌,
  any, length,
}
use pasalho.Prelude.Int.{ℤ, pos, ◌*ℤ◌, round_div, sum_by}
use pasalho.Prelude.Result.{Result, ok, err, app_error, validation_error, Action}
use pasalho.Audit.{purchase_order, purchase_order_created}
use pasalho.Inventory.Consumption.{filter}
use pasalho.Inventory.Count.{find_first}
use pasalho.Procurement.Data.{
  PurchaseStatus, Store, Warehouse, ProductUnit, PurchaseItem, PurchaseOrder, Supplier, Purchasing,
  find_supplier, find_warehouse, audited,
}

pub record PurchaseLine : Type 0 where
  pub product : ℕ
  pub product_unit : ℕ
  pub ordered_quantity : ℤ
  pub unit_cost : ℤ

pub record PurchaseDto : Type 0 where
  pub supplier : ℕ
  pub warehouse : ℕ
  pub items : List PurchaseLine

-- `where: { id: { in: ... } }`
abbrev pub is_wanted : List PurchaseLine → ProductUnit → Bool
is_wanted lines u = any (λ (l : PurchaseLine). l.product_unit == u.id) lines

abbrev pub is_unit_of : PurchaseLine → ProductUnit → Bool
is_unit_of l u = (u.id == l.product_unit) && (u.product == l.product) && u.is_product_active

-- The supplier must be active.
unfoldable pub check_supplier : Option Supplier → Result Supplier
check_supplier none = err (app_error validation_error 422)
check_supplier (some s) = if s.is_active then ok s else err (app_error validation_error 422)

abbrev pub has_active_location : Option Store → Bool
has_active_location none = false
has_active_location (some s) = s.is_active

-- The warehouse and its location must be active.
unfoldable pub check_warehouse : Option Warehouse → Result Warehouse
check_warehouse none = err (app_error validation_error 422)
check_warehouse (some w) =
    if w.is_active && has_active_location w.location
    then ok w
    else err (app_error validation_error 422)

-- In units of 0.0001, from units of 0.0000000001.
abbrev pub to_money : ℤ → ℤ
to_money x = round_div x (pos 1000000)

abbrev pub cost_of : PurchaseLine → ℤ
cost_of l = l.ordered_quantity *ℤ l.unit_cost

abbrev pub item_row : ℕ → PurchaseLine → ProductUnit → PurchaseItem
item_row id l u = record {
  id = id;
  product_unit = u;
  ordered_quantity = l.ordered_quantity;
  received_quantity = pos 0;
  unit_cost = l.unit_cost;
  line_total = to_money (cost_of l);
}

-- The rows of the items, each with its product unit among those that were read; an item without
-- one is refused.
unfoldable pub item_rows : List ProductUnit → ℕ → List PurchaseLine → Result (List PurchaseItem)
item_rows units id [] = ok []
item_rows units id (l ∷ lines) = elim (find_first (is_unit_of l) units) [
  | none ↦ err (app_error validation_error 422)
  | some u ↦ elim (item_rows units (id + 1) lines) [
    | ok rows ↦ ok (item_row id l u ∷ rows)
    | err e ↦ err e
  ]
]

-- All product units must be there, each for one item.
unfoldable pub check_lines : List ProductUnit → ℕ → List PurchaseLine → Result (List PurchaseItem)
check_lines units id lines =
    if length units == length lines
    then item_rows units id lines
    else err (app_error validation_error 422)

abbrev pub order_row : ℕ → PurchaseDto → Warehouse → List PurchaseItem → ℕ → PurchaseOrder
order_row id dto w items actor = record {
  id = id;
  supplier = dto.supplier;
  warehouse = w;
  branch = w.branch;
  subtotal = to_money (sum_by cost_of dto.items);
  status = PurchaseStatus.draft;
  created_by = actor;
  items = items;
}

abbrev pub with_order : PurchaseOrder → Purchasing → Purchasing
with_order o db = record db {
  orders = db.orders ++ o ∷ [];
  stock = record db.stock { next_id = db.stock.next_id + 1 + length o.items };
}

-- The checks and the order that they let through.
unfoldable pub new_order : PurchaseDto → ℕ → Purchasing → Result PurchaseOrder
new_order dto actor db = elim (check_supplier (find_supplier dto.supplier db.suppliers)) [
  | err e ↦ err e
  | ok s ↦ elim (check_warehouse (find_warehouse dto.warehouse db.warehouses)) [
    | err e ↦ err e
    | ok w ↦
        elim (check_lines (filter (is_wanted dto.items) db.product_units) (db.stock.next_id + 1)
          dto.items) [
            | err e ↦ err e
            | ok items ↦ ok (order_row db.stock.next_id dto w items actor)
          ]
  ]
]

-- `createPurchaseOrder`
unfoldable pub create_purchase_order : PurchaseDto → ℕ → Action Purchasing PurchaseOrder
create_purchase_order dto actor db =
    if length dto.items == 0
    then (err (app_error validation_error 422), db)
    else elim (new_order dto actor db) [
      | err e ↦ (err e, db)
      | ok o ↦ (
        ok o,
        audited actor purchase_order_created purchase_order o.id (some o.branch) (with_order o db),
      )
    ]
