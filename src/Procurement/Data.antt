-- ===== src/Procurement/Data.antt =====
-- The tables of backend/prisma/schema.prisma behind purchase orders and goods receipts. Texts and
-- time stamps that are kept for display are left out, and so are the cost and the supplier of a
-- batch. The numbers of batches, which the inventory's table leaves out, stand in a table of their
-- own; `now` is the time of the call.
use Prim.Native.String.{String}
use pasalho.Prelude.{ℕ, Bool, Option, List, find_row}
use pasalho.Prelude.Int.{ℤ}
use pasalho.Prelude.Result.{ok, err, Tx}
use pasalho.Audit.{AuditAction, ReferenceType, log}
use pasalho.Inventory.Data.{Inventory}

pub data PurchaseStatus : Type 0 where
  draft confirmed partially_received received cancelled : PurchaseStatus

-- The relation `inventoryLocation` of a warehouse.
pub record Store : Type 0 where
  pub location : ℕ
  pub is_active : Bool
  pub is_warehouse : Bool

pub record Warehouse : Type 0 where
  pub id : ℕ
  pub branch : ℕ
  pub is_active : Bool
  pub location : Option Store

-- A row of `ProductUnit` with what is read of its product.
pub record ProductUnit : Type 0 where
  pub id : ℕ
  pub product : ℕ
  pub unit : ℕ
  pub conversion_to_base : ℤ
  pub is_product_active : Bool
  pub is_batch_tracked : Bool

-- A row of `PurchaseOrderItem` with its product unit.
pub record PurchaseItem : Type 0 where
  pub id : ℕ
  pub product_unit : ProductUnit
  pub ordered_quantity : ℤ
  pub received_quantity : ℤ
  pub unit_cost : ℤ
  pub line_total : ℤ

pub record PurchaseOrder : Type 0 where
  pub id : ℕ
  pub supplier : ℕ
  pub warehouse : Warehouse
  pub branch : ℕ
  pub subtotal : ℤ
  pub status : PurchaseStatus
  pub created_by : ℕ
  pub items : List PurchaseItem

pub record ReceiptItem : Type 0 where
  pub purchase_item : ℕ
  pub batch : Option ℕ
  pub received_quantity : ℤ
  pub accepted_quantity : ℤ
  pub rejected_quantity : ℤ

pub record GoodsReceipt : Type 0 where
  pub id : ℕ
  pub purchase_order : ℕ
  pub received_by : ℕ
  pub idempotency_key : ℕ
  pub request_hash : ℕ
  pub items : List ReceiptItem

pub record BatchNumber : Type 0 where
  pub batch : ℕ
  pub product : ℕ
  pub number : ℕ

-- A record of the scope `goods-receipt.create`.
pub record ReceiptRequest : Type 0 where
  pub key : ℕ
  pub request_hash : ℕ
  pub is_completed : Bool
  pub resource_id : Option ℕ

pub record Supplier : Type 0 where
  pub id : ℕ
  pub supplier_code : ℕ
  pub name : String
  pub is_active : Bool

pub record Purchasing : Type 0 where
  pub stock : Inventory
  pub suppliers : List Supplier
  pub warehouses : List Warehouse
  pub product_units : List ProductUnit
  pub orders : List PurchaseOrder
  pub receipts : List GoodsReceipt
  pub batch_numbers : List BatchNumber
  pub requests : List ReceiptRequest
  pub now : ℕ

abbrev pub order_id : PurchaseOrder → ℕ
order_id o = o.id

abbrev pub item_id : PurchaseItem → ℕ
item_id i = i.id

abbrev pub find_order : ℕ → List PurchaseOrder → Option PurchaseOrder
find_order = find_row order_id

abbrev pub supplier_id : Supplier → ℕ
supplier_id s = s.id

abbrev pub find_supplier : ℕ → List Supplier → Option Supplier
find_supplier = find_row supplier_id

abbrev pub warehouse_id : Warehouse → ℕ
warehouse_id w = w.id

abbrev pub find_warehouse : ℕ → List Warehouse → Option Warehouse
find_warehouse = find_row warehouse_id

-- A step of the stock ledger in the same transaction.
unfoldable pub in_stock : {A : Type 0} → Tx Inventory A → Tx Purchasing A
in_stock m db = elim (m db.stock) [ ok (a, s) ↦ ok (a, record db { stock = s }) | err e ↦ err e ]

-- `audit.record`
abbrev pub audited : ℕ → AuditAction → ReferenceType → ℕ → Option ℕ → Purchasing → Purchasing
audited actor action entity_type id branch db = record db {
  stock = record db.stock {
    audit =
        log
          (record {
            actor = actor;
            action = action;
            entity_type = entity_type;
            entity_id = id;
            branch = branch;
          })
          db.stock.audit;
  };
}
