-- ===== src/Sales/Data.antt =====
-- The tables of backend/prisma/schema.prisma behind invoices and sales orders, and the database
-- that their services share with the inventory and the books. Texts and time stamps that are kept
-- for display are left out; an order's items stand in its row. Invoices get their ids from the
-- generator of the books, orders from that of the inventory: ids of different tables never meet.
use pasalho.Prelude.{ℕ, Bool, Option, List, update_row}
use pasalho.Prelude.Int.{ℤ}
use pasalho.Prelude.Result.{ok, err, Tx}
use pasalho.Audit.{AuditAction, ReferenceType}
use pasalho.Inventory.Data.{Inventory}
use pasalho.Finance.Data.{Invoice, Books}
use pasalho.Finance.Tables.{with_audit}

pub data OrderStatus : Type 0 where
  draft confirmed invoiced placed picking packed dispatched delivered cancelled : OrderStatus

pub data OrderSource : Type 0 where
  storefront dnp sales_rep franchise : OrderSource

-- A row of `SalesOrderItem`; quantities and amounts are in the units of their columns.
pub record OrderLine : Type 0 where
  pub id : ℕ
  pub product : ℕ
  pub batch : Option ℕ
  pub unit : ℕ
  pub quantity : ℤ
  pub base_quantity : ℤ
  pub unit_price : ℤ
  pub line_total : ℤ

pub record SalesOrder : Type 0 where
  pub id : ℕ
  pub order_no : ℕ
  pub source : OrderSource
  pub idempotency_key : Option ℕ
  pub branch : Option ℕ
  pub sales_rep : Option ℕ
  pub route : Option ℕ
  pub retailer : Option ℕ
  pub status : OrderStatus
  pub grand_total : ℤ
  pub invoice : Option ℕ
  pub created_by : ℕ
  pub items : List OrderLine

pub record Warehouse : Type 0 where
  pub id : ℕ
  pub branch : ℕ

pub record Location : Type 0 where
  pub id : ℕ
  pub branch : ℕ
  pub is_active : Bool

-- A conversion is in units of 0.000001, as the column `conversionToBase` holds it.
pub record ProductUnit : Type 0 where
  pub unit : ℕ
  pub conversion_to_base : ℤ
  pub is_base_unit : Bool

pub record Product : Type 0 where
  pub id : ℕ
  pub is_active : Bool
  pub is_batch_tracked : Bool
  pub selling_price : Option ℤ
  pub default_unit : ℕ
  pub units : List ProductUnit

pub record SalesRep : Type 0 where
  pub id : ℕ
  pub user : ℕ
  pub branch : ℕ
  pub is_active : Bool

-- A row of `Route` with the retailers of its stops.
pub record Route : Type 0 where
  pub id : ℕ
  pub branch : ℕ
  pub sales_rep : ℕ
  pub is_active : Bool
  pub stops : List ℕ

-- A record of the scope `sales-order.create`.
pub record OrderRequest : Type 0 where
  pub key : ℕ
  pub request_hash : ℕ
  pub is_completed : Bool
  pub resource_id : Option ℕ

-- The tables that the two services only read. Locations stand in the order of their creation.
pub record Catalog : Type 0 where
  pub branches : List ℕ
  pub warehouses : List Warehouse
  pub locations : List Location
  pub products : List Product
  pub sales_reps : List SalesRep
  pub routes : List Route
  -- The sales orders of the table `FranchiseSupplyOrder`.
  pub franchise_orders : List ℕ

pub record Shop : Type 0 where
  pub catalog : Catalog
  pub stock : Inventory
  pub books : Books
  pub orders : List SalesOrder
  pub requests : List OrderRequest

-- A step of the stock ledger, and a step of the books, in the same transaction.
unfoldable pub in_stock : {A : Type 0} → Tx Inventory A → Tx Shop A
in_stock m db = elim (m db.stock) [ ok (a, s) ↦ ok (a, record db { stock = s }) | err e ↦ err e ]

unfoldable pub in_books : {A : Type 0} → Tx Books A → Tx Shop A
in_books m db = elim (m db.books) [ ok (a, b) ↦ ok (a, record db { books = b }) | err e ↦ err e ]

abbrev pub invoice_id : Invoice → ℕ
invoice_id i = i.id

abbrev pub order_id : SalesOrder → ℕ
order_id o = o.id

-- `invoice.update` and `salesOrder.update`, of a row that has been read.
abbrev pub set_invoice : ℕ → (Invoice → Invoice) → Shop → Shop
set_invoice id f db = record db {
  books = record db.books { invoices = update_row invoice_id id f db.books.invoices };
}

abbrev pub set_order : ℕ → (SalesOrder → SalesOrder) → Shop → Shop
set_order id f db = record db { orders = update_row order_id id f db.orders }

-- `audit.record`
abbrev pub audited : ℕ → AuditAction → ReferenceType → ℕ → Option ℕ → Shop → Shop
audited actor action entity_type id branch db = record db {
  books =
      with_audit
        (record {
          actor = actor;
          action = action;
          entity_type = entity_type;
          entity_id = id;
          branch = branch;
        })
        db.books;
}
