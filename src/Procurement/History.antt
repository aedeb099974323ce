-- ===== src/Procurement/History.antt =====
-- The calls on purchase orders in any order, with the changes of suppliers between them.
use Prim.Native.String.{String}
use pasalho.Prelude.{ℕ, Option, List, Bool-cases, Option-cases, inl, inr}
use pasalho.Audit.{AuditAction}
use pasalho.Procurement.Data.{Supplier, Purchasing, find_supplier}
use pasalho.Procurement.Suppliers.{
  is_code_taken, create_supplier, change_supplier, with_name, deactivated, update_supplier,
  deactivate_supplier,
}
use pasalho.Procurement.Create.{PurchaseDto, create_purchase_order}
use pasalho.Procurement.Create.Bounds.{AreOrdered, create_purchase_order-AreWithin}
use pasalho.Procurement.Orders.{confirm_purchase_order, cancel_purchase_order}
use pasalho.Procurement.Receipt.{ItemDto}
use pasalho.Procurement.Receive.{receive_goods}
use pasalho.Procurement.Receive.Limits.{
  AreWithin, confirm_purchase_order-AreWithin, cancel_purchase_order-AreWithin,
  receive_goods-AreWithin,
}

-- A call, whether or not it succeeds. A new order's quantities are positive, as the validation of
-- the request demands.
pub data Step (receipt_hash : ℕ → List ItemDto → ℕ) : Purchasing → Purchasing → Type 0 where
  step_create_supplier :
      (code : ℕ) (name : String) (actor : ℕ) (db : Purchasing)
      → Step receipt_hash db (create_supplier code name actor db).1
  step_update_supplier :
      (id : ℕ) (name : Option String) (actor : ℕ) (db : Purchasing)
      → Step receipt_hash db (update_supplier id name actor db).1
  step_deactivate_supplier :
      (id actor : ℕ) (db : Purchasing) → Step receipt_hash db (deactivate_supplier id actor db).1
  step_create :
      (dto : PurchaseDto) (actor : ℕ) (db : Purchasing)
      → AreOrdered dto.items
      → Step receipt_hash db (create_purchase_order dto actor db).1
  step_confirm :
      (id actor : ℕ) (db : Purchasing) → Step receipt_hash db (confirm_purchase_order id actor db).1
  step_cancel :
      (id actor : ℕ) (db : Purchasing) → Step receipt_hash db (cancel_purchase_order id actor db).1
  step_receive :
      (id : ℕ) (dtos : List ItemDto) (key : Option ℕ) (actor : ℕ) (db : Purchasing)
      → Step receipt_hash db (receive_goods receipt_hash id dtos key actor db).1

pub data Reach (receipt_hash : ℕ → List ItemDto → ℕ) (s : Purchasing) : Purchasing → Type 0 where
  here : Reach receipt_hash s s
  next :
      {t u : Purchasing} → Reach receipt_hash s t → Step receipt_hash t u → Reach receipt_hash s u

create_supplier-AreWithin :
    (code : ℕ) (name : String) (actor : ℕ) (db : Purchasing)
    → AreWithin db
    → AreWithin (create_supplier code name actor db).1
unfolding create_supplier
create_supplier-AreWithin code name actor db h =
    elim (Bool-cases (is_code_taken code db.suppliers)) [ inl e ↦ rw e h | inr e ↦ rw e h ]

change_supplier-AreWithin :
    (f : Supplier → Supplier) (action : AuditAction) (id actor : ℕ) (db : Purchasing)
    → AreWithin db
    → AreWithin (change_supplier f action id actor db).1
unfolding change_supplier
change_supplier-AreWithin f action id actor db h =
    elim (Option-cases (find_supplier id db.suppliers)) [
      | inl e ↦ rw (e, change_supplier) h
      | inr (s, e) ↦ rw (e, change_supplier) h
    ]

module _ {receipt_hash : ℕ → List ItemDto → ℕ} where
  Step-AreWithin : {s t : Purchasing} → Step receipt_hash s t → AreWithin s → AreWithin t
  unfolding update_supplier deactivate_supplier
  Step-AreWithin (step_create_supplier code name actor db) h =
      create_supplier-AreWithin code name actor db h
  Step-AreWithin (step_update_supplier id name actor db) h =
      change_supplier-AreWithin (with_name name) _ id actor db h
  Step-AreWithin (step_deactivate_supplier id actor db) h =
      change_supplier-AreWithin deactivated _ id actor db h
  Step-AreWithin (step_create dto actor db ordered) h =
      create_purchase_order-AreWithin dto actor db ordered h
  Step-AreWithin (step_confirm id actor db) h = confirm_purchase_order-AreWithin id actor db h
  Step-AreWithin (step_cancel id actor db) h = cancel_purchase_order-AreWithin id actor db h
  Step-AreWithin (step_receive id dtos key actor db) h =
      receive_goods-AreWithin receipt_hash id dtos key actor db h

-- From a database where no purchase order holds an item of which more has been received than was
-- ordered, whatever orders are created, confirmed, cancelled and received, in whatever order,
-- whatever the receipts contain, and whether or not the calls succeed: none ever does. The
-- quantities of a new order are taken to be positive.
pub reachable-AreWithin :
    {receipt_hash : ℕ → List ItemDto → ℕ} {s t : Purchasing}
    → AreWithin s
    → Reach receipt_hash s t
    → AreWithin t
reachable-AreWithin h here = h
reachable-AreWithin h (next r step) = Step-AreWithin step (reachable-AreWithin h r)
