-- ===== src/Procurement/Suppliers.antt =====
-- The suppliers: `getSupplier`, `createSupplier`, `updateSupplier` and `deactivateSupplier` of
-- backend/src/procurement/procurement.service.ts.
use Prim.Native.String.{String}
use pasalho.Prelude.{
  ℕ, ◌+◌, Bool, true, false, Option, none, some, List, [], ◌∷◌, ◌++◌, if◌then◌else◌, ◌==◌, any,
  update_row,
}
use pasalho.Prelude.Result.{ok, err, app_error, not_found, p2002, Action}
use pasalho.Audit.{AuditAction, supplier, supplier_created, supplier_updated, supplier_deactivated}
use pasalho.Procurement.Data.{Supplier, Purchasing, supplier_id, find_supplier, audited}

abbrev pub is_code_taken : ℕ → List Supplier → Bool
is_code_taken code = any (λ (s : Supplier). s.supplier_code == code)

abbrev pub with_supplier : Supplier → Purchasing → Purchasing
with_supplier s db = record db {
  suppliers = db.suppliers ++ s ∷ [];
  stock = record db.stock { next_id = db.stock.next_id + 1 };
}

-- `createSupplier`
unfoldable pub create_supplier : ℕ → String → ℕ → Action Purchasing Supplier
create_supplier code name actor db =
    if is_code_taken code db.suppliers
    then (err p2002, db)
    else let s : Supplier = record {
      id = db.stock.next_id;
      supplier_code = code;
      name = name;
      is_active = true;
    } in
      (ok s, audited actor supplier_created supplier s.id none (with_supplier s db))

-- The read, the update of the row and the audit row, each on its own.
unfoldable pub change_supplier :
    (Supplier → Supplier) → AuditAction → ℕ → ℕ → Action Purchasing Supplier
change_supplier f action id actor db = elim (find_supplier id db.suppliers) [
  | none ↦ (err (app_error not_found 404), db)
  | some s ↦ (
    ok (f s),
    audited actor action supplier id none
        (record db { suppliers = update_row supplier_id id f db.suppliers }),
  )
]

abbrev pub with_name : Option String → Supplier → Supplier
with_name none s = s
with_name (some name) s = record s { name = name }

-- `updateSupplier`
unfoldable pub update_supplier : ℕ → Option String → ℕ → Action Purchasing Supplier
update_supplier id name actor = change_supplier (with_name name) supplier_updated id actor

abbrev pub deactivated : Supplier → Supplier
deactivated s = record s { is_active = false }

-- `deactivateSupplier`
unfoldable pub deactivate_supplier : ℕ → ℕ → Action Purchasing Supplier
deactivate_supplier id actor = change_supplier deactivated supplier_deactivated id actor
