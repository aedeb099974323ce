-- ===== src/Procurement/Orders.antt =====
-- `confirmPurchaseOrder` and `cancelPurchaseOrder` of
-- backend/src/procurement/procurement.service.ts.
use pasalho.Prelude.{
  ℕ, Bool, true, false, none, some, List, if◌then◌else◌, ◌==◌, ◌||◌, not, any, update_row,
}
use pasalho.Prelude.Result.{
  ok, err, app_error, not_found, validation_error, Tx, Action, transaction,
}
use pasalho.Audit.{purchase_order, purchase_order_confirmed, purchase_order_cancelled}
use pasalho.Procurement.Data.{
  PurchaseStatus, PurchaseOrder, GoodsReceipt, Purchasing, order_id, find_order, audited,
}

abbrev pub set_status : PurchaseStatus → PurchaseOrder → PurchaseOrder
set_status s o = record o { status = s }

-- `purchaseOrder.update`, of the row that has been locked.
abbrev pub set_order : ℕ → (PurchaseOrder → PurchaseOrder) → Purchasing → Purchasing
set_order id f db = record db { orders = update_row order_id id f db.orders }

abbrev pub is_draft : PurchaseStatus → Bool
is_draft PurchaseStatus.draft = true
is_draft _ = false

abbrev pub is_confirmed : PurchaseStatus → Bool
is_confirmed PurchaseStatus.confirmed = true
is_confirmed _ = false

-- The lock on the row and the read that follows it.
unfoldable pub with_locked : {A : Type 0} → ℕ → (PurchaseOrder → Tx Purchasing A) → Tx Purchasing A
with_locked id k db = elim (find_order id db.orders) [
  | none ↦ err (app_error not_found 404)
  | some o ↦ k o db
]

unfoldable pub confirm_locked : ℕ → PurchaseOrder → Tx Purchasing PurchaseOrder
confirm_locked actor o db =
    if is_draft o.status
    then ok (
      set_status PurchaseStatus.confirmed o,
      audited actor purchase_order_confirmed purchase_order o.id (some o.branch)
          (set_order o.id (set_status PurchaseStatus.confirmed) db),
    )
    else err (app_error validation_error 422)

-- `confirmPurchaseOrder`
unfoldable pub confirm_purchase_order : ℕ → ℕ → Action Purchasing PurchaseOrder
confirm_purchase_order id actor = transaction (with_locked id (confirm_locked actor))

-- Whether goods have been received for the order.
abbrev pub has_receipts : ℕ → List GoodsReceipt → Bool
has_receipts id = any (λ (r : GoodsReceipt). r.purchase_order == id)

unfoldable pub cancel_locked : ℕ → PurchaseOrder → Tx Purchasing PurchaseOrder
cancel_locked actor o db =
    if not (is_draft o.status || is_confirmed o.status) || has_receipts o.id db.receipts
    then err (app_error validation_error 422)
    else ok (
      set_status PurchaseStatus.cancelled o,
      audited actor purchase_order_cancelled purchase_order o.id (some o.branch)
          (set_order o.id (set_status PurchaseStatus.cancelled) db),
    )

-- `cancelPurchaseOrder`
unfoldable pub cancel_purchase_order : ℕ → ℕ → Action Purchasing PurchaseOrder
cancel_purchase_order id actor = transaction (with_locked id (cancel_locked actor))
