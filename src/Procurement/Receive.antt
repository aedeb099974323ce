-- ===== src/Procurement/Receive.antt =====
-- `receiveGoods` of backend/src/procurement/procurement.service.ts as a whole: the request is done
-- once, and the receipt, the quantities of the order, the stock and the status of the order are
-- written in one transaction.
pub mod Bounds
pub mod Limits
use pasalho.Prelude.{
  ℕ, Bool, true, false, Option, none, some, List, [], ◌∷◌, ◌++◌, if◌then◌else◌, ◌==◌, ◌||◌, not,
  all, any, is_some, find_row, update_row,
}
use pasalho.Prelude.Int.{pos, ltb_ℤ, leb_ℤ}
use pasalho.Prelude.Result.{
  Result, ok, err, app_error, validation_error, conflict, p2002, p2025, Tx, ◌>>=◌, ◌>>◌, pure,
  modify, lift, transaction, Action,
}
use pasalho.Audit
use pasalho.Audit.{goods_receipt_posted}
use pasalho.Inventory.Ledger.{post_event}
use pasalho.Procurement.Data.{
  PurchaseStatus, Store, PurchaseItem, PurchaseOrder, GoodsReceipt, ReceiptRequest, Purchasing,
  in_stock, audited,
}
use pasalho.Procurement.Orders.{set_order, with_locked}
use pasalho.Procurement.Receipt.{
  ItemDto, ReceiptLine, check_items, create_receipt, add_received, receipt_movements, receipt_event,
}

-- `receiptRequired.every(... gte ...)` and `some(... gt 0)` on the items as they are now.
abbrev pub all_received : List PurchaseItem → Bool
all_received = all (λ (i : PurchaseItem). leb_ℤ i.ordered_quantity i.received_quantity)

abbrev pub some_received : List PurchaseItem → Bool
some_received = any (λ (i : PurchaseItem). ltb_ℤ (pos 0) i.received_quantity)

unfoldable pub status_for : List PurchaseItem → PurchaseStatus
status_for items =
    if all_received items
    then PurchaseStatus.received
    else if some_received items
    then PurchaseStatus.partially_received
    else PurchaseStatus.confirmed

abbrev pub is_receivable : PurchaseStatus → Bool
is_receivable PurchaseStatus.confirmed = true
is_receivable PurchaseStatus.partially_received = true
is_receivable _ = false

-- The location of the warehouse, which must be active and of the type WAREHOUSE.
unfoldable pub check_location : Option Store → Result ℕ
check_location none = err (app_error validation_error 422)
check_location (some s) =
    if s.is_active
    then if s.is_warehouse then ok s.location else err (app_error validation_error 422)
    else err (app_error validation_error 422)

abbrev pub with_items : List PurchaseItem → PurchaseOrder → PurchaseOrder
with_items items o = record o { items = items }

abbrev pub with_status_for_items : PurchaseOrder → PurchaseOrder
with_status_for_items o = record o { status = status_for o.items }

abbrev pub request_key : ReceiptRequest → ℕ
request_key r = r.key

abbrev pub find_request : ℕ → List ReceiptRequest → Option ReceiptRequest
find_request = find_row request_key

unfoldable pub begin_request : ℕ → ℕ → Tx Purchasing Unit
begin_request key hash db =
    if is_some (find_request key db.requests)
    then err p2002
    else ok (
      tt,
      record db {
        requests =
            db.requests
            ++ record { key = key; request_hash = hash; is_completed = false; resource_id = none }
              ∷ [];
      },
    )

unfoldable pub complete_request : ℕ → ℕ → Tx Purchasing Unit
complete_request key id db = elim (find_request key db.requests) [
  | none ↦ err p2025
  | some r ↦ ok (
    tt,
    record db {
      requests =
          update_row request_key key
            (λ (r : ReceiptRequest). record r { is_completed = true; resource_id = some id })
            db.requests;
    },
  )
]

-- What the transaction writes once the items are checked.
unfoldable pub write_receipt : PurchaseOrder → List ReceiptLine → ℕ → ℕ → ℕ → ℕ → Tx Purchasing ℕ
write_receipt o lines location key hash actor = do
  receipt ← create_receipt o lines key hash actor
  modify (set_order o.id (with_items (add_received lines o.items)))
  in_stock (post_event (receipt_event o o.branch receipt actor (receipt_movements location lines)))
  modify (set_order o.id with_status_for_items)
  complete_request key receipt
  modify (audited actor goods_receipt_posted Audit.goods_receipt receipt (some o.branch))
  pure receipt

unfoldable pub receive_new : List ItemDto → ℕ → ℕ → ℕ → PurchaseOrder → Tx Purchasing ℕ
receive_new dtos key hash actor o = do
  begin_request key hash
  lift (λ (db : Purchasing).
      if is_receivable o.status then ok tt else err (app_error validation_error 422))
  location ← lift (λ (db : Purchasing). check_location o.warehouse.location)
  lines ← check_items o.items [] dtos
  write_receipt o lines location key hash actor

-- The receipt of a request that is on record.
unfoldable pub known_receipt : ℕ → ReceiptRequest → List GoodsReceipt → Result ℕ
known_receipt hash r receipts =
    if not (r.request_hash == hash)
    then err (app_error conflict 409)
    else if not r.is_completed
    then err (app_error conflict 409)
    else elim r.resource_id [
      | none ↦ err (app_error conflict 409)
      | some id ↦ elim (find_row (λ (g : GoodsReceipt). g.id) id receipts) [
        | none ↦ err (app_error conflict 409)
        | some g ↦ ok g.id
      ]
    ]

unfoldable pub receive_locked : List ItemDto → ℕ → ℕ → ℕ → PurchaseOrder → Tx Purchasing ℕ
receive_locked dtos key hash actor o db = elim (find_request key db.requests) [
  | some r ↦ elim (known_receipt hash r db.receipts) [ ok id ↦ ok (id, db) | err e ↦ err e ]
  | none ↦ receive_new dtos key hash actor o db
]

-- `receiveGoods`, up to the read of the receipt that it returns.
unfoldable pub receive_goods :
    (ℕ → List ItemDto → ℕ) → ℕ → List ItemDto → Option ℕ → ℕ → Action Purchasing ℕ
receive_goods receipt_hash id dtos none actor db = (err (app_error validation_error 422), db)
receive_goods receipt_hash id [] (some key) actor db = (err (app_error validation_error 422), db)
receive_goods receipt_hash id (dto ∷ dtos) (some key) actor db =
    transaction
      (with_locked id (receive_locked (dto ∷ dtos) key (receipt_hash id (dto ∷ dtos)) actor)) db
