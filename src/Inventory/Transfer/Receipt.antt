-- ===== src/Inventory/Transfer/Receipt.antt =====
-- `acknowledgeStoreReceipt` of backend/src/inventory/services/stock-transfer.service.ts: what the
-- store has received must be what was sent.
pub mod Exact
use pasalho.Prelude.{
  ℕ, Bool, true, false, Option, none, some, List, [], ◌∷◌, ◌==◌, ◌&&◌, not, if◌then◌else◌, is_some,
  length,
}
use pasalho.Prelude.Int.{ℤ, ◌+ℤ◌, leb_ℤ}
use pasalho.Prelude.Result.{
  Result, ok, err, app_error, validation_error, conflict, Tx, ◌>>=◌, ◌>>◌, pure, throw_if, lift,
}
use pasalho.Inventory.Data.{EventKey, PostEventInput}
use pasalho.Inventory.Ledger.{post_event}
use pasalho.Inventory.Transfer.{
  TransferStatus, in_transit, shipped, received, TransferItem, Transfer, Depot, in_stock,
  locked_transfer, update_transfer, begin_idempotency, complete_idempotency, with_receipts,
  transfer_event, receipt_movements,
}

pub record ReceiptItem : Type 0 where
  pub product : ℕ
  pub quantity : ℤ

-- `AcknowledgeStoreReceiptDto`
pub record ReceiptInput : Type 0 where
  pub destination_branch_code : ℕ
  pub items : List ReceiptItem

-- A `Map` from products to quantities, in the order of insertion.
abbrev pub Quantities : Type 0
Quantities = List (ℕ × ℤ)

unfoldable pub quantity_of : ℕ → Quantities → Option ℤ
quantity_of p [] = none
quantity_of p ((q, n) ∷ m) = if q == p then some n else quantity_of p m

-- `expected.set(p, (expected.get(p) ?? 0) + n)`
unfoldable pub add_quantity : ℕ → ℤ → Quantities → Quantities
add_quantity p n [] = (p, n) ∷ []
add_quantity p n ((q, k) ∷ m) = if q == p then (q, k +ℤ n) ∷ m else (q, k) ∷ add_quantity p n m

unfoldable pub expected_from : Quantities → List TransferItem → Quantities
expected_from m [] = m
expected_from m (item ∷ items) = expected_from (add_quantity item.product item.quantity m) items

-- The loop over the receipt, which may name a product once.
unfoldable pub received_from : Quantities → List ReceiptItem → Result Quantities
received_from m [] = ok m
received_from m (item ∷ items) =
    let rest = received_from (add_quantity item.product item.quantity m) items in
    if is_some (quantity_of item.product m) then err (app_error validation_error 422) else rest

abbrev pub same_quantity : Option ℤ → ℤ → Bool
same_quantity none n = false
same_quantity (some k) n = leb_ℤ k n && leb_ℤ n k

-- `[...expected.entries()].every(...)`
unfoldable pub all_received : Quantities → Quantities → Bool
all_received got [] = true
all_received got ((p, n) ∷ m) = same_quantity (quantity_of p got) n && all_received got m

abbrev pub is_exact : Quantities → Quantities → Bool
is_exact got wanted = (length got == length wanted) && all_received got wanted

unfoldable pub check_receipt : Transfer → ReceiptInput → Result (Unit {0})
check_receipt t input = elim (received_from [] input.items) [
  | err e ↦ err e
  | ok got ↦ if is_exact got (expected_from [] t.items) then ok tt else err (app_error conflict 409)
]

abbrev pub receipt_event : Transfer → PostEventInput
receipt_event t =
    let actor : ℕ = elim t.dispatched_by [ some d ↦ d | none ↦ t.created_by ] in
    transfer_event t t.from_branch actor (EventKey.transfer_receive_origin t.id)
      (receipt_movements t t.items)

abbrev pub received_item : TransferItem → TransferItem
received_item item = record item {
  received_quantity = some item.quantity;
  received_base_quantity = some item.base_quantity;
}

unfoldable pub received_items : List TransferItem → List TransferItem
received_items [] = []
received_items (item ∷ items) = received_item item ∷ received_items items

abbrev pub received_row : Transfer → Transfer
received_row t = record t { status = received; items = received_items t.items }

unfoldable pub receive : Transfer → ℕ → ℕ → Tx Depot Transfer
receive t key hash = do
  λ (db : Depot). with_receipts db (begin_idempotency key hash db.receipts)
  in_stock (post_event (receipt_event t))
  update_transfer t.id received_row
  λ (db : Depot). with_receipts db (complete_idempotency key t.id db.receipts)
  pure (received_row t)

abbrev pub is_on_the_way : TransferStatus → Bool
is_on_the_way received = true
is_on_the_way in_transit = true
is_on_the_way shipped = true
is_on_the_way _ = false

abbrev pub is_received : TransferStatus → Bool
is_received received = true
is_received _ = false

unfoldable pub acknowledge_found : Transfer → ReceiptInput → ℕ → ℕ → Tx Depot Transfer
acknowledge_found t input key hash = do
  throw_if (not (is_on_the_way t.status)) (app_error validation_error 422)
  throw_if (not (t.to_branch_code == input.destination_branch_code))
      (app_error validation_error 422)
  lift (λ (db : Depot). check_receipt t input)
  if is_received t.status then pure t else receive t key hash

-- `acknowledgeStoreReceipt` inside its transaction, once there is an idempotency key.
unfoldable pub acknowledge : (ℕ → ReceiptInput → ℕ) → ℕ → ReceiptInput → ℕ → Tx Depot Transfer
acknowledge receipt_hash id input key = do
  t ← lift (locked_transfer id)
  acknowledge_found t input key (receipt_hash id input)
