-- ===== src/Procurement/Receipt.antt =====
-- `receiveGoods` of backend/src/procurement/procurement.service.ts: a receipt of ordered goods is
-- checked against its order, and the accepted quantities enter the stock. `receipt_hash` is the
-- SHA-256 hash of the request, and quantities are in units of 0.000001.

use pasalho.Prelude.{
  ℕ, ◌+◌, Bool, Option, none, some, List, [], ◌∷◌, ◌++◌, map, if◌then◌else◌, ◌==◌, ◌&&◌, any,
  find_row, update_row,
}
use pasalho.Prelude.Int.{ℤ, pos, ◌+ℤ◌, ◌-ℤ◌, ◌*ℤ◌, ltb_ℤ, round_div}
use pasalho.Prelude.Result.{
  Result, ok, err, app_error, validation_error, p2002, Tx, ◌>>=◌, pure, lift,
}
use pasalho.Audit
use pasalho.Audit.{goods_receipt_posted}
use pasalho.Inventory.Data.{
  StockState, EventType, MovementType, EventKey, BatchStatus, Batch, MovementInput, PostEventInput,
}
use pasalho.Inventory.Count.{find_first}
use pasalho.Procurement.Data.{
  PurchaseItem, PurchaseOrder, ReceiptItem, GoodsReceipt, BatchNumber, Purchasing, item_id,
}

pub record ItemDto : Type 0 where
  pub purchase_item : ℕ
  pub received_quantity : ℤ
  pub accepted_quantity : ℤ
  pub batch_number : Option ℕ
  pub expiry_date : Option ℕ

-- An element of `receiptItems`.
pub record ReceiptLine : Type 0 where
  pub item : PurchaseItem
  pub dto : ItemDto
  pub batch : Option ℕ
  pub base_accepted : ℤ

abbrev pub find_item : ℕ → List PurchaseItem → Option PurchaseItem
find_item = find_row item_id

-- The checks of a receipt item against the order, in their order.
unfoldable pub check_item : List ℕ → List PurchaseItem → ItemDto → Result PurchaseItem
check_item seen items dto =
    if any (λ id. id == dto.purchase_item) seen
    then err (app_error validation_error 422)
    else elim (find_item dto.purchase_item items) [
      | none ↦ err (app_error validation_error 422)
      | some i ↦
          if ltb_ℤ dto.received_quantity dto.accepted_quantity
          then err (app_error validation_error 422)
          else if ltb_ℤ (i.ordered_quantity -ℤ i.received_quantity) dto.accepted_quantity
          then err (app_error validation_error 422)
          else ok i
    ]

abbrev pub is_number : ℕ → ℕ → BatchNumber → Bool
is_number product number b = (b.product == product) && (b.number == number)

-- `item.expiryDate ? new Date(item.expiryDate) : undefined`, which leaves the column as it is.
abbrev pub with_expiry : Option ℕ → Batch → Batch
with_expiry none b = b
with_expiry (some d) b = record b { expiry_date = some d }

abbrev pub batch_row : ℕ → Option ℕ → ℕ → ℕ → Batch
batch_row product expiry now id = record {
  id = id;
  product = product;
  status = BatchStatus.active;
  expiry_date = expiry;
  created_at = now;
}

abbrev pub with_batch : ℕ → ℕ → Option ℕ → Purchasing → Purchasing
with_batch product number expiry db = record db {
  stock = record db.stock {
    batches = db.stock.batches ++ batch_row product expiry db.now db.stock.next_id ∷ [];
    next_id = db.stock.next_id + 1;
  };
  batch_numbers =
      db.batch_numbers
      ++ record { batch = db.stock.next_id; product = product; number = number } ∷ [];
}

-- `batch.upsert`
unfoldable pub upsert_batch : ℕ → ℕ → Option ℕ → Tx Purchasing ℕ
unfolding find_first
upsert_batch product number expiry db =
    elim (find_first (is_number product number) db.batch_numbers) [
      | some b ↦ ok (
        b.batch,
        record db {
          stock = record db.stock {
            batches =
                update_row (λ (b : Batch). b.id) b.batch (with_expiry expiry) db.stock.batches;
          };
        },
      )
      | none ↦ ok (db.stock.next_id, with_batch product number expiry db)
    ]

-- The batch of an accepted item of a product that is tracked by batches.
unfoldable pub batch_for : PurchaseItem → ItemDto → Tx Purchasing (Option ℕ)
batch_for i dto db =
    if i.product_unit.is_batch_tracked && ltb_ℤ (pos 0) dto.accepted_quantity
    then elim dto.batch_number [
      | none ↦ err (app_error validation_error 422)
      | some number ↦
          (do batch ← upsert_batch i.product_unit.product number dto.expiry_date; pure (some batch))
            db
    ]
    else ok (none, db)

abbrev pub line_of : PurchaseItem → ItemDto → Option ℕ → ReceiptLine
line_of i dto batch = record {
  item = i;
  dto = dto;
  batch = batch;
  base_accepted =
      round_div (dto.accepted_quantity *ℤ i.product_unit.conversion_to_base) (pos 1000000);
}

-- The loop over the items of the receipt, after those that have been seen.
unfoldable pub check_items :
    List PurchaseItem → List ℕ → List ItemDto → Tx Purchasing (List ReceiptLine)
check_items items seen [] = pure []
check_items items seen (dto ∷ dtos) = do
  i ← lift (λ (db : Purchasing). check_item seen items dto)
  batch ← batch_for i dto
  lines ← check_items items (dto.purchase_item ∷ seen) dtos
  pure (line_of i dto batch ∷ lines)

abbrev pub receipt_item : ReceiptLine → ReceiptItem
receipt_item l = record {
  purchase_item = l.item.id;
  batch = l.batch;
  received_quantity = l.dto.received_quantity;
  accepted_quantity = l.dto.accepted_quantity;
  rejected_quantity = l.dto.received_quantity -ℤ l.dto.accepted_quantity;
}

abbrev pub receipt_row : PurchaseOrder → List ReceiptLine → ℕ → ℕ → ℕ → ℕ → GoodsReceipt
receipt_row o lines key hash actor id = record {
  id = id;
  purchase_order = o.id;
  received_by = actor;
  idempotency_key = key;
  request_hash = hash;
  items = map receipt_item lines;
}

abbrev pub with_receipt : GoodsReceipt → Purchasing → Purchasing
with_receipt g db = record db {
  receipts = db.receipts ++ g ∷ [];
  stock = record db.stock { next_id = db.stock.next_id + 1 };
}

abbrev pub is_key_taken : ℕ → List GoodsReceipt → Bool
is_key_taken key = any (λ (g : GoodsReceipt). g.idempotency_key == key)

-- `goodsReceipt.create`, whose keys are unique.
unfoldable pub create_receipt : PurchaseOrder → List ReceiptLine → ℕ → ℕ → ℕ → Tx Purchasing ℕ
create_receipt o lines key hash actor db =
    if is_key_taken key db.receipts
    then err p2002
    else ok
        (db.stock.next_id, with_receipt (receipt_row o lines key hash actor db.stock.next_id) db)

abbrev pub received_more : ℤ → PurchaseItem → PurchaseItem
received_more d i = record i { received_quantity = i.received_quantity +ℤ d }

-- `receivedQuantity: { increment: ... }` for each line.
unfoldable pub add_received : List ReceiptLine → List PurchaseItem → List PurchaseItem
add_received [] items = items
add_received (l ∷ lines) items =
    add_received lines (update_row item_id l.item.id (received_more l.dto.accepted_quantity) items)

abbrev pub movement_of : ℕ → ReceiptLine → MovementInput
movement_of location l = record {
  key = record {
    location = location;
    product = l.item.product_unit.product;
    batch = l.batch;
    state = StockState.available;
    unit = l.item.product_unit.unit;
  };
  quantity_delta = l.dto.accepted_quantity;
  base_quantity_delta = l.base_accepted;
  movement_type = MovementType.procurement_receipt;
  reason_code = some "GOODS_RECEIPT";
}

-- The movements of the lines of which something was accepted.
unfoldable pub receipt_movements : ℕ → List ReceiptLine → List MovementInput
receipt_movements location [] = []
receipt_movements location (l ∷ lines) =
    if ltb_ℤ (pos 0) l.dto.accepted_quantity
    then movement_of location l ∷ receipt_movements location lines
    else receipt_movements location lines

abbrev pub receipt_event : PurchaseOrder → ℕ → ℕ → ℕ → List MovementInput → PostEventInput
receipt_event o branch receipt actor movements = record {
  event_type = EventType.procurement_receipt;
  branch = branch;
  reference_type = Audit.goods_receipt;
  reference_id = receipt;
  created_by = actor;
  approved_by = none;
  idempotency_key = some (EventKey.goods_receipt_post receipt);
  movements = movements;
}
