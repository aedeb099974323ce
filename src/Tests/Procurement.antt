-- ===== src/Tests/Procurement.antt =====
-- A purchase order of ten units, of which six have arrived and four more arrive.
use pasalho.Prelude.{ℕ, arith, ◌≡◌, refl, ◌+◌, true, some, List, [], ◌∷◌, map, find_row, update_row}
use pasalho.Prelude.Int.{ℤ, pos, ◌+ℤ◌, ◌-ℤ◌, -ℤ◌, ◌*ℤ◌, round_div, sum_by}
use pasalho.Prelude.Result.{for_each, lift, transaction}
use pasalho.Inventory.Data.{same_event_key, same_key, same_unit_free_key}
use pasalho.Inventory.Snapshots.{find_snapshot, update_snapshot, create_snapshot, collides}
use pasalho.Inventory.Ledger.{
  post_event, post_new_event, create_event, create_movement, apply_movement, apply_snapshot,
  existing_event, find_event, has_key,
}
use pasalho.Inventory.Count.{find_first}
use pasalho.Procurement.Data.{
  PurchaseStatus, Warehouse, PurchaseItem, PurchaseOrder, Purchasing, in_stock,
}
use pasalho.Procurement.Orders.{with_locked}
use pasalho.Procurement.Receipt.{
  ItemDto, check_item, check_items, batch_for, upsert_batch, create_receipt, add_received,
  receipt_movements,
}
use pasalho.Procurement.Receive.{
  status_for, check_location, begin_request, complete_request, write_receipt, receive_new,
  receive_locked, receive_goods,
}
use pasalho.Procurement.Create.{
  PurchaseDto, check_supplier, check_warehouse, check_lines, item_rows, new_order,
  create_purchase_order,
}
use pasalho.Procurement.History.{Reach, reachable-AreWithin, step_create, step_receive}
use pasalho.Inventory.Consumption.{filter}
use pasalho.Procurement.Receive.Limits.{AreWithin}

abbrev rice : PurchaseItem
rice = record {
  id = 31;
  product_unit = record {
    id = 5;
    product = 2;
    unit = 4;
    conversion_to_base = pos 2000000;
    is_product_active = true;
    is_batch_tracked = true;
  };
  ordered_quantity = pos 10000000;
  received_quantity = pos 6000000;
  unit_cost = pos 250000;
  line_total = pos 2500000;
}

abbrev depot : Warehouse
depot = record {
  id = 6;
  branch = 7;
  is_active = true;
  location = some (record { location = 1; is_active = true; is_warehouse = true });
}

abbrev order : PurchaseOrder
order = record {
  id = 30;
  supplier = 3;
  warehouse = depot;
  branch = 7;
  subtotal = pos 0;
  status = PurchaseStatus.partially_received;
  created_by = 9;
  items = rice ∷ [];
}

abbrev shop : Purchasing
shop = record {
  stock = record {
    snapshots = [];
    movements = [];
    events = [];
    batches = [];
    reservations = [];
    audit = [];
    next_id = 100;
  };
  suppliers = record { id = 3; supplier_code = 1; name = "Himal Traders"; is_active = true } ∷ [];
  warehouses = depot ∷ [];
  product_units = rice.product_unit ∷ [];
  orders = order ∷ [];
  receipts = [];
  batch_numbers = [];
  requests = [];
  now = 50;
}

abbrev delivered : ItemDto
delivered = record {
  purchase_item = 31;
  received_quantity = pos 5000000;
  accepted_quantity = pos 4000000;
  batch_number = some 12;
  expiry_date = some 400;
}

abbrev receipt_hash : ℕ → List ItemDto → ℕ
receipt_hash id [] = id
receipt_hash id (dto ∷ dtos) = id + dto.purchase_item

abbrev subtotals : Purchasing → List ℤ
subtotals db = map (λ (o : PurchaseOrder). o.subtotal) db.orders

abbrev statuses : Purchasing → List PurchaseStatus
statuses db = map (λ (o : PurchaseOrder). o.status) db.orders

-- The four units complete the order.
received_in_full :
    statuses (receive_goods receipt_hash 30 (delivered ∷ []) (some 77) 9 shop).1
    ≡ PurchaseStatus.received ∷ []
unfolding receive_goods transaction with_locked receive_locked receive_new begin_request
    complete_request lift check_location check_items check_item batch_for upsert_batch find_first
    create_receipt add_received receipt_movements write_receipt status_for in_stock find_row
    update_row post_event post_new_event create_event create_movement apply_movement apply_snapshot
    for_each find_snapshot update_snapshot create_snapshot collides same_key same_unit_free_key
    existing_event find_event has_key same_event_key ◌+ℤ◌ ◌-ℤ◌ ◌*ℤ◌ -ℤ◌ round_div
received_in_full = refl

shop-AreWithin : AreWithin shop
shop-AreWithin = ((omega arith, tt), tt)

-- A second order is made, and goods arrive for the first.
abbrev wanted : PurchaseDto
wanted = record {
  supplier = 3;
  warehouse = 6;
  items =
      record {
        product = 2;
        product_unit = 5;
        ordered_quantity = pos 3000000;
        unit_cost = pos 250000;
      }
      ∷ [];
}

abbrev ordered : Purchasing
ordered = (create_purchase_order wanted 9 shop).1

-- Three units at 25 each.
wanted-subtotal : subtotals ordered ≡ pos 0 ∷ pos 750000 ∷ []
unfolding create_purchase_order new_order check_supplier check_warehouse check_lines item_rows
    find_first filter find_row sum_by ◌+ℤ◌ ◌*ℤ◌ round_div
wanted-subtotal = refl

reachable-AreWithin_example :
    AreWithin (receive_goods receipt_hash 30 (delivered ∷ []) (some 77) 9 ordered).1
reachable-AreWithin_example = reachable-AreWithin shop-AreWithin (
    Reach.next (Reach.next Reach.here (step_create wanted 9 shop (omega arith, tt)))
      (step_receive 30 (delivered ∷ []) (some 77) 9 ordered))
