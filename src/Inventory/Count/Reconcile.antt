-- ===== src/Inventory/Count/Reconcile.antt =====
-- `reconcile` of backend/src/inventory/services/inventory-reconciliation.service.ts: the adjustment
-- that makes the stock agree with a count. `now` stands for the time that numbers the adjustment.
use pasalho.Prelude.{ℕ, Bool, some, List, [], ◌∷◌, map, if◌then◌else◌, ◌&&◌, not}
use pasalho.Prelude.Int.{ℤ, pos, ltb_ℤ, leb_ℤ}
use pasalho.Prelude.Result.{ok, err, app_error, validation_error, Action}
use pasalho.Audit.{stock_adjustment_posted, warehouse}
use pasalho.Inventory.Data.{available}
use pasalho.Inventory.Stockroom.{
  CountStatus, CountItem, StockCount, Adjustment, Stockroom, audited, and_then,
}
use pasalho.Inventory.Adjustment.{ItemDto, AdjustmentDto, create, submit, approve, post}
use pasalho.Inventory.Consumption.{filter}
use pasalho.Inventory.Count.{is_submitted, with_found_count, set_count_status}

abbrev pub is_zero : ℤ → Bool
is_zero v = leb_ℤ v (pos 0) && leb_ℤ (pos 0) v

unfoldable pub variance_items : StockCount → List CountItem
unfolding filter
variance_items c = filter (λ (i : CountItem). not (is_zero i.variance)) c.items

abbrev pub item_dto : CountItem → ItemDto
item_dto i = record {
  product = i.product;
  batch = i.batch;
  unit = i.unit;
  stock_state = some available;
  quantity_delta = i.variance;
  base_quantity_delta = i.variance;
  reason_code =
      some (if ltb_ℤ (pos 0) i.variance then "STOCK_COUNT_SURPLUS" else "STOCK_COUNT_SHORTAGE");
}

abbrev pub variance_dto : StockCount → List CountItem → AdjustmentDto
variance_dto c items = record {
  branch = c.branch;
  warehouse = c.warehouse;
  location = c.location;
  items = map item_dto items;
}

-- The four calls of the adjustment service, each of which may throw after the others have committed.
unfoldable pub adjust : ℕ → StockCount → List CountItem → ℕ → Action Stockroom Adjustment
adjust now c items actor db = and_then (create now (variance_dto c items) actor db) λ a db1.
    and_then (submit a.id actor db1)
      λ _ db2. and_then (approve a.id actor db2) λ _ db3. post a.id actor db3

abbrev pub reconciled : StockCount → ℕ → Action Stockroom StockCount
reconciled c actor db =
    and_then (set_count_status CountStatus.reconciled c db)
      λ r t. (ok r, audited actor stock_adjustment_posted warehouse c.location c.branch t)

-- The branches of `reconcile` on the items that differ.
unfoldable pub reconcile_items : ℕ → ℕ → StockCount → List CountItem → Action Stockroom StockCount
reconcile_items now actor c [] db = set_count_status CountStatus.reconciled c db
reconcile_items now actor c (i ∷ is) db =
    and_then (adjust now c (i ∷ is) actor db) (λ a. reconciled c actor)

unfoldable pub reconcile_found : ℕ → ℕ → StockCount → Action Stockroom StockCount
reconcile_found now actor c db =
    if is_submitted c.status
    then reconcile_items now actor c (variance_items c) db
    else (err (app_error validation_error 422), db)

-- `reconcile`
unfoldable pub reconcile : ℕ → ℕ → ℕ → Action Stockroom StockCount
reconcile now id actor = with_found_count id (reconcile_found now actor)
