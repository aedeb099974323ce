-- ===== src/Inventory/Count/Variance.antt =====
-- A reconciled count has moved its variances.
use pasalho.Prelude.{ℕ, ◌≡◌, List}
use pasalho.Prelude.Int.{ℤ, ◌+ℤ◌, sum_by}
use pasalho.Inventory.Data.{StockKey, available}
use pasalho.Inventory.Snapshots.{on_hand, at_key}
use pasalho.Inventory.Stockroom.{CountStatus, Adjustment, CountItem, StockCount, Stockroom}
use pasalho.Inventory.Count.{is_submitted as may_reconcile}
use pasalho.Inventory.Count.Reconcile.{reconciled}

-- The place of a counted item.
abbrev pub counted_key : ℕ → CountItem → StockKey
counted_key location i = record {
  location = location;
  product = i.product;
  batch = i.batch;
  state = available;
  unit = i.unit;
}

-- What a count found to be left over at a place, or missing from it.
abbrev pub counted_variance : ℕ → StockKey → List CountItem → ℤ
counted_variance location k =
    sum_by (λ (i : CountItem). at_key (counted_key location i) k i.variance)

-- A reconciliation of a count, as a change of the stock.
abbrev IsReconciled : StockKey → Stockroom → StockCount → Stockroom → Type 0
IsReconciled k db r t =
    (r.status ≡ CountStatus.reconciled)
    × (on_hand k t.stock.snapshots
        ≡ on_hand k db.stock.snapshots +ℤ counted_variance r.location k r.items)
