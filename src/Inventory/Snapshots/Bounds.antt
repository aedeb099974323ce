-- ===== src/Inventory/Snapshots/Bounds.antt =====
-- No row holds a negative base quantity.
use pasalho.Prelude.{
  ℕ, ◌≡◌, Option, some, List, [], ◌∷◌, arith, Bool-cases, inl, inr, All, All-append,
}
use pasalho.Prelude.Int.{ℤ, pos, ◌≤ℤ◌}
use pasalho.Prelude.Result.{ok}
use pasalho.Inventory.Data.{StockKey, Snapshot, same_key}
use pasalho.Inventory.Snapshots.{
  find_snapshot, update_snapshot, delete_snapshot, create_snapshot, new_row,
}
use pasalho.Inventory.Snapshots.Reads.{create_snapshot-ok}

abbrev pub NonNegative : List Snapshot → Type 0
NonNegative = All (λ r. pos 0 ≤ℤ r.base_quantity)

pub find_snapshot-NonNegative :
    (k : StockKey) (rows : List Snapshot) {r : Snapshot}
    → NonNegative rows
    → find_snapshot k rows ≡ some r
    → pos 0 ≤ℤ r.base_quantity
unfolding find_snapshot
find_snapshot-NonNegative k [] n h = cc
find_snapshot-NonNegative k (s ∷ rows) {r} n h =
    ground (arith, find_snapshot-NonNegative k rows {r = r} n.1)

pub update_snapshot-NonNegative :
    (k : StockKey) (q b : ℤ) (m : Option ℕ) (rows : List Snapshot)
    → pos 0 ≤ℤ b
    → NonNegative rows
    → NonNegative (update_snapshot k q b m rows)
unfolding update_snapshot
update_snapshot-NonNegative k q b m [] p n = tt
update_snapshot-NonNegative k q b m (s ∷ rows) p n = elim (Bool-cases (same_key k s.key)) [
  | inl hit ↦ rw hit (p, n.1)
  | inr miss ↦ rw miss (n.0, update_snapshot-NonNegative k q b m rows p n.1)
]

pub delete_snapshot-NonNegative :
    (k : StockKey) (rows : List Snapshot) → NonNegative rows → NonNegative (delete_snapshot k rows)
unfolding delete_snapshot
delete_snapshot-NonNegative k [] n = tt
delete_snapshot-NonNegative k (s ∷ rows) n = elim (Bool-cases (same_key k s.key)) [
  | inl hit ↦ rw hit n.1
  | inr miss ↦ rw miss (n.0, delete_snapshot-NonNegative k rows n.1)
]

pub create_snapshot-NonNegative :
    (k : StockKey) (q b : ℤ) (m : Option ℕ) (rows : List Snapshot) {rows' : List Snapshot}
    → pos 0 ≤ℤ b
    → NonNegative rows
    → create_snapshot k q b m rows ≡ ok rows'
    → NonNegative rows'
create_snapshot-NonNegative k q b m rows p n h =
    rw (create_snapshot-ok k q b m rows h).1
      (All-append (λ r. pos 0 ≤ℤ r.base_quantity) rows (new_row k q b m ∷ []) n (p, tt))
