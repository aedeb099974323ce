-- ===== src/Inventory/Snapshots/Reads.antt =====
-- What a query finds after a write to the snapshot table.
use pasalho.Prelude.{
  ℕ, ◌≡◌, true, false, Option, none, some, List, [], ◌∷◌, ◌++◌, arith, Bool-cases, inl, inr, refl,
  if◌then◌else◌,
}
use pasalho.Prelude.Int.{ℤ}
use pasalho.Prelude.Result.{ok}
use pasalho.Inventory.Data.{StockKey, Snapshot, same_key, same_key_iff}
use pasalho.Inventory.Snapshots.{
  find_snapshot, delete_snapshot, update_snapshot, create_snapshot, new_row, written, collides,
}

-- The row that a query finds at the head.
pub found_head :
    (k : StockKey) (s : Snapshot) (rows : List Snapshot) {r : Snapshot}
    → same_key k s.key ≡ true
    → find_snapshot k (s ∷ rows) ≡ some r
    → (k ≡ s.key) × (s ≡ r)
unfolding find_snapshot
found_head k s rows hit h = ((same_key_iff k s.key).0 hit, ground arith)

-- A row is created only if its key is free, and it goes behind the others.
pub create_snapshot-ok :
    (k : StockKey) (q b : ℤ) (m : Option ℕ) (rows : List Snapshot) {rows' : List Snapshot}
    → create_snapshot k q b m rows ≡ ok rows'
    → (collides k rows ≡ false) × (rows' ≡ rows ++ new_row k q b m ∷ [])
unfolding create_snapshot
create_snapshot-ok k q b m rows h = ground arith

pub find_snapshot-update_self :
    (k : StockKey) (q b : ℤ) (m : Option ℕ) (rows : List Snapshot) {r : Snapshot}
    → find_snapshot k rows ≡ some r
    → find_snapshot k (update_snapshot k q b m rows) ≡ some (written q b m r)
unfolding find_snapshot update_snapshot
find_snapshot-update_self k q b m [] h = cc
find_snapshot-update_self k q b m (s ∷ rows) {r} h = elim (Bool-cases (same_key k s.key)) [
  | inl hit ↦ let (e, e') = found_head k s rows hit h in rw (hit, hit, e') refl
  | inr miss ↦ rw (miss, miss) (find_snapshot-update_self k q b m rows {r = r} (ground arith))
]

pub find_snapshot-update_ne :
    (k j : StockKey) (q b : ℤ) (m : Option ℕ) (rows : List Snapshot)
    → same_key j k ≡ false
    → find_snapshot j (update_snapshot k q b m rows) ≡ find_snapshot j rows
unfolding find_snapshot update_snapshot
find_snapshot-update_ne k j q b m [] h = refl
find_snapshot-update_ne k j q b m (s ∷ rows) h = elim (Bool-cases (same_key k s.key)) [
  | inl hit ↦ rw hit (ground (arith, same_key_iff k s.key))
  | inr miss ↦ rw miss (ground (arith, find_snapshot-update_ne k j q b m rows))
]

pub find_snapshot-append_old :
    (k : StockKey) (rows : List Snapshot) (s : Snapshot) {r : Snapshot}
    → find_snapshot k rows ≡ some r
    → find_snapshot k (rows ++ s ∷ []) ≡ some r
unfolding find_snapshot
find_snapshot-append_old k [] s h = cc
find_snapshot-append_old k (x ∷ rows) s {r} h =
    ground (arith, find_snapshot-append_old k rows s {r = r})

pub find_snapshot-append_new :
    (k : StockKey) (rows : List Snapshot) (s : Snapshot)
    → find_snapshot k rows ≡ none
    → find_snapshot k (rows ++ s ∷ []) ≡ (if same_key k s.key then some s else none)
unfolding find_snapshot
find_snapshot-append_new k [] s h = refl
find_snapshot-append_new k (x ∷ rows) s h = ground (arith, find_snapshot-append_new k rows s, h)

pub find_snapshot-delete_ne :
    (k j : StockKey) (rows : List Snapshot)
    → same_key j k ≡ false
    → find_snapshot j (delete_snapshot k rows) ≡ find_snapshot j rows
unfolding find_snapshot delete_snapshot
find_snapshot-delete_ne k j [] h = refl
find_snapshot-delete_ne k j (s ∷ rows) h = elim (Bool-cases (same_key k s.key)) [
  | inl hit ↦ rw hit (ground (arith, same_key_iff k s.key))
  | inr miss ↦ rw miss (ground (arith, find_snapshot-delete_ne k j rows))
]
