-- ===== src/Inventory/Snapshots/Totals.antt =====
-- The stock on hand under a key after each write to the snapshot table.
use pasalho.Prelude.{
  ℕ, ◌≡◌, Bool, true, false, Option, some, List, [], ◌∷◌, ◌++◌, arith, Bool-cases, inl, inr,
  if◌then◌else◌,
}
use pasalho.Prelude.Int.{ℤ, pos, ◌+ℤ◌, ◌-ℤ◌, int_laws, +ℤ-zero}
use pasalho.Prelude.Result.{ok}
use pasalho.Inventory.Data.{StockKey, Snapshot, same_key}
use pasalho.Inventory.Snapshots.{
  find_snapshot, update_snapshot, delete_snapshot, create_snapshot, new_row, on_hand, at_key,
}
use pasalho.Inventory.Snapshots.Reads.{found_head}

pub on_hand-append :
    (k : StockKey) (xs ys : List Snapshot) → on_hand k (xs ++ ys) ≡ on_hand k xs +ℤ on_hand k ys
unfolding on_hand
on_hand-append k [] ys = omega int_laws
on_hand-append k (r ∷ xs) ys = rw (on_hand-append k xs ys) (omega int_laws)

-- A row at the head, under a test `c`, whose base quantity goes from `old` to `new`.
swap_head :
    (c : Bool) (x old new : ℤ)
    → (if c then new else pos 0) +ℤ x
      ≡ (if c then old else pos 0) +ℤ x +ℤ (if c then new -ℤ old else pos 0)
swap_head true x old new = omega int_laws
swap_head false x old new = omega int_laws

drop_head :
    (c : Bool) (x old : ℤ) → x ≡ (if c then old else pos 0) +ℤ x -ℤ (if c then old else pos 0)
drop_head true x old = omega int_laws
drop_head false x old = omega int_laws

pub on_hand-update :
    (k j : StockKey) (q b : ℤ) (m : Option ℕ) (rows : List Snapshot) {r : Snapshot}
    → find_snapshot k rows ≡ some r
    → on_hand j (update_snapshot k q b m rows) ≡ on_hand j rows +ℤ at_key k j (b -ℤ r.base_quantity)
unfolding on_hand update_snapshot find_snapshot
on_hand-update k j q b m [] h = cc
on_hand-update k j q b m (s ∷ rows) {r} h = elim (Bool-cases (same_key k s.key)) [
  | inl hit ↦
      let (e, e') = found_head k s rows hit h in
      rw hit (cc (swap_head (same_key j s.key) (on_hand j rows) s.base_quantity b, e, e'))
  | inr miss ↦ rw miss (rw (on_hand-update k j q b m rows {r = r} (ground arith)) (omega int_laws))
]

pub on_hand-delete :
    (k j : StockKey) (rows : List Snapshot) {r : Snapshot}
    → find_snapshot k rows ≡ some r
    → on_hand j (delete_snapshot k rows) ≡ on_hand j rows -ℤ at_key k j r.base_quantity
unfolding on_hand delete_snapshot find_snapshot
on_hand-delete k j [] h = cc
on_hand-delete k j (s ∷ rows) {r} h = elim (Bool-cases (same_key k s.key)) [
  | inl hit ↦
      let (e, e') = found_head k s rows hit h in
      rw hit (cc (drop_head (same_key j s.key) (on_hand j rows) s.base_quantity, e, e'))
  | inr miss ↦ rw miss (rw (on_hand-delete k j rows {r = r} (ground arith)) (omega int_laws))
]

pub on_hand-create :
    (k j : StockKey) (q b : ℤ) (m : Option ℕ) (rows : List Snapshot) {rows' : List Snapshot}
    → create_snapshot k q b m rows ≡ ok rows'
    → on_hand j rows' ≡ on_hand j rows +ℤ at_key k j b
unfolding on_hand create_snapshot
on_hand-create k j q b m rows h =
    ground (arith, on_hand-append j rows (new_row k q b m ∷ []), +ℤ-zero (at_key k j b))
