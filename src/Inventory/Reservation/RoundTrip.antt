-- ===== src/Inventory/Reservation/RoundTrip.antt =====
-- Releasing what has been reserved.
use pasalho.Prelude.{
  ℕ, ◌≡◌, refl, ◌∙◌, Bool, true, false, none, some, List, arith, Bool-cases, Option-cases, inl, inr,
  if◌then◌else◌,
}
use pasalho.Prelude.Int.{
  ℤ, pos, ◌+ℤ◌, ◌-ℤ◌, -ℤ◌, ◌*ℤ◌, round_div, ◌≤ℤ◌, ◌<ℤ◌, ltb_ℤ, leb_ℤ, int_laws,
}
use pasalho.Prelude.Result.{ok, Result-cases}
use pasalho.Inventory.Data.{
  StockKey, StockState, available, reserved, Snapshot, Inventory, same_key, same_key_iff,
  same_key-state,
}
use pasalho.Inventory.Snapshots.{
  find_snapshot, update_snapshot, delete_snapshot, create_snapshot, new_row, written, on_hand,
}
use pasalho.Inventory.Snapshots.Bounds.{NonNegative, find_snapshot-NonNegative}
use pasalho.Inventory.Snapshots.Reads.{
  create_snapshot-ok, find_snapshot-update_self, find_snapshot-update_ne, find_snapshot-append_old,
  find_snapshot-append_new, find_snapshot-delete_ne,
}
use pasalho.Inventory.Ledger.{create_event, create_movement}
use pasalho.Inventory.Ledger.Effects.{IsConsistent}
use pasalho.Inventory.Reservation.{
  ReserveStockInput, key_of, deduct_available, deduct_reserved, add_to, reserve, release,
}
use pasalho.Inventory.Reservation.Steps.{deduct_available-Shifts}
use pasalho.Inventory.Reservation.Totals.{reserve-Moved, on_hand-reserve, on_hand-release}

other_state :
    (input : ReserveStockInput) → same_key (key_of input available) (key_of input reserved) ≡ false
other_state input = same_key-state (key_of input available) (key_of input reserved) (λ e. cc)

deduct_available-finds :
    (input : ReserveStockInput) (rows rows' : List Snapshot)
    → deduct_available input rows ≡ ok rows'
    → (r : Snapshot) × (find_snapshot (key_of input available) rows' ≡ some r)
unfolding deduct_available
deduct_available-finds input rows rows' h =
    elim (Option-cases (find_snapshot (key_of input available) rows)) [
      | inl e ↦ absurd (ground (arith, h, e))
      | inr (r, e) ↦
          let k = key_of input available in
          let b = r.base_quantity -ℤ input.base_quantity in
          let q = round_div (b *ℤ r.quantity) r.base_quantity in
          let done : rows' ≡ update_snapshot k q b none rows = ground (arith, h, e) in
          (written q b none r, rw done (find_snapshot-update_self k q b none rows e))
    ]

add_to-finds :
    (state : StockState) (input : ReserveStockInput) (rows rows' : List Snapshot)
    → NonNegative rows
    → add_to state input rows ≡ ok rows'
    → (r : Snapshot) × (find_snapshot (key_of input state) rows' ≡ some r)
      × (input.base_quantity ≤ℤ r.base_quantity)
unfolding add_to
add_to-finds state input rows rows' n h =
    elim (Option-cases (find_snapshot (key_of input state) rows)) [
      | inl e ↦
          let k = key_of input state in
          let new : create_snapshot k input.quantity input.base_quantity none rows ≡ ok rows' =
            ground (arith, h, e) in
          let row = new_row k input.quantity input.base_quantity none in
          (
            row,
            rw (create_snapshot-ok k input.quantity input.base_quantity none rows new).1
                (find_snapshot-append_new k rows row e ∙ rw ((same_key_iff k k).1 refl)),
            omega arith,
          )
      | inr (r, e) ↦
          let k = key_of input state in
          let b = r.base_quantity +ℤ input.base_quantity in
          let q = r.quantity +ℤ input.quantity in
          let done : rows' ≡ update_snapshot k q b none rows = ground (arith, h, e) in
          (
            written q b none r,
            rw done (find_snapshot-update_self k q b none rows e),
            omega (int_laws, find_snapshot-NonNegative k rows n e),
          )
    ]

add_to-find_ne :
    (state : StockState) (input : ReserveStockInput) (j : StockKey) (rows rows' : List Snapshot)
    {s : Snapshot}
    → same_key j (key_of input state) ≡ false
    → add_to state input rows ≡ ok rows'
    → find_snapshot j rows ≡ some s
    → find_snapshot j rows' ≡ some s
unfolding add_to
add_to-find_ne state input j rows rows' ne h f =
    elim (Option-cases (find_snapshot (key_of input state) rows)) [
      | inl e ↦
          let k = key_of input state in
          let new : create_snapshot k input.quantity input.base_quantity none rows ≡ ok rows' =
            ground (arith, h, e) in
          rw (create_snapshot-ok k input.quantity input.base_quantity none rows new).1
            (find_snapshot-append_old j rows (new_row k input.quantity input.base_quantity none) f)
      | inr (r, e) ↦
          let k = key_of input state in
          let b = r.base_quantity +ℤ input.base_quantity in
          let q = r.quantity +ℤ input.quantity in
          let done : rows' ≡ update_snapshot k q b none rows = ground (arith, h, e) in
          rw done (find_snapshot-update_ne k j q b none rows ne ∙ f)
    ]

-- A RESERVED row that covers the quantity is reduced, and no other row changes.
deduct_reserved-ok :
    (input : ReserveStockInput) (j : StockKey) (rows : List Snapshot) {r : Snapshot}
    → same_key j (key_of input reserved) ≡ false
    → find_snapshot (key_of input reserved) rows ≡ some r
    → input.base_quantity ≤ℤ r.base_quantity
    → (rows' : List Snapshot) × (deduct_reserved input rows ≡ ok rows')
      × (find_snapshot j rows' ≡ find_snapshot j rows)
unfolding deduct_reserved
deduct_reserved-ok input j rows {r} ne e enough =
    let k = key_of input reserved in
    let b = r.base_quantity -ℤ input.base_quantity in
    let q =
      if ltb_ℤ (pos 0) r.base_quantity then round_div (b *ℤ r.quantity) r.base_quantity else b in
    elim (Bool-cases (leb_ℤ b (pos 0))) [
      | inl last ↦
          (delete_snapshot k rows, ground (arith, e, last), find_snapshot-delete_ne k j rows ne)
      | inr some_left ↦ (
        update_snapshot k q b none rows,
        ground (arith, e, some_left),
        find_snapshot-update_ne k j q b none rows ne,
      )
    ]

add_to-ok :
    (state : StockState) (input : ReserveStockInput) (rows : List Snapshot) {r : Snapshot}
    → find_snapshot (key_of input state) rows ≡ some r
    → (rows' : List Snapshot) × (add_to state input rows ≡ ok rows')
unfolding add_to
add_to-ok state input rows {r} e = (
  update_snapshot (key_of input state) (r.quantity +ℤ input.quantity)
      (r.base_quantity +ℤ input.base_quantity) none rows,
  ground (arith, e),
)

-- Once both snapshot steps go through, so does a release.
release_of_steps :
    (input : ReserveStockInput) (db : Inventory) (rows rows' : List Snapshot)
    → pos 0 <ℤ input.base_quantity
    → deduct_reserved input db.snapshots ≡ ok rows
    → add_to available input rows ≡ ok rows'
    → (r : ℕ × ℤ) × (t : Inventory) × (release input db ≡ ok (r, t))
unfolding release create_event create_movement
release_of_steps input db rows rows' p e e' = elim (Result-cases (release input db)) [
  | inl ((r, t), done) ↦ (r, t, done)
  | inr (x, failed) ↦ absurd (ground (arith, failed, e, e'))
]

-- The stock that a reservation took out and put in comes back under every key.
back_again :
    (a b : Bool) (x d : ℤ)
    → x
        +ℤ (if a then -ℤ◌ d else pos 0)
        +ℤ (if b then d else pos 0)
        +ℤ (if b then -ℤ◌ d else pos 0)
        +ℤ (if a then d else pos 0)
      ≡ x
back_again true true x d = omega int_laws
back_again true false x d = omega int_laws
back_again false true x d = omega int_laws
back_again false false x d = omega int_laws

-- In a consistent inventory, what has just been reserved can be released, and that restores the stock under every key.
pub release-reserve :
    (input : ReserveStockInput) (db t : Inventory) (r : ℕ × ℤ)
    → IsConsistent db
    → reserve input db ≡ ok (r, t)
    → (r' : ℕ × ℤ) × (u : Inventory) × (release input t ≡ ok (r', u))
      × ((k : StockKey) → on_hand k u.snapshots ≡ on_hand k db.snapshots)
release-reserve input db t r c h =
    let m = reserve-Moved input db t r h in
    let (av, fa) = deduct_available-finds input db.snapshots m.between m.deducted in
    let n = (deduct_available-Shifts input db.snapshots m.between m.deducted).1 c.not_negative in
    let (row, fr, enough) = add_to-finds reserved input m.between t.snapshots n m.added in
    let ne = other_state input in
    let fa' =
      add_to-find_ne reserved input (key_of input available) m.between t.snapshots ne m.added fa in
    let (rows1, e1, same) =
      deduct_reserved-ok input (key_of input available) t.snapshots ne fr enough in
    let (rows2, e2) = add_to-ok available input rows1 (same ∙ fa') in
    let (r', u, e) = release_of_steps input t rows1 rows2 m.positive e1 e2 in
    (
      r',
      u,
      e,
      λ k.
          on_hand-release input t u r' k e
          ∙ rw (on_hand-reserve input db t r k h) (
              back_again (same_key k (key_of input available)) (same_key k (key_of input reserved))
                (on_hand k db.snapshots) input.base_quantity),
    )
