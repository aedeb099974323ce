-- ===== src/Inventory/Reservation/Outcome.antt =====
-- When a reservation goes through, and when it is refused.
use pasalho.Prelude.{
  ℕ, ◌≡◌, ◌⊎◌, refl, ◌∙◌, sym, ap, true, false, Option, none, some, List, [], ◌∷◌, arith,
  Bool-cases, Option-cases, inl, inr,
}
use pasalho.Prelude.Int.{ℤ, pos, ◌-ℤ◌, ◌*ℤ◌, round_div, ◌≤ℤ◌, ◌<ℤ◌, ltb_ℤ}
use pasalho.Prelude.Result.{Failure, Result-cases, ok, err, app_error, insufficient_stock}
use pasalho.Inventory.Data.{
  StockKey, available, reserved, Snapshot, Inventory, same_key, same_key-state,
}
use pasalho.Inventory.Snapshots.{find_snapshot, update_snapshot, create_snapshot, collides}
use pasalho.Inventory.Snapshots.Reads.{find_snapshot-update_ne}
use pasalho.Inventory.Ledger.{create_event, create_movement}
use pasalho.Inventory.Reservation.{ReserveStockInput, key_of, deduct_available, add_to, reserve}

other_way :
    (input : ReserveStockInput) → same_key (key_of input reserved) (key_of input available) ≡ false
other_way input = same_key-state (key_of input reserved) (key_of input available) (λ e. cc)

-- An update leaves the keys of the rows alone.
collides-update :
    (j k : StockKey) (q b : ℤ) (m : Option ℕ) (rows : List Snapshot)
    → collides j (update_snapshot k q b m rows) ≡ collides j rows
unfolding collides update_snapshot
collides-update j k q b m [] = refl
collides-update j k q b m (r ∷ rows) = ground (arith, collides-update j k q b m rows)

-- The row that is added to is there, or there is room for it.
abbrev pub HasRoom : ReserveStockInput → List Snapshot → Type 0
HasRoom input rows =
    find_snapshot (key_of input reserved) rows ≡ none
    → collides (key_of input reserved) rows ≡ false

add_to_room :
    (input : ReserveStockInput) (rows : List Snapshot)
    → HasRoom input rows
    → (rows' : List Snapshot) × (add_to reserved input rows ≡ ok rows')
unfolding add_to create_snapshot
add_to_room input rows room = elim (Result-cases (add_to reserved input rows)) [
  | inl (rows', e) ↦ (rows', e)
  | inr (x, e) ↦ elim (Option-cases (find_snapshot (key_of input reserved) rows)) [
    | inl new ↦ absurd (ground (arith, e, new, room new))
    | inr (r, found) ↦ absurd (ground (arith, e, found))
  ]
]

reserve_of_steps :
    (input : ReserveStockInput) (db : Inventory) (rows rows' : List Snapshot)
    → pos 0 <ℤ input.base_quantity
    → deduct_available input db.snapshots ≡ ok rows
    → add_to reserved input rows ≡ ok rows'
    → (r : ℕ × ℤ) × (t : Inventory) × (reserve input db ≡ ok (r, t))
unfolding reserve create_event create_movement
reserve_of_steps input db rows rows' p e e' = elim (Result-cases (reserve input db)) [
  | inl ((r, t), done) ↦ (r, t, done)
  | inr (x, failed) ↦ absurd (ground (arith, failed, e, e'))
]

reserve-short :
    (input : ReserveStockInput) (db : Inventory) (x : Failure)
    → pos 0 <ℤ input.base_quantity
    → deduct_available input db.snapshots ≡ err x
    → reserve input db ≡ err x
unfolding reserve
reserve-short input db x p e = ground (arith, e)

-- Deducting keeps room for the RESERVED row.
deduct_available-HasRoom :
    (input : ReserveStockInput) (rows rows' : List Snapshot)
    → HasRoom input rows
    → deduct_available input rows ≡ ok rows'
    → HasRoom input rows'
unfolding deduct_available
deduct_available-HasRoom input rows rows' room h new =
    elim (Option-cases (find_snapshot (key_of input available) rows)) [
      | inl missing ↦ absurd (ground (arith, h, missing))
      | inr (r, found) ↦
          let k = key_of input available in
          let j = key_of input reserved in
          let b = r.base_quantity -ℤ input.base_quantity in
          let q = round_div (b *ℤ r.quantity) r.base_quantity in
          let done : rows' ≡ update_snapshot k q b none rows = ground (arith, h, found) in
          let same = find_snapshot-update_ne k j q b none rows (other_way input) in
          let new' : find_snapshot j rows ≡ none =
            sym same ∙ (ap (find_snapshot j) (sym done) ∙ new) in
          ap (collides j) done ∙ (collides-update j k q b none rows ∙ room new')
    ]

-- The AVAILABLE row covers the base quantity.
abbrev pub Covers : ReserveStockInput → List Snapshot → Type 0
Covers input rows =
    (r : Snapshot) × (find_snapshot (key_of input available) rows ≡ some r)
    × (input.base_quantity ≤ℤ r.base_quantity)

deduct_available-outcome :
    (input : ReserveStockInput) (rows : List Snapshot)
    → ((rows' : List Snapshot) × (deduct_available input rows ≡ ok rows') × Covers input rows)
      ⊎ ((deduct_available input rows ≡ err (app_error insufficient_stock 422))
          × (Covers input rows → ⊥))
unfolding deduct_available
deduct_available-outcome input rows =
    elim (Option-cases (find_snapshot (key_of input available) rows)) [
      | inl missing ↦
          inr (ground (arith, missing), λ (r, found, enough). ground (arith, missing, found))
      | inr (r, found) ↦ elim (Bool-cases (ltb_ℤ r.base_quantity input.base_quantity)) [
        | inl short ↦ inr (
          ground (arith, found, short),
          λ (s, found', enough).
              let same : r ≡ s = ground (arith, found, found') in
              let less : ltb_ℤ s.base_quantity input.base_quantity ≡ true = rw same at short in
              ground (arith, enough, less),
        )
        | inr fits ↦ elim (Result-cases (deduct_available input rows)) [
          | inl (rows', e) ↦ inl (rows', e, (r, found, ground (arith, fits)))
          | inr (x, e) ↦ absurd (ground (arith, e, found, fits))
        ]
      ]
    ]

-- For a positive base quantity and with room for the RESERVED row, a reservation goes through
-- exactly when the AVAILABLE row covers the quantity; otherwise it is refused for want of stock.
pub reserve_outcome :
    (input : ReserveStockInput) (db : Inventory)
    → pos 0 <ℤ input.base_quantity
    → HasRoom input db.snapshots
    → ((r : ℕ × ℤ) × (t : Inventory) × (reserve input db ≡ ok (r, t)) × Covers input db.snapshots)
      ⊎ ((reserve input db ≡ err (app_error insufficient_stock 422))
          × (Covers input db.snapshots → ⊥))
reserve_outcome input db p room = elim (deduct_available-outcome input db.snapshots) [
  | inr (e, short) ↦ inr (reserve-short input db (app_error insufficient_stock 422) p e, short)
  | inl (rows, e, covers) ↦
      let (rows', e') =
        add_to_room input rows (deduct_available-HasRoom input db.snapshots rows room e) in
      let (r, t, done) = reserve_of_steps input db rows rows' p e e' in inl (r, t, done, covers)
]
