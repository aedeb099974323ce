-- ===== src/Inventory/Transfer/Custody.antt =====
-- The receipt of a transfer clears what its dispatch put in transit, and steps of a transfer that leave
-- the rest alone.
use pasalho.Prelude.{
  ◌≡◌, refl, ◌∙◌, sym, Bool, true, false, List, [], ◌∷◌, arith, inl, inr, if◌then◌else◌,
}
use pasalho.Prelude.Int.{ℤ, pos, ◌+ℤ◌, -ℤ◌, sum_by, int_laws}
use pasalho.Prelude.Result.{Result, Result-cases, ok, err, Tx}
use pasalho.Prelude.Loops.{Ensures, Ensures-ok}
use pasalho.Inventory.Data.{StockKey, StockState, Inventory, same_key, same_key-state}
use pasalho.Inventory.Ledger.Effects.{IsConsistent, delta}
use pasalho.Inventory.Transfer.{
  TransferItem, Transfer, Depot, in_stock, dispatch_movements, receipt_movements, RequestRecord,
  with_dispatches, key_of,
}

one_more :
    (b : Bool) (d x y : ℤ)
    → x ≡ -ℤ◌ y
    → pos 0 +ℤ ((if b then d else pos 0) +ℤ x) ≡ -ℤ◌ ((if b then -ℤ◌ d else pos 0) +ℤ y)
one_more true d x y h = rw h (omega int_laws)
one_more false d x y h = rw h (omega int_laws)

-- Under a key of stock in transit, the receipt of items takes out what their dispatch put in.
pub delta-receipt :
    (t : Transfer) (items : List TransferItem) (k : StockKey)
    → k.state ≡ StockState.in_transit
    → delta k (dispatch_movements t items) ≡ -ℤ◌ (delta k (receipt_movements t items))
unfolding delta dispatch_movements receipt_movements sum_by
delta-receipt t [] k h = omega int_laws
delta-receipt t (item ∷ items) k h =
    let other : same_key k (key_of t item StockState.available) ≡ false =
      same_key-state k (key_of t item StockState.available) (λ e.
        let bad : StockState.in_transit ≡ StockState.available = sym h ∙ e in
        ground (arith, bad)) in
    rw other (
      one_more (same_key k (key_of t item StockState.in_transit)) item.base_quantity
        (delta k (dispatch_movements t items)) (delta k (receipt_movements t items))
        (delta-receipt t items k h))

abbrev pub StockIsConsistent : Depot → Type 0
StockIsConsistent db = IsConsistent db.stock

module _ {A : Type 0} (m : Tx Inventory A) (db : Depot) where
  pub in_stock-transfers : Ensures (in_stock m db) (λ t. t.transfers ≡ db.transfers)
  unfolding in_stock
  in_stock-transfers = elim (Result-cases (m db.stock)) [
    | inl ((a, s), e) ↦ rw (e, Ensures) refl
    | inr (x, e) ↦ rw (e, Ensures) tt
  ]

-- A step of the stock ledger in the same transaction leaves behind what it leaves behind alone.
pub in_stock-Ensures :
    {A : Type 0} (P : Inventory → Type 0) (m : Tx Inventory A) (db : Depot)
    → Ensures (m db.stock) P
    → Ensures (in_stock m db) (λ v. P v.stock)
unfolding in_stock
in_stock-Ensures P m db h = elim (Result-cases (m db.stock)) [
  | inl ((a, s), e) ↦ rw (e, Ensures) (Ensures-ok P (m db.stock) h e)
  | inr (x, e) ↦ rw (e, Ensures) tt
]

-- A change of the request records leaves the rest alone.
pub records-keep {κ} :
    (P : Depot → Type κ) (db : Depot) (r : Result (List RequestRecord))
    → ((rs : List RequestRecord) → P (record db { dispatches = rs }))
    → Ensures (with_dispatches db r) P
records-keep P db (ok rs) h = h rs
records-keep P db (err e) h = tt
