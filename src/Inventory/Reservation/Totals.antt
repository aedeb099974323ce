-- ===== src/Inventory/Reservation/Totals.antt =====
-- What a reservation and a release do to the stock under every key.
use pasalho.Prelude.{ℕ, ◌+◌, ◌≡◌, ap, ◌∙◌, List, [], ◌∷◌, ◌++◌, arith, inl, inr}
use pasalho.Prelude.Int.{ℤ, pos, ◌+ℤ◌, -ℤ◌, ◌<ℤ◌, +ℤ-zero}
use pasalho.Prelude.Result.{Result, ok, Result-cases}
use pasalho.Inventory.Data.{
  StockKey, available, reserved, Snapshot, Movement, MovementInput, Inventory, adjustment, stock_in,
}
use pasalho.Inventory.Snapshots.{on_hand, at_key}
use pasalho.Inventory.Ledger.Effects.{IsConsistent, recorded, recorded-append}
use pasalho.Inventory.Reservation.Steps.{
  Shifts, deduct_available-Shifts, deduct_reserved-Shifts, add_to-Shifts,
}
use pasalho.Inventory.Ledger.{create_event, create_movement, movement_row}
use pasalho.Inventory.Reservation.{
  ReserveStockInput, key_of, deduct_available, deduct_reserved, add_to, event_of, moved_out,
  moved_in, reserve, release,
}

-- What a call that went through has done: both rows, then the event and its two movements.
pub record Moved (input : ReserveStockInput) (out into : MovementInput)
    (first second : List Snapshot → Result (List Snapshot)) (db t : Inventory) : Type 0 where
  pub positive : pos 0 <ℤ input.base_quantity
  pub between : List Snapshot
  pub deducted : first db.snapshots ≡ ok between
  pub added : second between ≡ ok t.snapshots
  pub event : ℕ
  pub movements :
      t.movements
      ≡ (db.movements ++ movement_row event (event_of input) out (event + 1) ∷ [])
        ++ movement_row event (event_of input) into (event + 1 + 1) ∷ []

abbrev pub ReserveMoved : ReserveStockInput → Inventory → Inventory → Type 0
ReserveMoved input =
    Moved input (moved_out input available adjustment "STOCK_RESERVED")
      (moved_in input reserved adjustment "STOCK_RESERVED") (deduct_available input)
      (add_to reserved input)

pub reserve-Moved :
    (input : ReserveStockInput) (db t : Inventory) (r : ℕ × ℤ)
    → reserve input db ≡ ok (r, t)
    → ReserveMoved input db t
unfolding reserve create_event create_movement
reserve-Moved input db t r h = elim (Result-cases (deduct_available input db.snapshots)) [
  | inl (rows, e) ↦ elim (Result-cases (add_to reserved input rows)) [
    | inl (rows', e') ↦ record {
      positive = ground (arith, h);
      between = rows;
      deducted = e;
      added = ground (arith, h, e, e');
      event = db.next_id;
      movements = ground (arith, h, e, e');
    }
    | inr (x, e') ↦ absurd (ground (arith, h, e, e'))
  ]
  | inr (x, e) ↦ absurd (ground (arith, h, e))
]

abbrev pub ReleaseMoved : ReserveStockInput → Inventory → Inventory → Type 0
ReleaseMoved input =
    Moved input (moved_out input reserved adjustment "RESERVATION_RELEASED")
      (moved_in input available stock_in "RESERVATION_RELEASED") (deduct_reserved input)
      (add_to available input)

pub release-Moved :
    (input : ReserveStockInput) (db t : Inventory) (r : ℕ × ℤ)
    → release input db ≡ ok (r, t)
    → ReleaseMoved input db t
unfolding release create_event create_movement
release-Moved input db t r h = elim (Result-cases (deduct_reserved input db.snapshots)) [
  | inl (rows, e) ↦ elim (Result-cases (add_to available input rows)) [
    | inl (rows', e') ↦ record {
      positive = ground (arith, h);
      between = rows;
      deducted = e;
      added = ground (arith, h, e, e');
      event = db.next_id;
      movements = ground (arith, h, e, e');
    }
    | inr (x, e') ↦ absurd (ground (arith, h, e, e'))
  ]
  | inr (x, e) ↦ absurd (ground (arith, h, e))
]

-- Two more recorded movements.
recorded_two :
    (k : StockKey) (ms : List Movement) (a b : Movement)
    → recorded k ((ms ++ a ∷ []) ++ b ∷ [])
      ≡ recorded k ms
        +ℤ at_key a.key k a.base_quantity_delta
        +ℤ at_key b.key k b.base_quantity_delta
unfolding recorded
recorded_two k ms a b = simp (recorded-append, +ℤ-zero)

-- Both halves of a move, put together.
module _ (input : ReserveStockInput) (out into : MovementInput)
    (first second : List Snapshot → Result (List Snapshot)) (db t : Inventory)
    (m : Moved input out into first second db t)
    (leaves : Shifts out.key out.base_quantity_delta db.snapshots m.between)
    (arrives : Shifts into.key into.base_quantity_delta m.between t.snapshots) where
  Moved-on_hand :
      (k : StockKey)
      → on_hand k t.snapshots
        ≡ on_hand k db.snapshots
          +ℤ at_key out.key k out.base_quantity_delta
          +ℤ at_key into.key k into.base_quantity_delta
  Moved-on_hand k =
      arrives.0 k ∙ ap (λ v. v +ℤ at_key into.key k into.base_quantity_delta) (leaves.0 k)

  Moved-IsConsistent : IsConsistent db → IsConsistent t
  Moved-IsConsistent c = record {
    totals = λ k.
        Moved-on_hand k
        ∙ rw (
          c.totals k,
          m.movements,
          recorded_two k db.movements (movement_row m.event (event_of input) out (m.event + 1))
              (movement_row m.event (event_of input) into (m.event + 1 + 1)),
        );
    not_negative = arrives.1 (leaves.1 c.not_negative);
  }

-- A reservation that goes through takes its base quantity from the AVAILABLE stock of its key and adds it to the
-- RESERVED stock; under every other key the stock stays as it is.
pub on_hand-reserve :
    (input : ReserveStockInput) (db t : Inventory) (r : ℕ × ℤ) (k : StockKey)
    → reserve input db ≡ ok (r, t)
    → on_hand k t.snapshots
      ≡ on_hand k db.snapshots
        +ℤ at_key (key_of input available) k (-ℤ◌ input.base_quantity)
        +ℤ at_key (key_of input reserved) k input.base_quantity
on_hand-reserve input db t r k h =
    let m = reserve-Moved input db t r h in
    Moved-on_hand input (moved_out input available adjustment "STOCK_RESERVED")
      (moved_in input reserved adjustment "STOCK_RESERVED") (deduct_available input)
      (add_to reserved input) db t m
      (deduct_available-Shifts input db.snapshots m.between m.deducted)
      (add_to-Shifts reserved input m.between t.snapshots m.positive m.added) k

-- A release that goes through gives the base quantity back from the RESERVED to the AVAILABLE stock
-- of its key; under every other key the stock stays as it is.
pub on_hand-release :
    (input : ReserveStockInput) (db t : Inventory) (r : ℕ × ℤ) (k : StockKey)
    → release input db ≡ ok (r, t)
    → on_hand k t.snapshots
      ≡ on_hand k db.snapshots
        +ℤ at_key (key_of input reserved) k (-ℤ◌ input.base_quantity)
        +ℤ at_key (key_of input available) k input.base_quantity
on_hand-release input db t r k h =
    let m = release-Moved input db t r h in
    Moved-on_hand input (moved_out input reserved adjustment "RESERVATION_RELEASED")
      (moved_in input available stock_in "RESERVATION_RELEASED") (deduct_reserved input)
      (add_to available input) db t m
      (deduct_reserved-Shifts input db.snapshots m.between m.deducted)
      (add_to-Shifts available input m.between t.snapshots m.positive m.added) k

-- A reservation that goes through records exactly the movements that it made, and makes no row
-- negative, when that holds before.
pub reserve-IsConsistent :
    (input : ReserveStockInput) (db t : Inventory) (r : ℕ × ℤ)
    → IsConsistent db
    → reserve input db ≡ ok (r, t)
    → IsConsistent t
reserve-IsConsistent input db t r c h =
    let m = reserve-Moved input db t r h in
    Moved-IsConsistent input (moved_out input available adjustment "STOCK_RESERVED")
      (moved_in input reserved adjustment "STOCK_RESERVED") (deduct_available input)
      (add_to reserved input) db t m
      (deduct_available-Shifts input db.snapshots m.between m.deducted)
      (add_to-Shifts reserved input m.between t.snapshots m.positive m.added) c

-- A release that goes through records exactly the movements that it made, and makes no row
-- negative, when that holds before.
pub release-IsConsistent :
    (input : ReserveStockInput) (db t : Inventory) (r : ℕ × ℤ)
    → IsConsistent db
    → release input db ≡ ok (r, t)
    → IsConsistent t
release-IsConsistent input db t r c h =
    let m = release-Moved input db t r h in
    Moved-IsConsistent input (moved_out input reserved adjustment "RESERVATION_RELEASED")
      (moved_in input available stock_in "RESERVATION_RELEASED") (deduct_reserved input)
      (add_to available input) db t m
      (deduct_reserved-Shifts input db.snapshots m.between m.deducted)
      (add_to-Shifts available input m.between t.snapshots m.positive m.added) c
