-- ===== src/Inventory/Consumption/Once.antt =====
-- The reservations of an order are consumed once.
use pasalho.Prelude.{
  ℕ, ◌≡◌, refl, ap, false, List, [], ◌∷◌, arith, Bool-cases, Option-cases, inl, inr, if◌then◌else◌,
}
use pasalho.Prelude.Result.{ok, err, app_error, conflict, ◌>>◌, for_each, pure}
use pasalho.Prelude.Loops.{Ensures, Ensures-then, Ensures-ok, for_each-keeps}
use pasalho.Inventory.Data.{Reservation, consumed, MovementInput, PostEventInput, Inventory, posted}
use pasalho.Inventory.Ledger.{
  apply_movement, apply_snapshot, create_event, post_new_event, post_event, existing_event,
  with_movement,
}
use pasalho.Inventory.Ledger.Effects.{Ensures-with_rows}
use pasalho.Inventory.Consumption.{
  Consumed, ConsumeInput, consume, consume_for_order, invoice_event, movements_of, mark_consumed,
  is_open, filter, is_empty, open_of,
}

reservations-apply_movement :
    (event : ℕ) (input : PostEventInput) (rs : List Reservation) (m : MovementInput)
    (db : Inventory)
    → db.reservations ≡ rs
    → Ensures (apply_movement event input m db) (λ t. t.reservations ≡ rs)
unfolding apply_movement
reservations-apply_movement event input rs m db h =
    Ensures-with_rows (λ t. t.reservations ≡ rs) (with_movement event input m db)
      (apply_snapshot m db.next_id db.snapshots) (λ rows e. h)

reservations-create_event :
    (input : PostEventInput) (db : Inventory)
    → Ensures (create_event input posted db) (λ t. t.reservations ≡ db.reservations)
unfolding create_event
reservations-create_event input db = ground arith

-- Posting an event leaves the reservations alone.
reservations-post_event :
    (input : PostEventInput) (db : Inventory)
    → Ensures (post_event input db) (λ t. t.reservations ≡ db.reservations)
unfolding post_event post_new_event
reservations-post_event input db =
    elim (Option-cases (existing_event input.idempotency_key db.events)) [
      | inl new ↦
          rw (new, Ensures)
            (Ensures-then (λ t. t.reservations ≡ db.reservations)
              (λ t. t.reservations ≡ db.reservations) (create_event input posted db)
              (λ event. for_each (apply_movement event input) input.movements >> pure event)
              (reservations-create_event input db)
              λ event t h.
                Ensures-then (λ t. t.reservations ≡ db.reservations)
                  (λ t. t.reservations ≡ db.reservations)
                  (for_each (apply_movement event input) input.movements t) (λ u t'. ok (event, t'))
                  (for_each-keeps (apply_movement event input)
                    (λ t. t.reservations ≡ db.reservations)
                    (reservations-apply_movement event input db.reservations) input.movements t h)
                  (λ u t' h'. h'))
      | inr (e, known) ↦ rw (known, Ensures) refl
    ]

pub consume-marks :
    (order : ℕ) (event : List MovementInput → PostEventInput) (ms : List MovementInput)
    (rs : List Reservation) (db : Inventory)
    → Ensures
        (consume order event ms rs db)
        (λ t. t.reservations ≡ mark_consumed order db.reservations)
unfolding consume
consume-marks order event [] rs db = tt
consume-marks order event (m ∷ ms) rs db =
    Ensures-then (λ t. t.reservations ≡ db.reservations)
      (λ t. t.reservations ≡ mark_consumed order db.reservations) (post_event (event (m ∷ ms)) db) _
      (reservations-post_event (event (m ∷ ms)) db) (λ id t h. ap (mark_consumed order) h)

closed :
    (order : ℕ) (r : Reservation)
    → is_open order (if is_open order r then record r { status = consumed } else r) ≡ false
closed order r = ground arith

pub none_open :
    (order : ℕ) (rs : List Reservation) → filter (is_open order) (mark_consumed order rs) ≡ []
unfolding filter mark_consumed
none_open order [] = refl
none_open order (r ∷ rs) = rw (closed order r) (none_open order rs)

order_marks :
    (input : ConsumeInput) (db : Inventory)
    → Ensures
        (consume_for_order input db)
        (λ t. t.reservations ≡ mark_consumed input.sales_order db.reservations)
unfolding consume_for_order
order_marks input db = elim (Bool-cases (is_empty (open_of input.sales_order db))) [
  | inl none_left ↦ rw (none_left, Ensures) tt
  | inr some_left ↦
      let rs = open_of input.sales_order db in
      rw (some_left, Ensures)
        (consume-marks input.sales_order (invoice_event input)
          (movements_of "RESERVATION_CONSUMED" rs) rs db)
]

refused_when_none_open :
    (input : ConsumeInput) (db : Inventory)
    → open_of input.sales_order db ≡ []
    → consume_for_order input db ≡ err (app_error conflict 409)
unfolding consume_for_order
refused_when_none_open input db h = rw h refl

-- Once the reserved stock of an order went out, a second call for the same order is refused as a
-- conflict, whatever invoice it names.
pub consume_for_order_once :
    (input again : ConsumeInput) (db t : Inventory) (c : Consumed)
    → again.sales_order ≡ input.sales_order
    → consume_for_order input db ≡ ok (c, t)
    → consume_for_order again t ≡ err (app_error conflict 409)
consume_for_order_once input again db t c same h =
    let rs =
      Ensures-ok (λ t. t.reservations ≡ mark_consumed input.sales_order db.reservations)
        (consume_for_order input db) (order_marks input db) h in
    refused_when_none_open again t (rw (same, rs) (none_open input.sales_order db.reservations))
