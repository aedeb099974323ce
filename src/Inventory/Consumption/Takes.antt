-- ===== src/Inventory/Consumption/Takes.antt =====
-- What the consumption of an order's reservations takes from the stock.
use pasalho.Prelude.{
  ℕ, ◌≡◌, refl, ◌∙◌, ap, some, Bool, true, false, List, [], ◌∷◌, ◌++◌, map, Bool-cases, inl, inr,
  if◌then◌else◌, is_some,
}
use pasalho.Prelude.Int.{ℤ, pos, ◌+ℤ◌, -ℤ◌, sum_by, int_laws}
use Prim.Native.String.{String}
use pasalho.Prelude.Result.{ok}
use pasalho.Prelude.Loops.{Ensures, Ensures-then, Ensures-intro, Ensures-ok}
use pasalho.Inventory.Data.{
  StockKey, StockState, EventKey, same_key, ReservationItem, Reservation, MovementInput, Inventory,
}
use pasalho.Inventory.Snapshots.{on_hand, at_key}
use pasalho.Inventory.Ledger.{post_event, existing_event}
use pasalho.Inventory.Ledger.Effects.{IsConsistent, delta}
use pasalho.Inventory.Ledger.Posting.{post_event-IsConsistent, on_hand-post_event}
use pasalho.Inventory.Consumption.{
  ConsumeInput, consume, consume_for_order, invoice_event, movement_of, movements_of, is_empty,
  open_of,
}

-- What a reservation item holds of the reserved stock under a key, and what reservations hold.
abbrev pub held_by : StockKey → ℕ → ReservationItem → ℤ
held_by k location item =
    at_key
      (record {
        location = location;
        product = item.product;
        batch = item.batch;
        state = StockState.reserved;
        unit = item.unit;
      })
      k item.base_quantity

abbrev pub held : StockKey → List Reservation → ℤ
held k = sum_by (λ (r : Reservation). sum_by (held_by k r.location) r.items)

one_item :
    (b : Bool) (d x y z : ℤ)
    → x ≡ -ℤ◌ y +ℤ z
    → (if b then -ℤ◌ d else pos 0) +ℤ x ≡ -ℤ◌ ((if b then d else pos 0) +ℤ y) +ℤ z
one_item true d x y z h = rw h (omega int_laws)
one_item false d x y z h = rw h (omega int_laws)

delta-items :
    (reason : String) (k : StockKey) (location : ℕ) (items : List ReservationItem)
    (ms : List MovementInput)
    → delta k (map (movement_of reason location) items ++ ms)
      ≡ -ℤ◌ (sum_by (held_by k location) items) +ℤ delta k ms
unfolding delta sum_by
delta-items reason k location [] ms = omega int_laws
delta-items reason k location (item ∷ items) ms =
    one_item (same_key k (movement_of reason location item).key) item.base_quantity
      (delta k (map (movement_of reason location) items ++ ms)) (sum_by (held_by k location) items)
      (delta k ms) (delta-items reason k location items ms)

both : (a b x : ℤ) → x ≡ -ℤ◌ b → -ℤ◌ a +ℤ x ≡ -ℤ◌ (a +ℤ b)
both a b x h = rw h (omega int_laws)

delta-movements_of :
    (reason : String) (k : StockKey) (rs : List Reservation)
    → delta k (movements_of reason rs) ≡ -ℤ◌ (held k rs)
unfolding movements_of delta sum_by
delta-movements_of reason k [] = omega int_laws
delta-movements_of reason k (r ∷ rs) =
    delta-items reason k r.location r.items (movements_of reason rs)
    ∙ both (sum_by (held_by k r.location) r.items) (held k rs) (delta k (movements_of reason rs))
        (delta-movements_of reason k rs)

-- What an order's invoice takes: nothing where its event is already known.
abbrev pub newly_sold : ConsumeInput → StockKey → Inventory → ℤ
newly_sold input k db =
    if is_some
      (existing_event (some (EventKey.invoice_reservation_consume input.invoice)) db.events)
    then pos 0
    else -ℤ◌ (held k (open_of input.sales_order db))

-- The inventory stays consistent, and has lost what was sold.
abbrev pub IsSold : ConsumeInput → Inventory → Inventory → Type 0
IsSold input db t =
    IsConsistent t
    × ((k : StockKey) → on_hand k t.snapshots ≡ on_hand k db.snapshots +ℤ newly_sold input k db)

consume-IsSold :
    (input : ConsumeInput) (db : Inventory) (ms : List MovementInput)
    → ms ≡ movements_of "RESERVATION_CONSUMED" (open_of input.sales_order db)
    → IsConsistent db
    → Ensures
        (consume input.sales_order (invoice_event input) ms (open_of input.sales_order db) db)
        (IsSold input db)
unfolding consume
consume-IsSold input db [] same c = tt
consume-IsSold input db (m ∷ ms) same c =
    let event = invoice_event input (m ∷ ms) in
    let rs = open_of input.sales_order db in
    let known = is_some (existing_event event.idempotency_key db.events) in
    let P = IsSold input db in
    let consistent = λ (n : ℕ) (t : Inventory) (done : post_event event db ≡ ok (n, t)).
      Ensures-ok IsConsistent (post_event event db) (post_event-IsConsistent event db c) done in
    let moved = λ (n : ℕ) (t : Inventory) (done : post_event event db ≡ ok (n, t)) (k : StockKey).
      Ensures-ok
        (λ (t : Inventory).
          on_hand k t.snapshots
          ≡ on_hand k db.snapshots +ℤ (if known then pos 0 else delta k (m ∷ ms)))
        (post_event event db) (on_hand-post_event event k db) done
      ∙ ap (λ x. on_hand k db.snapshots +ℤ (if known then pos 0 else x))
          (ap (delta k) same ∙ delta-movements_of "RESERVATION_CONSUMED" k rs) in
    Ensures-then P P (post_event event db) _
      (Ensures-intro P (post_event event db) λ n t done. (consistent n t done, moved n t done))
      (λ n t (c', moves). (record { totals = c'.totals; not_negative = c'.not_negative }, moves))

-- When an order is consumed for its invoice, the stock under every key falls by what the order's open
-- reservations held there of the RESERVED stock, or by nothing where the event of the invoice is
-- already known; and an inventory that was consistent still is.
pub consume_for_order-IsSold :
    (input : ConsumeInput) (db : Inventory)
    → IsConsistent db
    → Ensures (consume_for_order input db) (IsSold input db)
unfolding consume_for_order
consume_for_order-IsSold input db c = elim (Bool-cases (is_empty (open_of input.sales_order db))) [
  | inl none_left ↦ rw (none_left, Ensures) tt
  | inr some_left ↦
      rw (some_left, Ensures)
        (consume-IsSold input db
          (movements_of "RESERVATION_CONSUMED" (open_of input.sales_order db)) refl c)
]
