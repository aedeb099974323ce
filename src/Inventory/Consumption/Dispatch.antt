-- ===== src/Inventory/Consumption/Dispatch.antt =====
-- The dispatch of an online order is done once.
use pasalho.Prelude.{
  ℕ, ◌≡◌, refl, ◌⊎◌, all, Bool, true, false, none, some, List, [], ◌∷◌, ◌==◌, arith, Bool-cases,
  inl, inr, All, if◌then◌else◌,
}
use pasalho.Prelude.Result.{ok}
use pasalho.Prelude.Loops.{Ensures, Ensures-then, Ensures-ok}
use pasalho.Inventory.Data.{Reservation, consumed, Inventory}
use pasalho.Inventory.Consumption.{
  Consumed, DispatchInput, consume, consume_for_online_dispatch, dispatch_open, dispatch_event,
  movements_of, mark_consumed, is_open, is_active, is_consumed, filter, is_empty, open_of, prior_of,
  all_consumed,
}
use pasalho.Inventory.Consumption.Once.{consume-marks, none_open}

-- A reservation of the order that is open or has been consumed, or one of another order.
abbrev pub IsLive : ℕ → Reservation → Type 0
IsLive order r =
    (r.sales_order == order) ≡ true → (is_active r.status ≡ true) ⊎ (is_consumed r.status ≡ true)

marked_is_consumed :
    (order : ℕ) (r : Reservation)
    → IsLive order r
    → (r.sales_order == order) ≡ true
    → is_consumed (if is_active r.status then record r { status = consumed } else r).status ≡ true
marked_is_consumed order r live h = elim (live h) [
  | inl a ↦ ground (arith, a, h)
  | inr c ↦ ground (arith, c, h)
]

marked_order :
    (order : ℕ) (r : Reservation)
    → (if is_open order r then record r { status = consumed } else r).sales_order ≡ r.sales_order
marked_order order r = ground arith

abbrev of_order : ℕ → Reservation → Bool
of_order order r = r.sales_order == order

all_marked :
    (order : ℕ) (rs : List Reservation)
    → All (IsLive order) rs
    → all
        (λ (r : Reservation). is_consumed r.status)
        (filter (of_order order) (mark_consumed order rs))
      ≡ true
unfolding filter mark_consumed
all_marked order [] h = refl
all_marked order (r ∷ rs) (p, h) = elim (Bool-cases (r.sales_order == order)) [
  | inl same ↦
      let marked = marked_is_consumed order r p same in
      rw (marked_order order r, same, marked) (all_marked order rs h)
  | inr other ↦ rw (marked_order order r, other) (all_marked order rs h)
]

some_marked :
    (order : ℕ) (rs : List Reservation)
    → is_empty (filter (is_open order) rs) ≡ false
    → is_empty (filter (of_order order) (mark_consumed order rs)) ≡ false
unfolding filter mark_consumed
some_marked order [] h = h
some_marked order (r ∷ rs) h = elim (Bool-cases (r.sales_order == order)) [
  | inl same ↦ rw (marked_order order r, same) refl
  | inr other ↦
      let h' : is_empty (filter (is_open order) rs) ≡ false = ground (arith, h, other) in
      rw (marked_order order r, other) (some_marked order rs h')
]

all_consumed_intro :
    (rs : List Reservation)
    → is_empty rs ≡ false
    → all (λ (r : Reservation). is_consumed r.status) rs ≡ true
    → all_consumed rs ≡ true
all_consumed_intro [] h k = absurd (ground (arith, h))
all_consumed_intro (r ∷ rs) h k = k

dispatch_marks :
    (input : DispatchInput) (rs : List Reservation) (db : Inventory)
    → Ensures
        (dispatch_open input rs db)
        (λ t. t.reservations ≡ mark_consumed input.sales_order db.reservations)
unfolding dispatch_open
dispatch_marks input rs db =
    let P : Inventory → Type 0 =
      λ t. t.reservations ≡ mark_consumed input.sales_order db.reservations in
    let ms = movements_of "ONLINE_ORDER_DISPATCHED" rs in
    Ensures-then P P (consume input.sales_order (dispatch_event input) ms rs db)
      (λ c t. ok (some c, t)) (consume-marks input.sales_order (dispatch_event input) ms rs db)
      (λ c t h. h)

processed_when_all_consumed :
    (input : DispatchInput) (db : Inventory)
    → open_of input.sales_order db ≡ []
    → all_consumed (prior_of input.sales_order db) ≡ true
    → consume_for_online_dispatch input db ≡ ok (none, db)
unfolding consume_for_online_dispatch
processed_when_all_consumed input db h k = rw (h, k) refl

first_dispatch :
    (input : DispatchInput) (db t : Inventory) (c : Consumed)
    → consume_for_online_dispatch input db ≡ ok (some c, t)
    → (is_empty (open_of input.sales_order db) ≡ false)
      × (dispatch_open input (open_of input.sales_order db) db ≡ ok (some c, t))
unfolding consume_for_online_dispatch
first_dispatch input db t c h = (ground (arith, h), ground (arith, h))

-- When an order whose reservations are all open or consumed has been dispatched, a second dispatch
-- of the order reports that it is done and changes nothing.
pub dispatch_once :
    (input again : DispatchInput) (db t : Inventory) (c : Consumed)
    → All (IsLive input.sales_order) db.reservations
    → again.sales_order ≡ input.sales_order
    → consume_for_online_dispatch input db ≡ ok (some c, t)
    → consume_for_online_dispatch again t ≡ ok (none, t)
dispatch_once input again db t c live same h =
    let order = input.sales_order in
    let (some_open, step) = first_dispatch input db t c h in
    let rs =
      Ensures-ok (λ t. t.reservations ≡ mark_consumed order db.reservations)
        (dispatch_open input (open_of order db) db) (dispatch_marks input (open_of order db) db)
        step in
    processed_when_all_consumed again t (rw (same, rs) (none_open order db.reservations)) (
      rw (same, rs)
        (all_consumed_intro (filter (of_order order) (mark_consumed order db.reservations))
          (some_marked order db.reservations some_open) (all_marked order db.reservations live)))
