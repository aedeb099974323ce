-- ===== src/Tests/Stock.antt =====
-- The stock ledger, reservations and allocations on a small inventory.
use pasalho.Prelude.{
  ℕ, ◌≡◌, refl, true, Option, none, some, List, [], ◌∷◌, arith, if◌then◌else◌, is_some, All, ◌⊎◌,
}
use pasalho.Prelude.Int.{ℤ, pos, negsuc, ◌+ℤ◌, ◌-ℤ◌, ◌*ℤ◌, -ℤ◌, ◌≤ℤ◌, ◌<ℤ◌, sum_by, round_div}
use pasalho.Prelude.Result.{Result, ok, err, for_each, app_error, insufficient_stock}
use pasalho.Prelude.Loops.{Ensures, Returns}
use pasalho.Audit
use pasalho.Inventory.Data.{
  StockKey, available, reserved, Snapshot, Movement, MovementType, stock_in, EventType, EventKey,
  PostEventInput, Inventory, Batch, BatchStatus, same_key, same_unit_free_key,
}
use pasalho.Inventory.Snapshots.{
  on_hand, at_key, find_snapshot, update_snapshot, create_snapshot, delete_snapshot, collides,
}
use pasalho.Inventory.Ledger.{
  post_event, post_new_event, create_event, create_movement, apply_movement, apply_snapshot,
  existing_event, find_event, has_key,
}
use pasalho.Inventory.Ledger.Effects.{IsConsistent, recorded, delta}
use pasalho.Inventory.Ledger.Posting.{
  post_event-IsConsistent, on_hand-post_event, post_event_replay,
}
use pasalho.Inventory.Reservation.{
  ReserveStockInput, key_of, reserve, release, deduct_available, deduct_reserved, add_to,
}
use pasalho.Inventory.Reservation.Totals.{on_hand-reserve, reserve-IsConsistent}
use pasalho.Inventory.Reservation.Outcome.{HasRoom, Covers, reserve_outcome}
use pasalho.Inventory.Reservation.RoundTrip.{release-reserve}
use pasalho.Inventory.Allocation.{
  ItemInput, Allocation, Candidate, candidates, candidate_of, insert, comes_first, allocate,
  allocations_from, choose_allocations, reserve_sales_order_item, find_batch, is_eligible,
}
use pasalho.Inventory.Allocation.Cover.{allocations_from-IsExact, total_allocated, TakesInOrder}
use pasalho.Inventory.Allocation.Expiry.{candidates_first_expired_first, IsSaleable, InExpiryOrder}
use pasalho.Inventory.Allocation.Line.{taken, reserve_sales_order_item_exact}

abbrev rice : ℕ → StockKey
rice batch = record { location = 1; product = 2; batch = some batch; state = available; unit = 4 }

abbrev row : ℕ → ℕ → Snapshot
row batch n = record {
  key = rice batch;
  quantity = pos n;
  base_quantity = pos n;
  version = 0;
  last_movement = none;
}

abbrev entry : ℕ → ℕ → Movement
entry batch n = record {
  id = batch;
  event = 0;
  branch = 7;
  key = rice batch;
  quantity_delta = pos n;
  base_quantity_delta = pos n;
  movement_type = stock_in;
  reference_type = Audit.goods_receipt;
  reference_id = 0;
  reason_code = none;
  created_by = 9;
}

abbrev lot : ℕ → Option ℕ → Batch
lot id date = record {
  id = id;
  product = 2;
  status = BatchStatus.active;
  expiry_date = date;
  created_at = id;
}

-- Batch 10 holds 5 and never expires, batch 11 holds 8 and expires on day 40.
abbrev store : Inventory
store = record {
  snapshots = row 10 5 ∷ row 11 8 ∷ [];
  movements = entry 10 5 ∷ entry 11 8 ∷ [];
  events = [];
  batches = lot 10 none ∷ lot 11 (some 40) ∷ [];
  reservations = [];
  audit = [];
  next_id = 100;
}

store-IsConsistent : IsConsistent store
unfolding on_hand recorded
store-IsConsistent = record { totals = λ k. refl; not_negative = omega arith }

abbrev sale : PostEventInput
sale = record {
  event_type = EventType.sale_deducted;
  branch = 7;
  reference_type = Audit.invoice;
  reference_id = 55;
  created_by = 9;
  approved_by = none;
  idempotency_key = some (EventKey.invoice_post 55);
  movements =
      record {
        key = rice 11;
        quantity_delta = negsuc 2;
        base_quantity_delta = negsuc 2;
        movement_type = MovementType.sale_deduction;
        reason_code = some "INVOICE_SALE";
      }
      ∷ [];
}

abbrev oversale : PostEventInput
oversale = record sale {
  movements =
      record {
        key = rice 11;
        quantity_delta = negsuc 8;
        base_quantity_delta = negsuc 8;
        movement_type = MovementType.sale_deduction;
        reason_code = some "INVOICE_SALE";
      }
      ∷ [];
}

oversale_refused : post_event oversale store ≡ err (app_error insufficient_stock 422)
unfolding post_event post_new_event create_event create_movement apply_movement apply_snapshot
    for_each find_snapshot same_key find_event has_key ◌+ℤ◌
oversale_refused = refl

post_event-IsConsistent_example : Ensures (post_event sale store) IsConsistent
post_event-IsConsistent_example = post_event-IsConsistent sale store store-IsConsistent

on_hand-post_event_example : Ensures (post_event sale store) (λ t.
    on_hand (rice 11) t.snapshots
    ≡ on_hand (rice 11) store.snapshots
      +ℤ (if is_some (existing_event sale.idempotency_key store.events)
          then pos 0
          else delta (rice 11) sale.movements))
on_hand-post_event_example = on_hand-post_event sale (rice 11) store

abbrev after {ℓ} : {S A : Type ℓ} → S → Result (A × S) → S
after s (ok (a, t)) = t
after s (err e) = s

post_sale : post_event sale store ≡ ok (100, after store (post_event sale store))
unfolding post_event post_new_event create_event create_movement apply_movement apply_snapshot
    for_each find_snapshot update_snapshot same_key find_event has_key ◌+ℤ◌
post_sale = refl

post_event_replay_example :
    post_event oversale (after store (post_event sale store))
    ≡ ok (100, after store (post_event sale store))
post_event_replay_example =
    post_event_replay (EventKey.invoice_post 55) sale oversale store refl refl post_sale

abbrev wish : ReserveStockInput
wish = record {
  branch = 7;
  location = 1;
  product = 2;
  batch = some 11;
  unit = 4;
  quantity = pos 6;
  base_quantity = pos 6;
  reference_type = Audit.sales_order;
  reference_id = 70;
  created_by = 9;
}

abbrev held : Inventory
held = after store (reserve wish store)

reserve-wish : reserve wish store ≡ ok ((100, pos 6), held)
unfolding reserve deduct_available add_to create_event create_movement find_snapshot update_snapshot
    create_snapshot collides same_key same_unit_free_key ◌+ℤ◌ ◌-ℤ◌ ◌*ℤ◌ -ℤ◌ round_div
reserve-wish = refl

on_hand-reserve_example :
    on_hand (rice 11) held.snapshots
    ≡ on_hand (rice 11) store.snapshots
      +ℤ at_key (key_of wish available) (rice 11) (-ℤ◌ (pos 6))
      +ℤ at_key (key_of wish reserved) (rice 11) (pos 6)
on_hand-reserve_example = on_hand-reserve wish store held (100, pos 6) (rice 11) reserve-wish

reserve-IsConsistent_example : IsConsistent held
reserve-IsConsistent_example =
    reserve-IsConsistent wish store held (100, pos 6) store-IsConsistent reserve-wish

abbrev freed : Inventory
freed = after held (release wish held)

release-wish : release wish held ≡ ok ((103, pos 6), freed)
unfolding reserve release deduct_reserved deduct_available add_to create_event create_movement
    find_snapshot update_snapshot delete_snapshot create_snapshot collides same_key
    same_unit_free_key ◌+ℤ◌ ◌-ℤ◌ ◌*ℤ◌ -ℤ◌ round_div
release-wish = refl

release-reserve_example :
    (r' : ℕ × ℤ) × (u : Inventory) × (release wish held ≡ ok (r', u))
    × ((k : StockKey) → on_hand k u.snapshots ≡ on_hand k store.snapshots)
release-reserve_example =
    release-reserve wish store held (100, pos 6) store-IsConsistent reserve-wish

abbrev line : ItemInput
line = record {
  stock = record wish { batch = none; quantity = pos 10; base_quantity = pos 10 };
  sales_order_item = 80;
  reservation = 81;
  is_batch_tracked = true;
}

-- Batch 11 expires first and is used up; batch 10 gives the rest.
choose_line :
    choose_allocations 30 line store
    ≡ ok (
        record { batch = some 11; quantity = pos 8; base_quantity = pos 8 }
        ∷ record { batch = some 10; quantity = pos 2; base_quantity = pos 2 }
        ∷ [])
unfolding choose_allocations allocations_from candidates candidate_of insert comes_first allocate
    sum_by ◌+ℤ◌ ◌-ℤ◌ ◌*ℤ◌ round_div find_batch is_eligible
choose_line = refl

abbrev offered : List Candidate
offered = candidates 30 line.stock store.batches store.snapshots

candidates_first_expired_first_example : All (IsSaleable 30) offered × InExpiryOrder offered
candidates_first_expired_first_example =
    candidates_first_expired_first 30 line.stock store.batches store.snapshots

abbrev two : List Candidate
two =
    record {
      batch = 11;
      quantity = pos 8;
      base_quantity = pos 8;
      expiry_date = some 40;
      created_at = 11;
    }
    ∷ record {
      batch = 10;
      quantity = pos 5;
      base_quantity = pos 5;
      expiry_date = none;
      created_at = 10;
    }
    ∷ []

allocations_from-IsExact_example :
    ((list : List Allocation) × (allocations_from line.stock two ≡ ok list)
      × (total_allocated list ≡ pos 10)
      × TakesInOrder two list
      × (pos 10 ≤ℤ sum_by (λ (c : Candidate). c.base_quantity) two))
    ⊎ ((allocations_from line.stock two ≡ err (app_error insufficient_stock 422))
        × (sum_by (λ (c : Candidate). c.base_quantity) two <ℤ pos 10))
allocations_from-IsExact_example =
    allocations_from-IsExact line.stock two (omega arith) (omega arith)

reserve_sales_order_item_exact_example : Returns (reserve_sales_order_item 30 line store) (λ list t.
    (total_allocated list ≡ pos 10)
    × IsConsistent t
    × ((k : StockKey)
        → on_hand k t.snapshots ≡ on_hand k store.snapshots +ℤ sum_by (taken k line.stock) list))
reserve_sales_order_item_exact_example =
    reserve_sales_order_item_exact 30 line store (omega arith) store-IsConsistent

store-HasRoom : HasRoom wish store.snapshots
unfolding collides same_key same_unit_free_key
store-HasRoom h = refl

reserve_outcome_example :
    ((r : ℕ × ℤ) × (t : Inventory) × (reserve wish store ≡ ok (r, t)) × Covers wish store.snapshots)
    ⊎ ((reserve wish store ≡ err (app_error insufficient_stock 422))
        × (Covers wish store.snapshots → ⊥))
reserve_outcome_example = reserve_outcome wish store (omega arith) store-HasRoom
