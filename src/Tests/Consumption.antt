-- ===== src/Tests/Consumption.antt =====
-- An order whose reserved stock goes out once, with its invoice or by its dispatch.
use pasalho.Prelude.{◌≡◌, refl, inl, none, some, [], ◌∷◌, arith}
use pasalho.Prelude.Int.{pos, ◌+ℤ◌, -ℤ◌}
use pasalho.Prelude.Result.{Result, ok, err, for_each, app_error, conflict}
use pasalho.Prelude.Loops.{Ensures}
use pasalho.Audit
use pasalho.Inventory.Data.{
  StockKey, StockState, Inventory, MovementType, ReservationStatus, same_key,
}
use pasalho.Inventory.Snapshots.{on_hand, find_snapshot, update_snapshot}
use pasalho.Inventory.Ledger.{
  post_event, post_new_event, create_event, create_movement, apply_movement, apply_snapshot,
  existing_event, find_event, has_key,
}
use pasalho.Inventory.Ledger.Effects.{IsConsistent, recorded}
use pasalho.Inventory.Consumption.{
  Consumed, ConsumeInput, DispatchInput, consume, consume_for_order, consume_for_online_dispatch,
  dispatch_open, movements_of, mark_consumed, filter,
}
use pasalho.Inventory.Consumption.Dispatch.{dispatch_once}
use pasalho.Inventory.Consumption.Once.{consume_for_order_once}
use pasalho.Inventory.Consumption.Takes.{IsSold, consume_for_order-IsSold}

abbrev rice : StockKey
rice = record { location = 1; product = 2; batch = some 11; state = StockState.reserved; unit = 4 }

-- Six units are reserved for order 70.
abbrev store : Inventory
store = record {
  snapshots =
      record {
        key = rice;
        quantity = pos 6;
        base_quantity = pos 6;
        version = 0;
        last_movement = none;
      }
      ∷ [];
  movements =
      record {
        id = 8;
        event = 0;
        branch = 7;
        key = rice;
        quantity_delta = pos 6;
        base_quantity_delta = pos 6;
        movement_type = MovementType.adjustment;
        reference_type = Audit.sales_order;
        reference_id = 70;
        reason_code = some "STOCK_RESERVED";
        created_by = 9;
      }
      ∷ [];
  events = [];
  batches = [];
  reservations =
      record {
        id = 81;
        sales_order = 70;
        location = 1;
        status = ReservationStatus.active;
        created_by = 9;
        items =
            record {
              sales_order_item = 80;
              product = 2;
              batch = some 11;
              unit = 4;
              quantity = pos 6;
              base_quantity = pos 6;
            }
            ∷ [];
      }
      ∷ [];
  audit = [];
  next_id = 100;
}

store-IsConsistent : IsConsistent store
unfolding on_hand recorded
store-IsConsistent = record { totals = λ k. refl; not_negative = omega arith }

abbrev after {ℓ} : {S A : Type ℓ} → S → Result (A × S) → S
after s (ok (a, t)) = t
after s (err e) = s

abbrev invoice : ConsumeInput
invoice = record { sales_order = 70; invoice = 55; branch = 7; created_by = 9 }

abbrev dispatch : DispatchInput
dispatch = record { sales_order = 70; branch = 7; created_by = 9 }

abbrev done : Consumed
done = record { event = 100; reservation_ids = 81 ∷ []; movement_count = 1 }

abbrev sold : Inventory
sold = after store (consume_for_order invoice store)

consume-invoice : consume_for_order invoice store ≡ ok (done, sold)
unfolding consume_for_order consume movements_of mark_consumed filter post_event post_new_event
    create_event create_movement apply_movement apply_snapshot for_each find_snapshot
    update_snapshot same_key existing_event find_event has_key ◌+ℤ◌ -ℤ◌
consume-invoice = refl

consume_for_order-IsSold_example : Ensures (consume_for_order invoice store) (IsSold invoice store)
consume_for_order-IsSold_example = consume_for_order-IsSold invoice store store-IsConsistent

consume_for_order_once_example :
    consume_for_order (record invoice { invoice = 56 }) sold ≡ err (app_error conflict 409)
consume_for_order_once_example =
    consume_for_order_once invoice (record invoice { invoice = 56 }) store sold done refl
      consume-invoice

abbrev sent : Inventory
sent = after store (consume_for_online_dispatch dispatch store)

consume-dispatch : consume_for_online_dispatch dispatch store ≡ ok (some done, sent)
unfolding consume_for_online_dispatch dispatch_open consume movements_of mark_consumed filter
    post_event post_new_event create_event create_movement apply_movement apply_snapshot for_each
    find_snapshot update_snapshot same_key existing_event find_event has_key ◌+ℤ◌ -ℤ◌
consume-dispatch = refl

dispatch_once_example : consume_for_online_dispatch dispatch sent ≡ ok (none, sent)
dispatch_once_example =
    dispatch_once dispatch dispatch store sent done ((λ h. inl refl), tt) refl consume-dispatch
