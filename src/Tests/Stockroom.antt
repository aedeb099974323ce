-- ===== src/Tests/Stockroom.antt =====
-- An adjustment, a damage report and a count of six units on a shelf.
use pasalho.Prelude.{
  ◌≡◌, refl, none, some, [], ◌∷◌, Bool-cases, inl, inr, ◌==◌, find_row, update_row,
}
use pasalho.Prelude.Int.{pos, ◌+ℤ◌, -ℤ◌}
use pasalho.Prelude.Result.{ok, for_each}
use pasalho.Audit.{stock_adjustment, stock_adjustment_posted}
use pasalho.Inventory.Data.{StockKey, StockState, same_event_key, same_key, same_unit_free_key}
use pasalho.Inventory.Snapshots.{on_hand, find_snapshot, update_snapshot, create_snapshot, collides}
use pasalho.Inventory.Ledger.{
  post_event, post_new_event, create_event, create_movement, apply_movement, apply_snapshot,
  existing_event, find_event, has_key,
}
use pasalho.Inventory.Stockroom.{
  AdjustmentStatus, DamageStatus, CountStatus, AdjustmentItem, Adjustment, DamageReport, StockCount,
  Stockroom, audited,
}
use pasalho.Inventory.Adjustment
use pasalho.Inventory.Adjustment.{with_found, post_stock, post_interrupted, id_of, posted_row}
use pasalho.Inventory.Adjustment.Safety.{
  IsBacked, Reach, reachable-IsBacked, step_post, step_interrupted,
}
use pasalho.Inventory.Adjustment.Retry.{post_after_interruption}
use pasalho.Inventory.Damage.{
  post_report, post_report_found, with_found_report, damage_movements, posted_report,
}
use pasalho.Inventory.Damage.Moves.{at, newly_damaged, post_report-moves}
use pasalho.Inventory.Count.Reconcile

abbrev shelf : StockKey
shelf = record {
  location = 1;
  product = 2;
  batch = some 11;
  state = StockState.available;
  unit = 4;
}

abbrev item : AdjustmentItem
item = record {
  product = 2;
  batch = some 11;
  unit = 4;
  stock_state = StockState.available;
  quantity_delta = -ℤ◌ (pos 2);
  base_quantity_delta = -ℤ◌ (pos 2);
  reason_code = none;
}

abbrev adjustment : Adjustment
adjustment = record {
  id = 90;
  adjustment_no = 1;
  branch = 7;
  warehouse = 6;
  location = 1;
  status = AdjustmentStatus.approved;
  created_by = 9;
  submitted_by = some 9;
  approved_by = some 8;
  posted_by = none;
  items = item ∷ [];
}

abbrev broken : DamageReport
broken = record {
  id = 91;
  report_no = 1;
  branch = 7;
  warehouse = 6;
  location = 1;
  status = DamageStatus.approved;
  created_by = 9;
  approved_by = some 8;
  posted_by = none;
  rejection_reason = none;
  items =
      record {
        product = 2;
        batch = some 11;
        unit = 4;
        quantity = pos 1;
        base_quantity = pos 1;
        damage_type = "BROKEN";
      }
      ∷ [];
}

abbrev count : StockCount
count = record {
  id = 92;
  branch = 7;
  warehouse = 6;
  location = 1;
  status = CountStatus.submitted;
  counted_by = 9;
  items =
      record {
        id = 93;
        product = 2;
        batch = some 11;
        unit = 4;
        system_quantity = pos 6;
        counted_quantity = pos 5;
        variance = -ℤ◌ (pos 1);
      }
      ∷ [];
}

abbrev room : Stockroom
room = record {
  stock = record {
    snapshots =
        record {
          key = shelf;
          quantity = pos 6;
          base_quantity = pos 6;
          version = 0;
          last_movement = none;
        }
        ∷ [];
    movements = [];
    events = [];
    batches = [];
    reservations = [];
    audit = [];
    next_id = 100;
  };
  adjustments = adjustment ∷ [];
  damages = broken ∷ [];
  counts = count ∷ [];
}

room-IsBacked : IsBacked room
unfolding find_row find_event
room-IsBacked id = elim (Bool-cases (90 == id)) [ inl e ↦ rw e tt | inr e ↦ rw e refl ]

-- The posting is cut off, and done again.
abbrev interrupted : Stockroom
interrupted = (post_interrupted 90 9 room).1

reachable-IsBacked_example : IsBacked (Adjustment.post 90 10 interrupted).1
reachable-IsBacked_example =
    reachable-IsBacked room-IsBacked (
      Reach.next (Reach.next Reach.here (step_interrupted 90 9 room)) (step_post 90 10 interrupted))

room-interrupted : post_interrupted 90 9 room ≡ (ok adjustment, interrupted)
unfolding post_interrupted with_found post_stock find_row post_event post_new_event create_event
    create_movement apply_movement apply_snapshot for_each find_snapshot update_snapshot
    create_snapshot collides same_key same_unit_free_key existing_event find_event has_key
    same_event_key ◌+ℤ◌ -ℤ◌
room-interrupted = refl

post_after_interruption_example : Adjustment.post 90 10 interrupted ≡ (
  ok (posted_row 10 adjustment),
  audited 10 stock_adjustment_posted stock_adjustment 90 7 (record interrupted {
    adjustments = update_row id_of 90 (posted_row 10) interrupted.adjustments;
  }),
)
post_after_interruption_example =
    post_after_interruption 90 9 10 room interrupted adjustment room-interrupted

abbrev after_damage : Stockroom
after_damage = (post_report 91 9 room).1

room-damaged : post_report 91 9 room ≡ (ok (posted_report 9 broken), after_damage)
unfolding post_report with_found_report post_report_found damage_movements find_row post_event
    post_new_event create_event create_movement apply_movement apply_snapshot for_each find_snapshot
    update_snapshot create_snapshot collides same_key same_unit_free_key existing_event find_event
    has_key same_event_key ◌+ℤ◌ -ℤ◌
room-damaged = refl

post_report-moves_example :
    (on_hand (at shelf StockState.available) after_damage.stock.snapshots
      ≡ on_hand (at shelf StockState.available) room.stock.snapshots
        +ℤ -ℤ◌ (newly_damaged (posted_report 9 broken) shelf room.stock))
    × (on_hand (at shelf StockState.damaged) after_damage.stock.snapshots
        ≡ on_hand (at shelf StockState.damaged) room.stock.snapshots
          +ℤ newly_damaged (posted_report 9 broken) shelf room.stock)
post_report-moves_example =
    post_report-moves 91 9 shelf room after_damage (posted_report 9 broken) room-damaged

abbrev after_count : Stockroom
after_count = (Reconcile.reconcile 77 92 9 room).1

abbrev closed : StockCount
closed = record count { status = CountStatus.reconciled }
