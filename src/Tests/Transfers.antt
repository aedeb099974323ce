-- ===== src/Tests/Transfers.antt =====
-- A transfer of two units to a store.
use pasalho.Prelude.{
  ℕ, Bool, true, false, ◌≡◌, refl, none, some, [], ◌∷◌, arith, find_row, update_row,
}
use pasalho.Prelude.Int.{pos, ◌+ℤ◌, -ℤ◌}
use pasalho.Prelude.Result.{Result, ok, err, for_each, app_error, conflict}
use pasalho.Prelude.Loops.{Ensures, Ensures-ok}
use pasalho.Audit
use pasalho.Inventory.Data.{
  StockKey, StockState, MovementType, EventKey, same_event_key, same_key, same_unit_free_key,
}
use pasalho.Inventory.Snapshots.{on_hand, find_snapshot, update_snapshot, create_snapshot, collides}
use pasalho.Inventory.Ledger.{
  post_event, post_new_event, create_event, create_movement, apply_movement, apply_snapshot,
  existing_event, find_event, has_key,
}
use pasalho.Inventory.Ledger.Effects.{recorded, delta}
use pasalho.Inventory.Transfer.{
  TransferStatus, TransferItem, Transfer, Depot, in_stock, find_transfer, locked_transfer,
  dispatch_movements, receipt_movements, begin_idempotency, complete_idempotency, dispatch_in,
  dispatch_found, dispatch_confirmed, dispatched_by, key_of,
}
use pasalho.Inventory.Transfer.Receipt.{
  ReceiptInput, acknowledge, acknowledge_found, receive, received_row, received_items,
  check_receipt, received_from, expected_from, add_quantity, quantity_of, all_received,
}
use pasalho.Inventory.Transfer.Custody.{StockIsConsistent, delta-receipt}
use pasalho.Inventory.Transfer.Receipt.Exact.{got, sent, check_receipt-exact}
use pasalho.Inventory.Transfer.Once.{HasOtherEvents, dispatch_transfer_once}
use pasalho.Inventory.Transfer.Moves.{HasChanged, shipped, cleared, transfers-HaveChanged}
use pasalho.Inventory.Transfer.Sync.{dispatch, audited}

abbrev rice : TransferItem
rice = record {
  product = 2;
  batch = some 11;
  unit = 4;
  quantity = pos 2;
  base_quantity = pos 2;
  received_quantity = none;
  received_base_quantity = none;
}

abbrev transfer : Transfer
transfer = record {
  id = 90;
  from_branch = 7;
  from_location = 1;
  to_branch = 8;
  to_branch_code = 800;
  status = TransferStatus.confirmed;
  created_by = 9;
  dispatched_by = none;
  items = rice ∷ [];
}

abbrev shelf : StockKey
shelf = key_of transfer rice StockState.available

abbrev depot : Depot
depot = record {
  stock = record {
    snapshots =
        record {
          key = shelf;
          quantity = pos 6;
          base_quantity = pos 6;
          version = 0;
          last_movement = none;
        }
        ∷ [];
    movements =
        record {
          id = 8;
          event = 0;
          branch = 7;
          key = shelf;
          quantity_delta = pos 6;
          base_quantity_delta = pos 6;
          movement_type = MovementType.stock_in;
          reference_type = Audit.goods_receipt;
          reference_id = 0;
          reason_code = none;
          created_by = 9;
        }
        ∷ [];
    events = [];
    batches = [];
    reservations = [];
    audit = [];
    next_id = 100;
  };
  transfers = transfer ∷ [];
  dispatches = [];
  receipts = [];
}

depot-StockIsConsistent : StockIsConsistent depot
unfolding on_hand recorded
depot-StockIsConsistent = record { totals = λ k. refl; not_negative = omega arith }

abbrev hash : ℕ → ℕ
hash id = id

abbrev receipt_hash : ℕ → ReceiptInput → ℕ
receipt_hash id input = id

abbrev receipt : ReceiptInput
receipt = record {
  destination_branch_code = 800;
  items = record { product = 2; quantity = pos 2 } ∷ [];
}

abbrev after {ℓ} : {S A : Type ℓ} → S → Result (A × S) → S
after s (ok (a, t)) = t
after s (err e) = s

abbrev sent_off : Depot
sent_off = after depot (dispatch_in hash 90 9 60 depot)

dispatch-transfer : dispatch_in hash 90 9 60 depot ≡ ok (dispatched_by 9 transfer, sent_off)
unfolding dispatch_in dispatch_found dispatch_confirmed locked_transfer in_stock begin_idempotency
    complete_idempotency dispatch_movements find_row update_row post_event post_new_event
    create_event create_movement apply_movement apply_snapshot for_each find_snapshot
    update_snapshot create_snapshot collides same_key same_unit_free_key existing_event find_event
    has_key same_event_key ◌+ℤ◌ -ℤ◌
dispatch-transfer = refl

found_transfer : find_transfer 90 depot.transfers ≡ some transfer
unfolding find_row
found_transfer = refl

found_sent : find_transfer 90 sent_off.transfers ≡ some (dispatched_by 9 transfer)
unfolding dispatch_in dispatch_found dispatch_confirmed locked_transfer in_stock begin_idempotency
    complete_idempotency dispatch_movements find_row update_row post_event post_new_event
    create_event create_movement apply_movement apply_snapshot for_each find_snapshot
    update_snapshot create_snapshot collides same_key same_unit_free_key existing_event find_event
    has_key same_event_key ◌+ℤ◌ -ℤ◌
found_sent = refl

abbrev WasShipped : Depot → Type 0
WasShipped v = HasChanged (EventKey.transfer_dispatch 90) (shipped transfer) depot.stock v.stock

abbrev WasCleared : Depot → Type 0
WasCleared v =
    HasChanged (EventKey.transfer_receive_origin 90) (cleared (dispatched_by 9 transfer))
      sent_off.stock v.stock

sent_off-StockIsConsistent : StockIsConsistent sent_off
sent_off-StockIsConsistent =
    (Ensures-ok WasShipped (dispatch_in hash 90 9 60 depot)
      (transfers-HaveChanged hash receipt_hash 90 9 60 depot transfer 90 61 receipt depot transfer
        depot-StockIsConsistent found_transfer refl depot-StockIsConsistent found_transfer refl).0
      dispatch-transfer).0

-- The receipt of what was sent goes through.
abbrev home : Depot
home = after sent_off (acknowledge receipt_hash 90 receipt 61 sent_off)

acknowledge-transfer :
    acknowledge receipt_hash 90 receipt 61 sent_off
    ≡ ok (received_row (dispatched_by 9 transfer), home)
unfolding dispatch_in dispatch_found dispatch_confirmed locked_transfer in_stock begin_idempotency
    complete_idempotency dispatch_movements find_row update_row post_event post_new_event
    create_event create_movement apply_movement apply_snapshot for_each find_snapshot
    update_snapshot create_snapshot collides same_key same_unit_free_key existing_event find_event
    has_key same_event_key ◌+ℤ◌ -ℤ◌ acknowledge acknowledge_found receive received_items
    receipt_movements check_receipt received_from expected_from add_quantity quantity_of
    all_received
acknowledge-transfer = refl

transfers-HaveChanged_example :
    Ensures (dispatch_in hash 90 9 60 depot) WasShipped
    × Ensures (acknowledge receipt_hash 90 receipt 61 sent_off) WasCleared
transfers-HaveChanged_example =
    transfers-HaveChanged hash receipt_hash 90 9 60 depot transfer 90 61 receipt sent_off
      (dispatched_by 9 transfer) depot-StockIsConsistent found_transfer refl
      sent_off-StockIsConsistent found_sent refl

abbrev configured : ℕ → Bool
configured event = true

abbrev unreachable : ℕ → Bool
unreachable event = false

dispatch_transfer_once_example :
    (dispatch_in hash 90 5 62 sent_off ≡ ok (dispatched_by 9 transfer, sent_off))
    × HasOtherEvents
        (audited 5 90 sent_off)
        (dispatch configured unreachable hash 90 5 (some 62) sent_off).1
dispatch_transfer_once_example =
    dispatch_transfer_once configured unreachable hash 90 9 60 5 62 depot sent_off
      (dispatched_by 9 transfer) dispatch-transfer

delta-receipt_example :
    delta (key_of transfer rice StockState.in_transit) (dispatch_movements transfer (rice ∷ []))
    ≡ -ℤ◌ (
        delta (key_of transfer rice StockState.in_transit) (receipt_movements transfer (rice ∷ [])))
delta-receipt_example =
    delta-receipt transfer (rice ∷ []) (key_of transfer rice StockState.in_transit) refl

-- A receipt of one unit too few is refused.
short_receipt :
    check_receipt transfer
      (record receipt { items = record { product = 2; quantity = pos 1 } ∷ [] })
    ≡ err (app_error conflict 409)
unfolding check_receipt received_from expected_from add_quantity quantity_of all_received
short_receipt = refl

full_receipt : check_receipt transfer receipt ≡ ok tt
unfolding check_receipt received_from expected_from add_quantity quantity_of all_received
full_receipt = refl

check_receipt-exact_example : got 2 receipt.items ≡ sent 2 transfer.items
check_receipt-exact_example = check_receipt-exact transfer receipt 2 full_receipt refl
