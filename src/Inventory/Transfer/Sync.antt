-- ===== src/Inventory/Transfer/Sync.antt =====
-- `dispatch` of backend/src/inventory/services/stock-transfer.service.ts as a whole: once the
-- transaction has been committed, an audit row is written, and the store is told of the transfer
-- (`notifyStoreSync` and `deliverStoreSync`). `has_url` says whether a URL is configured for an
-- event's delivery, `responds` whether the store's server accepts it. The payload and the other JSON
-- metadata of an event are left out.
use pasalho.Prelude.{ℕ, Bool, true, false, Option, none, some, if◌then◌else◌, update_row}
use pasalho.Prelude.Result.{
  Result, ok, err, app_error, not_found, validation_error, internal_error, Action, transaction,
}
use pasalho.Audit
use pasalho.Audit.{log, stock_transfer_dispatched}
use pasalho.Inventory.Data.{Event, EventStatus, EventKey}
use pasalho.Inventory.Ledger.{find_event}
use pasalho.Inventory.Transfer.{Transfer, Depot, find_transfer, dispatch_in}

abbrev pub is_posted : EventStatus → Bool
is_posted EventStatus.posted = true
is_posted _ = false

-- `inventoryEvent.update` of the status.
abbrev pub set_event_status : ℕ → EventStatus → Depot → Depot
set_event_status id status db = record db {
  stock = record db.stock {
    events =
        update_row (λ (e : Event). e.id) id (λ (e : Event). record e { event_status = status })
          db.stock.events;
  };
}

-- `audit.record` after the transaction.
abbrev pub audited : ℕ → ℕ → Depot → Depot
audited actor id db = record db {
  stock = record db.stock {
    audit =
        log
          (record {
            actor = actor;
            action = stock_transfer_dispatched;
            entity_type = Audit.stock_transfer;
            entity_id = id;
            branch = none;
          })
          db.stock.audit;
  };
}

module _ (has_url responds : ℕ → Bool) where
  -- `deliverStoreSync`, for an event with a URL.
  unfoldable pub deliver_store_sync : Event → Transfer → Action Depot Transfer
  deliver_store_sync e t db =
      if responds e.id
      then (ok t, set_event_status e.id EventStatus.posted db)
      else (err (app_error internal_error 502), set_event_status e.id EventStatus.draft db)

  -- `notifyStoreSync`; the transfer is what the handler returns if nothing is thrown.
  unfoldable pub notify_store_sync : Transfer → Action Depot Transfer
  notify_store_sync t db = elim (find_event (EventKey.store_sync t.id) db.stock.events) [
    | none ↦ (ok t, db)
    | some e ↦
        if is_posted e.event_status
        then (ok t, db)
        else if has_url e.id
        then deliver_store_sync e t db
        else (ok t, db)
  ]

  -- What follows `findById`.
  unfoldable pub notify_found : ℕ → Action Depot Transfer
  notify_found id db = elim (find_transfer id db.transfers) [
    | none ↦ (err (app_error not_found 404), db)
    | some t ↦ notify_store_sync t db
  ]

  abbrev pub after_dispatch : ℕ → Result Transfer × Depot → Result Transfer × Depot
  after_dispatch actor (err e, db) = (err e, db)
  after_dispatch actor (ok t, db) = notify_found t.id (audited actor t.id db)

  -- `dispatch`, and `ship`, which only calls it.
  unfoldable pub dispatch : (ℕ → ℕ) → ℕ → ℕ → Option ℕ → Action Depot Transfer
  dispatch dispatch_hash id actor none db = (err (app_error validation_error 422), db)
  dispatch dispatch_hash id actor (some key) db =
      after_dispatch actor (transaction (dispatch_in dispatch_hash id actor key) db)
