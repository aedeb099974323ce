-- ===== src/Inventory/Transfer/Once.antt =====
-- A transfer is dispatched once.
use pasalho.Prelude.{
  ℕ, ◌≡◌, refl, ◌∙◌, sym, ap, Bool, true, false, some, List, arith, Bool-cases, Option-cases, inl,
  inr, update_row, find_row-update_row, find_row-id,
}
use pasalho.Prelude.Result.{Result-cases, ok, transaction}
use pasalho.Prelude.Loops.{
  Ensures-map, Returns, Returns-then, Returns-ok, Returns-map, Returns_of_Ensures,
}
use pasalho.Inventory.Data.{Event, EventStatus, EventKey}
use pasalho.Inventory.Ledger.{post_event, create_event, find_event}
use pasalho.Inventory.Transfer.{
  TransferStatus, Transfer, Depot, in_stock, locked_transfer, find_transfer, with_dispatches,
  begin_idempotency, complete_idempotency, dispatched_by, dispatch_in, dispatch_found,
  dispatch_confirmed, dispatch_event, outbox_event,
}
use pasalho.Inventory.Transfer.Custody.{in_stock-transfers, records-keep}
use pasalho.Inventory.Transfer.Sync.{
  set_event_status, is_posted, audited, deliver_store_sync, notify_store_sync, notify_found,
  dispatch,
}

abbrev is_dispatched : TransferStatus → Bool
is_dispatched TransferStatus.in_transit = true
is_dispatched TransferStatus.shipped = true
is_dispatched TransferStatus.received = true
is_dispatched _ = false

dispatch_confirmed-transfers :
    (t : Transfer) (actor key hash : ℕ) (db : Depot)
    → Returns (dispatch_confirmed t actor key hash db) (λ r v.
      (r ≡ dispatched_by actor t)
      × (v.transfers ≡ update_row (λ (t : Transfer). t.id) t.id (dispatched_by actor) db.transfers))
unfolding dispatch_confirmed
dispatch_confirmed-transfers t actor key hash db =
    let Q = λ (r : Transfer) (v : Depot).
      (r ≡ dispatched_by actor t)
      × (v.transfers
          ≡ update_row (λ (t : Transfer). t.id) t.id (dispatched_by actor) db.transfers) in
    let Before = λ (v : Depot). v.transfers ≡ db.transfers in
    let After = λ (v : Depot).
      v.transfers ≡ update_row (λ (t : Transfer). t.id) t.id (dispatched_by actor) db.transfers in
    let first = with_dispatches db (begin_idempotency key hash db.dispatches) in
    Returns-then (λ u v. Before v) Q first _
      (Returns_of_Ensures Before first
        (records-keep Before db (begin_idempotency key hash db.dispatches) (λ rs. refl)))
      λ u db1 h1.
        let second = in_stock (post_event (dispatch_event t actor)) db1 in
        Returns-then (λ u v. Before v) Q second _
          (Returns_of_Ensures Before second (
            Ensures-map second (in_stock-transfers (post_event (dispatch_event t actor)) db1)
              (λ v e. e ∙ h1)))
          λ id db2 h2.
            let db2' : Depot = record db2 {
              transfers =
                  update_row (λ (t : Transfer). t.id) t.id (dispatched_by actor) db2.transfers;
            } in
            let third = in_stock (create_event (outbox_event t actor) EventStatus.draft) db2' in
            Returns-then (λ u v. After v) Q third _
              (Returns_of_Ensures After third (
                Ensures-map third
                  (in_stock-transfers (create_event (outbox_event t actor) EventStatus.draft) db2')
                  (λ v e.
                    e ∙ ap (update_row (λ (t : Transfer). t.id) t.id (dispatched_by actor)) h2)))
              λ id' db3 h3.
                let fourth = with_dispatches db3 (complete_idempotency key t.id db3.dispatches) in
                Returns-then (λ u v. After v) Q fourth _
                  (Returns_of_Ensures After fourth (
                    records-keep After db3 (complete_idempotency key t.id db3.dispatches)
                      (λ rs. h3)))
                  (λ v db4 h4. (refl, h4))

-- A transfer that has left is returned as it is.
dispatched_again :
    (hash : ℕ → ℕ) (id actor key : ℕ) (v : Depot) (r : Transfer)
    → find_transfer id v.transfers ≡ some r
    → is_dispatched r.status ≡ true
    → dispatch_in hash id actor key v ≡ ok (r, v)
unfolding dispatch_in dispatch_found locked_transfer
dispatched_again hash id actor key v r found left = ground (arith, found, left)

find_transfer_of :
    (id : ℕ) (db : Depot) (t : Transfer)
    → locked_transfer id db ≡ ok t
    → find_transfer id db.transfers ≡ some t
unfolding locked_transfer
find_transfer_of id db t h = ground (arith, h)

-- A transfer that a dispatch returned has left, and stands in the table as it was returned.
dispatch_found-left :
    (t : Transfer) (actor key hash : ℕ) (db : Depot) (s : TransferStatus)
    → t.status ≡ s
    → find_transfer t.id db.transfers ≡ some t
    → Returns
        (dispatch_found t actor key hash db)
        (λ r v. (find_transfer t.id v.transfers ≡ some r) × (is_dispatched r.status ≡ true))
unfolding dispatch_found
dispatch_found-left t actor key hash db TransferStatus.draft e found = rw (e, Returns) tt
dispatch_found-left t actor key hash db TransferStatus.cancelled e found = rw (e, Returns) tt
dispatch_found-left t actor key hash db TransferStatus.in_transit e found =
    rw (e, Returns) (found, rw e refl)
dispatch_found-left t actor key hash db TransferStatus.shipped e found =
    rw (e, Returns) (found, rw e refl)
dispatch_found-left t actor key hash db TransferStatus.received e found =
    rw (e, Returns) (found, rw e refl)
dispatch_found-left t actor key hash db TransferStatus.confirmed e found =
    rw (e, Returns)
      (Returns-map (dispatch_confirmed t actor key hash db)
        (dispatch_confirmed-transfers t actor key hash db)
        (λ r v (same, rows). (
          ap (find_transfer t.id) rows
              ∙ find_row-update_row (λ (t : Transfer). t.id) t.id (dispatched_by actor) db.transfers
                  refl found
              ∙ ap (λ (r : Transfer). some r) (sym same),
          rw same refl,
        )))

-- The transaction of a second dispatch returns the transfer and writes nothing.
dispatch_in_once :
    (hash : ℕ → ℕ) (id actor key again other_key : ℕ) (db v : Depot) (r : Transfer)
    → dispatch_in hash id actor key db ≡ ok (r, v)
    → dispatch_in hash id again other_key v ≡ ok (r, v)
unfolding dispatch_in
dispatch_in_once hash id actor key again other_key db v r h =
    elim (Result-cases (locked_transfer id db)) [
      | inr (x, e) ↦ absurd (ground (arith, h, e))
      | inl (t, e) ↦
          let found = find_transfer_of id db t e in
          let same = find_row-id (λ (t : Transfer). t.id) id db.transfers found in
          let step : dispatch_found t actor key (hash id) db ≡ ok (r, v) = ground (arith, h, e) in
          let found' : find_transfer t.id db.transfers ≡ some t =
            ap (λ k. find_transfer k db.transfers) same ∙ found in
          let (row, left) =
            Returns-ok
              (λ (r : Transfer) (v : Depot).
                (find_transfer t.id v.transfers ≡ some r) × (is_dispatched r.status ≡ true))
              (dispatch_found t actor key (hash id) db)
              (dispatch_found-left t actor key (hash id) db t.status refl found') step in
          dispatched_again hash id again other_key v r
            (ap (λ k. find_transfer k v.transfers) (sym same) ∙ row) left
    ]

-- The second database is the first one, with other rows of events.
abbrev pub HasOtherEvents : Depot → Depot → Type 0
HasOtherEvents db t =
    (es : List Event) × (t ≡ record db { stock = record db.stock { events = es } })

module _ (has_url responds : ℕ → Bool) where
  notify_store_sync-HasOtherEvents :
      (t : Transfer) (db : Depot) → HasOtherEvents db (notify_store_sync has_url responds t db).1
  unfolding notify_store_sync deliver_store_sync
  notify_store_sync-HasOtherEvents t db =
      elim (Option-cases (find_event (EventKey.store_sync t.id) db.stock.events)) [
        | inl e ↦ rw (e, notify_store_sync) (db.stock.events, refl)
        | inr (event, e) ↦ elim (Bool-cases (is_posted event.event_status)) [
          | inl e1 ↦ rw (e, e1, notify_store_sync) (db.stock.events, refl)
          | inr e1 ↦ elim (Bool-cases (has_url event.id)) [
            | inr e2 ↦ rw (e, e1, e2, notify_store_sync) (db.stock.events, refl)
            | inl e2 ↦ elim (Bool-cases (responds event.id)) [
              | inl e3 ↦
                  rw (e, e1, e2, e3, notify_store_sync)
                    ((set_event_status event.id EventStatus.posted db).stock.events, refl)
              | inr e3 ↦
                  rw (e, e1, e2, e3, notify_store_sync)
                    ((set_event_status event.id EventStatus.draft db).stock.events, refl)
            ]
          ]
        ]
      ]

  notify_found-HasOtherEvents :
      (id : ℕ) (db : Depot) → HasOtherEvents db (notify_found has_url responds id db).1
  unfolding notify_found
  notify_found-HasOtherEvents id db = elim (Option-cases (find_transfer id db.transfers)) [
    | inl e ↦ rw (e, notify_found) (db.stock.events, refl)
    | inr (t, e) ↦ rw (e, notify_found) (notify_store_sync-HasOtherEvents t db)
  ]

  -- When a transfer has been dispatched, the transaction of a second dispatch of it, by whomever and
  -- under whatever idempotency key, returns the transfer and writes nothing. The call as a whole adds
  -- one row to the audit log, and apart from that it can only change rows of events: it moves no
  -- stock and leaves the transfers, the reservations and the records of requests as they are.
  pub dispatch_transfer_once :
      (hash : ℕ → ℕ) (id actor key again other_key : ℕ) (db v : Depot) (r : Transfer)
      → dispatch_in hash id actor key db ≡ ok (r, v)
      → (dispatch_in hash id again other_key v ≡ ok (r, v))
        × HasOtherEvents
            (audited again r.id v)
            (dispatch has_url responds hash id again (some other_key) v).1
  unfolding dispatch transaction
  dispatch_transfer_once hash id actor key again other_key db v r h =
      let once = dispatch_in_once hash id actor key again other_key db v r h in
      (
        once,
        rw (once, dispatch, transaction) (notify_found-HasOtherEvents r.id (audited again r.id v)),
      )
