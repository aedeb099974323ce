-- ===== src/Inventory/Transfer/Moves.antt =====
-- What a dispatch and a store receipt move in the stock.
use pasalho.Prelude.{
  ℕ, ◌≡◌, refl, sym, ◌∙◌, ap, false, some, List, [], ◌∷◌, Bool-cases, inl, inr, if◌then◌else◌,
  is_some, update_row, ◌==◌,
}
use mathlib.Core.Path.{subst}
use pasalho.Prelude.Int.{ℤ, pos, ◌+ℤ◌, -ℤ◌, sum_by, int_laws}
use pasalho.Prelude.Result.{Result, Result-cases, ok, err}
use pasalho.Prelude.Loops.{Ensures, Ensures-then, Ensures-intro, Ensures-ok, Ensures-map}
use pasalho.Inventory.Data.{StockKey, StockState, EventKey, EventStatus, PostEventInput, Inventory}
use pasalho.Inventory.Snapshots.{on_hand, at_key}
use pasalho.Inventory.Ledger.{post_event, create_event, existing_event}
use pasalho.Inventory.Ledger.Effects.{IsConsistent, IsConsistent-same, create_event-keeps, delta}
use pasalho.Inventory.Ledger.Posting.{post_event-IsConsistent, on_hand-post_event}
use pasalho.Inventory.Transfer.{
  TransferStatus, TransferItem, Transfer, RequestRecord, Depot, in_stock, locked_transfer,
  find_transfer, with_dispatches, with_receipts, begin_idempotency, complete_idempotency, key_of,
  dispatch_movements, receipt_movements, dispatched_by, dispatch_event, outbox_event,
  dispatch_confirmed, dispatch_found, dispatch_in,
}
use pasalho.Inventory.Transfer.Receipt.{
  ReceiptInput, check_receipt, receipt_event, received_row, receive, is_received, is_on_the_way,
  acknowledge_found, acknowledge,
}
use pasalho.Inventory.Transfer.Custody.{StockIsConsistent, in_stock-Ensures, records-keep}

-- What a dispatch takes from the available stock and puts in transit, and what a receipt clears.
abbrev pub shipped : Transfer → StockKey → ℤ
shipped t k =
    sum_by
      (λ (item : TransferItem).
        at_key (key_of t item StockState.available) k (-ℤ◌ item.base_quantity)
        +ℤ at_key (key_of t item StockState.in_transit) k item.base_quantity)
      t.items

abbrev pub cleared : Transfer → StockKey → ℤ
cleared t k =
    sum_by
      (λ (item : TransferItem).
        at_key (key_of t item StockState.in_transit) k (-ℤ◌ item.base_quantity))
      t.items

regroup : (a b x y : ℤ) → x ≡ y → a +ℤ (b +ℤ x) ≡ a +ℤ b +ℤ y
regroup a b x y h = rw h (omega int_laws)

delta-dispatch :
    (t : Transfer) (k : StockKey) (items : List TransferItem)
    → delta k (dispatch_movements t items)
      ≡ sum_by
          (λ (item : TransferItem).
            at_key (key_of t item StockState.available) k (-ℤ◌ item.base_quantity)
            +ℤ at_key (key_of t item StockState.in_transit) k item.base_quantity)
          items
unfolding delta dispatch_movements sum_by
delta-dispatch t k [] = refl
delta-dispatch t k (item ∷ items) =
    regroup (at_key (key_of t item StockState.available) k (-ℤ◌ item.base_quantity))
      (at_key (key_of t item StockState.in_transit) k item.base_quantity)
      (delta k (dispatch_movements t items)) _ (delta-dispatch t k items)

delta-received :
    (t : Transfer) (k : StockKey) (items : List TransferItem)
    → delta k (receipt_movements t items)
      ≡ sum_by
          (λ (item : TransferItem).
            at_key (key_of t item StockState.in_transit) k (-ℤ◌ item.base_quantity))
          items
unfolding delta receipt_movements sum_by
delta-received t k [] = refl
delta-received t k (item ∷ items) =
    ap (λ x. at_key (key_of t item StockState.in_transit) k (-ℤ◌ item.base_quantity) +ℤ x)
      (delta-received t k items)

-- A movement that is made once: nothing where the event is already known.
abbrev pub once : EventKey → Inventory → ℤ → ℤ
once key db d = if is_some (existing_event (some key) db.events) then pos 0 else d

-- The stock stays consistent and has changed by so much under each key.
abbrev pub HasChanged : EventKey → (StockKey → ℤ) → Inventory → Inventory → Type 0
HasChanged key change db s =
    IsConsistent s
    × ((k : StockKey) → on_hand k s.snapshots ≡ on_hand k db.snapshots +ℤ once key db (change k))

post_event-HasChanged :
    (key : EventKey) (input : PostEventInput) (change : StockKey → ℤ) (db : Inventory)
    → input.idempotency_key ≡ some key
    → ((k : StockKey) → delta k input.movements ≡ change k)
    → IsConsistent db
    → Ensures (post_event input db) (HasChanged key change db)
post_event-HasChanged key input change db keyed total c =
    Ensures-intro (HasChanged key change db) (post_event input db) λ n s done. (
      Ensures-ok IsConsistent (post_event input db) (post_event-IsConsistent input db c) done,
      λ k.
          Ensures-ok
            (λ (t : Inventory).
              on_hand k t.snapshots
              ≡ on_hand k db.snapshots
                +ℤ (if is_some (existing_event input.idempotency_key db.events)
                    then pos 0
                    else delta k input.movements))
            (post_event input db) (on_hand-post_event input k db) done
          ∙ ap
              (λ x.
                on_hand k db.snapshots
                +ℤ (if is_some (existing_event x db.events)
                    then pos 0
                    else delta k input.movements))
              keyed
          ∙ ap (λ x. on_hand k db.snapshots +ℤ once key db x) (total k),
    )

-- A new event without movements leaves the stock as it is.
create_event-HasChanged :
    (key : EventKey) (change : StockKey → ℤ) (db s : Inventory) (input : PostEventInput)
    (status : EventStatus)
    → HasChanged key change db s
    → Ensures (create_event input status s) (HasChanged key change db)
create_event-HasChanged key change db s input status (c, moved) =
    Ensures-map (create_event input status s) (create_event-keeps input status s)
      (λ t same. (IsConsistent-same s t c same, λ k. ap (on_hand k) same.0 ∙ moved k))

receipts-keep :
    (P : Depot → Type 0) (db : Depot) (r : Result (List RequestRecord))
    → ((rs : List RequestRecord) → P (record db { receipts = rs }))
    → Ensures (with_receipts db r) P
receipts-keep P db (ok rs) h = h rs
receipts-keep P db (err e) h = tt

dispatch_confirmed-HasChanged :
    (t : Transfer) (actor key hash : ℕ) (db : Depot)
    → StockIsConsistent db
    → Ensures
        (dispatch_confirmed t actor key hash db)
        (λ v. HasChanged (EventKey.transfer_dispatch t.id) (shipped t) db.stock v.stock)
unfolding dispatch_confirmed
dispatch_confirmed-HasChanged t actor key hash db c =
    let C = HasChanged (EventKey.transfer_dispatch t.id) (shipped t) db.stock in
    let P = λ (v : Depot). C v.stock in
    let outbox = create_event (outbox_event t actor) EventStatus.draft in
    Ensures-then (λ v. v.stock ≡ db.stock) P
      (with_dispatches db (begin_idempotency key hash db.dispatches)) _
      (records-keep (λ (v : Depot). v.stock ≡ db.stock) db
        (begin_idempotency key hash db.dispatches) (λ rs. refl))
      λ u db1 same.
        Ensures-then P P (in_stock (post_event (dispatch_event t actor)) db1) _
          (in_stock-Ensures C (post_event (dispatch_event t actor)) db1 (
            subst (λ (s : Inventory). Ensures (post_event (dispatch_event t actor) s) C) (sym same)
              (post_event-HasChanged (EventKey.transfer_dispatch t.id) (dispatch_event t actor)
                (shipped t) db.stock refl (λ k. delta-dispatch t k t.items) c)))
          λ id db2 c2.
            let db2' : Depot = record db2 {
              transfers =
                  update_row (λ (t : Transfer). t.id) t.id (dispatched_by actor) db2.transfers;
            } in
            Ensures-then P P (in_stock outbox db2') _
              (in_stock-Ensures C outbox db2' (
                create_event-HasChanged (EventKey.transfer_dispatch t.id) (shipped t) db.stock
                  db2.stock (outbox_event t actor) EventStatus.draft c2))
              λ id' db3 c3.
                Ensures-then P P
                  (with_dispatches db3 (complete_idempotency key t.id db3.dispatches)) _
                  (records-keep P db3 (complete_idempotency key t.id db3.dispatches) (λ rs. c3))
                  (λ v db4 c4. c4)

receive-HasChanged :
    (t : Transfer) (key hash : ℕ) (db : Depot)
    → StockIsConsistent db
    → Ensures
        (receive t key hash db)
        (λ v. HasChanged (EventKey.transfer_receive_origin t.id) (cleared t) db.stock v.stock)
unfolding receive
receive-HasChanged t key hash db c =
    let C = HasChanged (EventKey.transfer_receive_origin t.id) (cleared t) db.stock in
    let P = λ (v : Depot). C v.stock in
    Ensures-then (λ v. v.stock ≡ db.stock) P
      (with_receipts db (begin_idempotency key hash db.receipts)) _
      (receipts-keep (λ (v : Depot). v.stock ≡ db.stock) db (begin_idempotency key hash db.receipts)
        (λ rs. refl))
      λ u db1 same.
        Ensures-then P P (in_stock (post_event (receipt_event t)) db1) _
          (in_stock-Ensures C (post_event (receipt_event t)) db1 (
            subst (λ (s : Inventory). Ensures (post_event (receipt_event t) s) C) (sym same)
              (post_event-HasChanged (EventKey.transfer_receive_origin t.id) (receipt_event t)
                (cleared t) db.stock refl (λ k. delta-received t k t.items) c)))
          λ id db2 c2.
            let db3 : Depot = record db2 {
              transfers = update_row (λ (t : Transfer). t.id) t.id received_row db2.transfers;
            } in
            Ensures-then P P (with_receipts db3 (complete_idempotency key t.id db3.receipts)) _
              (receipts-keep P db3 (complete_idempotency key t.id db3.receipts) (λ rs. c2))
              (λ v db4 c4. c4)

acknowledge_found-HasChanged :
    (t : Transfer) (input : ReceiptInput) (key hash : ℕ) (db : Depot)
    → is_received t.status ≡ false
    → StockIsConsistent db
    → Ensures
        (acknowledge_found t input key hash db)
        (λ v. HasChanged (EventKey.transfer_receive_origin t.id) (cleared t) db.stock v.stock)
unfolding acknowledge_found
acknowledge_found-HasChanged t input key hash db new c =
    elim (Bool-cases (is_on_the_way t.status)) [
      | inr e ↦ rw (e, Ensures) tt
      | inl e ↦ elim (Bool-cases (t.to_branch_code == input.destination_branch_code)) [
        | inr e1 ↦ rw (e, e1, Ensures) tt
        | inl e1 ↦ elim (Result-cases (check_receipt t input)) [
          | inr (x, e2) ↦ rw (e, e1, e2, Ensures) tt
          | inl (u, e2) ↦ rw (e, e1, e2, new, Ensures) (receive-HasChanged t key hash db c)
        ]
      ]
    ]

-- From a consistent stock, the dispatch of a confirmed transfer moves the base quantity of each item
-- from the AVAILABLE stock at the origin to the stock IN_TRANSIT there, and the acknowledged receipt
-- of one that has not been received takes it out of the stock IN_TRANSIT, each once only: nothing is
-- moved where the event of the transfer is already known. No other stock changes, and the stock stays
-- consistent.
pub transfers-HaveChanged :
    (dispatch_hash : ℕ → ℕ) (receipt_hash : ℕ → ReceiptInput → ℕ) (id actor key : ℕ) (db : Depot)
    (t : Transfer) (id' key' : ℕ) (input : ReceiptInput) (db' : Depot) (t' : Transfer)
    → StockIsConsistent db
    → find_transfer id db.transfers ≡ some t
    → t.status ≡ TransferStatus.confirmed
    → StockIsConsistent db'
    → find_transfer id' db'.transfers ≡ some t'
    → is_received t'.status ≡ false
    → Ensures
        (dispatch_in dispatch_hash id actor key db)
        (λ v. HasChanged (EventKey.transfer_dispatch t.id) (shipped t) db.stock v.stock)
      × Ensures
          (acknowledge receipt_hash id' input key' db')
          (λ v. HasChanged (EventKey.transfer_receive_origin t'.id) (cleared t') db'.stock v.stock)
unfolding dispatch_in acknowledge dispatch_found locked_transfer
transfers-HaveChanged dispatch_hash receipt_hash id actor key db t id' key' input db' t' c found
      ready c' found' new =
    (
      rw (found, ready, Ensures)
          (dispatch_confirmed-HasChanged t actor key (dispatch_hash id) db c),
      rw (found', Ensures)
          (acknowledge_found-HasChanged t' input key' (receipt_hash id' input) db' new c'),
    )
