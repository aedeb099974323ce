-- ===== src/Deliveries.antt =====
-- backend/src/deliveries/delivery.service.ts. Its methods read a delivery, check its status and
-- write it without a lock, each in one call here. The rows that a new delivery refers to are taken
-- to exist. `now` is the time of the call, from which a delivery's number is made.
pub mod Life
use Prim.Native.String.{String}
use pasalho.Prelude.{
  ℕ, ◌+◌, Bool, true, false, Option, none, some, List, [], ◌∷◌, ◌++◌, if◌then◌else◌, ◌==◌, not, any,
  length, find_row, update_row,
}
use pasalho.Prelude.Result.{
  Result, ok, err, app_error, not_found, validation_error, p2002, Tx, Action, transaction,
  committed,
}
use pasalho.Audit
use pasalho.Audit.{
  AuditAction, AuditEntry, log, delivery_created, delivery_updated, delivery_completed,
}

pub data DeliveryStatus : Type 0 where
  pending in_transit delivered failed cancelled : DeliveryStatus

pub record DeliveryItem : Type 0 where
  pub id : ℕ
  pub retailer : ℕ
  pub invoice : Option ℕ
  pub order : Option ℕ
  pub notes : Option String
  pub is_delivered : Bool

pub record Delivery : Type 0 where
  pub id : ℕ
  pub delivery_no : ℕ
  pub branch : ℕ
  pub route : Option ℕ
  pub vehicle_ref : Option String
  pub driver_name : Option String
  pub status : DeliveryStatus
  pub scheduled_at : Option ℕ
  pub dispatched_at : Option ℕ
  pub completed_at : Option ℕ
  pub notes : Option String
  pub created_by : ℕ
  pub items : List DeliveryItem

pub record Fleet : Type 0 where
  pub deliveries : List Delivery
  pub audit : List AuditEntry
  pub next_id : ℕ
  pub now : ℕ

pub record ItemDto : Type 0 where
  pub retailer : ℕ
  pub invoice : Option ℕ
  pub order : Option ℕ
  pub notes : Option String

pub record DeliveryDto : Type 0 where
  pub branch : ℕ
  pub route : Option ℕ
  pub vehicle_ref : Option String
  pub driver_name : Option String
  pub scheduled_at : Option ℕ
  pub notes : Option String
  pub items : List ItemDto

pub record UpdateDto : Type 0 where
  pub vehicle_ref : Option String
  pub driver_name : Option String
  pub notes : Option String

abbrev pub delivery_id : Delivery → ℕ
delivery_id d = d.id

abbrev pub item_id : DeliveryItem → ℕ
item_id i = i.id

abbrev pub audited : ℕ → AuditAction → Delivery → Fleet → Fleet
audited actor action d db = record db {
  audit =
      log
        (record {
          actor = actor;
          action = action;
          entity_type = Audit.delivery;
          entity_id = d.id;
          branch = some d.branch;
        })
        db.audit;
}

abbrev pub item_row : ℕ → ItemDto → DeliveryItem
item_row id dto = record {
  id = id;
  retailer = dto.retailer;
  invoice = dto.invoice;
  order = dto.order;
  notes = dto.notes;
  is_delivered = false;
}

-- `deliveryItem.createMany`
unfoldable pub item_rows : ℕ → List ItemDto → List DeliveryItem
item_rows id [] = []
item_rows id (dto ∷ dtos) = item_row id dto ∷ item_rows (id + 1) dtos

abbrev pub delivery_row : DeliveryDto → ℕ → ℕ → ℕ → Delivery
delivery_row dto id now actor = record {
  id = id;
  delivery_no = now;
  branch = dto.branch;
  route = dto.route;
  vehicle_ref = dto.vehicle_ref;
  driver_name = dto.driver_name;
  status = DeliveryStatus.pending;
  scheduled_at = dto.scheduled_at;
  dispatched_at = none;
  completed_at = none;
  notes = dto.notes;
  created_by = actor;
  items = item_rows (id + 1) dto.items;
}

abbrev pub is_number_taken : ℕ → List Delivery → Bool
is_number_taken number = any (λ (d : Delivery). d.delivery_no == number)

abbrev pub with_delivery : Delivery → Fleet → Fleet
with_delivery d db = record db {
  deliveries = db.deliveries ++ d ∷ [];
  next_id = db.next_id + 1 + length d.items;
}

unfoldable pub create_in : DeliveryDto → ℕ → Tx Fleet Delivery
create_in dto actor db =
    if is_number_taken db.now db.deliveries
    then err p2002
    else ok (
      delivery_row dto db.next_id db.now actor,
      with_delivery (delivery_row dto db.next_id db.now actor) db,
    )

-- `create`
unfoldable pub create : DeliveryDto → ℕ → Action Fleet Delivery
create dto actor = committed (transaction (create_in dto actor)) (audited actor delivery_created)

-- `findById`
abbrev pub find_delivery : ℕ → List Delivery → Option Delivery
find_delivery = find_row delivery_id

abbrev pub set_delivery : ℕ → (Delivery → Delivery) → Fleet → Fleet
set_delivery id f db = record db { deliveries = update_row delivery_id id f db.deliveries }

-- The read of a delivery, the guard on its status and the update of the row. The update has the
-- time of the call.
unfoldable pub change :
    (DeliveryStatus → Bool) → (ℕ → Delivery → Delivery) → ℕ → Action Fleet Delivery
change allows f id db = elim (find_delivery id db.deliveries) [
  | none ↦ (err (app_error not_found 404), db)
  | some d ↦
      if allows d.status
      then (ok (f db.now d), set_delivery id (f db.now) db)
      else (err (app_error validation_error 422), db)
]

abbrev pub is_open : DeliveryStatus → Bool
is_open DeliveryStatus.delivered = false
is_open DeliveryStatus.cancelled = false
is_open _ = true

abbrev pub is_pending : DeliveryStatus → Bool
is_pending DeliveryStatus.pending = true
is_pending _ = false

abbrev pub is_in_transit : DeliveryStatus → Bool
is_in_transit DeliveryStatus.in_transit = true
is_in_transit _ = false

-- A field that is `undefined` in an update stays as it is.
abbrev pub or_kept : Option String → Option String → Option String
or_kept none old = old
or_kept (some new) old = some new

abbrev pub updated_row : UpdateDto → ℕ → Delivery → Delivery
updated_row dto now d = record d {
  vehicle_ref = or_kept dto.vehicle_ref d.vehicle_ref;
  driver_name = or_kept dto.driver_name d.driver_name;
  notes = or_kept dto.notes d.notes;
}

-- `update`
unfoldable pub update : ℕ → UpdateDto → ℕ → Action Fleet Delivery
update id dto actor =
    committed (change is_open (updated_row dto) id) (audited actor delivery_updated)

abbrev pub dispatched_row : ℕ → Delivery → Delivery
dispatched_row now d = record d { status = DeliveryStatus.in_transit; dispatched_at = some now }

-- `dispatch`
unfoldable pub dispatch : ℕ → ℕ → Action Fleet Delivery
dispatch id actor = committed (change is_pending dispatched_row id) (audited actor delivery_updated)

abbrev pub completed_row : ℕ → Delivery → Delivery
completed_row now d = record d { status = DeliveryStatus.delivered; completed_at = some now }

-- `complete`
unfoldable pub complete : ℕ → ℕ → Action Fleet Delivery
complete id actor =
    committed (change is_in_transit completed_row id) (audited actor delivery_completed)

abbrev pub cancelled_row : ℕ → Delivery → Delivery
cancelled_row now d = record d { status = DeliveryStatus.cancelled }

-- `cancel`
unfoldable pub cancel : ℕ → ℕ → Action Fleet Delivery
cancel id actor = committed (change is_open cancelled_row id) (audited actor delivery_updated)

abbrev pub delivered_item : Option String → DeliveryItem → DeliveryItem
delivered_item notes i = record i { is_delivered = true; notes = or_kept notes i.notes }

abbrev pub with_delivered : ℕ → Option String → Delivery → Delivery
with_delivered item notes d = record d {
  items = update_row item_id item (delivered_item notes) d.items;
}

unfoldable pub mark_found : ℕ → Option String → Delivery → Action Fleet Delivery
mark_found item notes d db = elim (find_row item_id item d.items) [
  | none ↦ (err (app_error not_found 404), db)
  | some i ↦ (ok (with_delivered item notes d), set_delivery d.id (with_delivered item notes) db)
]

-- `markItemDelivered`
unfoldable pub mark_item_delivered : ℕ → ℕ → Option String → Action Fleet Delivery
mark_item_delivered id item notes db = elim (find_delivery id db.deliveries) [
  | none ↦ (err (app_error not_found 404), db)
  | some d ↦
      if is_in_transit d.status
      then mark_found item notes d db
      else (err (app_error validation_error 422), db)
]
