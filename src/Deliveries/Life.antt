-- ===== src/Deliveries/Life.antt =====
-- The life of a delivery.
use Prim.Native.String.{String}
use pasalho.Prelude.{
  ℕ, ◌≡◌, refl, ◌∙◌, ap, ◌+◌, Bool, true, false, Option, some, List, [], ◌∷◌, arith, Bool-cases,
  Option-cases, inl, inr, any, is_some, All, All-append, All-update_row, find_row, find_row-id,
}
use pasalho.Prelude.Result.{Result-cases, Action, transaction, committed}
use pasalho.Audit.{AuditAction}
use pasalho.Deliveries.{
  DeliveryStatus, DeliveryItem, Delivery, Fleet, ItemDto, DeliveryDto, UpdateDto, delivery_id,
  item_id, audited, item_rows, delivery_row, is_number_taken, create_in, create, find_delivery,
  change, is_open, is_pending, is_in_transit, updated_row, update, dispatched_row, dispatch,
  completed_row, complete, cancelled_row, cancel, with_delivered, mark_found, mark_item_delivered,
}

abbrev pub has_delivered : List DeliveryItem → Bool
has_delivered = any (λ (i : DeliveryItem). i.is_delivered)

-- What the time stamps and the items of a delivery say, by its status.
abbrev pub Fits : DeliveryStatus → Delivery → Type 0
Fits DeliveryStatus.pending d =
    (is_some d.dispatched_at ≡ false)
    × (is_some d.completed_at ≡ false)
    × (has_delivered d.items ≡ false)
Fits DeliveryStatus.in_transit d =
    (is_some d.dispatched_at ≡ true) × (is_some d.completed_at ≡ false)
Fits DeliveryStatus.delivered d = (is_some d.dispatched_at ≡ true) × (is_some d.completed_at ≡ true)
Fits DeliveryStatus.failed d = ⊥
Fits DeliveryStatus.cancelled d =
    (is_some d.completed_at ≡ false)
    × (is_some d.dispatched_at ≡ false → has_delivered d.items ≡ false)

abbrev pub IsSound : Delivery → Type 0
IsSound d = Fits d.status d

abbrev pub AreSound : Fleet → Type 0
AreSound db = All IsSound db.deliveries

-- A call, whether or not it succeeds, or a change of the time between calls.
pub data Step : Fleet → Fleet → Type 0 where
  step_create : (dto : DeliveryDto) (actor : ℕ) (db : Fleet) → Step db (create dto actor db).1
  step_update :
      (id : ℕ) (dto : UpdateDto) (actor : ℕ) (db : Fleet) → Step db (update id dto actor db).1
  step_dispatch : (id actor : ℕ) (db : Fleet) → Step db (dispatch id actor db).1
  step_complete : (id actor : ℕ) (db : Fleet) → Step db (complete id actor db).1
  step_cancel : (id actor : ℕ) (db : Fleet) → Step db (cancel id actor db).1
  step_mark :
      (id item : ℕ) (notes : Option String) (db : Fleet)
      → Step db (mark_item_delivered id item notes db).1
  step_time : (now : ℕ) (db : Fleet) → Step db (record db { now = now })

pub data Reach (s : Fleet) : Fleet → Type 0 where
  here : Reach s s
  next : {t u : Fleet} → Reach s t → Step t u → Reach s u

item_rows-undelivered : (id : ℕ) (dtos : List ItemDto) → has_delivered (item_rows id dtos) ≡ false
unfolding item_rows
item_rows-undelivered id [] = refl
item_rows-undelivered id (dto ∷ dtos) = item_rows-undelivered (id + 1) dtos

create_in-AreSound :
    (dto : DeliveryDto) (actor : ℕ) (db : Fleet)
    → AreSound db
    → AreSound (transaction (create_in dto actor) db).1
unfolding transaction create_in
create_in-AreSound dto actor db h = elim (Bool-cases (is_number_taken db.now db.deliveries)) [
  | inl e ↦ rw (e, transaction) h
  | inr e ↦
      let d = delivery_row dto db.next_id db.now actor in
      rw (e, transaction)
        (All-append IsSound db.deliveries (d ∷ []) h
          ((refl, refl, item_rows-undelivered (db.next_id + 1) dto.items), tt))
]

-- The audit row that follows a call leaves the deliveries as they are.
committed-AreSound :
    (m : Action Fleet Delivery) (actor : ℕ) (action : AuditAction) (db : Fleet)
    → AreSound (m db).1
    → AreSound (committed m (audited actor action) db).1
unfolding committed
committed-AreSound m actor action db h = elim (Result-cases (m db).0) [
  | inl (d, e) ↦ rw (e, committed) h
  | inr (x, e) ↦ rw (e, committed) h
]

change-AreSound :
    (allows : DeliveryStatus → Bool) (f : ℕ → Delivery → Delivery) (id : ℕ) (db : Fleet)
    → ((d : Delivery) → allows d.status ≡ true → IsSound d → IsSound (f db.now d))
    → AreSound db
    → AreSound (change allows f id db).1
unfolding change
change-AreSound allows f id db keep h = elim (Option-cases (find_delivery id db.deliveries)) [
  | inl e ↦ rw (e, change) h
  | inr (d, e) ↦ elim (Bool-cases (allows d.status)) [
    | inr e1 ↦ rw (e, e1, change) h
    | inl e1 ↦
        rw (e, e1, change)
          (All-update_row delivery_id IsSound id (f db.now) db.deliveries
            (λ r found sound.
              let same : d ≡ r = ground (arith, e, found) in keep r (rw (← same) e1) sound)
            h)
  ]
]

update-keeps :
    (dto : UpdateDto) (now : ℕ) (s : DeliveryStatus) (d : Delivery)
    → Fits s d
    → Fits s (updated_row dto now d)
update-keeps dto now DeliveryStatus.pending d h = h
update-keeps dto now DeliveryStatus.in_transit d h = h
update-keeps dto now DeliveryStatus.delivered d h = h
update-keeps dto now DeliveryStatus.failed d h = h
update-keeps dto now DeliveryStatus.cancelled d h = h

dispatch-keeps :
    (now : ℕ) (s : DeliveryStatus) (d : Delivery)
    → is_pending s ≡ true
    → Fits s d
    → Fits DeliveryStatus.in_transit (dispatched_row now d)
dispatch-keeps now DeliveryStatus.pending d allowed (h, unfinished, items) = (refl, unfinished)
dispatch-keeps now DeliveryStatus.in_transit d allowed h = absurd (ground (arith, allowed))
dispatch-keeps now DeliveryStatus.delivered d allowed h = absurd (ground (arith, allowed))
dispatch-keeps now DeliveryStatus.failed d allowed h = absurd h
dispatch-keeps now DeliveryStatus.cancelled d allowed h = absurd (ground (arith, allowed))

complete-keeps :
    (now : ℕ) (s : DeliveryStatus) (d : Delivery)
    → is_in_transit s ≡ true
    → Fits s d
    → Fits DeliveryStatus.delivered (completed_row now d)
complete-keeps now DeliveryStatus.in_transit d allowed (h, unfinished) = (h, refl)
complete-keeps now DeliveryStatus.pending d allowed h = absurd (ground (arith, allowed))
complete-keeps now DeliveryStatus.delivered d allowed h = absurd (ground (arith, allowed))
complete-keeps now DeliveryStatus.failed d allowed h = absurd h
complete-keeps now DeliveryStatus.cancelled d allowed h = absurd (ground (arith, allowed))

cancel-keeps :
    (now : ℕ) (s : DeliveryStatus) (d : Delivery)
    → is_open s ≡ true
    → Fits s d
    → Fits DeliveryStatus.cancelled (cancelled_row now d)
cancel-keeps now DeliveryStatus.pending d allowed (h, unfinished, items) = (unfinished, λ n. items)
cancel-keeps now DeliveryStatus.in_transit d allowed (h, unfinished) =
    (unfinished, λ n. absurd (ground (arith, h, n)))
cancel-keeps now DeliveryStatus.delivered d allowed h = absurd (ground (arith, allowed))
cancel-keeps now DeliveryStatus.failed d allowed h = absurd h
cancel-keeps now DeliveryStatus.cancelled d allowed h = absurd (ground (arith, allowed))

mark-keeps :
    (item : ℕ) (notes : Option String) (s : DeliveryStatus) (d : Delivery)
    → is_in_transit s ≡ true
    → Fits s d
    → Fits s (with_delivered item notes d)
mark-keeps item notes DeliveryStatus.in_transit d allowed h = h
mark-keeps item notes DeliveryStatus.pending d allowed h = absurd (ground (arith, allowed))
mark-keeps item notes DeliveryStatus.delivered d allowed h = absurd (ground (arith, allowed))
mark-keeps item notes DeliveryStatus.failed d allowed h = absurd h
mark-keeps item notes DeliveryStatus.cancelled d allowed h = absurd (ground (arith, allowed))

mark_found-AreSound :
    (item : ℕ) (notes : Option String) (d : Delivery) (db : Fleet)
    → find_delivery d.id db.deliveries ≡ some d
    → is_in_transit d.status ≡ true
    → AreSound db
    → AreSound (mark_found item notes d db).1
unfolding mark_found
mark_found-AreSound item notes d db own allowed h =
    elim (Option-cases (find_row item_id item d.items)) [
      | inl e ↦ rw (e, mark_found) h
      | inr (i, e) ↦
          rw (e, mark_found)
            (All-update_row delivery_id IsSound d.id (with_delivered item notes) db.deliveries
              (λ r found sound.
                let same : d ≡ r = ground (arith, own, found) in
                mark-keeps item notes r.status r (rw (← same) allowed) sound)
              h)
    ]

mark_item_delivered-AreSound :
    (id item : ℕ) (notes : Option String) (db : Fleet)
    → AreSound db
    → AreSound (mark_item_delivered id item notes db).1
unfolding mark_item_delivered
mark_item_delivered-AreSound id item notes db h =
    elim (Option-cases (find_delivery id db.deliveries)) [
      | inl e ↦ rw (e, mark_item_delivered) h
      | inr (d, e) ↦ elim (Bool-cases (is_in_transit d.status)) [
        | inr e1 ↦ rw (e, e1, mark_item_delivered) h
        | inl e1 ↦
            let own =
              ap (λ j. find_delivery j db.deliveries) (find_row-id delivery_id id db.deliveries e)
              ∙ e in
            rw (e, e1, mark_item_delivered) (mark_found-AreSound item notes d db own e1 h)
      ]
    ]

Step-AreSound : {s t : Fleet} → Step s t → AreSound s → AreSound t
unfolding create update dispatch complete cancel
Step-AreSound (step_create dto actor db) h =
    committed-AreSound (transaction (create_in dto actor)) actor _ db
      (create_in-AreSound dto actor db h)
Step-AreSound (step_update id dto actor db) h =
    committed-AreSound (change is_open (updated_row dto) id) actor _ db (
      change-AreSound is_open (updated_row dto) id db
        (λ d allowed sound. update-keeps dto db.now d.status d sound) h)
Step-AreSound (step_dispatch id actor db) h =
    committed-AreSound (change is_pending dispatched_row id) actor _ db (
      change-AreSound is_pending dispatched_row id db
        (λ d allowed sound. dispatch-keeps db.now d.status d allowed sound) h)
Step-AreSound (step_complete id actor db) h =
    committed-AreSound (change is_in_transit completed_row id) actor _ db (
      change-AreSound is_in_transit completed_row id db
        (λ d allowed sound. complete-keeps db.now d.status d allowed sound) h)
Step-AreSound (step_cancel id actor db) h =
    committed-AreSound (change is_open cancelled_row id) actor _ db (
      change-AreSound is_open cancelled_row id db
        (λ d allowed sound. cancel-keeps db.now d.status d allowed sound) h)
Step-AreSound (step_mark id item notes db) h = mark_item_delivered-AreSound id item notes db h
Step-AreSound (step_time now db) h = h

-- From a database where this holds, such as one without deliveries, whatever calls are made one
-- after the other: a pending delivery has no delivered item and no time of dispatch or completion,
-- one in transit has been dispatched and not completed, a delivered one has both times, a
-- cancelled one was not completed and has delivered items only if it was dispatched, and no
-- delivery is FAILED.
pub reachable-AreSound : {s t : Fleet} → AreSound s → Reach s t → AreSound t
reachable-AreSound h here = h
reachable-AreSound h (next r step) = Step-AreSound step (reachable-AreSound h r)
