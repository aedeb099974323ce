-- ===== src/Inventory/Ledger/Posting.antt =====
-- `postEvent` as its callers see it.
use pasalho.Prelude.{
  ℕ, ◌≡◌, refl, sym, true, none, some, List, [], ◌∷◌, ◌++◌, arith, Bool-cases, Option-cases, inl,
  inr, if◌then◌else◌, is_some,
}
use pasalho.Prelude.Int.{pos, ◌+ℤ◌, +ℤ-zero}
use pasalho.Prelude.Result.{ok, ◌>>◌, pure, for_each}
use pasalho.Prelude.Loops.{
  Ensures, Returns, Returns-then, Returns-ok, Returns_of_Ensures, for_each-keeps,
}
use pasalho.Inventory.Data.{
  StockKey, Event, EventKey, MovementInput, PostEventInput, Inventory, posted, same_event_key_iff,
}
use pasalho.Inventory.Snapshots.{on_hand}
use pasalho.Inventory.Ledger.{
  apply_movement, apply_snapshot, create_event, post_new_event, post_event, existing_event,
  find_event, has_key, event_row, with_movement,
}
use pasalho.Inventory.Ledger.Effects.{
  IsConsistent, delta, post_new_event-IsConsistent, on_hand-post_new_event, Ensures-with_rows,
}

-- If the snapshots agree with the recorded movements under every key and none is negative, that
-- still holds after an event with any movements went through, as a new event or as a replay.
pub post_event-IsConsistent :
    (input : PostEventInput) (db : Inventory)
    → IsConsistent db
    → Ensures (post_event input db) IsConsistent
unfolding post_event
post_event-IsConsistent input db c =
    elim (Option-cases (existing_event input.idempotency_key db.events)) [
      | inl new ↦ rw (new, Ensures) (post_new_event-IsConsistent input db c)
      | inr (e, known) ↦ rw (known, Ensures) c
    ]

-- A call that goes through changes the stock under each key by the sum of its movements there, and by
-- nothing where its idempotency key is known.
pub on_hand-post_event :
    (input : PostEventInput) (k : StockKey) (db : Inventory)
    → Ensures (post_event input db) (λ t.
      on_hand k t.snapshots
      ≡ on_hand k db.snapshots
        +ℤ (if is_some (existing_event input.idempotency_key db.events)
            then pos 0
            else delta k input.movements))
unfolding post_event
on_hand-post_event input k db =
    elim (Option-cases (existing_event input.idempotency_key db.events)) [
      | inl new ↦ rw (new, Ensures) (on_hand-post_new_event input k db)
      | inr (e, known) ↦ rw (known, Ensures) (sym (+ℤ-zero (on_hand k db.snapshots)))
    ]

events-apply_movement :
    (event : ℕ) (input : PostEventInput) (m : MovementInput) (db : Inventory) (es : List Event)
    → db.events ≡ es
    → Ensures (apply_movement event input m db) (λ t. t.events ≡ es)
unfolding apply_movement
events-apply_movement event input m db es h =
    Ensures-with_rows (λ t. t.events ≡ es) (with_movement event input m db)
      (apply_snapshot m db.next_id db.snapshots) (λ rows e. h)

find_event-append :
    (k : EventKey) (es : List Event) (e : Event)
    → find_event k es ≡ none
    → has_key k e.idempotency_key ≡ true
    → find_event k (es ++ e ∷ []) ≡ some e
unfolding find_event
find_event-append k [] e free h = rw h
find_event-append k (x ∷ es) e free h = ground (arith, find_event-append k es e, free)

create_event-events :
    (input : PostEventInput) (db : Inventory)
    → Returns
        (create_event input posted db)
        (λ id t. t.events ≡ db.events ++ event_row input posted id ∷ [])
unfolding create_event
create_event-events input db =
    elim (Bool-cases (is_some (existing_event input.idempotency_key db.events))) [
      | inl taken ↦ rw (taken, Returns) tt
      | inr free ↦ rw (free, Returns) refl
    ]

-- A new event stands behind the others, with the id that is returned.
pub post_new_event-events :
    (input : PostEventInput) (db : Inventory)
    → Returns
        (post_new_event input db)
        (λ id t. t.events ≡ db.events ++ event_row input posted id ∷ [])
unfolding post_new_event
post_new_event-events input db =
    Returns-then (λ id t. t.events ≡ db.events ++ event_row input posted id ∷ [])
      (λ id t. t.events ≡ db.events ++ event_row input posted id ∷ [])
      (create_event input posted db)
      (λ event. for_each (apply_movement event input) input.movements >> pure event)
      (create_event-events input db)
      λ event t e.
        let es : List Event = db.events ++ event_row input posted event ∷ [] in
        let loop = for_each (apply_movement event input) input.movements t in
        Returns-then (λ u t'. t'.events ≡ es)
          (λ id t'. t'.events ≡ db.events ++ event_row input posted id ∷ []) loop
          (λ u t'. ok (event, t'))
          (Returns_of_Ensures (λ t'. t'.events ≡ es) loop
            (for_each-keeps (apply_movement event input) (λ t'. t'.events ≡ es)
              (λ m s. events-apply_movement event input m s es) input.movements t e))
          (λ u t' h. h)

pub known_afterwards :
    (k : EventKey) (input : PostEventInput) (db : Inventory) {id : ℕ} {t : Inventory}
    → input.idempotency_key ≡ some k
    → post_event input db ≡ ok (id, t)
    → (e : Event) × (find_event k t.events ≡ some e) × (e.id ≡ id)
unfolding post_event existing_event
known_afterwards k input db {id} {t} h e = elim (Option-cases (find_event k db.events)) [
  | inl new ↦
      let posted_new : post_new_event input db ≡ ok (id, t) = ground (arith, h, new) in
      let row = event_row input posted id in
      let found =
        find_event-append k db.events row new (rw (h, has_key) ((same_event_key_iff k k).1 refl)) in
      let es =
        Returns-ok (λ id t. t.events ≡ db.events ++ event_row input posted id ∷ [])
          (post_new_event input db) (post_new_event-events input db) posted_new in
      (row, rw es found, refl)
  | inr (old, known) ↦ (old, ground (arith, h, known), ground (arith, h, known))
]

-- A call that is repeated under the idempotency key of an event that went through returns that
-- event's id and changes nothing, whatever else the second call asks for.
pub post_event_replay :
    (k : EventKey) (input again : PostEventInput) (db : Inventory) {id : ℕ} {t : Inventory}
    → input.idempotency_key ≡ some k
    → again.idempotency_key ≡ some k
    → post_event input db ≡ ok (id, t)
    → post_event again t ≡ ok (id, t)
unfolding post_event existing_event
post_event_replay k input again db {id} {t} h h' e =
    let (old, known, same) = known_afterwards k input db h e in ground (arith, h', known, same)
