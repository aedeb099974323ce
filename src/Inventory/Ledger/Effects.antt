-- ===== src/Inventory/Ledger/Effects.antt =====
-- What posting an event does to the stock under every key, and the invariant that it keeps.
use pasalho.Prelude.{
  ℕ, ◌+◌, ◌≡◌, refl, ◌∙◌, false, some, List, [], ◌∷◌, ◌++◌, arith, Bool-cases, Option-cases, ◌⊎◌,
  inl, inr, is_some,
}
use pasalho.Prelude.Int.{ℤ, pos, ◌+ℤ◌, ◌-ℤ◌, ◌≤ℤ◌, ltb_ℤ, sum_by, int_laws, +ℤ-zero}
use pasalho.Prelude.Result.{Result, ok, err, ◌>>◌, pure, for_each}
use pasalho.Prelude.Loops.{Ensures, Ensures-then, for_each-keeps, for_each-sums}
use pasalho.Inventory.Data.{
  StockKey, Snapshot, Movement, MovementInput, PostEventInput, Inventory, EventStatus, posted,
}
use pasalho.Inventory.Snapshots.{find_snapshot, update_snapshot, create_snapshot, on_hand, at_key}
use pasalho.Inventory.Snapshots.Totals.{on_hand-update, on_hand-create}
use pasalho.Inventory.Snapshots.Bounds.{
  NonNegative, update_snapshot-NonNegative, create_snapshot-NonNegative,
}
use pasalho.Inventory.Ledger.{
  apply_snapshot, apply_movement, create_event, post_new_event, movement_row, with_rows,
  with_movement, existing_event,
}

-- The sum of the recorded movements under a key.
unfoldable pub recorded : StockKey → List Movement → ℤ
recorded k [] = pos 0
recorded k (m ∷ ms) = at_key m.key k m.base_quantity_delta +ℤ recorded k ms

pub recorded-append :
    (k : StockKey) (xs ys : List Movement) → recorded k (xs ++ ys) ≡ recorded k xs +ℤ recorded k ys
unfolding recorded
recorded-append k [] ys = omega int_laws
recorded-append k (m ∷ xs) ys = rw (recorded-append k xs ys) (omega int_laws)

add_sub : (a d : ℤ) → a +ℤ d -ℤ a ≡ d
add_sub a d = omega int_laws

not_negative : (a : ℤ) → ltb_ℤ a (pos 0) ≡ false → pos 0 ≤ℤ a
not_negative a h = ground arith

-- A movement that goes through either opens a row or changes one, and not to below zero.
apply_snapshot-ok :
    (m : MovementInput) (id : ℕ) (rows rows' : List Snapshot)
    → apply_snapshot m id rows ≡ ok rows'
    → (pos 0 ≤ℤ m.base_quantity_delta)
        × (create_snapshot m.key m.quantity_delta m.base_quantity_delta (some id) rows ≡ ok rows')
      ⊎ ((r : Snapshot) × (find_snapshot m.key rows ≡ some r)
          × (pos 0 ≤ℤ r.base_quantity +ℤ m.base_quantity_delta)
          × (rows'
              ≡ update_snapshot m.key
                  (r.quantity +ℤ m.quantity_delta)
                  (r.base_quantity +ℤ m.base_quantity_delta)
                  (some id)
                  rows))
unfolding apply_snapshot
apply_snapshot-ok m id rows rows' h = elim (Option-cases (find_snapshot m.key rows)) [
  | inl new ↦ inl (ground (arith, new))
  | inr (r, found) ↦ inr (r, found, ground (arith, found), ground (arith, found))
]

on_hand-apply :
    (m : MovementInput) (id : ℕ) (j : StockKey) (rows rows' : List Snapshot)
    → apply_snapshot m id rows ≡ ok rows'
    → on_hand j rows' ≡ on_hand j rows +ℤ at_key m.key j m.base_quantity_delta
on_hand-apply m id j rows rows' h = elim (apply_snapshot-ok m id rows rows' h) [
  | inl (p, new) ↦ on_hand-create m.key j m.quantity_delta m.base_quantity_delta (some id) rows new
  | inr (r, found, p, e) ↦ rw e (
      rw
        (on_hand-update m.key j (r.quantity +ℤ m.quantity_delta)
          (r.base_quantity +ℤ m.base_quantity_delta) (some id) rows found)
        (rw (add_sub r.base_quantity m.base_quantity_delta)))
]

apply_snapshot-NonNegative :
    (m : MovementInput) (id : ℕ) (rows rows' : List Snapshot)
    → NonNegative rows
    → apply_snapshot m id rows ≡ ok rows'
    → NonNegative rows'
apply_snapshot-NonNegative m id rows rows' n h = elim (apply_snapshot-ok m id rows rows' h) [
  | inl (p, new) ↦
      create_snapshot-NonNegative m.key m.quantity_delta m.base_quantity_delta (some id) rows p n
        new
  | inr (r, found, p, e) ↦ rw e (
      update_snapshot-NonNegative m.key (r.quantity +ℤ m.quantity_delta)
        (r.base_quantity +ℤ m.base_quantity_delta) (some id) rows p n)
]

-- The snapshots hold what the recorded movements add up to, under every key, and no row of
-- them is negative.
pub record IsConsistent (db : Inventory) : Type 0 where
  pub totals : (k : StockKey) → on_hand k db.snapshots ≡ recorded k db.movements
  pub not_negative : NonNegative db.snapshots

pub Ensures-with_rows {κ} :
    (P : Inventory → Type κ) (db : Inventory) (r : Result (List Snapshot))
    → ((rows : List Snapshot) → r ≡ ok rows → P (record db { snapshots = rows }))
    → Ensures (with_rows db r) P
Ensures-with_rows P db (ok rows) h = h rows refl
Ensures-with_rows P db (err e) h = tt

pub IsConsistent-move :
    (db : Inventory) (m : Movement) (rows : List Snapshot) (n : ℕ)
    → IsConsistent db
    → ((k : StockKey)
        → on_hand k rows ≡ on_hand k db.snapshots +ℤ at_key m.key k m.base_quantity_delta)
    → NonNegative rows
    → IsConsistent (record db { snapshots = rows; movements = db.movements ++ m ∷ []; next_id = n })
unfolding recorded
IsConsistent-move db m rows n c moved not_neg = record {
  totals = λ k.
      moved k
      ∙ rw (c.totals k, recorded-append k db.movements (m ∷ []))
          (rw (+ℤ-zero (at_key m.key k m.base_quantity_delta)));
  not_negative = not_neg;
}

apply_movement-IsConsistent :
    (event : ℕ) (input : PostEventInput) (m : MovementInput) (db : Inventory)
    → IsConsistent db
    → Ensures (apply_movement event input m db) IsConsistent
unfolding apply_movement
apply_movement-IsConsistent event input m db c =
    Ensures-with_rows IsConsistent (with_movement event input m db)
      (apply_snapshot m db.next_id db.snapshots)
      λ rows e.
        IsConsistent-move db (movement_row event input m db.next_id) rows (db.next_id + 1) c
          (λ k. on_hand-apply m db.next_id k db.snapshots rows e)
          (apply_snapshot-NonNegative m db.next_id db.snapshots rows c.not_negative e)

on_hand-apply_movement :
    (event : ℕ) (input : PostEventInput) (k : StockKey) (m : MovementInput) (db : Inventory)
    → Ensures (apply_movement event input m db) (λ t.
      on_hand k t.snapshots ≡ on_hand k db.snapshots +ℤ at_key m.key k m.base_quantity_delta)
unfolding apply_movement
on_hand-apply_movement event input k m db =
    Ensures-with_rows
      (λ t. on_hand k t.snapshots ≡ on_hand k db.snapshots +ℤ at_key m.key k m.base_quantity_delta)
      (with_movement event input m db) (apply_snapshot m db.next_id db.snapshots)
      λ rows e. on_hand-apply m db.next_id k db.snapshots rows e

-- What the movements of an event add under a key.
unfoldable pub delta : StockKey → List MovementInput → ℤ
delta k = sum_by (λ m. at_key m.key k m.base_quantity_delta)

-- An event row alone moves no stock.
pub create_event-keeps :
    (input : PostEventInput) (status : EventStatus) (db : Inventory)
    → Ensures
        (create_event input status db)
        (λ t. (t.snapshots ≡ db.snapshots) × (t.movements ≡ db.movements))
unfolding create_event
create_event-keeps input status db =
    elim (Bool-cases (is_some (existing_event input.idempotency_key db.events))) [
      | inl taken ↦ rw (taken, Ensures) tt
      | inr free ↦ rw (free, Ensures) (refl, refl)
    ]

pub IsConsistent-same :
    (db t : Inventory)
    → IsConsistent db
    → (t.snapshots ≡ db.snapshots) × (t.movements ≡ db.movements)
    → IsConsistent t
IsConsistent-same db t c (s, m) = record {
  totals = λ k. rw (s, m) (c.totals k);
  not_negative = rw s c.not_negative;
}

-- A new event leaves a consistent inventory behind, whatever its movements.
pub post_new_event-IsConsistent :
    (input : PostEventInput) (db : Inventory)
    → IsConsistent db
    → Ensures (post_new_event input db) IsConsistent
unfolding post_new_event
post_new_event-IsConsistent input db c =
    Ensures-then _ IsConsistent (create_event input posted db)
      (λ event. for_each (apply_movement event input) input.movements >> pure event)
      (create_event-keeps input posted db)
      λ event t same.
        Ensures-then IsConsistent IsConsistent
          (for_each (apply_movement event input) input.movements t) (λ u t'. ok (event, t'))
          (for_each-keeps (apply_movement event input) IsConsistent
            (apply_movement-IsConsistent event input) input.movements t
            (IsConsistent-same db t c same))
          (λ u t' h. h)

pub on_hand-post_new_event :
    (input : PostEventInput) (k : StockKey) (db : Inventory)
    → Ensures
        (post_new_event input db)
        (λ t. on_hand k t.snapshots ≡ on_hand k db.snapshots +ℤ delta k input.movements)
unfolding post_new_event delta
on_hand-post_new_event input k db =
    Ensures-then (λ t. (t.snapshots ≡ db.snapshots) × (t.movements ≡ db.movements))
      (λ t. on_hand k t.snapshots ≡ on_hand k db.snapshots +ℤ delta k input.movements)
      (create_event input posted db)
      (λ event. for_each (apply_movement event input) input.movements >> pure event)
      (create_event-keeps input posted db)
      λ event t same. rw (← same.0) (
        Ensures-then
          (λ t'. on_hand k t'.snapshots ≡ on_hand k t.snapshots +ℤ delta k input.movements)
          (λ t'. on_hand k t'.snapshots ≡ on_hand k t.snapshots +ℤ delta k input.movements)
          (for_each (apply_movement event input) input.movements t) (λ u t'. ok (event, t'))
          (for_each-sums (apply_movement event input) (λ t'. on_hand k t'.snapshots)
            (λ m. at_key m.key k m.base_quantity_delta) (on_hand-apply_movement event input k)
            input.movements t)
          (λ u t' h. h))
