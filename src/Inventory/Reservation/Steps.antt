-- ===== src/Inventory/Reservation/Steps.antt =====
-- What one step of a reservation or a release does to the stock under every key.
use pasalho.Prelude.{
  ◌≡◌, ◌∙◌, true, false, none, List, arith, Bool-cases, Option-cases, inl, inr, if◌then◌else◌,
}
use pasalho.Prelude.Int.{
  ℤ, pos, ◌+ℤ◌, ◌-ℤ◌, -ℤ◌, ◌*ℤ◌, round_div, ◌≤ℤ◌, ◌<ℤ◌, ltb_ℤ, leb_ℤ, int_laws,
}
use pasalho.Prelude.Result.{ok}
use pasalho.Inventory.Data.{StockKey, StockState, available, reserved, Snapshot, same_key}
use pasalho.Inventory.Snapshots.{
  find_snapshot, update_snapshot, delete_snapshot, create_snapshot, on_hand, at_key,
}
use pasalho.Inventory.Snapshots.Totals.{on_hand-update, on_hand-create, on_hand-delete}
use pasalho.Inventory.Snapshots.Bounds.{
  NonNegative, update_snapshot-NonNegative, create_snapshot-NonNegative,
  delete_snapshot-NonNegative, find_snapshot-NonNegative,
}
use pasalho.Inventory.Reservation.{
  ReserveStockInput, key_of, deduct_available, deduct_reserved, add_to,
}

sub_sub : (a b : ℤ) → a -ℤ b -ℤ a ≡ -ℤ◌ b
sub_sub a b = omega int_laws

add_sub : (a b : ℤ) → a +ℤ b -ℤ a ≡ b
add_sub a b = omega int_laws

at_key-neg : (k j : StockKey) (x : ℤ) (d : ℤ) → x -ℤ at_key k j d ≡ x +ℤ at_key k j (-ℤ◌ d)
at_key-neg k j x d = elim (Bool-cases (same_key j k)) [
  | inl e ↦ rw e (omega int_laws)
  | inr e ↦ rw e (omega int_laws)
]

-- How a step shifts the stock under one key, and that it leaves nothing negative.
abbrev pub Shifts : StockKey → ℤ → List Snapshot → List Snapshot → Type 0
Shifts k d rows rows' =
    ((j : StockKey) → on_hand j rows' ≡ on_hand j rows +ℤ at_key k j d)
    × (NonNegative rows → NonNegative rows')

not_less : (a b : ℤ) → ltb_ℤ a b ≡ false → pos 0 ≤ℤ a -ℤ b
not_less a b h = grind int_laws

all_of : (a b : ℤ) → ltb_ℤ a b ≡ false → leb_ℤ (a -ℤ b) (pos 0) ≡ true → a ≡ b
all_of a b h h' = grind int_laws

pub deduct_available-Shifts :
    (input : ReserveStockInput) (rows rows' : List Snapshot)
    → deduct_available input rows ≡ ok rows'
    → Shifts (key_of input available) (-ℤ◌ input.base_quantity) rows rows'
unfolding deduct_available
deduct_available-Shifts input rows rows' h =
    elim (Option-cases (find_snapshot (key_of input available) rows)) [
      | inl e ↦ absurd (ground (arith, h, e))
      | inr (r, e) ↦
          let k = key_of input available in
          let b = r.base_quantity -ℤ input.base_quantity in
          let q = round_div (b *ℤ r.quantity) r.base_quantity in
          let done : rows' ≡ update_snapshot k q b none rows = ground (arith, h, e) in
          let enough : ltb_ℤ r.base_quantity input.base_quantity ≡ false = ground (arith, h, e) in
          (
            (λ j. rw done (
                rw (on_hand-update k j q b none rows e)
                  (rw (sub_sub r.base_quantity input.base_quantity)))),
            (λ n. rw done (
                update_snapshot-NonNegative k q b none rows
                  (not_less r.base_quantity input.base_quantity enough) n)),
          )
    ]

pub deduct_reserved-Shifts :
    (input : ReserveStockInput) (rows rows' : List Snapshot)
    → deduct_reserved input rows ≡ ok rows'
    → Shifts (key_of input reserved) (-ℤ◌ input.base_quantity) rows rows'
unfolding deduct_reserved
deduct_reserved-Shifts input rows rows' h =
    elim (Option-cases (find_snapshot (key_of input reserved) rows)) [
      | inl e ↦ absurd (ground (arith, h, e))
      | inr (r, e) ↦
          let k = key_of input reserved in
          let b = r.base_quantity -ℤ input.base_quantity in
          let q =
            if ltb_ℤ (pos 0) r.base_quantity
            then round_div (b *ℤ r.quantity) r.base_quantity
            else b in
          let enough : ltb_ℤ r.base_quantity input.base_quantity ≡ false = ground (arith, h, e) in
          elim (Bool-cases (leb_ℤ b (pos 0))) [
            | inl last ↦
                let done : rows' ≡ delete_snapshot k rows = ground (arith, h, e, enough, last) in
                (
                  (λ j. rw done (
                      on_hand-delete k j rows e
                      ∙ rw (all_of r.base_quantity input.base_quantity enough last)
                          (at_key-neg k j (on_hand j rows) input.base_quantity))),
                  (λ n. rw done (delete_snapshot-NonNegative k rows n)),
                )
            | inr some_left ↦
                let done : rows' ≡ update_snapshot k q b none rows =
                  ground (arith, h, e, enough, some_left) in
                (
                  (λ j. rw done (
                      rw (on_hand-update k j q b none rows e)
                        (rw (sub_sub r.base_quantity input.base_quantity)))),
                  (λ n. rw done (
                      update_snapshot-NonNegative k q b none rows
                        (not_less r.base_quantity input.base_quantity enough) n)),
                )
          ]
    ]

pub add_to-Shifts :
    (state : StockState) (input : ReserveStockInput) (rows rows' : List Snapshot)
    → pos 0 <ℤ input.base_quantity
    → add_to state input rows ≡ ok rows'
    → Shifts (key_of input state) input.base_quantity rows rows'
unfolding add_to
add_to-Shifts state input rows rows' p h =
    elim (Option-cases (find_snapshot (key_of input state) rows)) [
      | inl e ↦
          let k = key_of input state in
          let new : create_snapshot k input.quantity input.base_quantity none rows ≡ ok rows' =
            ground (arith, h, e) in
          (
            (λ j. on_hand-create k j input.quantity input.base_quantity none rows new),
            (λ n.
                create_snapshot-NonNegative k input.quantity input.base_quantity none rows
                  (omega arith) n new),
          )
      | inr (r, e) ↦
          let k = key_of input state in
          let b = r.base_quantity +ℤ input.base_quantity in
          let q = r.quantity +ℤ input.quantity in
          let done : rows' ≡ update_snapshot k q b none rows = ground (arith, h, e) in
          (
            (λ j. rw done (
                rw (on_hand-update k j q b none rows e)
                  (rw (add_sub r.base_quantity input.base_quantity)))),
            (λ n. rw done (
                update_snapshot-NonNegative k q b none rows
                  (omega (int_laws, find_snapshot-NonNegative k rows n e)) n)),
          )
    ]
