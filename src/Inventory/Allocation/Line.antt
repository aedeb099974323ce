-- ===== src/Inventory/Allocation/Line.antt =====
-- A reserved order line as a whole.
use pasalho.Prelude.{
  ℕ, ◌≡◌, ◌∙◌, List, [], ◌∷◌, arith, Bool-cases, inl, inr, All, ◌||◌, not, is_some,
}
use pasalho.Prelude.Int.{ℤ, pos, ◌+ℤ◌, -ℤ◌, ◌≤ℤ◌, +ℤ-zero, +ℤ_assoc, sum_by}
use pasalho.Prelude.Result.{ok, for_each, Result-cases}
use pasalho.Prelude.Loops.{
  Ensures, Ensures-intro, Ensures-ok, Ensures-then, Returns, Returns-then, Returns_of_Ensures,
  for_each-keeps, for_each-sums,
}
use pasalho.Inventory.Data.{StockKey, StockState, Inventory}
use pasalho.Inventory.Snapshots.{on_hand, at_key}
use pasalho.Inventory.Ledger.Effects.{IsConsistent}
use pasalho.Inventory.Reservation.{ReserveStockInput, key_of, reserve}
use pasalho.Inventory.Reservation.Totals.{on_hand-reserve, reserve-IsConsistent}
use pasalho.Inventory.Allocation.{
  ItemInput, Allocation, Candidate, candidates, allocations_from, choose_allocations, narrowed,
  create_item, reserve_allocation, as_asked, reserve_sales_order_item,
}
use pasalho.Inventory.Allocation.Cover.{total_allocated, IsStocked, allocations_from-IsExact}
use pasalho.Inventory.Allocation.Expiry.{IsSaleable, candidates_first_expired_first}

reserve_allocation-IsConsistent :
    (input : ItemInput) (a : Allocation) (db : Inventory)
    → IsConsistent db
    → Ensures (reserve_allocation input a db) IsConsistent
unfolding reserve_allocation
reserve_allocation-IsConsistent input a db c =
    Ensures-then IsConsistent IsConsistent (reserve (narrowed input.stock a) db)
      (λ r t. ok (tt, create_item input a t))
      (Ensures-intro IsConsistent (reserve (narrowed input.stock a) db)
        (λ r t e. reserve-IsConsistent (narrowed input.stock a) db t r c e))
      (λ r t c'. record { totals = c'.totals; not_negative = c'.not_negative })

IsStocked-of_saleable : (today : ℕ) (cs : List Candidate) → All (IsSaleable today) cs → IsStocked cs
IsStocked-of_saleable today [] h = tt
IsStocked-of_saleable today (c ∷ cs) (p, h) = (p.0, IsStocked-of_saleable today cs h)

-- The chosen allocations make up the base quantity of the line.
choose_allocations_exact :
    (today : ℕ) (input : ItemInput) (db : Inventory) (list : List Allocation)
    → pos 0 ≤ℤ input.stock.base_quantity
    → choose_allocations today input db ≡ ok list
    → total_allocated list ≡ input.stock.base_quantity
unfolding choose_allocations sum_by
choose_allocations_exact today input db list p h =
    elim (Bool-cases (not input.is_batch_tracked || is_some input.stock.batch)) [
      | inl asked ↦
          let e : list ≡ as_asked input.stock ∷ [] = ground (arith, h, asked) in
          rw e (+ℤ-zero input.stock.base_quantity)
      | inr search_for ↦
          let cs = candidates today input.stock db.batches db.snapshots in
          let e : allocations_from input.stock cs ≡ ok list = ground (arith, h, search_for) in
          let s =
            IsStocked-of_saleable today cs
              (candidates_first_expired_first today input.stock db.batches db.snapshots).0 in
          elim (allocations_from-IsExact input.stock cs p s) [
            | inl (list', e', sum, in_order, enough) ↦
                let same : list ≡ list' = ground (arith, e, e') in rw same sum
            | inr (e', short) ↦ absurd (ground (arith, e, e'))
          ]
    ]

-- What an allocation of a line takes from the available stock, and puts into the reserved stock.
abbrev pub taken : StockKey → ReserveStockInput → Allocation → ℤ
taken k line a =
    at_key
      (record {
        location = line.location;
        product = line.product;
        batch = a.batch;
        state = StockState.available;
        unit = line.unit;
      })
      k (-ℤ◌ a.base_quantity)
    +ℤ at_key
        (record {
          location = line.location;
          product = line.product;
          batch = a.batch;
          state = StockState.reserved;
          unit = line.unit;
        })
        k a.base_quantity

on_hand-reserve_allocation :
    (k : StockKey) (input : ItemInput) (a : Allocation) (db : Inventory)
    → Ensures
        (reserve_allocation input a db)
        (λ t. on_hand k t.snapshots ≡ on_hand k db.snapshots +ℤ taken k input.stock a)
unfolding reserve_allocation
on_hand-reserve_allocation k input a db =
    let P =
      λ (t : Inventory). on_hand k t.snapshots ≡ on_hand k db.snapshots +ℤ taken k input.stock a in
    let wish = narrowed input.stock a in
    Ensures-then P P (reserve wish db) (λ r t. ok (tt, create_item input a t))
      (Ensures-intro P (reserve wish db) λ r t e.
        on_hand-reserve wish db t r k e
        ∙ +ℤ_assoc (on_hand k db.snapshots)
            (at_key (key_of wish StockState.available) k (-ℤ◌ a.base_quantity))
            (at_key (key_of wish StockState.reserved) k a.base_quantity))
      (λ r t h. h)

-- A line that is reserved is reserved in full: from a consistent inventory, and for a base
-- quantity that is not negative, its allocations add up to the base quantity that was asked for,
-- each of them has moved its base quantity of its batch from the AVAILABLE to the RESERVED stock at
-- the line's location, no other stock has changed, and the inventory that they leave is consistent.
pub reserve_sales_order_item_exact :
    (today : ℕ) (input : ItemInput) (db : Inventory)
    → pos 0 ≤ℤ input.stock.base_quantity
    → IsConsistent db
    → Returns (reserve_sales_order_item today input db) (λ list t.
      (total_allocated list ≡ input.stock.base_quantity)
      × IsConsistent t
      × ((k : StockKey)
          → on_hand k t.snapshots ≡ on_hand k db.snapshots +ℤ sum_by (taken k input.stock) list))
unfolding reserve_sales_order_item
reserve_sales_order_item_exact today input db p c =
    elim (Result-cases (choose_allocations today input db)) [
      | inl (list, e) ↦
          let body = reserve_allocation input in
          let Moved = λ (t : Inventory).
            (k : StockKey)
            → on_hand k t.snapshots ≡ on_hand k db.snapshots +ℤ sum_by (taken k input.stock) list in
          let P = λ (t : Inventory). IsConsistent t × Moved t in
          let kept =
            for_each-keeps body IsConsistent (reserve_allocation-IsConsistent input) list db c in
          let moved = λ (k : StockKey).
            for_each-sums body (λ (t : Inventory). on_hand k t.snapshots) (taken k input.stock)
              (on_hand-reserve_allocation k input) list db in
          rw (e, Returns)
            (Returns-then (λ u t. P t)
              (λ list t.
                (total_allocated list ≡ input.stock.base_quantity)
                × IsConsistent t
                × ((k : StockKey)
                    → on_hand k t.snapshots
                      ≡ on_hand k db.snapshots +ℤ sum_by (taken k input.stock) list))
              (for_each body list db) (λ u t. ok (list, t))
              (Returns_of_Ensures P (for_each body list db) (
                Ensures-intro P (for_each body list db) λ u t done. (
                  Ensures-ok IsConsistent (for_each body list db) kept done,
                  λ k.
                      Ensures-ok
                        (λ (t : Inventory).
                          on_hand k t.snapshots
                          ≡ on_hand k db.snapshots +ℤ sum_by (taken k input.stock) list)
                        (for_each body list db) (moved k) done,
                )))
              (λ u t (c', m). (choose_allocations_exact today input db list p e, c', m)))
      | inr (x, e) ↦ rw (e, Returns) tt
    ]
