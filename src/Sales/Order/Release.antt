-- ===== src/Sales/Order/Release.antt =====
-- A cancelled order holds no stock.
use mathlib.Core.Path.{subst}
use pasalho.Prelude.{
  ℕ, ◌≡◌, refl, sym, ◌∙◌, ap, Bool, true, false, Option, none, some, List, [], ◌∷◌, arith, map,
  Bool-cases, inl, inr, ◌==◌, ==-refl, any, All, if◌then◌else◌,
}
use pasalho.Prelude.Int.{ℤ, pos, ◌+ℤ◌, -ℤ◌, leb_ℤ, sum_by, +ℤ_assoc}
use pasalho.Prelude.Result.{Result-cases, ok, for_each}
use pasalho.Prelude.Loops.{
  Ensures, Ensures-then, Ensures-intro, Ensures-ok, for_each-keeps, for_each-sums,
}
use pasalho.Inventory.Data.{StockKey, StockState, ReservationItem, Reservation, Inventory}
use pasalho.Inventory.Snapshots.{on_hand, at_key}
use pasalho.Inventory.Ledger.{create_event, create_movement}
use pasalho.Inventory.Reservation.{ReserveStockInput, key_of, release, deduct_reserved, add_to}
use pasalho.Inventory.Reservation.Totals.{on_hand-release}
use pasalho.Inventory.Consumption.{filter, is_open}
use pasalho.Sales.Data.{OrderStatus, SalesOrder, Shop, in_stock}
use pasalho.Sales.Order.{
  find_order, set_status, is_cancelled, is_cancellable, release_input, release_item,
  release_reservation, release_all, mark_released, cancel_found, cancel_in,
}

reservations-release :
    (input : ReserveStockInput) (db : Inventory)
    → Ensures (release input db) (λ t. t.reservations ≡ db.reservations)
unfolding release create_event create_movement
reservations-release input db = elim (Bool-cases (leb_ℤ input.base_quantity (pos 0))) [
  | inl e ↦ rw (e, Ensures) tt
  | inr e ↦ elim (Result-cases (deduct_reserved input db.snapshots)) [
    | inr (x, e1) ↦ rw (e, e1, Ensures) tt
    | inl (rows, e1) ↦ elim (Result-cases (add_to StockState.available input rows)) [
      | inr (x, e2) ↦ rw (e, e1, e2, Ensures) tt
      | inl (rows', e2) ↦ rw (e, e1, e2, Ensures) refl
    ]
  ]
]

-- What the release of an item adds under a key.
abbrev pub freed : StockKey → ℕ → ReservationItem → ℤ
freed k location item =
    at_key
      (record {
        location = location;
        product = item.product;
        batch = item.batch;
        state = StockState.reserved;
        unit = item.unit;
      })
      k (-ℤ◌ item.base_quantity)
    +ℤ at_key
        (record {
          location = location;
          product = item.product;
          batch = item.batch;
          state = StockState.available;
          unit = item.unit;
        })
        k item.base_quantity

abbrev pub freed_all : StockKey → List Reservation → ℤ
freed_all k = sum_by (λ (r : Reservation). sum_by (freed k r.location) r.items)

module _ (o : SalesOrder) (actor : ℕ) where
  on_hand-release_item :
      (k : StockKey) (branch : Option ℕ) (location : ℕ) (item : ReservationItem) (db : Inventory)
      → Ensures
          (release_item o actor branch location item db)
          (λ t. on_hand k t.snapshots ≡ on_hand k db.snapshots +ℤ freed k location item)
  unfolding release_item
  on_hand-release_item k none location item db = tt
  on_hand-release_item k (some b) location item db =
      let input = release_input o b actor location item in
      let P = λ (t : Inventory).
        on_hand k t.snapshots ≡ on_hand k db.snapshots +ℤ freed k location item in
      Ensures-then P P (release input db) (λ r t. ok (tt, t))
        (Ensures-intro P (release input db) λ r t e.
          on_hand-release input db t r k e
          ∙ +ℤ_assoc (on_hand k db.snapshots)
              (at_key (key_of input StockState.reserved) k (-ℤ◌ item.base_quantity))
              (at_key (key_of input StockState.available) k item.base_quantity))
        (λ r t h. h)

  reservations-release_item :
      (rs : List Reservation) (branch : Option ℕ) (location : ℕ) (item : ReservationItem)
      (db : Inventory)
      → db.reservations ≡ rs
      → Ensures (release_item o actor branch location item db) (λ t. t.reservations ≡ rs)
  unfolding release_item
  reservations-release_item rs none location item db h = tt
  reservations-release_item rs (some b) location item db h =
      let input = release_input o b actor location item in
      Ensures-then (λ t. t.reservations ≡ db.reservations) (λ t. t.reservations ≡ rs)
        (release input db) (λ r t. ok (tt, t)) (reservations-release input db) (λ r t e. e ∙ h)

  on_hand-release_reservation :
      (k : StockKey) (r : Reservation) (db : Inventory)
      → Ensures (release_reservation o actor r db) (λ t.
        on_hand k t.snapshots ≡ on_hand k db.snapshots +ℤ sum_by (freed k r.location) r.items)
  unfolding release_reservation
  on_hand-release_reservation k r db =
      let P = λ (t : Inventory).
        on_hand k t.snapshots ≡ on_hand k db.snapshots +ℤ sum_by (freed k r.location) r.items in
      Ensures-then P P (for_each (release_item o actor o.branch r.location) r.items db) _
        (for_each-sums (release_item o actor o.branch r.location) (λ t. on_hand k t.snapshots)
          (freed k r.location) (on_hand-release_item k o.branch r.location) r.items db)
        (λ u t h. h)

  reservations-release_reservation :
      (r : Reservation) (db : Inventory)
      → Ensures
          (release_reservation o actor r db)
          (λ t. t.reservations ≡ mark_released r.id db.reservations)
  unfolding release_reservation
  reservations-release_reservation r db =
      Ensures-then (λ t. t.reservations ≡ db.reservations)
        (λ t. t.reservations ≡ mark_released r.id db.reservations)
        (for_each (release_item o actor o.branch r.location) r.items db) _
        (for_each-keeps (release_item o actor o.branch r.location)
          (λ t. t.reservations ≡ db.reservations)
          (λ item s. reservations-release_item db.reservations o.branch r.location item s) r.items
          db refl)
        (λ u t h. ap (mark_released r.id) h)

-- An open reservation of the order is one of those whose ids are listed.
abbrev IsListed : ℕ → List ℕ → Reservation → Type 0
IsListed order ids r = is_open order r ≡ true → any (λ id. r.id == id) ids ≡ true

mark_released-IsListed :
    (order id : ℕ) (ids : List ℕ) (rs : List Reservation)
    → All (IsListed order (id ∷ ids)) rs
    → All (IsListed order ids) (mark_released id rs)
unfolding mark_released
mark_released-IsListed order id ids [] h = tt
mark_released-IsListed order id ids (r ∷ rs) (p, h) = elim (Bool-cases (r.id == id)) [
  | inl e ↦ rw e ((λ bad. absurd (ground (arith, bad))), mark_released-IsListed order id ids rs h)
  | inr e ↦ rw e ((λ still. ground (arith, p still, e)), mark_released-IsListed order id ids rs h)
]

none_open :
    (order : ℕ) (rs : List Reservation)
    → All (IsListed order []) rs
    → filter (is_open order) rs ≡ []
unfolding filter
none_open order [] h = refl
none_open order (r ∷ rs) (p, h) = elim (Bool-cases (is_open order r)) [
  | inl e ↦ absurd (ground (arith, p e))
  | inr e ↦ rw e (none_open order rs h)
]

-- After the loop over some reservations, the open ones are among those that it was not given.
release_loop-IsListed :
    (o : SalesOrder) (actor : ℕ) (list : List Reservation) (db : Inventory)
    → All (IsListed o.id (map (λ (r : Reservation). r.id) list)) db.reservations
    → Ensures
        (for_each (release_reservation o actor) list db)
        (λ t. All (IsListed o.id []) t.reservations)
unfolding for_each
release_loop-IsListed o actor [] db h = h
release_loop-IsListed o actor (r ∷ list) db h =
    Ensures-then (λ t. t.reservations ≡ mark_released r.id db.reservations)
      (λ t. All (IsListed o.id []) t.reservations) (release_reservation o actor r db)
      (λ u t. for_each (release_reservation o actor) list t)
      (reservations-release_reservation o actor r db)
      λ u t e. release_loop-IsListed o actor list t (
        rw e (
          mark_released-IsListed o.id r.id (map (λ (r : Reservation). r.id) list) db.reservations
            h))

-- A listed reservation stays listed when the list grows.
IsListed-more :
    (order id : ℕ) (ids : List ℕ) (rs : List Reservation)
    → All (IsListed order ids) rs
    → All (IsListed order (id ∷ ids)) rs
IsListed-more order id ids [] h = tt
IsListed-more order id ids (r ∷ rs) (p, h) =
    ((λ still. ground (arith, p still)), IsListed-more order id ids rs h)

filter-cons :
    (order : ℕ) (r : Reservation) (rs : List Reservation) (b : Bool)
    → is_open order r ≡ b
    → filter (is_open order) (r ∷ rs)
      ≡ (if b then r ∷ filter (is_open order) rs else filter (is_open order) rs)
unfolding filter
filter-cons order r rs b e = rw e refl

filter-IsListed :
    (order : ℕ) (rs : List Reservation)
    → All (IsListed order (map (λ (r : Reservation). r.id) (filter (is_open order) rs))) rs
unfolding filter
filter-IsListed order [] = tt
filter-IsListed order (r ∷ rs) =
    let P = λ (list : List Reservation).
      All (IsListed order (map (λ (r : Reservation). r.id) list)) (r ∷ rs) in
    elim (Bool-cases (is_open order r)) [
      | inl e ↦ subst P (sym (filter-cons order r rs true e)) (
        (λ still. ground (arith, ==-refl r.id)),
        IsListed-more order r.id (map (λ (r : Reservation). r.id) (filter (is_open order) rs)) rs
            (filter-IsListed order rs),
      )
      | inr e ↦
          subst P (sym (filter-cons order r rs false e))
            ((λ still. absurd (ground (arith, still, e))), filter-IsListed order rs)
    ]

cancel-inverted :
    (id actor : ℕ) (db t : Shop) (o r : SalesOrder)
    → find_order id db.orders ≡ some o
    → is_cancelled o.status ≡ false
    → cancel_in id actor db ≡ ok (r, t)
    → (release_all o actor db.stock ≡ ok (tt, t.stock)) × (r ≡ set_status OrderStatus.cancelled o)
unfolding cancel_in cancel_found in_stock
cancel-inverted id actor db t o r found new h = elim (Bool-cases (is_cancellable o.status)) [
  | inr e ↦ absurd (ground (arith, h, found, new, e))
  | inl e ↦ elim (Result-cases (release_all o actor db.stock)) [
    | inr (x, e1) ↦ absurd (ground (arith, h, found, new, e, e1))
    | inl ((_, s), e1) ↦
        let stock : t.stock ≡ s = ground (arith, h, found, new, e, e1) in
        (e1 ∙ ap (λ (x : Inventory). ok (tt, x)) (sym stock), ground (arith, h, found, new, e, e1))
  ]
]

-- When an order that was not yet cancelled is cancelled, no reservation of it is open any more, and
-- under each key the stock has changed by what its open reservations held: out of the reserved stock
-- and into the available stock.
pub cancel_in-releases :
    (id actor : ℕ) (k : StockKey) (db t : Shop) (o r : SalesOrder)
    → find_order id db.orders ≡ some o
    → is_cancelled o.status ≡ false
    → cancel_in id actor db ≡ ok (r, t)
    → (r.status ≡ OrderStatus.cancelled)
      × (filter (is_open o.id) t.stock.reservations ≡ [])
      × (on_hand k t.stock.snapshots
          ≡ on_hand k db.stock.snapshots
            +ℤ freed_all k (filter (is_open o.id) db.stock.reservations))
unfolding release_all
cancel_in-releases id actor k db t o r found new h =
    let (released, row) = cancel-inverted id actor db t o r found new h in
    let rs = filter (is_open o.id) db.stock.reservations in
    (
      rw row refl,
      none_open o.id t.stock.reservations (
          Ensures-ok (λ (s : Inventory). All (IsListed o.id []) s.reservations)
            (for_each (release_reservation o actor) rs db.stock)
            (release_loop-IsListed o actor rs db.stock (filter-IsListed o.id db.stock.reservations))
            released),
      Ensures-ok
          (λ (s : Inventory).
            on_hand k s.snapshots ≡ on_hand k db.stock.snapshots +ℤ freed_all k rs)
          (for_each (release_reservation o actor) rs db.stock)
          (for_each-sums (release_reservation o actor) (λ (s : Inventory). on_hand k s.snapshots)
            (λ (r : Reservation). sum_by (freed k r.location) r.items)
            (on_hand-release_reservation o actor k) rs db.stock)
          released,
    )
