-- ===== src/Sales/Order/Create/Replay.antt =====
-- A request for an order that is repeated finds the order that it made.
use pasalho.Prelude.{
  ℕ, ◌+◌, ◌≡◌, refl, ◌∙◌, ap, Bool, true, false, Option, none, some, List, [], ◌∷◌, ◌++◌, arith,
  Bool-cases, Option-cases, inl, inr, is_some, ◌==◌, ==-refl, find_row-append_new,
  find_row-append_other, find_row-update_row, find_row-update_row_other, ==_iff, find_row-id,
}
use pasalho.Prelude.Int.{ℤ, pos}
use pasalho.Prelude.Result.{Result-cases, ok, Tx, for_each}
use pasalho.Prelude.Loops.{
  Ensures, Ensures-then, Returns, Returns-then, Returns-ok, Returns-lift, Returns_of_Ensures,
  for_each-keeps,
}
use pasalho.Inventory.Data.{Inventory}
use pasalho.Inventory.Allocation.{reserve_sales_order_item}
use pasalho.Sales.Data.{SalesOrder, OrderRequest, Shop, in_stock, order_id, set_order}
use pasalho.Sales.Order.{find_order}
use pasalho.Sales.Order.Validate.{
  OrderInput, ValidItem, check_parties, validate_items, subtotal_from, check_credit,
}
use pasalho.Sales.Order.Write.{
  request_key, find_request, create_order, order_row, is_taken, create_reservation,
  with_reservation, create_line, add_line, reservation_input, with_line, line_row, begin_request,
  complete_request, sort_items,
}
use pasalho.Sales.Order.Create.{write_order, create_new, known_order, create_in}

-- An order with the id is in the table.
abbrev IsPresent : ℕ → Shop → Type 0
IsPresent id t = is_some (find_order id t.orders) ≡ true

-- Nothing of the requests has changed since.
abbrev IsOnTrack : ℕ → List OrderRequest → Shop → Type 0
IsOnTrack id requests t = IsPresent id t × (t.requests ≡ requests)

abbrev request_row : ℕ → ℕ → Bool → Option ℕ → OrderRequest
request_row key hash done id = record {
  key = key;
  request_hash = hash;
  is_completed = done;
  resource_id = id;
}

append-IsPresent :
    (orders : List SalesOrder) (o : SalesOrder)
    → is_some (find_order o.id (orders ++ o ∷ [])) ≡ true
append-IsPresent orders o =
    rw (find_row-append_other order_id o.id orders o)
      (elim (Option-cases (find_order o.id orders)) [
        | inl e ↦ rw (e, ==-refl o.id) refl
        | inr (r, e) ↦ rw e refl
      ])

create_order-IsOnTrack :
    (input : OrderInput) (key number : ℕ) (subtotal : ℤ) (actor : ℕ) (db : Shop)
    → Returns
        (create_order input key number subtotal actor db)
        (λ o t. IsOnTrack o.id db.requests t)
unfolding create_order
create_order-IsOnTrack input key number subtotal actor db =
    elim (Bool-cases (is_taken key number db.orders)) [
      | inl e ↦ rw (e, Returns) tt
      | inr e ↦
          rw (e, Returns)
            (
              append-IsPresent db.orders
                  (order_row input key number subtotal actor db.stock.next_id),
              refl,
            )
    ]

set_order-IsPresent :
    (id other : ℕ) (f : SalesOrder → SalesOrder) (db : Shop)
    → ((r : SalesOrder) → (f r).id ≡ r.id)
    → IsPresent id db
    → IsPresent id (set_order other f db)
set_order-IsPresent id other f db keep h = elim (Bool-cases (other == id)) [
  | inr e ↦ rw (find_row-update_row_other order_id other id f db.orders keep e) h
  | inl e ↦ elim (Option-cases (find_order id db.orders)) [
    | inl e' ↦ absurd (ground (arith, h, e'))
    | inr (r, e') ↦
        let same : other ≡ id = (==_iff other id).0 e in
        rw (same, find_row-update_row order_id id f db.orders (keep r) e') refl
  ]
]

in_stock-keeps :
    {A : Type 0} (P : Shop → Type 0) (m : Tx Inventory A) (db : Shop)
    → ((s : Inventory) → P (record db { stock = s }))
    → Ensures (in_stock m db) P
unfolding in_stock
in_stock-keeps P m db h = elim (Result-cases (m db.stock)) [
  | inl ((a, s), e) ↦ rw (e, Ensures) (h s)
  | inr (x, e) ↦ rw (e, Ensures) tt
]

add_line-IsOnTrack :
    (input : OrderInput) (o : SalesOrder) (location actor today reservation : ℕ) (id : ℕ)
    (requests : List OrderRequest) (v : ValidItem) (db : Shop)
    → IsOnTrack id requests db
    → Ensures (add_line input o location actor today reservation v db) (IsOnTrack id requests)
unfolding add_line create_line
add_line-IsOnTrack input o location actor today reservation id requests v db (h, same) =
    let P = IsOnTrack id requests in
    let line = line_row v db.stock.next_id in
    let db' = record db { stock = record db.stock { next_id = db.stock.next_id + 1 } } in
    let db2 = set_order o.id (with_line line) db' in
    let m =
      reserve_sales_order_item today
        (reservation_input input o location actor reservation v db.stock.next_id) in
    Ensures-then P P (in_stock m db2) _
      (in_stock-keeps P m db2
        (λ s. (set_order-IsPresent id o.id (with_line line) db' (λ r. refl) h, same)))
      (λ a t k. k)

complete_request-IsRecorded :
    (key hash id : ℕ) (db : Shop)
    → find_request key db.requests ≡ some (request_row key hash false none)
    → IsPresent id db
    → Ensures (complete_request key id db) (λ t.
      (find_request key t.requests ≡ some (request_row key hash true (some id))) × IsPresent id t)
unfolding complete_request
complete_request-IsRecorded key hash id db found here =
    rw (found, Ensures)
      (
        find_row-update_row request_key key
            (λ (r : OrderRequest). record r { is_completed = true; resource_id = some id })
            db.requests refl found,
        here,
      )

-- The record of a request that made an order, and the order.
abbrev IsRecorded : ℕ → ℕ → SalesOrder → Shop → Type 0
IsRecorded key hash o t =
    (find_request key t.requests ≡ some (request_row key hash true (some o.id))) × IsPresent o.id t

module _ (request_hash : OrderInput → ℕ) (id_before : ℕ → ℕ → Bool) (today : ℕ) where
  write_order-IsRecorded :
      (input : OrderInput) (key hash number actor location : ℕ) (items : List ValidItem) (db : Shop)
      → find_request key db.requests ≡ some (request_row key hash false none)
      → Returns
          (write_order request_hash id_before today input key number actor location items db)
          (IsRecorded key hash)
  unfolding write_order create_reservation
  write_order-IsRecorded input key hash number actor location items db begun =
      let Q = IsRecorded key hash in
      Returns-then (λ o t. IsOnTrack o.id db.requests t) Q
        (create_order input key number (subtotal_from (pos 0) items) actor db) _
        (create_order-IsOnTrack input key number (subtotal_from (pos 0) items) actor db)
        λ o t track.
          let body = add_line input o location actor today t.stock.next_id in
          let t2 = with_reservation o location actor t in
          let loop = for_each body (sort_items id_before items) t2 in
          Returns-then (λ u v. IsOnTrack o.id db.requests v) Q loop _
            (Returns_of_Ensures (IsOnTrack o.id db.requests) loop (
              for_each-keeps body (IsOnTrack o.id db.requests)
                (λ v s.
                  add_line-IsOnTrack input o location actor today t.stock.next_id o.id db.requests v
                    s)
                (sort_items id_before items) t2 track))
            λ u v (here, same).
              Returns-then (λ w x. IsRecorded key hash o x) Q (complete_request key o.id v)
                (λ w x. ok (o, x))
                (Returns_of_Ensures (IsRecorded key hash o) (complete_request key o.id v) (
                  complete_request-IsRecorded key hash o.id v (ap (find_request key) same ∙ begun)
                    here))
                (λ w x h. h)

  create_new-IsRecorded :
      (input : OrderInput) (key number actor : ℕ) (db : Shop)
      → find_request key db.requests ≡ none
      → Returns
          (create_new request_hash id_before today input key number actor db)
          (IsRecorded key (request_hash input))
  unfolding create_new begin_request
  create_new-IsRecorded input key number actor db free =
      let Q = IsRecorded key (request_hash input) in
      let row = request_row key (request_hash input) false none in
      let db1 : Shop = record db { requests = db.requests ++ row ∷ [] } in
      rw (free, Returns)
        (Returns-lift Q (λ (s : Shop). check_parties input actor s.catalog s.books.retailers) _ db1
          λ location _.
            Returns-lift Q
              (λ (s : Shop). validate_items input.items s.catalog.products s.stock.batches) _ db1
              λ items _.
                Returns-lift Q
                  (λ (s : Shop). check_credit input.retailer (subtotal_from (pos 0) items) s.books)
                  _ db1
                  λ _ _.
                    write_order-IsRecorded input key (request_hash input) number actor location
                      items db1 (find_row-append_new request_key db.requests row free))

  create_in-IsRecorded :
      (input : OrderInput) (key number actor : ℕ) (db : Shop)
      → Returns
          (create_in request_hash id_before today input key number actor db)
          (λ r t. r.1 ≡ true → IsRecorded key (request_hash input) r.0 t)
  unfolding create_in
  create_in-IsRecorded input key number actor db =
      elim (Option-cases (find_request key db.requests)) [
        | inl e ↦
            rw (e, Returns)
              (Returns-then (λ o t. IsRecorded key (request_hash input) o t)
                (λ (r : SalesOrder × Bool) t.
                  r.1 ≡ true → IsRecorded key (request_hash input) r.0 t)
                (create_new request_hash id_before today input key number actor db)
                (λ o t. ok ((o, true), t)) (create_new-IsRecorded input key number actor db e)
                (λ o t h _. h))
        | inr (r, e) ↦ elim (Result-cases (known_order request_hash id_before today input r db)) [
          | inl (o, e') ↦ rw (e, e', Returns) (λ bad. absurd (ground (arith, bad)))
          | inr (x, e') ↦ rw (e, e', Returns) tt
        ]
      ]

  -- A request that made an order, and is repeated with the same key and the same contents, by whomever,
  -- at whatever time and on whatever day, returns the order of that id and writes nothing.
  pub create_in_replay :
      (input again : OrderInput) (key number number' actor actor' today' : ℕ) (db t : Shop)
      (o : SalesOrder)
      → request_hash again ≡ request_hash input
      → create_in request_hash id_before today input key number actor db ≡ ok ((o, true), t)
      → (r : SalesOrder) × (r.id ≡ o.id)
        × (create_in request_hash id_before today' again key number' actor' t ≡ ok ((r, false), t))
  unfolding create_in known_order
  create_in_replay input again key number number' actor actor' today' db t o same h =
      let (row, here) =
        Returns-ok
          (λ (r : SalesOrder × Bool) (t : Shop).
            r.1 ≡ true → IsRecorded key (request_hash input) r.0 t)
          (create_in request_hash id_before today input key number actor db)
          (create_in-IsRecorded input key number actor db) h refl in
      elim (Option-cases (find_order o.id t.orders)) [
        | inl e ↦ absurd (ground (arith, here, e))
        | inr (r, e) ↦ (
          r,
          find_row-id order_id o.id t.orders e,
          rw (create_in, row, known_order, same, ==-refl (request_hash input), e) refl,
        )
      ]
