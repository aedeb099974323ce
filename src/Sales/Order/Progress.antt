-- ===== src/Sales/Order/Progress.antt =====
-- Every operation on orders follows the steps of an order's life.
use pasalho.Prelude.{
  ℕ, ◌≡◌, refl, ◌∙◌, ap, Bool, true, false, Option, none, some, arith, Bool-cases, Option-cases,
  inl, inr, ◌&&◌, ◌||◌, not, find_row, update_row, if◌then◌else◌, is_some,
}
use pasalho.Prelude.Result.{Result, Result-cases, ok, err, Tx, pure, transaction}
use pasalho.Prelude.Loops.{Ensures, Ensures-then, Ensures-ok}
use pasalho.Audit.{AuditAction, sales_order_confirmed}
use pasalho.Inventory.Data.{Inventory}
use pasalho.Finance.Data.{Invoice}
use pasalho.Inventory.Consumption.{consume_for_online_dispatch}
use pasalho.Sales.Data.{OrderStatus, SalesOrder, Shop, in_stock, order_id}
use pasalho.Sales.Order.{
  is_central_retailer, Target, status_of, find_order, set_status, confirm, confirm_found, is_at,
  is_online, is_valid_transition, needs_invoice, takes_stock, has_posted_invoice, dispatch_stock,
  progress_order, update_found, update_in, update_status, and_audit, is_cancelled, is_cancellable,
  release_all, cancel_found, cancel_in, cancel,
}
use pasalho.Sales.Order.Convert.{
  convert, convert_found, convert_with_branch, is_convertible, is_confirmed, is_packed, dto_of,
  linked, invoiced_row,
}
use pasalho.Sales.Invoice.{InvoiceDto, create, is_one_branch}
use pasalho.Sales.Order.Life.{
  Progress, Follows, bills, bills_packed, Follows-same, Follows-update, own_row, read_back-orders,
  with_found-Follows, confirm_found-Follows, target_step, cancel_step,
}

in_stock-orders :
    {A : Type 0} (m : Tx Inventory A) (db : Shop)
    → Ensures (in_stock m db) (λ t. t.orders ≡ db.orders)
unfolding in_stock
in_stock-orders m db = elim (Result-cases (m db.stock)) [
  | inl ((a, s), e) ↦ rw (e, Ensures) refl
  | inr (x, e) ↦ rw (e, Ensures) tt
]

dispatch_stock-orders :
    (o : SalesOrder) (actor : ℕ) (branch : Option ℕ) (db : Shop)
    → Ensures (dispatch_stock o actor branch db) (λ t. t.orders ≡ db.orders)
unfolding dispatch_stock
dispatch_stock-orders o actor none db = tt
dispatch_stock-orders o actor (some b) db =
    let m =
      consume_for_online_dispatch (record { sales_order = o.id; branch = b; created_by = actor }) in
    Ensures-then (λ t. t.orders ≡ db.orders) (λ t. t.orders ≡ db.orders) (in_stock m db)
      (λ c t. ok (tt, t)) (in_stock-orders m db) (λ c t h. h)

first_step-orders :
    (b : Bool) (o : SalesOrder) (actor : ℕ) (db : Shop)
    → Ensures
        ((if b then dispatch_stock o actor o.branch else pure tt) db)
        (λ t. t.orders ≡ db.orders)
first_step-orders true o actor db = dispatch_stock-orders o actor o.branch db
first_step-orders false o actor db = refl

progress_order-Follows :
    (o : SalesOrder) (target : Target) (actor : ℕ) (db : Shop)
    → find_order o.id db.orders ≡ some o
    → Progress o.status (status_of target)
    → Ensures (progress_order o target actor db) (Follows db)
unfolding progress_order
progress_order-Follows o target actor db own step =
    Ensures-then (λ t. t.orders ≡ db.orders) (Follows db)
      ((if takes_stock o target then dispatch_stock o actor o.branch else pure tt) db) _
      (first_step-orders (takes_stock o target) o actor db)
      (λ u t h.
        Follows-update db _ o (set_status (status_of target)) own (λ r. refl) step
          (ap (update_row order_id o.id (set_status (status_of target))) h))

update_found-Follows :
    (o : SalesOrder) (target : Target) (actor : ℕ) (db : Shop)
    → find_order o.id db.orders ≡ some o
    → Ensures (update_found o target actor db) (Follows db)
unfolding update_found
update_found-Follows o target actor db own = elim (Bool-cases (is_online o db.catalog)) [
  | inr e ↦ rw (e, Ensures) tt
  | inl e ↦ elim (Bool-cases (is_at o.status target)) [
    | inl e1 ↦ rw (e, e1, Ensures) (Follows-same db db refl)
    | inr e1 ↦
        elim (Bool-cases
          (needs_invoice o target && not (has_posted_invoice o.invoice db.books.invoices))) [
            | inl e2 ↦ rw (e, e1, e2, Ensures) tt
            | inr e2 ↦ elim (Bool-cases (is_valid_transition o.status target)) [
              | inr e3 ↦ rw (e, e1, e2, e3, Ensures) tt
              | inl e3 ↦
                  rw (e, e1, e2, e3, Ensures)
                    (progress_order-Follows o target actor db own (target_step o.status target e3))
            ]
          ]
  ]
]

update_in-Follows :
    (id : ℕ) (target : Target) (actor : ℕ) (db : Shop)
    → Ensures (update_in id target actor db) (Follows db)
unfolding update_in
update_in-Follows id target actor db = elim (Option-cases (find_order id db.orders)) [
  | inl e ↦ rw (e, Ensures) tt
  | inr (o, e) ↦ rw (e, Ensures) (update_found-Follows o target actor db (own_row id o db e))
]

cancel_found-Follows :
    (o : SalesOrder) (actor : ℕ) (db : Shop)
    → find_order o.id db.orders ≡ some o
    → Ensures (cancel_found o actor db) (Follows db)
unfolding cancel_found
cancel_found-Follows o actor db own = elim (Bool-cases (is_cancelled o.status)) [
  | inl e ↦ rw (e, Ensures) (Follows-same db db refl)
  | inr e ↦ elim (Bool-cases (is_cancellable o.status)) [
    | inr e1 ↦ rw (e, e1, Ensures) tt
    | inl e1 ↦
        rw (e, e1, Ensures)
          (Ensures-then (λ t. t.orders ≡ db.orders) (Follows db) (in_stock (release_all o actor) db)
            _ (in_stock-orders (release_all o actor) db)
            (λ u t h.
              Follows-update db _ o (set_status OrderStatus.cancelled) own (λ r. refl)
                (cancel_step o.status e1)
                (ap (update_row order_id o.id (set_status OrderStatus.cancelled)) h)))
  ]
]

cancel_in-Follows : (id actor : ℕ) (db : Shop) → Ensures (cancel_in id actor db) (Follows db)
unfolding cancel_in
cancel_in-Follows id actor db = elim (Option-cases (find_order id db.orders)) [
  | inl e ↦ rw (e, Ensures) tt
  | inr (o, e) ↦ rw (e, Ensures) (cancel_found-Follows o actor db (own_row id o db e))
]

transaction-Follows :
    (m : Tx Shop SalesOrder) (db : Shop)
    → Ensures (m db) (Follows db)
    → Follows db (transaction m db).1
unfolding transaction
transaction-Follows m db h = elim (Result-cases (m db)) [
  | inl ((o, t), e) ↦ rw (e, transaction) (Ensures-ok (Follows db) (m db) h e)
  | inr (x, e) ↦ rw (e, transaction) (Follows-same db db refl)
]

and_audit-Follows :
    (actor : ℕ) (action : AuditAction) (id : ℕ) (db : Shop) (r : Result SalesOrder × Shop)
    → Follows db r.1
    → Follows db (and_audit actor action id r).1
and_audit-Follows actor action id db (ok o, t) h = record { order = h.order }
and_audit-Follows actor action id db (err e, t) h = h

pub create-orders :
    (number : ℕ) (dto : InvoiceDto) (actor : ℕ) (db : Shop)
    → (create number dto actor db).1.orders ≡ db.orders
unfolding create
create-orders number dto actor db = elim (Bool-cases (is_one_branch dto db.catalog)) [
  | inr e ↦ rw e refl
  | inl e ↦
      elim (Bool-cases
        (is_some (find_row (λ (i : Invoice). i.invoice_number) number db.books.invoices))) [
          | inl e' ↦ rw (e, e') refl
          | inr e' ↦ rw (e, e') refl
        ]
]

linked-Follows :
    (o : SalesOrder) (actor : ℕ) (db : Shop) (r : Result Invoice × Shop)
    → find_order o.id db.orders ≡ some o
    → Progress o.status OrderStatus.invoiced
    → r.1.orders ≡ db.orders
    → Follows db (linked o actor r).1
linked-Follows o actor db (err e, t) own step h = Follows-same db t h
linked-Follows o actor db (ok i, t) own step h =
    Follows-update db (linked o actor (ok i, t)).1 o (invoiced_row i.id) own (λ r. refl) step
      (read_back-orders o.id _ ∙ ap (update_row order_id o.id (invoiced_row i.id)) h)

pub bill_step :
    (s : OrderStatus) (b : Bool)
    → (is_confirmed s || (b && is_packed s)) ≡ true
    → Progress s OrderStatus.invoiced
bill_step OrderStatus.confirmed b h = bills
bill_step OrderStatus.packed b h = bills_packed
bill_step OrderStatus.draft true h = absurd (ground (arith, h))
bill_step OrderStatus.draft false h = absurd (ground (arith, h))
bill_step OrderStatus.invoiced true h = absurd (ground (arith, h))
bill_step OrderStatus.invoiced false h = absurd (ground (arith, h))
bill_step OrderStatus.placed true h = absurd (ground (arith, h))
bill_step OrderStatus.placed false h = absurd (ground (arith, h))
bill_step OrderStatus.picking true h = absurd (ground (arith, h))
bill_step OrderStatus.picking false h = absurd (ground (arith, h))
bill_step OrderStatus.dispatched true h = absurd (ground (arith, h))
bill_step OrderStatus.dispatched false h = absurd (ground (arith, h))
bill_step OrderStatus.delivered true h = absurd (ground (arith, h))
bill_step OrderStatus.delivered false h = absurd (ground (arith, h))
bill_step OrderStatus.cancelled true h = absurd (ground (arith, h))
bill_step OrderStatus.cancelled false h = absurd (ground (arith, h))

convert_with_branch-Follows :
    (number warehouse location actor : ℕ) (branch : Option ℕ) (o : SalesOrder) (db : Shop)
    → find_order o.id db.orders ≡ some o
    → Progress o.status OrderStatus.invoiced
    → Follows db (convert_with_branch (λ t. t) number warehouse location actor branch o db).1
unfolding convert_with_branch
convert_with_branch-Follows number warehouse location actor none o db own step =
    Follows-same db db refl
convert_with_branch-Follows number warehouse location actor (some b) o db own step =
    linked-Follows o actor db (create number (dto_of o b warehouse location) actor db) own step
      (create-orders number (dto_of o b warehouse location) actor db)

convert_found-Follows :
    (number warehouse location actor : ℕ) (o : SalesOrder) (db : Shop)
    → find_order o.id db.orders ≡ some o
    → Follows db (convert_found (λ t. t) number warehouse location actor o db).1
unfolding convert_found
convert_found-Follows number warehouse location actor o db own =
    elim (Bool-cases (is_convertible o)) [
      | inr e ↦ rw e (Follows-same db db refl)
      | inl e ↦ elim (Bool-cases (is_some o.invoice)) [
        | inl e' ↦ rw (e, e') (Follows-same db db refl)
        | inr e' ↦
            rw (e, e')
              (convert_with_branch-Follows number warehouse location actor o.branch o db own
                (bill_step o.status (is_central_retailer o) e))
      ]
    ]

-- Whatever order a confirmation, a change of status, a cancellation or a conversion to an invoice is
-- called for, with no other call between its reads and its writes, and whether the call succeeds or
-- throws, every order that was in the table is still
-- there, and its status is the one it had or one that a step of an order's life leads to from there.
pub orders-Follow :
    (number id warehouse location actor : ℕ) (target : Target) (db : Shop)
    → Follows db (confirm id actor db).1
      × Follows db (update_status id target actor db).1
      × Follows db (cancel id actor db).1
      × Follows db (convert number id warehouse location actor db).1
unfolding confirm update_status cancel convert
orders-Follow number id warehouse location actor target db = (
  with_found-Follows id (confirm_found actor) db
      (λ o own. confirm_found-Follows actor o db o.status refl own),
  and_audit-Follows actor sales_order_confirmed id db (transaction (update_in id target actor) db)
      (transaction-Follows (update_in id target actor) db (update_in-Follows id target actor db)),
  transaction-Follows (cancel_in id actor) db (cancel_in-Follows id actor db),
  with_found-Follows id (convert_found (λ t. t) number warehouse location actor) db
      (λ o own. convert_found-Follows number warehouse location actor o db own),
)
