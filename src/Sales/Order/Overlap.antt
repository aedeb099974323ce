-- ===== src/Sales/Order/Overlap.antt =====
-- `confirm` and `convertToInvoice` read an order that they do not lock: what becomes of it when other
-- calls run in between.
use mathlib.Core.Path.{subst}
use pasalho.Prelude.{
  ℕ, ◌≡◌, refl, sym, ◌∙◌, ap, true, Option, none, some, List, arith, Bool-cases, Option-cases, inl,
  inr, is_some, update_row, find_row-id, find_row-update_row,
}
use pasalho.Prelude.Result.{Result, ok, err, Action}
use pasalho.Finance.Data.{Invoice}
use pasalho.Sales.Data.{OrderStatus, SalesOrder, Shop, order_id}
use pasalho.Sales.Invoice.{create}
use pasalho.Sales.Order.{
  find_order, set_status, with_found, is_draft, is_central_retailer, confirm_found, confirm_while,
}
use pasalho.Sales.Order.Convert.{
  convert_while, convert_found, convert_with_branch, is_convertible, dto_of, linked, then_others,
  invoiced_row,
}
use pasalho.Sales.Order.Life.{Progress, confirms, stays, read_back-orders}
use pasalho.Sales.Order.Progress.{create-orders, bill_step}

-- The other calls leave the status of an order as it is.
abbrev pub Leaves : ℕ → (Shop → Shop) → Type 0
Leaves id others =
    (db : Shop) (a : SalesOrder)
    → find_order id db.orders ≡ some a
    → (b : SalesOrder) × (find_order id (others db).orders ≡ some b) × (b.status ≡ a.status)

-- An order of the first table is in the second one, middle most a step further.
abbrev pub Advances : ℕ → List SalesOrder → List SalesOrder → Type 0
Advances id before after =
    (a : SalesOrder)
    → find_order id before ≡ some a
    → (b : SalesOrder) × (find_order id after ≡ some b) × Progress a.status b.status

Advances-left :
    (id : ℕ) (o b : SalesOrder) (before after : List SalesOrder)
    → find_order id before ≡ some o
    → find_order id after ≡ some b
    → b.status ≡ o.status
    → Advances id before after
Advances-left id o b before after found at_end same a found' =
    let equal : o ≡ a = ground (arith, found, found') in
    (b, at_end, rw (← equal, same) (stays o.status))

Advances-written :
    (id : ℕ) (o b : SalesOrder) (f : SalesOrder → SalesOrder)
    (before middle after : List SalesOrder)
    → find_order id before ≡ some o
    → find_order id middle ≡ some b
    → ((r : SalesOrder) → (f r).id ≡ r.id)
    → after ≡ update_row order_id o.id f middle
    → Progress o.status (f b).status
    → Advances id before after
Advances-written id o b f before middle after found at_write keep written step a found' =
    let equal : o ≡ a = ground (arith, found, found') in
    let same : o.id ≡ id = find_row-id order_id id before found in
    (
      f b,
      ap (find_order id) (written ∙ ap (λ j. update_row order_id j f middle) same)
          ∙ find_row-update_row order_id id f middle (keep b) at_write,
      rw (← equal) step,
    )

with_found-found :
    (id : ℕ) (k : SalesOrder → Action Shop SalesOrder) (db : Shop) (o : SalesOrder)
    → find_order id db.orders ≡ some o
    → with_found id k db ≡ k o db
unfolding with_found
with_found-found id k db o e = rw (e, with_found) refl

confirm_step : (s : OrderStatus) → is_draft s ≡ true → Progress s OrderStatus.confirmed
confirm_step OrderStatus.draft h = confirms
confirm_step OrderStatus.confirmed h = absurd (ground (arith, h))
confirm_step OrderStatus.invoiced h = absurd (ground (arith, h))
confirm_step OrderStatus.placed h = absurd (ground (arith, h))
confirm_step OrderStatus.picking h = absurd (ground (arith, h))
confirm_step OrderStatus.packed h = absurd (ground (arith, h))
confirm_step OrderStatus.dispatched h = absurd (ground (arith, h))
confirm_step OrderStatus.delivered h = absurd (ground (arith, h))
confirm_step OrderStatus.cancelled h = absurd (ground (arith, h))

module _ (id actor : ℕ) (db : Shop) (o : SalesOrder)
    (found : find_order id db.orders ≡ some o) where
  confirm_found-Advances :
      (u : Shop) (b : SalesOrder)
      → find_order id u.orders ≡ some b
      → b.status ≡ o.status
      → Advances id db.orders (confirm_found actor o u).1.orders
  unfolding confirm_found
  confirm_found-Advances u b at_write same = elim (Bool-cases (is_draft o.status)) [
    | inr e ↦ rw (e, confirm_found) (Advances-left id o b db.orders u.orders found at_write same)
    | inl e ↦
        rw (e, confirm_found)
          (Advances-written id o b (set_status OrderStatus.confirmed) db.orders u.orders _ found
            at_write (λ r. refl) (read_back-orders o.id _) (confirm_step o.status e))
  ]

  linked-Advances :
      (r : Result Invoice × Shop) (b : SalesOrder)
      → find_order id r.1.orders ≡ some b
      → b.status ≡ o.status
      → Progress o.status OrderStatus.invoiced
      → Advances id db.orders (linked o actor r).1.orders
  linked-Advances (err e, u) b at_write same step =
      Advances-left id o b db.orders u.orders found at_write same
  linked-Advances (ok i, u) b at_write same step =
      Advances-written id o b (invoiced_row i.id) db.orders u.orders _ found at_write (λ r. refl)
        (read_back-orders o.id _) step

  module _ (later : Shop → Shop) (leaves : Leaves id later) (number warehouse location : ℕ) where
    convert_with_branch-Advances :
        (branch : Option ℕ) (u : Shop) (b : SalesOrder)
        → find_order id u.orders ≡ some b
        → b.status ≡ o.status
        → Progress o.status OrderStatus.invoiced
        → Advances id db.orders
            (convert_with_branch later number warehouse location actor branch o u).1.orders
    unfolding convert_with_branch
    convert_with_branch-Advances none u b at_write same step =
        Advances-left id o b db.orders u.orders found at_write same
    convert_with_branch-Advances (some branch) u b at_write same step =
        let dto = dto_of o branch warehouse location in
        let r = create number dto actor u in
        let drafted : find_order id r.1.orders ≡ some b =
          ap (find_order id) (create-orders number dto actor u) ∙ at_write in
        let (c, at_link, same') = leaves r.1 b drafted in
        linked-Advances (then_others later r) c at_link (same' ∙ same) step

    convert_found-Advances :
        (u : Shop) (b : SalesOrder)
        → find_order id u.orders ≡ some b
        → b.status ≡ o.status
        → Advances id db.orders (convert_found later number warehouse location actor o u).1.orders
    unfolding convert_found
    convert_found-Advances u b at_write same = elim (Bool-cases (is_convertible o)) [
      | inr e ↦ rw e (Advances-left id o b db.orders u.orders found at_write same)
      | inl e ↦ elim (Bool-cases (is_some o.invoice)) [
        | inl e' ↦ rw (e, e') (Advances-left id o b db.orders u.orders found at_write same)
        | inr e' ↦
            rw (e, e')
              (convert_with_branch-Advances o.branch u b at_write same
                (bill_step o.status (is_central_retailer o) e))
      ]
    ]

-- A confirmation and a conversion to an invoice lock nothing, and other calls may change the database
-- between their reads and their writes. If these leave the status of the order as it is, then,
-- whatever else they do, the order has at the end the status it had at first or one that a step of an
-- order's life leads to from there.
pub overlapped-Advances :
    (id actor number warehouse location : ℕ) (others later : Shop → Shop) (db : Shop)
    → Leaves id others
    → Leaves id later
    → Advances id db.orders (confirm_while others id actor db).1.orders
      × Advances id db.orders
          (convert_while others later number id warehouse location actor db).1.orders
unfolding confirm_while convert_while with_found
overlapped-Advances id actor number warehouse location others later db leaves leaves' =
    elim (Option-cases (find_order id db.orders)) [
      | inl e ↦ (
        λ a found. absurd (ground (arith, e, found)),
        λ a found. absurd (ground (arith, e, found)),
      )
      | inr (o, e) ↦
          let (b, at_write, same) = leaves db o e in
          let At = λ (r : Result SalesOrder × Shop). Advances id db.orders r.1.orders in
          let confirmed = λ (o : SalesOrder) (db : Shop). confirm_found actor o (others db) in
          let converted = λ (o : SalesOrder) (db : Shop).
            convert_found later number warehouse location actor o (others db) in
          (
            subst At (sym (with_found-found id confirmed db o e))
                (confirm_found-Advances id actor db o e (others db) b at_write same),
            subst At (sym (with_found-found id converted db o e)) (
                convert_found-Advances id actor db o e later leaves' number warehouse location
                  (others db) b at_write same),
          )
    ]
