-- ===== src/Sales/Order/Life.antt =====
-- The steps of an order's life, and databases that follow them.
use pasalho.Prelude.{
  ℕ, ◌≡◌, refl, sym, ◌∙◌, ap, true, some, arith, Bool-cases, Option-cases, inl, inr, ◌==◌,
  update_row, find_row-id, find_row-update_row, find_row-update_row_other, ==_iff,
}
use pasalho.Prelude.Result.{Action}
use pasalho.Sales.Data.{OrderStatus, SalesOrder, Shop, order_id}
use pasalho.Sales.Order.{
  Target, status_of, find_order, set_status, with_found, read_back, confirm_found,
  is_valid_transition, is_cancellable,
}

-- The steps of an order. Nothing leaves DELIVERED and CANCELLED, and stock that has left the
-- warehouse is not cancelled.
pub data Progress : OrderStatus → OrderStatus → Type 0 where
  stays : (s : OrderStatus) → Progress s s
  confirms : Progress OrderStatus.draft OrderStatus.confirmed
  picks : Progress OrderStatus.confirmed OrderStatus.picking
  picks_placed : Progress OrderStatus.placed OrderStatus.picking
  packs : Progress OrderStatus.picking OrderStatus.packed
  leaves : Progress OrderStatus.packed OrderStatus.dispatched
  leaves_invoiced : Progress OrderStatus.invoiced OrderStatus.dispatched
  arrives : Progress OrderStatus.dispatched OrderStatus.delivered
  bills : Progress OrderStatus.confirmed OrderStatus.invoiced
  bills_packed : Progress OrderStatus.packed OrderStatus.invoiced
  drops_draft : Progress OrderStatus.draft OrderStatus.cancelled
  drops_confirmed : Progress OrderStatus.confirmed OrderStatus.cancelled
  drops_placed : Progress OrderStatus.placed OrderStatus.cancelled
  drops_picking : Progress OrderStatus.picking OrderStatus.cancelled
  drops_packed : Progress OrderStatus.packed OrderStatus.cancelled

-- Every order of the first database is in the second one, at most a step further.
pub record Follows (db t : Shop) : Type 0 where
  pub order :
      (id : ℕ) (a : SalesOrder)
      → find_order id db.orders ≡ some a
      → (b : SalesOrder) × (find_order id t.orders ≡ some b) × Progress a.status b.status

pub Follows-same : (db t : Shop) → t.orders ≡ db.orders → Follows db t
Follows-same db t h = record {
  order = λ id a found. (a, ap (find_order id) h ∙ found, stays a.status);
}

pub Follows-update :
    (db t : Shop) (o : SalesOrder) (f : SalesOrder → SalesOrder)
    → find_order o.id db.orders ≡ some o
    → ((r : SalesOrder) → (f r).id ≡ r.id)
    → Progress o.status (f o).status
    → t.orders ≡ update_row order_id o.id f db.orders
    → Follows db t
Follows-update db t o f own keep step h = record {
  order = λ id a found. elim (Bool-cases (o.id == id)) [
    | inr e ↦ (
      a,
      ap (find_order id) h ∙ find_row-update_row_other order_id o.id id f db.orders keep e ∙ found,
      stays a.status,
    )
    | inl e ↦
        let same : o.id ≡ id = (==_iff o.id id).0 e in
        let found' : find_order o.id db.orders ≡ some a =
          ap (λ j. find_order j db.orders) same ∙ found in
        let equal : o ≡ a = ground (arith, own, found') in
        (
          f o,
          ap (λ j. find_order j t.orders) (sym same)
              ∙ ap (find_order o.id) h
              ∙ find_row-update_row order_id o.id f db.orders (keep o) own,
          rw (← equal) step,
        )
  ];
}

pub own_row :
    (id : ℕ) (o : SalesOrder) (db : Shop)
    → find_order id db.orders ≡ some o
    → find_order o.id db.orders ≡ some o
own_row id o db found =
    ap (λ j. find_order j db.orders) (find_row-id order_id id db.orders found) ∙ found

-- A handler that reads one order.
pub with_found-Follows :
    (id : ℕ) (k : SalesOrder → Action Shop SalesOrder) (db : Shop)
    → ((o : SalesOrder) → find_order o.id db.orders ≡ some o → Follows db (k o db).1)
    → Follows db (with_found id k db).1
unfolding with_found
with_found-Follows id k db step = elim (Option-cases (find_order id db.orders)) [
  | inl e ↦ rw (e, with_found) (Follows-same db db refl)
  | inr (o, e) ↦ rw (e, with_found) (step o (own_row id o db e))
]

-- A read changes nothing.
pub read_back-orders : (id : ℕ) (t : Shop) → (read_back id t).1.orders ≡ t.orders
unfolding read_back
read_back-orders id t = elim (Option-cases (find_order id t.orders)) [
  | inl e ↦ rw (e, read_back) refl
  | inr (o, e) ↦ rw (e, read_back) refl
]

pub confirm_found-Follows :
    (actor : ℕ) (o : SalesOrder) (db : Shop) (s : OrderStatus)
    → o.status ≡ s
    → find_order o.id db.orders ≡ some o
    → Follows db (confirm_found actor o db).1
unfolding confirm_found
confirm_found-Follows actor o db OrderStatus.draft e own = rw e (
    Follows-update db _ o (set_status OrderStatus.confirmed) own (λ r. refl) (rw e confirms)
      (read_back-orders o.id _))
confirm_found-Follows actor o db OrderStatus.confirmed e own = rw e (Follows-same db db refl)
confirm_found-Follows actor o db OrderStatus.invoiced e own = rw e (Follows-same db db refl)
confirm_found-Follows actor o db OrderStatus.placed e own = rw e (Follows-same db db refl)
confirm_found-Follows actor o db OrderStatus.picking e own = rw e (Follows-same db db refl)
confirm_found-Follows actor o db OrderStatus.packed e own = rw e (Follows-same db db refl)
confirm_found-Follows actor o db OrderStatus.dispatched e own = rw e (Follows-same db db refl)
confirm_found-Follows actor o db OrderStatus.delivered e own = rw e (Follows-same db db refl)
confirm_found-Follows actor o db OrderStatus.cancelled e own = rw e (Follows-same db db refl)

-- The table of transitions, read as steps.
pub target_step :
    (s : OrderStatus) (target : Target)
    → is_valid_transition s target ≡ true
    → Progress s (status_of target)
target_step OrderStatus.draft Target.picking h = absurd (ground (arith, h))
target_step OrderStatus.draft Target.packed h = absurd (ground (arith, h))
target_step OrderStatus.draft Target.dispatched h = absurd (ground (arith, h))
target_step OrderStatus.draft Target.delivered h = absurd (ground (arith, h))
target_step OrderStatus.confirmed Target.picking h = picks
target_step OrderStatus.confirmed Target.packed h = absurd (ground (arith, h))
target_step OrderStatus.confirmed Target.dispatched h = absurd (ground (arith, h))
target_step OrderStatus.confirmed Target.delivered h = absurd (ground (arith, h))
target_step OrderStatus.invoiced Target.picking h = absurd (ground (arith, h))
target_step OrderStatus.invoiced Target.packed h = absurd (ground (arith, h))
target_step OrderStatus.invoiced Target.dispatched h = leaves_invoiced
target_step OrderStatus.invoiced Target.delivered h = absurd (ground (arith, h))
target_step OrderStatus.placed Target.picking h = picks_placed
target_step OrderStatus.placed Target.packed h = absurd (ground (arith, h))
target_step OrderStatus.placed Target.dispatched h = absurd (ground (arith, h))
target_step OrderStatus.placed Target.delivered h = absurd (ground (arith, h))
target_step OrderStatus.picking Target.picking h = absurd (ground (arith, h))
target_step OrderStatus.picking Target.packed h = packs
target_step OrderStatus.picking Target.dispatched h = absurd (ground (arith, h))
target_step OrderStatus.picking Target.delivered h = absurd (ground (arith, h))
target_step OrderStatus.packed Target.picking h = absurd (ground (arith, h))
target_step OrderStatus.packed Target.packed h = absurd (ground (arith, h))
target_step OrderStatus.packed Target.dispatched h = leaves
target_step OrderStatus.packed Target.delivered h = absurd (ground (arith, h))
target_step OrderStatus.dispatched Target.picking h = absurd (ground (arith, h))
target_step OrderStatus.dispatched Target.packed h = absurd (ground (arith, h))
target_step OrderStatus.dispatched Target.dispatched h = absurd (ground (arith, h))
target_step OrderStatus.dispatched Target.delivered h = arrives
target_step OrderStatus.delivered Target.picking h = absurd (ground (arith, h))
target_step OrderStatus.delivered Target.packed h = absurd (ground (arith, h))
target_step OrderStatus.delivered Target.dispatched h = absurd (ground (arith, h))
target_step OrderStatus.delivered Target.delivered h = absurd (ground (arith, h))
target_step OrderStatus.cancelled Target.picking h = absurd (ground (arith, h))
target_step OrderStatus.cancelled Target.packed h = absurd (ground (arith, h))
target_step OrderStatus.cancelled Target.dispatched h = absurd (ground (arith, h))
target_step OrderStatus.cancelled Target.delivered h = absurd (ground (arith, h))

pub cancel_step : (s : OrderStatus) → is_cancellable s ≡ true → Progress s OrderStatus.cancelled
cancel_step OrderStatus.draft h = drops_draft
cancel_step OrderStatus.confirmed h = drops_confirmed
cancel_step OrderStatus.invoiced h = absurd (ground (arith, h))
cancel_step OrderStatus.placed h = drops_placed
cancel_step OrderStatus.picking h = drops_picking
cancel_step OrderStatus.packed h = drops_packed
cancel_step OrderStatus.dispatched h = absurd (ground (arith, h))
cancel_step OrderStatus.delivered h = absurd (ground (arith, h))
cancel_step OrderStatus.cancelled h = absurd (ground (arith, h))
