-- ===== src/Inventory/Allocation.antt =====
-- `reserveSalesOrderItem` of backend/src/inventory/services/stock-reservation.service.ts: one line
-- of an order is reserved on the batch that was asked for, or on the eligible batches in the
-- order in which they expire. `today` is the database's CURRENT_DATE.
pub mod Cover
pub mod Expiry
pub mod Line
use pasalho.Prelude.{
  ℕ, Bool, true, false, Option, none, some, List, [], ◌∷◌, ◌++◌, ◌==◌, ltb, leb, ◌&&◌, ◌||◌, not,
  if◌then◌else◌, is_some,
}
use pasalho.Prelude.Int.{ℤ, pos, ◌-ℤ◌, ◌*ℤ◌, ltb_ℤ, leb_ℤ, min_ℤ, round_div, sum_by}
use pasalho.Prelude.Result.{
  Result, ok, err, app_error, insufficient_stock, Tx, ◌>>=◌, ◌>>◌, pure, for_each, lift, modify,
}
use pasalho.Inventory.Data.{
  StockState, available, Snapshot, StockState-discrete, Batch, BatchStatus, active, blocked,
  expired, Inventory, Reservation, ReservationItem,
}
use pasalho.Inventory.Reservation.{ReserveStockInput, reserve}

-- `ReserveSalesOrderItemInput`
pub record ItemInput : Type 0 where
  pub stock : ReserveStockInput
  pub sales_order_item : ℕ
  pub reservation : ℕ
  pub is_batch_tracked : Bool

pub record Allocation : Type 0 where
  pub batch : Option ℕ
  pub quantity : ℤ
  pub base_quantity : ℤ

-- A row of the candidate query, with the columns by which it is ordered.
pub record Candidate : Type 0 where
  pub batch : ℕ
  pub quantity : ℤ
  pub base_quantity : ℤ
  pub expiry_date : Option ℕ
  pub created_at : ℕ

unfoldable pub find_batch : ℕ → List Batch → Option Batch
find_batch id [] = none
find_batch id (b ∷ bs) = if b.id == id then some b else find_batch id bs

abbrev is_active : BatchStatus → Bool
is_active active = true
is_active _ = false

abbrev pub not_expired : ℕ → Option ℕ → Bool
not_expired today none = true
not_expired today (some date) = leb today date

abbrev is_available : StockState → Bool
is_available available = true
is_available _ = false

-- The `WHERE` clause of the candidate query.
unfoldable pub is_eligible : ℕ → ReserveStockInput → Snapshot → Batch → Bool
is_eligible today input row batch =
    (row.key.location == input.location)
    && (row.key.product == input.product)
    && (row.key.unit == input.unit)
    && is_available row.key.state
    && ltb_ℤ (pos 0) row.base_quantity
    && is_active batch.status
    && not_expired today batch.expiry_date

-- The join of a snapshot row with its batch.
unfoldable pub candidate_of : ℕ → ReserveStockInput → List Batch → Snapshot → Option Candidate
unfolding find_batch is_eligible
candidate_of today input batches row = elim row.key.batch [
  | none ↦ none
  | some id ↦ elim (find_batch id batches) [
    | none ↦ none
    | some batch ↦
        if is_eligible today input row batch
        then some (record {
          batch = id;
          quantity = row.quantity;
          base_quantity = row.base_quantity;
          expiry_date = batch.expiry_date;
          created_at = batch.created_at;
        })
        else none
  ]
]

-- `ORDER BY b."expiryDate" ASC NULLS LAST, b."createdAt" ASC, b.id ASC`: whether the first
-- candidate may stand in front of the second.
abbrev pub expires_first : Option ℕ → Option ℕ → Bool
expires_first (some a) (some b) = ltb a b
expires_first (some a) none = true
expires_first none _ = false

unfoldable pub comes_first : Candidate → Candidate → Bool
comes_first a b =
    if expires_first a.expiry_date b.expiry_date
    then true
    else if expires_first b.expiry_date a.expiry_date
    then false
    else if ltb a.created_at b.created_at
    then true
    else if ltb b.created_at a.created_at
    then false
    else leb a.batch b.batch

unfoldable pub insert : Candidate → List Candidate → List Candidate
insert c [] = c ∷ []
insert c (d ∷ ds) = if comes_first c d then c ∷ d ∷ ds else d ∷ insert c ds

abbrev pub insert? : Option Candidate → List Candidate → List Candidate
insert? none cs = cs
insert? (some c) cs = insert c cs

-- The candidate query.
unfoldable pub candidates : ℕ → ReserveStockInput → List Batch → List Snapshot → List Candidate
candidates today input batches [] = []
candidates today input batches (row ∷ rows) =
    insert? (candidate_of today input batches row) (candidates today input batches rows)

-- The loop over the candidates. An allocated quantity is rounded to the column it is stored in.
unfoldable pub allocate : ℤ → ℤ → ℤ → List Candidate → List Allocation
allocate quantity base_quantity remaining_base [] = []
allocate quantity base_quantity remaining_base (c ∷ cs) =
    let allocated_base = min_ℤ remaining_base c.base_quantity in
    let allocation : Allocation = record {
      batch = some c.batch;
      quantity = round_div (quantity *ℤ allocated_base) base_quantity;
      base_quantity = allocated_base;
    } in
    let rest = allocate quantity base_quantity (remaining_base -ℤ allocated_base) cs in
    if leb_ℤ remaining_base (pos 0) then [] else allocation ∷ rest

abbrev pub total_available : List Candidate → ℤ
total_available = sum_by (λ (c : Candidate). c.base_quantity)

unfoldable pub allocations_from : ReserveStockInput → List Candidate → Result (List Allocation)
unfolding allocate
allocations_from input cs =
    if ltb_ℤ (total_available cs) input.base_quantity
    then err (app_error insufficient_stock 422)
    else ok (allocate input.quantity input.base_quantity input.base_quantity cs)

abbrev pub as_asked : ReserveStockInput → Allocation
as_asked input = record {
  batch = input.batch;
  quantity = input.quantity;
  base_quantity = input.base_quantity;
}

-- The first half of `reserveSalesOrderItem`.
unfoldable pub choose_allocations : ℕ → ItemInput → Inventory → Result (List Allocation)
choose_allocations today input db =
    if not input.is_batch_tracked || is_some input.stock.batch
    then ok (as_asked input.stock ∷ [])
    else allocations_from input.stock (candidates today input.stock db.batches db.snapshots)

-- `{ ...input, ...allocation }`
abbrev pub narrowed : ReserveStockInput → Allocation → ReserveStockInput
narrowed input a = record input {
  batch = a.batch;
  quantity = a.quantity;
  base_quantity = a.base_quantity;
}

unfoldable pub add_item : ℕ → ReservationItem → List Reservation → List Reservation
add_item id item [] = []
add_item id item (r ∷ rs) =
    if r.id == id then record r { items = r.items ++ item ∷ [] } ∷ rs else r ∷ add_item id item rs

-- `stockReservationItem.create`
abbrev pub create_item : ItemInput → Allocation → Inventory → Inventory
create_item input a db = record db {
  reservations =
      add_item input.reservation
        (record {
          sales_order_item = input.sales_order_item;
          product = input.stock.product;
          batch = a.batch;
          unit = input.stock.unit;
          quantity = a.quantity;
          base_quantity = a.base_quantity;
        })
        db.reservations;
}

-- One round of the second loop.
unfoldable pub reserve_allocation : ItemInput → Allocation → Tx Inventory Unit
reserve_allocation input a = do reserve (narrowed input.stock a); modify (create_item input a)

-- `reserveSalesOrderItem`, in the transaction of its caller.
unfoldable pub reserve_sales_order_item : ℕ → ItemInput → Tx Inventory (List Allocation)
reserve_sales_order_item today input = do
  allocations ← lift (choose_allocations today input)
  for_each (reserve_allocation input) allocations
  pure allocations
