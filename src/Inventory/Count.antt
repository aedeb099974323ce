-- ===== src/Inventory/Count.antt =====
-- backend/src/inventory/services/inventory-reconciliation.service.ts: a physical count of the stock
-- at a location. The listing is not modelled.
pub mod Reconcile
pub mod Calls
pub mod Variance
use pasalho.Prelude.{
  ℕ, ◌+◌, Bool, true, false, Option, none, some, List, [], ◌∷◌, ◌++◌, map, if◌then◌else◌, ◌==◌,
  ◌&&◌, not, same_id?, find_row, update_row, is_some,
}
use pasalho.Prelude.Int.{ℤ, pos, -ℤ◌, ◌-ℤ◌, ltb_ℤ, leb_ℤ}
use pasalho.Prelude.Result.{Result, ok, err, app_error, not_found, validation_error, Action}
use pasalho.Audit.{stock_adjustment_posted, warehouse}
use pasalho.Inventory.Data.{StockState, available, Snapshot}
use pasalho.Inventory.Stockroom.{
  CountStatus, CountItem, StockCount, Adjustment, Stockroom, audited, and_then,
}
use pasalho.Inventory.Adjustment.{ItemDto, AdjustmentDto, create, submit, approve, post}
use pasalho.Inventory.Consumption.{filter}

abbrev pub is_draft : CountStatus → Bool
is_draft CountStatus.draft = true
is_draft _ = false

abbrev pub is_submitted : CountStatus → Bool
is_submitted CountStatus.submitted = true
is_submitted _ = false

-- `status: { in: ['DRAFT', 'SUBMITTED'] }`
abbrev pub is_running : CountStatus → Bool
is_running CountStatus.draft = true
is_running CountStatus.submitted = true
is_running _ = false

unfoldable pub find_first {ℓ} : {A : Type ℓ} → (A → Bool) → List A → Option A
find_first p [] = none
find_first p (x ∷ xs) = if p x then some x else find_first p xs

abbrev pub is_available : StockState → Bool
is_available available = true
is_available _ = false

-- The snapshots that a new count starts from.
abbrev pub is_counted : ℕ → Snapshot → Bool
is_counted location s =
    (s.key.location == location) && is_available s.key.state && ltb_ℤ (pos 0) s.base_quantity

abbrev pub item_of : Snapshot → ℕ → CountItem
item_of s id = record {
  id = id;
  product = s.key.product;
  batch = s.key.batch;
  unit = s.key.unit;
  system_quantity = s.quantity;
  counted_quantity = pos 0;
  variance = -ℤ◌ s.quantity;
}

unfoldable pub items_of : List Snapshot → ℕ → List CountItem
items_of [] id = []
items_of (s ∷ rows) id = item_of s id ∷ items_of rows (id + 1)

pub record StartDto : Type 0 where
  pub branch : ℕ
  pub warehouse : ℕ
  pub location : ℕ
  pub actor : ℕ

unfoldable pub count_row : StartDto → List Snapshot → ℕ → StockCount
unfolding items_of filter
count_row dto rows id = record {
  id = id;
  branch = dto.branch;
  warehouse = dto.warehouse;
  location = dto.location;
  status = CountStatus.draft;
  counted_by = dto.actor;
  items = items_of (filter (is_counted dto.location) rows) (id + 1);
}

unfoldable pub size {ℓ} : {A : Type ℓ} → List A → ℕ
size [] = 0
size (x ∷ xs) = size xs + 1

-- `startStockCount`
unfoldable pub start_stock_count : StartDto → Action Stockroom StockCount
start_stock_count dto db =
    if is_some (
      find_first (λ (c : StockCount). (c.location == dto.location) && is_running c.status)
        db.counts)
    then (err (app_error validation_error 422), db)
    else let row = count_row dto db.stock.snapshots db.stock.next_id in
      (
        ok row,
        record db {
          counts = db.counts ++ row ∷ [];
          stock = record db.stock { next_id = db.stock.next_id + 1 + size row.items };
        },
      )

abbrev pub count_id : StockCount → ℕ
count_id c = c.id

unfoldable pub with_found_count :
    {A : Type 0} → ℕ → (StockCount → Action Stockroom A) → Action Stockroom A
with_found_count id k db = elim (find_row count_id id db.counts) [
  | none ↦ (err (app_error not_found 404), db)
  | some c ↦ k c db
]

pub record CountedDto : Type 0 where
  pub product : ℕ
  pub batch : Option ℕ
  pub unit : ℕ
  pub counted_quantity : ℤ

abbrev pub is_item : CountedDto → CountItem → Bool
is_item dto i = (i.product == dto.product) && same_id? i.batch dto.batch && (i.unit == dto.unit)

-- What a count writes into an item that it knows.
abbrev pub counted : CountedDto → CountItem → CountItem → CountItem
counted dto existing i = record i {
  counted_quantity = dto.counted_quantity;
  variance = dto.counted_quantity -ℤ existing.system_quantity;
}

abbrev pub found_item : CountedDto → ℕ → CountItem
found_item dto id = record {
  id = id;
  product = dto.product;
  batch = dto.batch;
  unit = dto.unit;
  system_quantity = pos 0;
  counted_quantity = dto.counted_quantity;
  variance = dto.counted_quantity;
}

abbrev pub item_id : CountItem → ℕ
item_id i = i.id

-- One round of the loop of `updateCount`: the items that were read, the rows as they are, and the
-- next fresh id.
unfoldable pub count_item : List CountItem → CountedDto → List CountItem → ℕ → List CountItem × ℕ
unfolding find_first
count_item read dto rows id = elim (find_first (is_item dto) read) [
  | some existing ↦ (update_row item_id existing.id (counted dto existing) rows, id)
  | none ↦ (rows ++ found_item dto id ∷ [], id + 1)
]

unfoldable pub count_items :
    List CountItem → List CountedDto → List CountItem → ℕ → List CountItem × ℕ
count_items read [] rows id = (rows, id)
count_items read (dto ∷ dtos) rows id =
    let step = count_item read dto rows id in count_items read dtos step.0 step.1

abbrev pub with_items : List CountItem → StockCount → StockCount
with_items items c = record c { items = items }

abbrev pub with_counted : StockCount → List CountItem × ℕ → Action Stockroom StockCount
with_counted c r db = (
  ok (with_items r.0 c),
  record db {
    counts = update_row count_id c.id (with_items r.0) db.counts;
    stock = record db.stock { next_id = r.1 };
  },
)

unfoldable pub update_found : List CountedDto → StockCount → Action Stockroom StockCount
unfolding count_items
update_found dtos c db =
    if is_draft c.status
    then with_counted c (count_items c.items dtos c.items db.stock.next_id) db
    else (err (app_error validation_error 422), db)

-- `updateCount`
unfoldable pub update_count : ℕ → List CountedDto → Action Stockroom StockCount
update_count id dtos = with_found_count id (update_found dtos)

-- `stockCount.update` of the row that was read.
abbrev pub set_count_status : CountStatus → StockCount → Action Stockroom StockCount
set_count_status s c db =
    let f : StockCount → StockCount = λ (c : StockCount). record c { status = s } in
    (ok (f c), record db { counts = update_row count_id c.id f db.counts })

unfoldable pub submit_count_found : StockCount → Action Stockroom StockCount
submit_count_found c db =
    if is_draft c.status
    then set_count_status CountStatus.submitted c db
    else (err (app_error validation_error 422), db)

-- `submit`
unfoldable pub submit_count : ℕ → Action Stockroom StockCount
submit_count id = with_found_count id submit_count_found
