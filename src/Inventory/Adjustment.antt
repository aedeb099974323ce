-- ===== src/Inventory/Adjustment.antt =====
-- backend/src/inventory/services/stock-adjustment.service.ts: an adjustment is drafted, submitted,
-- approved and posted, and only posting moves stock. `post` commits the event of the stock ledger
-- and marks the adjustment in two steps, `post_stock` and `mark_posted`. The listing is not
-- modelled. `number` stands for `ADJ-${Date.now()}`.
pub mod Safety
pub mod Retry
use pasalho.Prelude.{
  ℕ, ◌+◌, Bool, true, false, Option, none, some, List, [], ◌∷◌, ◌++◌, map, if◌then◌else◌, find_row,
  update_row, is_some,
}
use Prim.Native.String.{String}
use pasalho.Prelude.Int.{ℤ, pos, ltb_ℤ}
use pasalho.Prelude.Result.{Result, ok, err, app_error, not_found, validation_error, p2002, Action}
use pasalho.Audit.{
  AuditAction, stock_adjustment, stock_adjustment_created, stock_adjustment_submitted,
  stock_adjustment_approved, stock_adjustment_posted,
}
use pasalho.Inventory.Data.{
  StockState, available, EventType, MovementType, stock_in, stock_out, adj_post, MovementInput,
  PostEventInput, Inventory,
}
use pasalho.Inventory.Ledger.{post_event}
use pasalho.Inventory.Stockroom.{
  AdjustmentStatus, AdjustmentItem, Adjustment, Stockroom, audited, after_stock,
}

pub record ItemDto : Type 0 where
  pub product : ℕ
  pub batch : Option ℕ
  pub unit : ℕ
  pub stock_state : Option StockState
  pub quantity_delta : ℤ
  pub base_quantity_delta : ℤ
  pub reason_code : Option String

pub record AdjustmentDto : Type 0 where
  pub branch : ℕ
  pub warehouse : ℕ
  pub location : ℕ
  pub items : List ItemDto

abbrev pub is_draft : AdjustmentStatus → Bool
is_draft AdjustmentStatus.draft = true
is_draft _ = false

abbrev pub is_submitted : AdjustmentStatus → Bool
is_submitted AdjustmentStatus.submitted = true
is_submitted _ = false

abbrev pub is_approved : AdjustmentStatus → Bool
is_approved AdjustmentStatus.approved = true
is_approved _ = false

abbrev pub id_of : Adjustment → ℕ
id_of a = a.id

abbrev pub find_adjustment : ℕ → List Adjustment → Option Adjustment
find_adjustment = find_row id_of

-- `item.stockState ?? 'AVAILABLE'`
abbrev pub state_or_available : Option StockState → StockState
state_or_available none = available
state_or_available (some s) = s

abbrev pub item_row : ItemDto → AdjustmentItem
item_row item = record {
  product = item.product;
  batch = item.batch;
  unit = item.unit;
  stock_state = state_or_available item.stock_state;
  quantity_delta = item.quantity_delta;
  base_quantity_delta = item.base_quantity_delta;
  reason_code = item.reason_code;
}

abbrev pub adjustment_row : ℕ → AdjustmentDto → ℕ → ℕ → Adjustment
adjustment_row number dto actor id = record {
  id = id;
  adjustment_no = number;
  branch = dto.branch;
  warehouse = dto.warehouse;
  location = dto.location;
  status = AdjustmentStatus.draft;
  created_by = actor;
  submitted_by = none;
  approved_by = none;
  posted_by = none;
  items = map item_row dto.items;
}

abbrev pub with_adjustment : Adjustment → Stockroom → Stockroom
with_adjustment a db = record db {
  adjustments = db.adjustments ++ a ∷ [];
  stock = record db.stock { next_id = db.stock.next_id + 1 };
}

-- `create`; the number is under a unique index.
unfoldable pub create : ℕ → AdjustmentDto → ℕ → Action Stockroom Adjustment
create number dto actor db =
    if is_some (find_row (λ (a : Adjustment). a.adjustment_no) number db.adjustments)
    then (err p2002, db)
    else let row = adjustment_row number dto actor db.stock.next_id in
      (
        ok row,
        audited actor stock_adjustment_created stock_adjustment row.id dto.branch
            (with_adjustment row db),
      )

-- `stockAdjustment.update` of the row that was read, with the audit entry behind it.
abbrev pub update_adjustment :
    Adjustment → (Adjustment → Adjustment) → AuditAction → ℕ → Action Stockroom Adjustment
update_adjustment a f action actor db = (
  ok (f a),
  audited actor action stock_adjustment a.id a.branch
      (record db { adjustments = update_row id_of a.id f db.adjustments }),
)

abbrev pub submitted_row : ℕ → Adjustment → Adjustment
submitted_row actor a = record a { status = AdjustmentStatus.submitted; submitted_by = some actor }

abbrev pub approved_row : ℕ → Adjustment → Adjustment
approved_row actor a = record a { status = AdjustmentStatus.approved; approved_by = some actor }

abbrev pub posted_row : ℕ → Adjustment → Adjustment
posted_row actor a = record a { status = AdjustmentStatus.posted; posted_by = some actor }

unfoldable pub submit_found : Adjustment → ℕ → Action Stockroom Adjustment
submit_found a actor db =
    if is_draft a.status
    then update_adjustment a (submitted_row actor) stock_adjustment_submitted actor db
    else (err (app_error validation_error 422), db)

-- `findById`, and what a handler does with the row.
unfoldable pub with_found :
    ℕ → (Adjustment → Action Stockroom Adjustment) → Action Stockroom Adjustment
with_found id k db = elim (find_adjustment id db.adjustments) [
  | none ↦ (err (app_error not_found 404), db)
  | some a ↦ k a db
]

-- `submit`
unfoldable pub submit : ℕ → ℕ → Action Stockroom Adjustment
submit id actor = with_found id (λ a. submit_found a actor)

unfoldable pub approve_found : Adjustment → ℕ → Action Stockroom Adjustment
approve_found a actor db =
    if is_submitted a.status
    then update_adjustment a (approved_row actor) stock_adjustment_approved actor db
    else (err (app_error validation_error 422), db)

-- `approve`
unfoldable pub approve : ℕ → ℕ → Action Stockroom Adjustment
approve id actor = with_found id (λ a. approve_found a actor)

-- `a ?? b`
abbrev pub or_else : Option ℕ → ℕ → ℕ
or_else none b = b
or_else (some a) b = a

abbrev pub movement_of : Adjustment → AdjustmentItem → MovementInput
movement_of a item = record {
  key = record {
    location = a.location;
    product = item.product;
    batch = item.batch;
    state = item.stock_state;
    unit = item.unit;
  };
  quantity_delta = item.quantity_delta;
  base_quantity_delta = item.base_quantity_delta;
  movement_type = if ltb_ℤ item.quantity_delta (pos 0) then stock_out else stock_in;
  reason_code = item.reason_code;
}

abbrev pub adjustment_event : Adjustment → ℕ → PostEventInput
adjustment_event a actor = record {
  event_type = EventType.stock_adjustment_approved;
  branch = a.branch;
  reference_type = stock_adjustment;
  reference_id = a.id;
  created_by = actor;
  approved_by = some (or_else a.approved_by actor);
  idempotency_key = some (adj_post a.id);
  movements = map (movement_of a) a.items;
}

abbrev pub has_no_items : List AdjustmentItem → Bool
has_no_items [] = true
has_no_items (x ∷ xs) = false

-- The guards of `post` and its call of `postEvent`, which is a transaction of its own.
unfoldable pub post_stock :
    Adjustment → ℕ → (ℕ → Action Stockroom Adjustment) → Action Stockroom Adjustment
post_stock a actor rest db =
    if is_approved a.status
    then if has_no_items a.items
      then (err (app_error validation_error 422), db)
      else after_stock (post_event (adjustment_event a actor) db.stock) rest db
    else (err (app_error validation_error 422), db)

-- What `post` does once the event is committed.
unfoldable pub mark_posted : Adjustment → ℕ → Action Stockroom Adjustment
mark_posted a actor = update_adjustment a (posted_row actor) stock_adjustment_posted actor

-- `post`
unfoldable pub post : ℕ → ℕ → Action Stockroom Adjustment
post id actor = with_found id (λ a. post_stock a actor (λ event. mark_posted a actor))

-- A `post` that the process does not outlive past the commit of its event.
unfoldable pub post_interrupted : ℕ → ℕ → Action Stockroom Adjustment
post_interrupted id actor = with_found id (λ a. post_stock a actor (λ event db. (ok a, db)))
