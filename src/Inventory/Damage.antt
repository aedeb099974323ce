-- ===== src/Inventory/Damage.antt =====
-- backend/src/inventory/services/damage-report.service.ts: a damage report is drafted, submitted,
-- approved and posted, or rejected; posting moves its items from the available to the damaged
-- stock. The listing is not modelled. `number` stands for `DMG-${Date.now()}`.
pub mod Moves
use pasalho.Prelude.{
  ℕ, ◌+◌, Bool, true, false, Option, none, some, List, [], ◌∷◌, ◌++◌, map, if◌then◌else◌, find_row,
  update_row, is_some,
}
use Prim.Native.String.{String, ◌++◌ as ◌<>◌}
use pasalho.Prelude.Int.{ℤ, -ℤ◌}
use pasalho.Prelude.Result.{Result, ok, err, app_error, not_found, validation_error, p2002, Action}
use pasalho.Audit.{AuditAction, damage_report, damage_reported, damage_approved, damage_posted}
use pasalho.Inventory.Data.{
  StockKey, StockState, EventType, MovementType, stock_in, stock_out, damage_post, MovementInput,
  PostEventInput,
}
use pasalho.Inventory.Ledger.{post_event}
use pasalho.Inventory.Stockroom.{
  DamageStatus, DamageItem, DamageReport, Stockroom, audited, after_stock,
}
use pasalho.Inventory.Adjustment.{or_else}

pub record DamageDto : Type 0 where
  pub branch : ℕ
  pub warehouse : ℕ
  pub location : ℕ
  pub items : List DamageItem

abbrev pub is_draft : DamageStatus → Bool
is_draft DamageStatus.draft = true
is_draft _ = false

abbrev pub is_submitted : DamageStatus → Bool
is_submitted DamageStatus.submitted = true
is_submitted _ = false

abbrev pub is_approved : DamageStatus → Bool
is_approved DamageStatus.approved = true
is_approved _ = false

-- `['SUBMITTED', 'APPROVED'].includes(report.status)`
abbrev pub is_rejectable : DamageStatus → Bool
is_rejectable DamageStatus.submitted = true
is_rejectable DamageStatus.approved = true
is_rejectable _ = false

abbrev pub report_id : DamageReport → ℕ
report_id r = r.id

abbrev pub find_report : ℕ → List DamageReport → Option DamageReport
find_report = find_row report_id

abbrev pub report_row : ℕ → DamageDto → ℕ → ℕ → DamageReport
report_row number dto actor id = record {
  id = id;
  report_no = number;
  branch = dto.branch;
  warehouse = dto.warehouse;
  location = dto.location;
  status = DamageStatus.draft;
  created_by = actor;
  approved_by = none;
  posted_by = none;
  rejection_reason = none;
  items = dto.items;
}

abbrev pub with_report : DamageReport → Stockroom → Stockroom
with_report r db = record db {
  damages = db.damages ++ r ∷ [];
  stock = record db.stock { next_id = db.stock.next_id + 1 };
}

-- `create`; the number is under a unique index.
unfoldable pub create_report : ℕ → DamageDto → ℕ → Action Stockroom DamageReport
create_report number dto actor db =
    if is_some (find_row (λ (r : DamageReport). r.report_no) number db.damages)
    then (err p2002, db)
    else let row = report_row number dto actor db.stock.next_id in
      (ok row, audited actor damage_reported damage_report row.id dto.branch (with_report row db))

-- `damageReport.update` of the row that was read.
abbrev pub update_report :
    DamageReport → (DamageReport → DamageReport) → Action Stockroom DamageReport
update_report r f db = (ok (f r), record db { damages = update_row report_id r.id f db.damages })

-- The same, with the audit entry behind it.
abbrev pub update_audited :
    DamageReport → (DamageReport → DamageReport) → AuditAction → ℕ → Action Stockroom DamageReport
update_audited r f action actor db = (
  ok (f r),
  audited actor action damage_report r.id r.branch
      (record db { damages = update_row report_id r.id f db.damages }),
)

-- `findById`, and what a handler does with the row.
unfoldable pub with_found_report :
    ℕ → (DamageReport → Action Stockroom DamageReport) → Action Stockroom DamageReport
with_found_report id k db = elim (find_report id db.damages) [
  | none ↦ (err (app_error not_found 404), db)
  | some r ↦ k r db
]

unfoldable pub submit_report_found : DamageReport → Action Stockroom DamageReport
submit_report_found r db =
    if is_draft r.status
    then update_report r (λ (r : DamageReport). record r { status = DamageStatus.submitted }) db
    else (err (app_error validation_error 422), db)

-- `submit`
unfoldable pub submit_report : ℕ → Action Stockroom DamageReport
submit_report id = with_found_report id submit_report_found

abbrev pub approved_report : ℕ → DamageReport → DamageReport
approved_report actor r = record r { status = DamageStatus.approved; approved_by = some actor }

unfoldable pub approve_report_found : ℕ → DamageReport → Action Stockroom DamageReport
approve_report_found actor r db =
    if is_submitted r.status
    then update_audited r (approved_report actor) damage_approved actor db
    else (err (app_error validation_error 422), db)

-- `approve`
unfoldable pub approve_report : ℕ → ℕ → Action Stockroom DamageReport
approve_report id actor = with_found_report id (approve_report_found actor)

abbrev pub rejected_report : String → DamageReport → DamageReport
rejected_report reason r = record r {
  status = DamageStatus.rejected;
  rejection_reason = some reason;
}

unfoldable pub reject_report_found : String → DamageReport → Action Stockroom DamageReport
reject_report_found reason r db =
    if is_rejectable r.status
    then update_report r (rejected_report reason) db
    else (err (app_error validation_error 422), db)

-- `reject`
unfoldable pub reject_report : ℕ → String → Action Stockroom DamageReport
reject_report id reason = with_found_report id (reject_report_found reason)

abbrev pub damage_key : DamageReport → DamageItem → StockState → StockKey
damage_key r item state = record {
  location = r.location;
  product = item.product;
  batch = item.batch;
  state = state;
  unit = item.unit;
}

abbrev pub damage_reason : DamageItem → String
damage_reason item = "DAMAGE_" <> item.damage_type

abbrev pub take_available : DamageReport → DamageItem → MovementInput
take_available r item = record {
  key = damage_key r item StockState.available;
  quantity_delta = -ℤ◌ item.quantity;
  base_quantity_delta = -ℤ◌ item.base_quantity;
  movement_type = stock_out;
  reason_code = some (damage_reason item);
}

abbrev pub add_damaged : DamageReport → DamageItem → MovementInput
add_damaged r item = record {
  key = damage_key r item StockState.damaged;
  quantity_delta = item.quantity;
  base_quantity_delta = item.base_quantity;
  movement_type = stock_in;
  reason_code = some (damage_reason item);
}

-- `report.items.flatMap`
unfoldable pub damage_movements : DamageReport → List DamageItem → List MovementInput
damage_movements r [] = []
damage_movements r (item ∷ items) =
    take_available r item ∷ add_damaged r item ∷ damage_movements r items

abbrev pub damage_event : DamageReport → ℕ → PostEventInput
damage_event r actor = record {
  event_type = EventType.manual_adjustment;
  branch = r.branch;
  reference_type = damage_report;
  reference_id = r.id;
  created_by = actor;
  approved_by = some (or_else r.approved_by actor);
  idempotency_key = some (damage_post r.id);
  movements = damage_movements r r.items;
}

abbrev pub has_no_damage : List DamageItem → Bool
has_no_damage [] = true
has_no_damage (x ∷ xs) = false

abbrev pub posted_report : ℕ → DamageReport → DamageReport
posted_report actor r = record r { status = DamageStatus.posted; posted_by = some actor }

-- What `post` does once the event is committed.
abbrev pub mark_report_posted : DamageReport → ℕ → Action Stockroom DamageReport
mark_report_posted r actor db = update_audited r (posted_report actor) damage_posted actor db

unfoldable pub post_report_found : ℕ → DamageReport → Action Stockroom DamageReport
post_report_found actor r db =
    if is_approved r.status
    then if has_no_damage r.items
      then (err (app_error validation_error 422), db)
      else after_stock (post_event (damage_event r actor) db.stock)
          (λ event. mark_report_posted r actor) db
    else (err (app_error validation_error 422), db)

-- `post`
unfoldable pub post_report : ℕ → ℕ → Action Stockroom DamageReport
post_report id actor = with_found_report id (post_report_found actor)
