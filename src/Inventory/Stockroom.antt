-- ===== src/Inventory/Stockroom.antt =====
-- The tables of stock adjustments, damage reports and stock counts of backend/prisma/schema.prisma
-- beside the inventory, which their services share. The names, notes and time stamps that these
-- tables keep for display are left out. The items of a document stand in its row.
use Prim.Native.String.{String}
use pasalho.Prelude.{ℕ, ◌≡◌, refl, Option, some, List}
use pasalho.Prelude.Int.{ℤ}
use pasalho.Prelude.Result.{Result, ok, err, Action}
use pasalho.Audit.{AuditAction, ReferenceType, log}
use pasalho.Inventory.Data.{StockState, Inventory}

pub data AdjustmentStatus : Type 0 where
  draft submitted approved posted cancelled : AdjustmentStatus

pub record AdjustmentItem : Type 0 where
  pub product : ℕ
  pub batch : Option ℕ
  pub unit : ℕ
  pub stock_state : StockState
  pub quantity_delta : ℤ
  pub base_quantity_delta : ℤ
  pub reason_code : Option String

pub record Adjustment : Type 0 where
  pub id : ℕ
  pub adjustment_no : ℕ
  pub branch : ℕ
  pub warehouse : ℕ
  pub location : ℕ
  pub status : AdjustmentStatus
  pub created_by : ℕ
  pub submitted_by : Option ℕ
  pub approved_by : Option ℕ
  pub posted_by : Option ℕ
  pub items : List AdjustmentItem

pub data DamageStatus : Type 0 where
  draft submitted approved posted rejected : DamageStatus

pub record DamageItem : Type 0 where
  pub product : ℕ
  pub batch : Option ℕ
  pub unit : ℕ
  pub quantity : ℤ
  pub base_quantity : ℤ
  pub damage_type : String

pub record DamageReport : Type 0 where
  pub id : ℕ
  pub report_no : ℕ
  pub branch : ℕ
  pub warehouse : ℕ
  pub location : ℕ
  pub status : DamageStatus
  pub created_by : ℕ
  pub approved_by : Option ℕ
  pub posted_by : Option ℕ
  pub rejection_reason : Option String
  pub items : List DamageItem

pub data CountStatus : Type 0 where
  draft submitted reconciled cancelled : CountStatus

pub record CountItem : Type 0 where
  pub id : ℕ
  pub product : ℕ
  pub batch : Option ℕ
  pub unit : ℕ
  pub system_quantity : ℤ
  pub counted_quantity : ℤ
  pub variance : ℤ

pub record StockCount : Type 0 where
  pub id : ℕ
  pub branch : ℕ
  pub warehouse : ℕ
  pub location : ℕ
  pub status : CountStatus
  pub counted_by : ℕ
  pub items : List CountItem

pub record Stockroom : Type 0 where
  pub stock : Inventory
  pub adjustments : List Adjustment
  pub damages : List DamageReport
  pub counts : List StockCount

-- `audit.record`
abbrev pub audited : ℕ → AuditAction → ReferenceType → ℕ → ℕ → Stockroom → Stockroom
audited actor action entity_type id branch db = record db {
  stock = record db.stock {
    audit =
        log
          (record {
            actor = actor;
            action = action;
            entity_type = entity_type;
            entity_id = id;
            branch = some branch;
          })
          db.stock.audit;
  };
}

-- A transaction of the stock ledger, with what follows when it has been committed.
abbrev pub after_stock :
    {A B : Type 0} → Result (A × Inventory) → (A → Action Stockroom B) → Action Stockroom B
after_stock (ok (a, s)) k db = k a (record db { stock = s })
after_stock (err e) k db = (err e, db)

-- A call of another handler, and what follows its success.
abbrev pub and_then :
    {A B : Type 0} → Result A × Stockroom → (A → Action Stockroom B) → Result B × Stockroom
and_then (ok a, t) k = k a t
and_then (err e, t) k = (err e, t)

-- What a handler returns and leaves behind, if it succeeds.
abbrev pub Yields : {A : Type 0} → Result A × Stockroom → (A → Stockroom → Type 0) → Type 0
Yields (ok a, t) P = P a t
Yields (err e, t) P = Unit

pub Yields-intro :
    {A : Type 0} (P : A → Stockroom → Type 0) (r : Result A × Stockroom)
    → ((a : A) (t : Stockroom) → r ≡ (ok a, t) → P a t)
    → Yields r P
Yields-intro P (ok a, t) h = h a t refl
Yields-intro P (err e, t) h = tt

pub Yields-then :
    {A B : Type 0} (P : A → Stockroom → Type 0) (Q : B → Stockroom → Type 0)
    (r : Result A × Stockroom) (k : A → Action Stockroom B)
    → Yields r P
    → ((a : A) (t : Stockroom) → P a t → Yields (k a t) Q)
    → Yields (and_then r k) Q
Yields-then P Q (ok a, t) k p h = h a t p
Yields-then P Q (err e, t) k p h = tt

pub Yields-ok :
    {A : Type 0} (P : A → Stockroom → Type 0) (r : Result A × Stockroom) {a : A} {t : Stockroom}
    → Yields r P
    → r ≡ (ok a, t)
    → P a t
Yields-ok P r {a} {t} h e = rw e at h
