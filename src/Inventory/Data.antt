-- ===== src/Inventory/Data.antt =====
-- The inventory tables of backend/prisma/schema.prisma and the inputs of
-- backend/src/inventory/services/inventory-ledger.service.ts. Ids are UUIDs that the code only
-- compares, so they are numbers, and `next_id` stands for the generator of fresh ones. Quantities
-- are integers in units of 0.000001, as the columns `Decimal(18, 6)` hold them. Time stamps,
-- which these tables keep for display, and the JSON column `metadata` are left out.
use Prim.Native.String.{String}
use pasalho.Prelude.{
  ℕ, ◌≡◌, refl, ◌↔◌, ◌≢◌, ap, Bool-cases, inl, inr, Bool, true, false, Option, List, ℕ_discrete,
}
use pasalho.Prelude.Int.{ℤ}
use pasalho.Audit.{ReferenceType, AuditEntry}

pub data StockState : Type 0 where
  available reserved in_transit damaged expired quarantined : StockState
  returned_pending_check adjusted : StockState

pub data MovementType : Type 0 where
  stock_in stock_out adjustment sale_deduction reversal : MovementType
  transfer_out transfer_in procurement_receipt : MovementType

pub data EventType : Type 0 where
  opening_stock manual_adjustment stock_adjustment_approved sale_deducted : EventType
  reversal_event stock_transfer procurement_receipt franchise_receipt : EventType

pub data EventStatus : Type 0 where
  draft posted reversed : EventStatus

-- The columns by which a row of `InventorySnapshot` is selected. A batch may be absent.
pub record StockKey : Type 0 where
  pub location : ℕ
  pub product : ℕ
  pub batch : Option ℕ
  pub state : StockState
  pub unit : ℕ

pub StockState-discrete : Discrete StockState
StockState-discrete = hlevel

StockKey-discrete : Discrete StockKey
StockKey-discrete = hlevel ℕ_discrete

-- The `WHERE` clause of the snapshot queries; `IS NOT DISTINCT FROM` equates two absent batches.
unfoldable pub same_key : StockKey → StockKey → Bool
unfolding StockKey-discrete StockState-discrete ℕ_discrete
same_key a b = elim (StockKey-discrete a b) [ yes _ ↦ true | no _ ↦ false ]

-- The columns of the unique index of `InventorySnapshot`; it leaves the unit out.
unfoldable pub same_unit_free_key : StockKey → StockKey → Bool
unfolding same_key
same_unit_free_key a b = same_key (record a { unit = 0 }) (record b { unit = 0 })

pub record Snapshot : Type 0 where
  pub key : StockKey
  pub quantity : ℤ
  pub base_quantity : ℤ
  pub version : ℕ
  pub last_movement : Option ℕ

-- The templates of the idempotency keys of events, such as `invoice-post-${invoice.id}`.
pub data EventKey : Type 0 where
  transfer_dispatch transfer_receive_origin store_sync invoice_post invoice_void : ℕ → EventKey
  invoice_reservation_consume online_order_dispatch adj_post damage_post : ℕ → EventKey
  goods_receipt_post : ℕ → EventKey

EventKey-discrete : Discrete EventKey
EventKey-discrete = hlevel ℕ_discrete

unfoldable pub same_event_key : EventKey → EventKey → Bool
unfolding EventKey-discrete ℕ_discrete
same_event_key a b = elim (EventKey-discrete a b) [ yes _ ↦ true | no _ ↦ false ]

pub record Event : Type 0 where
  pub id : ℕ
  pub event_type : EventType
  pub event_status : EventStatus
  pub branch : ℕ
  pub reference_type : ReferenceType
  pub reference_id : ℕ
  pub created_by : ℕ
  pub approved_by : Option ℕ
  pub idempotency_key : Option EventKey

pub record Movement : Type 0 where
  pub id : ℕ
  pub event : ℕ
  pub branch : ℕ
  pub key : StockKey
  pub quantity_delta : ℤ
  pub base_quantity_delta : ℤ
  pub movement_type : MovementType
  pub reference_type : ReferenceType
  pub reference_id : ℕ
  pub reason_code : Option String
  pub created_by : ℕ

pub data BatchStatus : Type 0 where
  active blocked expired : BatchStatus

-- Dates and times are numbers: days for the expiry date, an instant for the creation.
pub record Batch : Type 0 where
  pub id : ℕ
  pub product : ℕ
  pub status : BatchStatus
  pub expiry_date : Option ℕ
  pub created_at : ℕ

pub data ReservationStatus : Type 0 where
  active released consumed cancelled : ReservationStatus

pub record ReservationItem : Type 0 where
  pub sales_order_item : ℕ
  pub product : ℕ
  pub batch : Option ℕ
  pub unit : ℕ
  pub quantity : ℤ
  pub base_quantity : ℤ

-- A row of `StockReservation` with its rows of `StockReservationItem`.
pub record Reservation : Type 0 where
  pub id : ℕ
  pub sales_order : ℕ
  pub location : ℕ
  pub status : ReservationStatus
  pub created_by : ℕ
  pub items : List ReservationItem

pub record Inventory : Type 0 where
  pub snapshots : List Snapshot
  pub movements : List Movement
  pub events : List Event
  pub batches : List Batch
  pub reservations : List Reservation
  pub audit : List AuditEntry
  pub next_id : ℕ

pub record MovementInput : Type 0 where
  pub key : StockKey
  pub quantity_delta : ℤ
  pub base_quantity_delta : ℤ
  pub movement_type : MovementType
  pub reason_code : Option String

pub record PostEventInput : Type 0 where
  pub event_type : EventType
  pub branch : ℕ
  pub reference_type : ReferenceType
  pub reference_id : ℕ
  pub created_by : ℕ
  pub approved_by : Option ℕ
  pub idempotency_key : Option EventKey
  pub movements : List MovementInput

pub same_key_iff : (a b : StockKey) → (same_key a b ≡ true) ↔ (a ≡ b)
unfolding same_key
same_key_iff a b =
    elim (StockKey-discrete a b)
      as (λ d. ((elim d [ yes _ ↦ true | no _ ↦ false ]) ≡ true) ↔ (a ≡ b)) [
        | yes e ↦ ((λ _. e), (λ _. refl))
        | no n ↦ ((λ h. cc), (λ e. absurd (n e)))
      ]

pub same_event_key_iff : (a b : EventKey) → (same_event_key a b ≡ true) ↔ (a ≡ b)
unfolding same_event_key
same_event_key_iff a b =
    elim (EventKey-discrete a b)
      as (λ d. ((elim d [ yes _ ↦ true | no _ ↦ false ]) ≡ true) ↔ (a ≡ b)) [
        | yes e ↦ ((λ _. e), (λ _. refl))
        | no n ↦ ((λ h. cc), (λ e. absurd (n e)))
      ]

pub same_key_ne : (a b : StockKey) → a ≢ b → same_key a b ≡ false
same_key_ne a b h = elim (Bool-cases (same_key a b)) [
  | inl e ↦ absurd (h ((same_key_iff a b).0 e))
  | inr e ↦ e
]

-- Keys of different states are different keys.
pub same_key-state : (a b : StockKey) → a.state ≢ b.state → same_key a b ≡ false
same_key-state a b h = same_key_ne a b (λ e. h (ap (λ (k : StockKey). k.state) e))
