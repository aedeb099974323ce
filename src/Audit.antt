-- ===== src/Audit.antt =====
-- backend/src/audit/audit-log.service.ts: the audit log, one row for each recorded action. The
-- JSON columns `beforeData` and `afterData`, the reason and the client's address are left out.
use Prim.Native.Nat.{ℕ}
use mathlib.Core.Option.{Option}
use mathlib.Core.List.{List, [], ◌∷◌, ◌++◌}

pub data ReferenceType : Type 0 where
  supplier purchase_order goods_receipt stock_adjustment stock_transfer : ReferenceType
  franchise_receipt invoice payment retailer product batch branch warehouse : ReferenceType
  user role sales_rep auth dashboard route sales_order delivery notification : ReferenceType
  stock_count damage_report retailer_portal retailer_notification : ReferenceType
  retailer_ledger financial_ledger cash_session credit_approval : ReferenceType

pub data AuditAction : Type 0 where
  login_success login_failure user_created user_updated role_assigned : AuditAction
  branch_created branch_updated branch_deactivated warehouse_created : AuditAction
  warehouse_updated warehouse_deactivated category_created category_updated : AuditAction
  unit_created unit_updated product_created product_updated batch_created : AuditAction
  batch_updated stock_adjustment_created stock_adjustment_submitted : AuditAction
  stock_adjustment_approved stock_adjustment_posted stock_transfer_created : AuditAction
  stock_transfer_confirmed stock_transfer_dispatched stock_transfer_shipped : AuditAction
  stock_transfer_received retailer_created retailer_updated sales_rep_created : AuditAction
  sales_rep_updated invoice_created invoice_updated invoice_posted : AuditAction
  invoice_voided invoice_cancelled payment_recorded route_created : AuditAction
  route_updated sales_order_created sales_order_confirmed : AuditAction
  sales_order_invoiced sales_order_cancelled delivery_created : AuditAction
  delivery_updated delivery_completed stock_count_started stock_count_updated : AuditAction
  stock_count_submitted stock_count_reconciled stock_count_cancelled : AuditAction
  damage_reported damage_approved damage_posted expiry_detected batch_blocked : AuditAction
  batch_expired retailer_login retailer_pin_set retailer_order_placed : AuditAction
  retailer_order_cancelled retailer_device_registered : AuditAction
  retailer_notification_sent credit_limit_requested credit_limit_approved : AuditAction
  credit_limit_rejected cash_session_opened cash_session_closed : AuditAction
  payment_allocated ledger_entry_created supplier_created supplier_updated : AuditAction
  supplier_deactivated purchase_order_created purchase_order_confirmed : AuditAction
  purchase_order_cancelled goods_receipt_posted : AuditAction

pub record AuditEntry : Type 0 where
  pub actor : ℕ
  pub action : AuditAction
  pub entity_type : ReferenceType
  pub entity_id : ℕ
  pub branch : Option ℕ

-- `record`: the log only grows.
unfoldable pub log : AuditEntry → List AuditEntry → List AuditEntry
log e es = es ++ e ∷ []
