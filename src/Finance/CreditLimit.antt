-- ===== src/Finance/CreditLimit.antt =====
-- backend/src/finance/credit-limit/credit-limit.service.ts: the credit limit of a retailer is
-- raised by a request that another user approves or rejects, and orders are held against it.
-- The texts of reasons and the two listings are left out.
pub mod Decision
use pasalho.Prelude.{
  ℕ, ◌+◌, Bool, true, false, Option, none, some, List, [], ◌∷◌, ◌++◌, if◌then◌else◌,
}
use pasalho.Prelude.Int.{ℤ, ◌+ℤ◌, ◌-ℤ◌, leb_ℤ}
use pasalho.Prelude.Result.{
  Result, ok, err, bad_request, Tx, Action, ◌>>=◌, ◌>>◌, pure, transaction, committed,
}
use pasalho.Audit.{
  AuditEntry, AuditAction, credit_approval, credit_limit_requested, credit_limit_approved,
  credit_limit_rejected,
}
use pasalho.Finance.Data.{
  ApprovalStatus, pending, approved, rejected, Retailer, CreditApproval, Books,
}
use pasalho.Finance.Tables.{
  find_retailer, find_approval, update_retailer, update_approval, with_audit,
}
use pasalho.Finance.RetailerLedger.{get_outstanding}

pub record IncreaseInput : Type 0 where
  pub retailer : ℕ
  pub branch : ℕ
  pub requested_by : ℕ
  pub new_limit : ℤ

abbrev pub entry_of : AuditAction → ℕ → CreditApproval → AuditEntry
entry_of action actor a = record {
  actor = actor;
  action = action;
  entity_type = credit_approval;
  entity_id = a.id;
  branch = some a.branch;
}

abbrev pub new_approval : IncreaseInput → ℤ → ℕ → CreditApproval
new_approval input old_limit id = record {
  id = id;
  retailer = input.retailer;
  branch = input.branch;
  requested_by = input.requested_by;
  approved_by = none;
  old_limit = old_limit;
  new_limit = input.new_limit;
  status = pending;
}

abbrev pub with_approval : CreditApproval → Books → Books
with_approval a db = record db { approvals = db.approvals ++ a ∷ []; next_id = db.next_id + 1 }

-- `requestIncrease`
unfoldable pub request_increase : IncreaseInput → Action Books CreditApproval
request_increase input db = elim (find_retailer input.retailer db.retailers) [
  | none ↦ (err bad_request, db)
  | some retailer ↦
      let approval = new_approval input retailer.credit_limit db.next_id in
      if leb_ℤ input.new_limit retailer.credit_limit then (err bad_request, db) else (
        ok approval,
        with_audit (entry_of credit_limit_requested input.requested_by approval)
            (with_approval approval db),
      )
]

abbrev pub is_pending : ApprovalStatus → Bool
is_pending pending = true
is_pending _ = false

abbrev pub approved_row : ℕ → CreditApproval → CreditApproval
approved_row by a = record a { status = approved; approved_by = some by }

abbrev pub rejected_row : ℕ → CreditApproval → CreditApproval
rejected_row by a = record a { status = rejected; approved_by = some by }

unfoldable pub approve : CreditApproval → ℕ → Tx Books CreditApproval
approve a by = do
  update_retailer a.retailer (λ (r : Retailer). record r { credit_limit = a.new_limit })
  update_approval a.id (approved_row by)
  pure (approved_row by a)

-- `approveRequest`; it returns the row that it then reads again.
unfoldable pub approve_request : ℕ → ℕ → Action Books CreditApproval
approve_request id by db = elim (find_approval id db.approvals) [
  | none ↦ (err bad_request, db)
  | some a ↦
      if is_pending a.status
      then committed (transaction (approve a by))
          (λ r. with_audit (entry_of credit_limit_approved by a)) db
      else (err bad_request, db)
]

unfoldable pub reject : CreditApproval → ℕ → Tx Books CreditApproval
reject a by = do update_approval a.id (rejected_row by); pure (rejected_row by a)

-- `rejectRequest`; its update is a transaction of its own.
unfoldable pub reject_request : ℕ → ℕ → Action Books CreditApproval
reject_request id by db = elim (find_approval id db.approvals) [
  | none ↦ (err bad_request, db)
  | some a ↦
      if is_pending a.status
      then committed (transaction (reject a by))
          (λ r. with_audit (entry_of credit_limit_rejected by a)) db
      else (err bad_request, db)
]

pub record CreditCheck : Type 0 where
  pub allowed : Bool
  pub current_outstanding : ℤ
  pub credit_limit : ℤ
  pub remaining_credit : ℤ

-- `checkCreditLimit`
unfoldable pub check_credit_limit : ℕ → ℤ → Books → Result CreditCheck
check_credit_limit retailer order_amount db = elim (find_retailer retailer db.retailers) [
  | none ↦ err bad_request
  | some r ↦
      let outstanding = get_outstanding retailer db in
      ok (record {
        allowed = leb_ℤ (outstanding +ℤ order_amount) r.credit_limit;
        current_outstanding = outstanding;
        credit_limit = r.credit_limit;
        remaining_credit = r.credit_limit -ℤ outstanding;
      })
]

-- `enforceCreditLimit`
unfoldable pub enforce_credit_limit : ℕ → ℤ → Books → Result (Unit {0})
enforce_credit_limit retailer order_amount db = elim (check_credit_limit retailer order_amount db) [
  | err e ↦ err e
  | ok check ↦ if check.allowed then ok tt else err bad_request
]
