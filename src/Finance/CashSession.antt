-- ===== src/Finance/CashSession.antt =====
-- backend/src/finance/cash-session/cash-session.service.ts: the cash of a branch is counted in
-- sessions, of which one may be open at a time. The notes and the listings are left out.
pub mod Open
use pasalho.Prelude.{
  ℕ, ◌+◌, Bool, true, false, Option, none, some, List, [], ◌∷◌, ◌++◌, ◌==◌, ◌&&◌, is_some,
  if◌then◌else◌, find_row, update_row,
}
use pasalho.Prelude.Int.{ℤ, ◌+ℤ◌, ◌-ℤ◌}
use pasalho.Prelude.Result.{ok, err, bad_request, Action}
use pasalho.Audit.{
  AuditEntry, AuditAction, cash_session, cash_session_opened, cash_session_closed, log,
}

pub data SessionStatus : Type 0 where
  «open» closed : SessionStatus

pub record CashSession : Type 0 where
  pub id : ℕ
  pub branch : ℕ
  pub opened_by : ℕ
  pub closed_by : Option ℕ
  pub opening_balance : ℤ
  pub closing_balance : Option ℤ
  pub expected_cash : Option ℤ
  pub actual_cash : Option ℤ
  pub variance : Option ℤ
  pub status : SessionStatus

pub record Tills : Type 0 where
  pub sessions : List CashSession
  pub audit : List AuditEntry
  pub next_id : ℕ

abbrev pub is_open : SessionStatus → Bool
is_open «open» = true
is_open closed = false

abbrev pub is_open_at : ℕ → CashSession → Bool
is_open_at branch s = (s.branch == branch) && is_open s.status

-- `findFirst({ where: { branchId, status: OPEN } })`
unfoldable pub find_open : ℕ → List CashSession → Option CashSession
find_open branch [] = none
find_open branch (s ∷ ss) = if is_open_at branch s then some s else find_open branch ss

abbrev pub new_session : ℕ → ℕ → ℤ → ℕ → CashSession
new_session branch opened_by opening_balance id = record {
  id = id;
  branch = branch;
  opened_by = opened_by;
  closed_by = none;
  opening_balance = opening_balance;
  closing_balance = none;
  expected_cash = none;
  actual_cash = none;
  variance = none;
  status = «open»;
}

abbrev entry_of : AuditAction → ℕ → CashSession → AuditEntry
entry_of action actor s = record {
  actor = actor;
  action = action;
  entity_type = cash_session;
  entity_id = s.id;
  branch = some s.branch;
}

-- `openSession`
unfoldable pub open_session : ℕ → ℕ → ℤ → Action Tills CashSession
open_session branch opened_by opening_balance db =
    let s = new_session branch opened_by opening_balance db.next_id in
    if is_some (find_open branch db.sessions) then (err bad_request, db) else (
      ok s,
      record {
        sessions = db.sessions ++ s ∷ [];
        audit = log (entry_of cash_session_opened opened_by s) db.audit;
        next_id = db.next_id + 1;
      },
    )

pub record CloseInput : Type 0 where
  pub closed_by : ℕ
  pub closing_balance : ℤ
  pub actual_cash : ℤ

abbrev pub closed_row : CloseInput → CashSession → CashSession
closed_row input s =
    let expected_cash = s.opening_balance +ℤ input.closing_balance in
    record s {
      closed_by = some input.closed_by;
      closing_balance = some input.closing_balance;
      expected_cash = some expected_cash;
      actual_cash = some input.actual_cash;
      variance = some (input.actual_cash -ℤ expected_cash);
      status = closed;
    }

-- `closeSession`
unfoldable pub close_session : ℕ → CloseInput → Action Tills CashSession
close_session id input db = elim (find_row (λ (s : CashSession). s.id) id db.sessions) [
  | none ↦ (err bad_request, db)
  | some s ↦
      if is_open s.status
      then (
        ok (closed_row input s),
        record db {
          sessions = update_row (λ (s : CashSession). s.id) id (closed_row input) db.sessions;
          audit = log (entry_of cash_session_closed input.closed_by s) db.audit;
        },
      )
      else (err bad_request, db)
]
