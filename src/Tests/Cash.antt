-- ===== src/Tests/Cash.antt =====
-- Cash sessions of two branches.
use pasalho.Prelude.{◌≡◌, refl, some, [], arith}
use pasalho.Prelude.Int.{pos, negsuc, ◌+ℤ◌, ◌-ℤ◌}
use pasalho.Prelude.Result.{err, bad_request}
use pasalho.Finance.CashSession.{
  Tills, CloseInput, find_open, new_session, open_session, closed_row, close_session,
}
use pasalho.Finance.CashSession.Open.{IsSingle, count_open, sessions-IsSingle}

abbrev no_sessions : Tills
no_sessions = record { sessions = []; audit = []; next_id = 100 }

no_sessions-IsSingle : IsSingle no_sessions
unfolding count_open
no_sessions-IsSingle b = omega arith

abbrev count : CloseInput
count = record { closed_by = 9; closing_balance = pos 300; actual_cash = pos 380 }

-- One session is open at branch 7.
abbrev one_open : Tills
one_open = (open_session 7 9 (pos 100) no_sessions).1

one_open-IsSingle : IsSingle one_open
unfolding open_session find_open count_open
one_open-IsSingle b = ground arith

sessions-IsSingle_example :
    IsSingle (open_session 7 9 (pos 50) one_open).1 × IsSingle (close_session 100 count one_open).1
sessions-IsSingle_example = sessions-IsSingle 7 9 100 (pos 50) count one_open one_open-IsSingle

second_refused : open_session 7 9 (pos 50) one_open ≡ (err bad_request, one_open)
unfolding open_session find_open
second_refused = refl

-- 400 should be there and 380 are: the variance is -20.
variance : (closed_row count (new_session 7 9 (pos 100) 100)).variance ≡ some (negsuc 19)
unfolding ◌+ℤ◌ ◌-ℤ◌
variance = refl
