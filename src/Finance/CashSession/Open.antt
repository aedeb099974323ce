-- ===== src/Finance/CashSession/Open.antt =====
-- At most one session of a branch is open.
use pasalho.Prelude.{
  ℕ, ◌+◌, ◌≤◌, ◌≡◌, refl, none, List, [], ◌∷◌, ◌++◌, ◌==◌, arith, Bool-cases, Option-cases, inl,
  inr, if◌then◌else◌, find_row, update_row,
}
use pasalho.Prelude.Int.{ℤ}
use pasalho.Finance.CashSession.{
  CashSession, Tills, CloseInput, is_open, is_open_at, find_open, new_session, open_session,
  closed_row, close_session,
}

-- The number of the open sessions of a branch.
unfoldable pub count_open : ℕ → List CashSession → ℕ
count_open branch [] = 0
count_open branch (s ∷ ss) = (if is_open_at branch s then 1 else 0) + count_open branch ss

-- Of no branch are two sessions open.
abbrev pub IsSingle : Tills → Type 0
IsSingle db = (branch : ℕ) → count_open branch db.sessions ≤ 1

count_open-none :
    (branch : ℕ) (ss : List CashSession) → find_open branch ss ≡ none → count_open branch ss ≡ 0
unfolding find_open count_open
count_open-none branch [] h = refl
count_open-none branch (s ∷ ss) h = elim (Bool-cases (is_open_at branch s)) [
  | inl e ↦ absurd (ground (arith, h, e))
  | inr e ↦ rw e (rw (count_open-none branch ss (ground (arith, h, e))) refl)
]

count_open-append :
    (branch : ℕ) (ss : List CashSession) (s : CashSession)
    → count_open branch (ss ++ s ∷ [])
      ≡ count_open branch ss + (if is_open_at branch s then 1 else 0)
unfolding count_open
count_open-append branch [] s = omega arith
count_open-append branch (x ∷ ss) s = rw (count_open-append branch ss s) (omega arith)

count_open-close :
    (branch id : ℕ) (input : CloseInput) (ss : List CashSession)
    → count_open branch (update_row (λ (s : CashSession). s.id) id (closed_row input) ss)
      ≤ count_open branch ss
unfolding count_open update_row
count_open-close branch id input [] = omega arith
count_open-close branch id input (s ∷ ss) = ground (arith, count_open-close branch id input ss)

open_session-IsSingle :
    (branch opened_by : ℕ) (opening_balance : ℤ) (db : Tills)
    → IsSingle db
    → IsSingle (open_session branch opened_by opening_balance db).1
unfolding open_session
open_session-IsSingle branch opened_by opening_balance db h b =
    elim (Option-cases (find_open branch db.sessions)) [
      | inr (s, taken) ↦
          let same : (open_session branch opened_by opening_balance db).1 ≡ db =
            ground (arith, taken) in
          rw same (h b)
      | inl free ↦
          let s = new_session branch opened_by opening_balance db.next_id in
          let rows : (open_session branch opened_by opening_balance db).1.sessions
              ≡ db.sessions ++ s ∷ [] =
            ground (arith, free) in
          rw (rows, count_open-append b db.sessions s)
            (elim (Bool-cases (branch == b)) [
              | inl here ↦
                  let same : branch ≡ b = ground (arith, here) in
                  let none_open : count_open b db.sessions ≡ 0 =
                    rw (← same) (count_open-none branch db.sessions free) in
                  ground (arith, here, none_open)
              | inr elsewhere ↦ ground (arith, elsewhere, h b)
            ])
    ]

close_session-IsSingle :
    (id : ℕ) (input : CloseInput) (db : Tills)
    → IsSingle db
    → IsSingle (close_session id input db).1
unfolding close_session
close_session-IsSingle id input db h b =
    elim (Option-cases (find_row (λ (s : CashSession). s.id) id db.sessions)) [
      | inl missing ↦
          let same : (close_session id input db).1 ≡ db = ground (arith, missing) in rw same (h b)
      | inr (s, found) ↦ elim (Bool-cases (is_open s.status)) [
        | inl e ↦
            let rows : (close_session id input db).1.sessions
                ≡ update_row (λ (s : CashSession). s.id) id (closed_row input) db.sessions =
              ground (arith, found, e) in
            rw rows (omega (arith, count_open-close b id input db.sessions, h b))
        | inr e ↦
            let same : (close_session id input db).1 ≡ db = ground (arith, found, e) in
            rw same (h b)
      ]
    ]

-- If of no branch two sessions are open, that still holds after a session was opened or closed,
-- or either was refused.
pub sessions-IsSingle :
    (branch opened_by id : ℕ) (opening_balance : ℤ) (input : CloseInput) (db : Tills)
    → IsSingle db
    → IsSingle (open_session branch opened_by opening_balance db).1
      × IsSingle (close_session id input db).1
sessions-IsSingle branch opened_by id opening_balance input db h = (
  open_session-IsSingle branch opened_by opening_balance db h,
  close_session-IsSingle id input db h,
)
