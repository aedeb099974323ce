-- ===== src/Finance/CreditLimit/Decision.antt =====
-- A request for a higher credit limit is decided once, and orders are held against the limit.
use pasalho.Prelude.{
  ℕ, ◌≡◌, refl, false, some, arith, Option-cases, inl, inr, update_row, find_row-update_row,
  find_row-id,
}
use pasalho.Prelude.Result.{Result-cases, ok, err, bad_request, transaction, committed}
use pasalho.Finance.Data.{approved, Retailer, CreditApproval, Books}
use pasalho.Finance.Tables.{find_retailer, find_approval, update_retailer, update_approval}
use pasalho.Finance.CreditLimit.{approve, approved_row, approve_request, reject_request, is_pending}

-- An approved request: what the call returned, and what the tables hold.
pub record IsApproved (a : CreditApproval) (id : ℕ) (t : Books) : Type 0 where
  pub row : find_approval id t.approvals ≡ some a
  pub status : a.status ≡ approved
  pub retailer : Retailer
  pub retailer_row : find_retailer a.retailer t.retailers ≡ some retailer
  pub limit : retailer.credit_limit ≡ a.new_limit

refused_when_decided :
    (id by : ℕ) (db : Books) {a : CreditApproval}
    → find_approval id db.approvals ≡ some a
    → is_pending a.status ≡ false
    → (approve_request id by db ≡ (err bad_request, db))
      × (reject_request id by db ≡ (err bad_request, db))
unfolding approve_request reject_request
refused_when_decided id by db h k = (ground (arith, h, k), ground (arith, h, k))

approve-IsApproved :
    (a b : CreditApproval) (by : ℕ) (db t : Books)
    → find_approval a.id db.approvals ≡ some a
    → approve a by db ≡ ok (b, t)
    → IsApproved b a.id t
unfolding approve update_retailer update_approval
approve-IsApproved a b by db t h k = elim (Option-cases (find_retailer a.retailer db.retailers)) [
  | inl none_there ↦ absurd (ground (arith, k, none_there))
  | inr (r, found) ↦
      let same : b ≡ approved_row by a = ground (arith, k, found, h) in
      let rows : t.approvals
          ≡ update_row (λ (r : CreditApproval). r.id) a.id (approved_row by) db.approvals =
        ground (arith, k, found, h) in
      let limits : t.retailers
          ≡ update_row (λ (r : Retailer). r.id) a.retailer
              (λ (r : Retailer). record r { credit_limit = a.new_limit }) db.retailers =
        ground (arith, k, found, h) in
      record {
        row =
            rw (same, rows)
              (find_row-update_row (λ (r : CreditApproval). r.id) a.id (approved_row by)
                db.approvals refl h);
        status = rw same refl;
        retailer = record r { credit_limit = a.new_limit };
        retailer_row =
            rw (same, limits)
              (find_row-update_row (λ (r : Retailer). r.id) a.retailer
                (λ (r : Retailer). record r { credit_limit = a.new_limit }) db.retailers refl
                found);
        limit = rw same refl;
      }
]

approve_request-step :
    (id by : ℕ) (db t : Books) (b : CreditApproval)
    → approve_request id by db ≡ (ok b, t)
    → (a : CreditApproval) × (u : Books) × (find_approval id db.approvals ≡ some a)
      × (approve a by db ≡ ok (b, u))
      × (t.approvals ≡ u.approvals)
      × (t.retailers ≡ u.retailers)
unfolding approve_request transaction committed
approve_request-step id by db t b h = elim (Option-cases (find_approval id db.approvals)) [
  | inl none_there ↦ absurd (ground (arith, h, none_there))
  | inr (a, found) ↦ elim (Result-cases (approve a by db)) [
    | inl ((c, u), done) ↦ (
      a,
      u,
      found,
      ground (arith, h, found, done),
      ground (arith, h, found, done),
      ground (arith, h, found, done),
    )
    | inr (x, failed) ↦ absurd (ground (arith, h, found, failed))
  ]
]

approve_request-IsApproved :
    (id by : ℕ) (db t : Books) (b : CreditApproval)
    → approve_request id by db ≡ (ok b, t)
    → IsApproved b id t
approve_request-IsApproved id by db t b h =
    let (a, u, found, step, approvals, retailers) = approve_request-step id by db t b h in
    let same = find_row-id (λ (r : CreditApproval). r.id) id db.approvals found in
    let done = approve-IsApproved a b by db u (rw same found) step in
    record {
      row = rw (approvals, ← same) done.row;
      status = done.status;
      retailer = done.retailer;
      retailer_row = rw retailers done.retailer_row;
      limit = done.limit;
    }

-- An approved request has the status APPROVED, and its retailer has the limit that was asked for;
-- approving or rejecting it again is refused and changes nothing.
pub approve_request_decides :
    (id by again : ℕ) (db t : Books) (b : CreditApproval)
    → approve_request id by db ≡ (ok b, t)
    → IsApproved b id t
      × (approve_request id again t ≡ (err bad_request, t))
      × (reject_request id again t ≡ (err bad_request, t))
approve_request_decides id by again db t b h =
    let done = approve_request-IsApproved id by db t b h in
    let (no_approval, no_rejection) =
      refused_when_decided id again t done.row (rw done.status refl) in
    (done, no_approval, no_rejection)
