-- ===== src/Inventory/Adjustment/Retry.antt =====
-- An adjustment whose posting was cut off is finished by posting it again.
use pasalho.Prelude.{
  ℕ, ◌≡◌, refl, true, false, some, arith, Bool-cases, Option-cases, inl, inr, update_row,
  find_row-id,
}
use pasalho.Prelude.Result.{Result-cases, ok}
use pasalho.Audit.{stock_adjustment, stock_adjustment_posted}
use pasalho.Inventory.Data.{adj_post, Inventory}
use pasalho.Inventory.Ledger.{post_event}
use pasalho.Inventory.Ledger.Posting.{post_event_replay}
use pasalho.Inventory.Stockroom.{Adjustment, Stockroom, audited}
use pasalho.Inventory.Adjustment.{
  post, post_interrupted, with_found, post_stock, mark_posted, find_adjustment, id_of, is_approved,
  has_no_items, adjustment_event, posted_row,
}

-- An interrupted call that got past its commit found an approved adjustment with items.
interrupted-inverted :
    (id actor : ℕ) (db t : Stockroom) (a : Adjustment)
    → post_interrupted id actor db ≡ (ok a, t)
    → (find_adjustment id db.adjustments ≡ some a)
      × (is_approved a.status ≡ true)
      × (has_no_items a.items ≡ false)
      × ((n : ℕ) × (s : Inventory) × (post_event (adjustment_event a actor) db.stock ≡ ok (n, s))
          × (t ≡ record db { stock = s }))
unfolding post_interrupted with_found post_stock
interrupted-inverted id actor db t a h = elim (Option-cases (find_adjustment id db.adjustments)) [
  | inl e ↦ absurd (ground (arith, h, e))
  | inr (x, e) ↦ elim (Bool-cases (is_approved x.status)) [
    | inr e1 ↦ absurd (ground (arith, h, e, e1))
    | inl e1 ↦ elim (Bool-cases (has_no_items x.items)) [
      | inl e2 ↦ absurd (ground (arith, h, e, e1, e2))
      | inr e2 ↦ elim (Result-cases (post_event (adjustment_event x actor) db.stock)) [
        | inr (y, e3) ↦ absurd (ground (arith, h, e, e1, e2, e3))
        | inl ((n, s), e3) ↦
            let same : x ≡ a = ground (arith, h, e, e1, e2, e3) in
            let after : t ≡ record db { stock = s } = ground (arith, h, e, e1, e2, e3) in
            rw (← same) (e, e1, e2, (n, s, e3, after))
      ]
    ]
  ]
]

-- If a `post` got past the commit of its event and the process then died, a second `post` of the
-- adjustment, by whomever, succeeds: it moves no stock a second time, so that the adjustment's row,
-- now posted, and the audit entry are all that it changes.
pub post_after_interruption :
    (id actor again : ℕ) (db t : Stockroom) (a : Adjustment)
    → post_interrupted id actor db ≡ (ok a, t)
    → post id again t ≡ (
      ok (posted_row again a),
      audited again stock_adjustment_posted stock_adjustment id a.branch
          (record t { adjustments = update_row id_of id (posted_row again) t.adjustments }),
    )
unfolding post with_found post_stock mark_posted
post_after_interruption id actor again db t a h =
    let (found, approved, items, (n, s, done, after)) = interrupted-inverted id actor db t a h in
    let same = find_row-id id_of id db.adjustments found in
    let replay : post_event (adjustment_event a again) s ≡ ok (n, s) =
      post_event_replay (adj_post a.id) (adjustment_event a actor) (adjustment_event a again)
        db.stock refl refl done in
    rw after (rw (with_found, found, post_stock, approved, items, replay) (rw same refl))
