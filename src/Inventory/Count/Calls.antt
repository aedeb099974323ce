-- ===== src/Inventory/Count/Calls.antt =====
-- The four calls of the adjustment service that a reconciliation makes, together.
use pasalho.Prelude.{
  ℕ, ◌≡◌, refl, sym, ◌∙◌, ap, false, none, some, List, [], ◌∷◌, ◌++◌, arith, map, Bool-cases, inl,
  inr, is_some, find_row, update_row, find_row-update_row, find_row-append_new, if◌then◌else◌,
}
use pasalho.Prelude.Int.{ℤ, pos, ◌+ℤ◌}
use pasalho.Prelude.Result.{Result-cases, ok}
use pasalho.Prelude.Loops.{Ensures-ok}
use pasalho.Inventory.Data.{StockKey, adj_post, Inventory}
use pasalho.Inventory.Snapshots.{on_hand}
use pasalho.Inventory.Ledger.{post_event, find_event, existing_event}
use pasalho.Inventory.Ledger.Effects.{delta}
use pasalho.Inventory.Ledger.Posting.{on_hand-post_event}
use pasalho.Inventory.Stockroom.{
  Adjustment, CountItem, StockCount, Stockroom, Yields, Yields-intro, Yields-then,
}
use pasalho.Inventory.Adjustment.{
  AdjustmentDto, create, submit, approve, post, with_found, submit_found, approve_found, post_stock,
  mark_posted, find_adjustment, id_of, adjustment_row, submitted_row, approved_row,
  adjustment_event, movement_of, is_draft, is_submitted, is_approved, has_no_items,
}
use pasalho.Inventory.Count.Reconcile.{variance_dto, adjust}

-- The stock and its events are as they were.
abbrev Unmoved : Stockroom → Stockroom → Type 0
Unmoved db t = (t.stock.snapshots ≡ db.stock.snapshots) × (t.stock.events ≡ db.stock.events)

create-inverted :
    (now : ℕ) (dto : AdjustmentDto) (actor : ℕ) (db t : Stockroom) (a : Adjustment)
    → find_adjustment db.stock.next_id db.adjustments ≡ none
    → create now dto actor db ≡ (ok a, t)
    → (a ≡ adjustment_row now dto actor db.stock.next_id)
      × (find_adjustment a.id t.adjustments ≡ some a)
      × Unmoved db t
unfolding create
create-inverted now dto actor db t a fresh h =
    elim (Bool-cases
      (is_some (find_row (λ (a : Adjustment). a.adjustment_no) now db.adjustments))) [
        | inl taken ↦ absurd (ground (arith, h, taken))
        | inr free ↦
            let row = adjustment_row now dto actor db.stock.next_id in
            let same : a ≡ row = ground (arith, h, free) in
            let rows : t.adjustments ≡ db.adjustments ++ row ∷ [] = ground (arith, h, free) in
            (
              same,
              rw (rows, same) (find_row-append_new id_of db.adjustments row fresh),
              (ground (arith, h, free), ground (arith, h, free)),
            )
      ]

submit-inverted :
    (actor : ℕ) (db t : Stockroom) (a b : Adjustment)
    → find_adjustment a.id db.adjustments ≡ some a
    → submit a.id actor db ≡ (ok b, t)
    → (b ≡ submitted_row actor a) × (find_adjustment a.id t.adjustments ≡ some b) × Unmoved db t
unfolding submit with_found submit_found
submit-inverted actor db t a b found h = elim (Bool-cases (is_draft a.status)) [
  | inr e ↦ absurd (ground (arith, h, found, e))
  | inl e ↦
      let same : b ≡ submitted_row actor a = ground (arith, h, found, e) in
      let rows : t.adjustments ≡ update_row id_of a.id (submitted_row actor) db.adjustments =
        ground (arith, h, found, e) in
      (
        same,
        rw (rows, same)
            (find_row-update_row id_of a.id (submitted_row actor) db.adjustments refl found),
        (ground (arith, h, found, e), ground (arith, h, found, e)),
      )
]

approve-inverted :
    (actor : ℕ) (db t : Stockroom) (a b : Adjustment)
    → find_adjustment a.id db.adjustments ≡ some a
    → approve a.id actor db ≡ (ok b, t)
    → (b ≡ approved_row actor a) × (find_adjustment a.id t.adjustments ≡ some b) × Unmoved db t
unfolding approve with_found approve_found
approve-inverted actor db t a b found h = elim (Bool-cases (is_submitted a.status)) [
  | inr e ↦ absurd (ground (arith, h, found, e))
  | inl e ↦
      let same : b ≡ approved_row actor a = ground (arith, h, found, e) in
      let rows : t.adjustments ≡ update_row id_of a.id (approved_row actor) db.adjustments =
        ground (arith, h, found, e) in
      (
        same,
        rw (rows, same)
            (find_row-update_row id_of a.id (approved_row actor) db.adjustments refl found),
        (ground (arith, h, found, e), ground (arith, h, found, e)),
      )
]

submit-Yields :
    (id actor : ℕ) (db : Stockroom) (a : Adjustment)
    → a.id ≡ id
    → find_adjustment id db.adjustments ≡ some a
    → Yields (submit id actor db) (λ b t.
      (b ≡ submitted_row actor a) × (find_adjustment id t.adjustments ≡ some b) × Unmoved db t)
submit-Yields id actor db a k found =
    Yields-intro
      (λ b t.
        (b ≡ submitted_row actor a) × (find_adjustment id t.adjustments ≡ some b) × Unmoved db t)
      (submit id actor db)
      λ b t h.
        let found' : find_adjustment a.id db.adjustments ≡ some a =
          ap (λ j. find_adjustment j db.adjustments) k ∙ found in
        let h' : submit a.id actor db ≡ (ok b, t) = rw k h in
        let (same, row, unmoved) = submit-inverted actor db t a b found' h' in
        (same, sym (ap (λ j. find_adjustment j t.adjustments) k) ∙ row, unmoved)

approve-Yields :
    (id actor : ℕ) (db : Stockroom) (a : Adjustment)
    → a.id ≡ id
    → find_adjustment id db.adjustments ≡ some a
    → Yields (approve id actor db) (λ b t.
      (b ≡ approved_row actor a) × (find_adjustment id t.adjustments ≡ some b) × Unmoved db t)
approve-Yields id actor db a k found =
    Yields-intro
      (λ b t.
        (b ≡ approved_row actor a) × (find_adjustment id t.adjustments ≡ some b) × Unmoved db t)
      (approve id actor db)
      λ b t h.
        let found' : find_adjustment a.id db.adjustments ≡ some a =
          ap (λ j. find_adjustment j db.adjustments) k ∙ found in
        let h' : approve a.id actor db ≡ (ok b, t) = rw k h in
        let (same, row, unmoved) = approve-inverted actor db t a b found' h' in
        (same, sym (ap (λ j. find_adjustment j t.adjustments) k) ∙ row, unmoved)

post-inverted :
    (actor : ℕ) (db t : Stockroom) (a b : Adjustment)
    → find_adjustment a.id db.adjustments ≡ some a
    → post a.id actor db ≡ (ok b, t)
    → (n : ℕ) × (s : Inventory) × (post_event (adjustment_event a actor) db.stock ≡ ok (n, s))
      × (t.stock.snapshots ≡ s.snapshots)
unfolding post with_found post_stock mark_posted
post-inverted actor db t a b found h = elim (Bool-cases (is_approved a.status)) [
  | inr e1 ↦ absurd (ground (arith, h, found, e1))
  | inl e1 ↦ elim (Bool-cases (has_no_items a.items)) [
    | inl e2 ↦ absurd (ground (arith, h, found, e1, e2))
    | inr e2 ↦ elim (Result-cases (post_event (adjustment_event a actor) db.stock)) [
      | inr (y, e3) ↦ absurd (ground (arith, h, found, e1, e2, e3))
      | inl ((n, s), e3) ↦ (n, s, e3, ground (arith, h, found, e1, e2, e3))
    ]
  ]
]

-- What an adjustment would add under a key.
abbrev pub adjusted : StockKey → Adjustment → ℤ
adjusted k a = delta k (map (movement_of a) a.items)

on_hand-post :
    (k : StockKey) (actor : ℕ) (db t : Stockroom) (a b : Adjustment)
    → find_adjustment a.id db.adjustments ≡ some a
    → is_some (find_event (adj_post a.id) db.stock.events) ≡ false
    → post a.id actor db ≡ (ok b, t)
    → on_hand k t.stock.snapshots ≡ on_hand k db.stock.snapshots +ℤ adjusted k a
unfolding existing_event
on_hand-post k actor db t a b found new h =
    let (n, s, done, rows) = post-inverted actor db t a b found h in
    let moved =
      Ensures-ok
        (λ (u : Inventory).
          on_hand k u.snapshots
          ≡ on_hand k db.stock.snapshots
            +ℤ (if is_some (existing_event (some (adj_post a.id)) db.stock.events)
                then pos 0
                else adjusted k a))
        (post_event (adjustment_event a actor) db.stock)
        (on_hand-post_event (adjustment_event a actor) k db.stock) done in
    rw rows (moved ∙ rw (new, existing_event) refl)

-- The four calls together, on a number that no adjustment and no event has.
pub on_hand-adjust :
    (now : ℕ) (c : StockCount) (items : List CountItem) (actor : ℕ) (k : StockKey) (db : Stockroom)
    → find_adjustment db.stock.next_id db.adjustments ≡ none
    → is_some (find_event (adj_post db.stock.next_id) db.stock.events) ≡ false
    → Yields (adjust now c items actor db) (λ b t.
      on_hand k t.stock.snapshots
      ≡ on_hand k db.stock.snapshots
        +ℤ adjusted k (adjustment_row now (variance_dto c items) actor db.stock.next_id))
unfolding adjust
on_hand-adjust now c items actor k db fresh new =
    let dto = variance_dto c items in
    let n = db.stock.next_id in
    let row = adjustment_row now dto actor n in
    let Q = λ (b : Adjustment) (t : Stockroom).
      on_hand k t.stock.snapshots ≡ on_hand k db.stock.snapshots +ℤ adjusted k row in
    Yields-then (λ a t. (a ≡ row) × (find_adjustment a.id t.adjustments ≡ some a) × Unmoved db t) Q
      (create now dto actor db) _
      (Yields-intro
        (λ a t. (a ≡ row) × (find_adjustment a.id t.adjustments ≡ some a) × Unmoved db t)
        (create now dto actor db) (λ a t. create-inverted now dto actor db t a fresh))
      λ a db1 (same1, found1, (s1, e1)).
        Yields-then
          (λ b t.
            (b ≡ submitted_row actor a)
            × (find_adjustment a.id t.adjustments ≡ some b)
            × Unmoved db1 t)
          Q (submit a.id actor db1) _ (submit-Yields a.id actor db1 a refl found1)
          λ a2 db2 (same2, found2, (s2, e2)).
            Yields-then
              (λ b t.
                (b ≡ approved_row actor a2)
                × (find_adjustment a.id t.adjustments ≡ some b)
                × Unmoved db2 t)
              Q (approve a.id actor db2) _ (approve-Yields a.id actor db2 a2 (rw same2 refl) found2)
              λ a3 db3 (same3, found3, (s3, e3)). Yields-intro Q (post a.id actor db3) λ b t h.
                let id3 : a3.id ≡ a.id = rw (same3, same2) refl in
                let unknown : is_some (find_event (adj_post a3.id) db3.stock.events) ≡ false =
                  rw (id3, e3, e2, e1, same1) new in
                let moved =
                  on_hand-post k actor db3 t a3 b
                    (ap (λ j. find_adjustment j db3.adjustments) id3 ∙ found3) unknown (rw id3 h) in
                moved ∙ rw (s3, s2, s1, same3, same2, same1) refl
