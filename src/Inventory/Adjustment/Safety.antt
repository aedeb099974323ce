-- ===== src/Inventory/Adjustment/Safety.antt =====
-- Every stock movement of an adjustment stands behind an approval.
use pasalho.Prelude.{
  ℕ, ◌≡◌, refl, ◌∙◌, ap, Bool, true, false, Option, none, some, arith, Bool-cases, Option-cases,
  inl, inr, ◌==◌, ◌||◌, is_some, find_row, find_row-id, find_row-update_row,
  find_row-update_row_other, find_row-append_other, if◌then◌else◌, ==_iff,
}
use pasalho.Prelude.Result.{Result-cases, ok, Action, transaction}
use pasalho.Prelude.Loops.{Ensures-ok}
use pasalho.Audit.{
  AuditAction, stock_adjustment_submitted, stock_adjustment_approved, stock_adjustment_posted,
}
use pasalho.Inventory.Data.{adj_post, same_event_key, same_event_key_iff, PostEventInput, Inventory}
use pasalho.Inventory.Ledger.{post_event, find_event, has_key}
use pasalho.Inventory.Ledger.Keys.{or_false, is_known-post_event}
use pasalho.Inventory.Stockroom.{AdjustmentStatus, Adjustment, Stockroom}
use pasalho.Inventory.Adjustment.{
  AdjustmentDto, create, submit, approve, post, post_interrupted, with_found, submit_found,
  approve_found, post_stock, mark_posted, update_adjustment, find_adjustment, id_of,
  adjustment_event, is_submitted, is_approved, has_no_items, adjustment_row, posted_row,
  submitted_row, approved_row,
}

-- A posted adjustment has its event, an approved one may have it, any other has none.
abbrev pub Agree : AdjustmentStatus → Bool → Type 0
Agree AdjustmentStatus.posted known = known ≡ true
Agree AdjustmentStatus.approved known = Unit
Agree _ known = known ≡ false

abbrev pub AgreeRow : Option Adjustment → Bool → Type 0
AgreeRow none known = known ≡ false
AgreeRow (some a) known = Agree a.status known

abbrev is_known : ℕ → Inventory → Bool
is_known id db = is_some (find_event (adj_post id) db.events)

abbrev pub IsBacked : Stockroom → Type 0
IsBacked db = (id : ℕ) → AgreeRow (find_adjustment id db.adjustments) (is_known id db.stock)

-- A handler, its interruption between two transactions, or an event of another service.
pub data Step : Stockroom → Stockroom → Type 0 where
  step_create :
      (number : ℕ) (dto : AdjustmentDto) (actor : ℕ) (db : Stockroom)
      → Step db (create number dto actor db).1
  step_submit : (id actor : ℕ) (db : Stockroom) → Step db (submit id actor db).1
  step_approve : (id actor : ℕ) (db : Stockroom) → Step db (approve id actor db).1
  step_post : (id actor : ℕ) (db : Stockroom) → Step db (post id actor db).1
  step_interrupted : (id actor : ℕ) (db : Stockroom) → Step db (post_interrupted id actor db).1
  step_elsewhere :
      (input : PostEventInput) (db : Stockroom)
      → ((id : ℕ) → has_key (adj_post id) input.idempotency_key ≡ false)
      → Step db (record db { stock = (transaction (post_event input) db.stock).1 })

pub data Reach (s : Stockroom) : Stockroom → Type 0 where
  here : Reach s s
  next : {t u : Stockroom} → Reach s t → Step t u → Reach s u

-- The rows agree as before where one row has been replaced by one that agrees.
update-IsBacked :
    (a : Adjustment) (f : Adjustment → Adjustment) (action : AuditAction) (actor : ℕ)
    (db : Stockroom)
    → find_adjustment a.id db.adjustments ≡ some a
    → ((r : Adjustment) → (f r).id ≡ r.id)
    → Agree (f a).status (is_known a.id db.stock)
    → IsBacked db
    → IsBacked (update_adjustment a f action actor db).1
update-IsBacked a f action actor db found keep new h j = elim (Bool-cases (a.id == j)) [
  | inl e ↦
      let same : a.id ≡ j = (==_iff a.id j).0 e in
      rw (← same) (rw (find_row-update_row id_of a.id f db.adjustments (keep a) found) new)
  | inr e ↦ rw (find_row-update_row_other id_of a.id j f db.adjustments keep e) (h j)
]

with_found-keeps :
    (P : Stockroom → Type 0) (id : ℕ) (k : Adjustment → Action Stockroom Adjustment)
    (db : Stockroom)
    → P db
    → ((a : Adjustment) → find_adjustment a.id db.adjustments ≡ some a → P (k a db).1)
    → P (with_found id k db).1
unfolding with_found
with_found-keeps P id k db h step = elim (Option-cases (find_adjustment id db.adjustments)) [
  | inl e ↦ rw (e, with_found) h
  | inr (a, e) ↦
      rw (e, with_found)
        (step a
          (ap (λ i. find_adjustment i db.adjustments) (find_row-id id_of id db.adjustments e) ∙ e))
]

-- What the row of an adjustment in the table agrees with.
row_agrees :
    (a : Adjustment) (db : Stockroom)
    → find_adjustment a.id db.adjustments ≡ some a
    → IsBacked db
    → Agree a.status (is_known a.id db.stock)
row_agrees a db found h =
    let agree : AgreeRow (find_adjustment a.id db.adjustments) (is_known a.id db.stock) = h a.id in
    rw found at agree

submit_found-IsBacked :
    (a : Adjustment) (actor : ℕ) (db : Stockroom) (s : AdjustmentStatus)
    → a.status ≡ s
    → find_adjustment a.id db.adjustments ≡ some a
    → IsBacked db
    → IsBacked (submit_found a actor db).1
unfolding submit_found
submit_found-IsBacked a actor db AdjustmentStatus.draft e found h =
    let agree : Agree a.status (is_known a.id db.stock) = row_agrees a db found h in
    let agree' : is_known a.id db.stock ≡ false = rw e at agree in
    rw e (
      update-IsBacked a (submitted_row actor) stock_adjustment_submitted actor db found (λ r. refl)
        agree' h)
submit_found-IsBacked a actor db AdjustmentStatus.submitted e found h = rw e h
submit_found-IsBacked a actor db AdjustmentStatus.approved e found h = rw e h
submit_found-IsBacked a actor db AdjustmentStatus.posted e found h = rw e h
submit_found-IsBacked a actor db AdjustmentStatus.cancelled e found h = rw e h

approve_found-IsBacked :
    (a : Adjustment) (actor : ℕ) (db : Stockroom)
    → find_adjustment a.id db.adjustments ≡ some a
    → IsBacked db
    → IsBacked (approve_found a actor db).1
unfolding approve_found
approve_found-IsBacked a actor db found h = elim (Bool-cases (is_submitted a.status)) [
  | inl e ↦ rw e (
      update-IsBacked a (approved_row actor) stock_adjustment_approved actor db found (λ r. refl) tt
        h)
  | inr e ↦ rw e h
]

approved_agrees : (s : AdjustmentStatus) (b : Bool) → is_approved s ≡ true → Agree s b
approved_agrees AdjustmentStatus.approved b e = tt
approved_agrees AdjustmentStatus.draft b e = absurd (ground (arith, e))
approved_agrees AdjustmentStatus.submitted b e = absurd (ground (arith, e))
approved_agrees AdjustmentStatus.posted b e = absurd (ground (arith, e))
approved_agrees AdjustmentStatus.cancelled b e = absurd (ground (arith, e))

own_key : (id : ℕ) → has_key (adj_post id) (some (adj_post id)) ≡ true
unfolding has_key
own_key id = (same_event_key_iff (adj_post id) (adj_post id)).1 refl

other_key : (j id : ℕ) → (id == j) ≡ false → has_key (adj_post j) (some (adj_post id)) ≡ false
unfolding has_key
other_key j id h = elim (Bool-cases (same_event_key (adj_post j) (adj_post id))) [
  | inl e ↦
      let same : adj_post j ≡ adj_post id = (same_event_key_iff (adj_post j) (adj_post id)).0 e in
      absurd (ground (arith, same, h))
  | inr e ↦ e
]

-- An event leaves the adjustments as backed as they were, where its key is one of an adjustment
-- only if that adjustment is approved.
event-IsBacked :
    (input : PostEventInput) (db : Stockroom) (s : Inventory) (n : ℕ)
    → post_event input db.stock ≡ ok (n, s)
    → ((j : ℕ)
        → (b : Bool) → AgreeRow (find_adjustment j db.adjustments) b
        → AgreeRow
            (find_adjustment j db.adjustments)
            (b || has_key (adj_post j) input.idempotency_key))
    → IsBacked db
    → IsBacked (record db { stock = s })
event-IsBacked input db s n e allowed h j =
    let known =
      Ensures-ok
        (λ t. is_known j t ≡ (is_known j db.stock || has_key (adj_post j) input.idempotency_key))
        (post_event input db.stock) (is_known-post_event (adj_post j) input db.stock) e in
    rw known (allowed j (is_known j db.stock) (h j))

or_true : (b : Bool) → (b || true) ≡ true
or_true true = refl
or_true false = refl

-- An approved adjustment may have its event.
own_event_allowed :
    (a : Adjustment) (db : Stockroom) (j : ℕ) (b : Bool)
    → find_adjustment a.id db.adjustments ≡ some a
    → is_approved a.status ≡ true
    → AgreeRow (find_adjustment j db.adjustments) b
    → AgreeRow (find_adjustment j db.adjustments) (b || has_key (adj_post j) (some (adj_post a.id)))
own_event_allowed a db j b found approved h = elim (Bool-cases (a.id == j)) [
  | inr e ↦ rw (other_key j a.id e, or_false b) h
  | inl e ↦
      let same : a.id ≡ j = (==_iff a.id j).0 e in
      rw (← same) (
        rw found
          (approved_agrees a.status (b || has_key (adj_post a.id) (some (adj_post a.id))) approved))
]

-- What `post` does up to its commit keeps the adjustments backed, and so does all that follows and
-- finds the event known.
post_stock-IsBacked :
    (a : Adjustment) (actor : ℕ) (rest : ℕ → Action Stockroom Adjustment) (db : Stockroom)
    → find_adjustment a.id db.adjustments ≡ some a
    → ((n : ℕ) (t : Stockroom)
        → t.adjustments ≡ db.adjustments
        → is_known a.id t.stock ≡ true
        → IsBacked t
        → IsBacked (rest n t).1)
    → IsBacked db
    → IsBacked (post_stock a actor rest db).1
unfolding post_stock
post_stock-IsBacked a actor rest db found follow h = elim (Bool-cases (is_approved a.status)) [
  | inr e ↦ rw e h
  | inl e ↦ elim (Bool-cases (has_no_items a.items)) [
    | inl e' ↦ rw (e, e') h
    | inr e' ↦ elim (Result-cases (post_event (adjustment_event a actor) db.stock)) [
      | inr (x, failed) ↦ rw (e, e', failed) h
      | inl ((n, s), done) ↦
          let known =
            Ensures-ok
              (λ t.
                is_known a.id t
                ≡ (is_known a.id db.stock || has_key (adj_post a.id) (some (adj_post a.id))))
              (post_event (adjustment_event a actor) db.stock)
              (is_known-post_event (adj_post a.id) (adjustment_event a actor) db.stock) done in
          rw (e, e', done)
            (follow n (record db { stock = s }) refl
              (rw (known, own_key a.id) (or_true (is_known a.id db.stock)))
              (event-IsBacked (adjustment_event a actor) db s n done
                (λ j b. own_event_allowed a db j b found e) h))
    ]
  ]
]

-- A row that is added behind the others is a draft, and what it agrees with is what no row does.
new_row_agrees :
    (found : Option Adjustment) (row : Adjustment) (same known : Bool)
    → row.status ≡ AdjustmentStatus.draft
    → AgreeRow found known
    → AgreeRow (elim found [ some r ↦ some r | none ↦ if same then some row else none ]) known
new_row_agrees (some r) row same known e h = h
new_row_agrees none row true known e h = rw e h
new_row_agrees none row false known e h = h

create-IsBacked :
    (number : ℕ) (dto : AdjustmentDto) (actor : ℕ) (db : Stockroom)
    → IsBacked db
    → IsBacked (create number dto actor db).1
unfolding create
create-IsBacked number dto actor db h j =
    elim (Bool-cases
      (is_some (find_row (λ (a : Adjustment). a.adjustment_no) number db.adjustments))) [
        | inl taken ↦ rw taken (h j)
        | inr free ↦
            let row = adjustment_row number dto actor db.stock.next_id in
            rw free (
              rw (find_row-append_other id_of j db.adjustments row) (
                new_row_agrees (find_adjustment j db.adjustments) row (row.id == j)
                  (is_known j db.stock) refl (h j)))
      ]

post-IsBacked : (id actor : ℕ) (db : Stockroom) → IsBacked db → IsBacked (post id actor db).1
unfolding post mark_posted
post-IsBacked id actor db h =
    with_found-keeps IsBacked id (λ a. post_stock a actor (λ event. mark_posted a actor)) db h
      λ a found.
        post_stock-IsBacked a actor (λ event. mark_posted a actor) db found
          (λ n t same known backed.
            update-IsBacked a (posted_row actor) stock_adjustment_posted actor t (rw same found)
              (λ r. refl) known backed)
          h

Step-IsBacked : {t u : Stockroom} → Step t u → IsBacked t → IsBacked u
unfolding submit approve post_interrupted transaction
Step-IsBacked (step_create number dto actor db) h = create-IsBacked number dto actor db h
Step-IsBacked (step_submit id actor db) h =
    with_found-keeps IsBacked id (λ a. submit_found a actor) db h
      (λ a found. submit_found-IsBacked a actor db a.status refl found h)
Step-IsBacked (step_approve id actor db) h =
    with_found-keeps IsBacked id (λ a. approve_found a actor) db h
      (λ a found. approve_found-IsBacked a actor db found h)
Step-IsBacked (step_post id actor db) h = post-IsBacked id actor db h
Step-IsBacked (step_interrupted id actor db) h =
    with_found-keeps IsBacked id (λ a. post_stock a actor (λ event t. (ok a, t))) db h
      (λ a found.
        post_stock-IsBacked a actor (λ event t. (ok a, t)) db found
          (λ n t same known backed. backed) h)
Step-IsBacked (step_elsewhere input db foreign) h =
    elim (Result-cases (post_event input db.stock)) [
      | inr (x, failed) ↦ rw (failed, transaction) h
      | inl ((n, s), done) ↦
          rw (done, transaction)
            (event-IsBacked input db s n done (λ j b agree. rw (foreign j, or_false b) agree) h)
    ]

-- From a database where this holds, whatever handlers run in whatever order, some of
-- them stopped between the commit of the event and the change of the status, and whatever events the
-- other services post under their keys: an event of an adjustment exists only if the adjustment is
-- approved or posted, and always if it is posted.
pub reachable-IsBacked : {s t : Stockroom} → IsBacked s → Reach s t → IsBacked t
reachable-IsBacked h here = h
reachable-IsBacked h (next r step) = Step-IsBacked step (reachable-IsBacked h r)
