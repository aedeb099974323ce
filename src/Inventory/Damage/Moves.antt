-- ===== src/Inventory/Damage/Moves.antt =====
-- Damage changes the state of stock, not its amount.
use pasalho.Prelude.{
  ℕ, ◌≡◌, refl, sym, ◌∙◌, ap, Bool, true, false, some, List, [], ◌∷◌, arith, Bool-cases,
  Option-cases, inl, inr, is_some, if◌then◌else◌,
}
use pasalho.Prelude.Int.{ℤ, pos, ◌+ℤ◌, -ℤ◌, sum_by, int_laws}
use pasalho.Prelude.Result.{Result-cases, ok}
use pasalho.Prelude.Loops.{Ensures-ok}
use pasalho.Inventory.Data.{
  StockKey, StockState, Inventory, damage_post, same_key, same_key_iff, same_key-state,
}
use pasalho.Inventory.Snapshots.{on_hand, at_key}
use pasalho.Inventory.Ledger.{post_event, existing_event}
use pasalho.Inventory.Ledger.Effects.{delta}
use pasalho.Inventory.Ledger.Posting.{on_hand-post_event}
use pasalho.Inventory.Stockroom.{DamageItem, DamageReport, Stockroom}
use pasalho.Inventory.Damage.{
  damage_key, damage_movements, damage_event, post_report, post_report_found, with_found_report,
  find_report, is_approved, has_no_damage, posted_report,
}

-- A place of stock with a state.
abbrev pub at : StockKey → StockState → StockKey
at k state = record k { state = state }

-- What an item adds under a key of damaged stock, it takes under the key of the available stock.
same_place :
    (r : DamageReport) (item : DamageItem) (k : StockKey)
    → same_key (at k StockState.available) (damage_key r item StockState.available)
      ≡ same_key (at k StockState.damaged) (damage_key r item StockState.damaged)
same_place r item k =
    let a = damage_key r item StockState.available in
    let d = damage_key r item StockState.damaged in
    elim (Bool-cases (same_key (at k StockState.available) a)) [
      | inl e ↦
          let equal = (same_key_iff (at k StockState.available) a).0 e in
          e
          ∙ sym (
              (same_key_iff (at k StockState.damaged) d).1
                (ap (λ (j : StockKey). at j StockState.damaged) equal))
      | inr e ↦ elim (Bool-cases (same_key (at k StockState.damaged) d)) [
        | inl e' ↦
            let equal = (same_key_iff (at k StockState.damaged) d).0 e' in
            (same_key_iff (at k StockState.available) a).1
              (ap (λ (j : StockKey). at j StockState.available) equal)
            ∙ sym e'
        | inr e' ↦ e ∙ sym e'
      ]
    ]

-- What a report says is damaged at a place.
abbrev pub reported : DamageReport → StockKey → List DamageItem → ℤ
reported r k = sum_by (λ (item : DamageItem).
    at_key (damage_key r item StockState.damaged) (at k StockState.damaged) item.base_quantity)

item_adds :
    (b : Bool) (d x y : ℤ)
    → x ≡ y
    → pos 0 +ℤ ((if b then d else pos 0) +ℤ x) ≡ (if b then d else pos 0) +ℤ y
item_adds b d x y h = rw h (omega int_laws)

delta-damaged :
    (r : DamageReport) (items : List DamageItem) (k : StockKey)
    → delta (at k StockState.damaged) (damage_movements r items) ≡ reported r k items
unfolding delta damage_movements sum_by
delta-damaged r [] k = refl
delta-damaged r (item ∷ items) k =
    let a = damage_key r item StockState.available in
    let other : same_key (at k StockState.damaged) a ≡ false =
      same_key-state (at k StockState.damaged) a (λ e. ground (arith, e)) in
    rw other (
      item_adds (same_key (at k StockState.damaged) (damage_key r item StockState.damaged))
        item.base_quantity (delta (at k StockState.damaged) (damage_movements r items))
        (reported r k items) (delta-damaged r items k))

item_cancels :
    (b : Bool) (d x y : ℤ)
    → x ≡ -ℤ◌ y
    → (if b then -ℤ◌ d else pos 0) +ℤ (pos 0 +ℤ x) ≡ -ℤ◌ ((if b then d else pos 0) +ℤ y)
item_cancels true d x y h = rw h (omega int_laws)
item_cancels false d x y h = rw h (omega int_laws)

delta-available :
    (r : DamageReport) (items : List DamageItem) (k : StockKey)
    → delta (at k StockState.available) (damage_movements r items) ≡ -ℤ◌ (reported r k items)
unfolding delta damage_movements sum_by
delta-available r [] k = omega int_laws
delta-available r (item ∷ items) k =
    let d = damage_key r item StockState.damaged in
    let other : same_key (at k StockState.available) d ≡ false =
      same_key-state (at k StockState.available) d (λ e. ground (arith, e)) in
    rw (same_place r item k, other)
      (item_cancels (same_key (at k StockState.damaged) d) item.base_quantity
        (delta (at k StockState.available) (damage_movements r items)) (reported r k items)
        (delta-available r items k))

-- A call that went through has posted the event of the report that it returns.
posted-inverted :
    (id actor : ℕ) (db t : Stockroom) (r : DamageReport)
    → post_report id actor db ≡ (ok r, t)
    → (q : DamageReport) × (n : ℕ) × (s : Inventory) × (find_report id db.damages ≡ some q)
      × (post_event (damage_event q actor) db.stock ≡ ok (n, s))
      × (t.stock.snapshots ≡ s.snapshots)
      × (r ≡ posted_report actor q)
unfolding post_report with_found_report post_report_found
posted-inverted id actor db t r h = elim (Option-cases (find_report id db.damages)) [
  | inl e ↦ absurd (ground (arith, h, e))
  | inr (q, e) ↦ elim (Bool-cases (is_approved q.status)) [
    | inr e1 ↦ absurd (ground (arith, h, e, e1))
    | inl e1 ↦ elim (Bool-cases (has_no_damage q.items)) [
      | inl e2 ↦ absurd (ground (arith, h, e, e1, e2))
      | inr e2 ↦ elim (Result-cases (post_event (damage_event q actor) db.stock)) [
        | inr (y, e3) ↦ absurd (ground (arith, h, e, e1, e2, e3))
        | inl ((n, s), e3) ↦
            (q, n, s, e, e3, ground (arith, h, e, e1, e2, e3), ground (arith, h, e, e1, e2, e3))
      ]
    ]
  ]
]

-- What posting a report moves at a place: nothing where its event is already known.
abbrev pub newly_damaged : DamageReport → StockKey → Inventory → ℤ
newly_damaged r k db =
    if is_some (existing_event (some (damage_post r.id)) db.events)
    then pos 0
    else reported r k r.items

either_way :
    (b : Bool) (x y : ℤ) → y ≡ -ℤ◌ x → (if b then pos 0 else y) ≡ -ℤ◌ (if b then pos 0 else x)
either_way true x y h = omega int_laws
either_way false x y h = h

posted_moves :
    (q : DamageReport) (actor : ℕ) (j : StockKey) (db s : Inventory) (n : ℕ)
    → post_event (damage_event q actor) db ≡ ok (n, s)
    → on_hand j s.snapshots
      ≡ on_hand j db.snapshots
        +ℤ (if is_some (existing_event (some (damage_post q.id)) db.events)
            then pos 0
            else delta j (damage_movements q q.items))
posted_moves q actor j db s n done =
    Ensures-ok
      (λ (u : Inventory).
        on_hand j u.snapshots
        ≡ on_hand j db.snapshots
          +ℤ (if is_some (existing_event (some (damage_post q.id)) db.events)
              then pos 0
              else delta j (damage_movements q q.items)))
      (post_event (damage_event q actor) db) (on_hand-post_event (damage_event q actor) j db) done

-- When a report is posted, the available stock at each place falls by what the report says is damaged
-- there and the damaged stock rises by the same, and neither changes if the report's event is already
-- known.
pub post_report-moves :
    (id actor : ℕ) (k : StockKey) (db t : Stockroom) (r : DamageReport)
    → post_report id actor db ≡ (ok r, t)
    → (on_hand (at k StockState.available) t.stock.snapshots
        ≡ on_hand (at k StockState.available) db.stock.snapshots
          +ℤ -ℤ◌ (newly_damaged r k db.stock))
      × (on_hand (at k StockState.damaged) t.stock.snapshots
          ≡ on_hand (at k StockState.damaged) db.stock.snapshots +ℤ newly_damaged r k db.stock)
post_report-moves id actor k db t r h =
    let (q, n, s, found, done, snaps, row) = posted-inverted id actor db t r h in
    let known = is_some (existing_event (some (damage_post q.id)) db.stock.events) in
    rw (row, snaps)
      (
        posted_moves q actor (at k StockState.available) db.stock s n done
            ∙ ap (λ v. on_hand (at k StockState.available) db.stock.snapshots +ℤ v)
                (either_way known (reported q k q.items)
                  (delta (at k StockState.available) (damage_movements q q.items))
                  (delta-available q q.items k)),
        posted_moves q actor (at k StockState.damaged) db.stock s n done
            ∙ ap
                (λ v.
                  on_hand (at k StockState.damaged) db.stock.snapshots
                  +ℤ (if known then pos 0 else v))
                (delta-damaged q q.items k),
      )
