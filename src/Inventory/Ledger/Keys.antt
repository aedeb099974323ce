-- ===== src/Inventory/Ledger/Keys.antt =====
-- Which idempotency keys the event table knows after `postEvent`.
use pasalho.Prelude.{
  Bool, false, true, ◌≡◌, refl, ◌∙◌, ap, Option, none, some, List, [], ◌∷◌, ◌++◌, arith, Bool-cases,
  Option-cases, inl, inr, ◌||◌, is_some,
}
use pasalho.Prelude.Loops.{Ensures, Returns-ok, Ensures-intro}
use pasalho.Inventory.Data.{
  Event, EventKey, PostEventInput, Inventory, posted, same_event_key, same_event_key_iff,
}
use pasalho.Inventory.Ledger.{
  post_event, post_new_event, find_event, existing_event, has_key, event_row,
}
use pasalho.Inventory.Ledger.Posting.{post_new_event-events}

is_known-append :
    (k : EventKey) (es : List Event) (e : Event)
    → is_some (find_event k (es ++ e ∷ []))
      ≡ (is_some (find_event k es) || has_key k e.idempotency_key)
unfolding find_event
is_known-append k [] e = elim (Bool-cases (has_key k e.idempotency_key)) [
  | inl h ↦ rw h refl
  | inr h ↦ rw h refl
]
is_known-append k (x ∷ es) e = elim (Bool-cases (has_key k x.idempotency_key)) [
  | inl h ↦ rw h refl
  | inr h ↦ rw h (is_known-append k es e)
]

-- A key that a known input carries is known.
known_key :
    (k : EventKey) (o : Option EventKey) (es : List Event) (old : Event)
    → existing_event o es ≡ some old
    → is_some (find_event k es) ≡ (is_some (find_event k es) || has_key k o)
unfolding existing_event has_key
known_key k none es old h = absurd (ground (arith, h))
known_key k (some j) es old h = elim (Bool-cases (same_event_key k j)) [
  | inl e ↦
      let found : find_event k es ≡ some old =
        ap (λ i. find_event i es) ((same_event_key_iff k j).0 e) ∙ h in
      rw found refl
  | inr e ↦ elim (Bool-cases (is_some (find_event k es))) [
    | inl e' ↦ rw (e, e') refl
    | inr e' ↦ rw (e, e') refl
  ]
]

-- After a call the keys that were known are known, the key of the call too, and no other.
pub is_known-post_event :
    (k : EventKey) (input : PostEventInput) (db : Inventory)
    → Ensures (post_event input db) (λ t.
      is_some (find_event k t.events)
      ≡ (is_some (find_event k db.events) || has_key k input.idempotency_key))
unfolding post_event
is_known-post_event k input db =
    elim (Option-cases (existing_event input.idempotency_key db.events)) [
      | inl new ↦
          rw (new, Ensures)
            (Ensures-intro
              (λ t.
                is_some (find_event k t.events)
                ≡ (is_some (find_event k db.events) || has_key k input.idempotency_key))
              (post_new_event input db)
              λ id t e.
                rw
                  (Returns-ok (λ id t. t.events ≡ db.events ++ event_row input posted id ∷ [])
                    (post_new_event input db) (post_new_event-events input db) e)
                  (is_known-append k db.events (event_row input posted id)))
      | inr (old, known) ↦
          rw (known, Ensures) (known_key k input.idempotency_key db.events old known)
    ]

pub or_false : (b : Bool) → (b || false) ≡ b
or_false true = refl
or_false false = refl
