-- ===== src/Procurement/Receive/Bounds.antt =====
-- No more is accepted than was ordered.
use mathlib.Core.Path.{subst}
use pasalho.Prelude.{
  ℕ, ◌≡◌, refl, sym, ◌∙◌, ap, true, false, some, List, [], ◌∷◌, arith, Bool-cases, Option-cases,
  inl, inr, ◌==◌, ==-refl, any, All, All-update_row, find_row-id, find_row-update_row_other,
  update_row, ==_iff,
}
use pasalho.Prelude.Int.{ℤ, ◌+ℤ◌, ◌-ℤ◌, ◌≤ℤ◌, ltb_ℤ, int_laws}
use pasalho.Prelude.Result.{ok}
use pasalho.Prelude.Loops.{Returns, Returns-then, Returns-lift, Returns-bind}
use pasalho.Procurement.Data.{PurchaseItem, Purchasing, item_id}
use pasalho.Procurement.Receipt.{
  ItemDto, ReceiptLine, find_item, check_item, check_items, batch_for, line_of, add_received,
  received_more,
}

-- An item of which no more has been received than was ordered.
abbrev pub IsWithin : PurchaseItem → Type 0
IsWithin i = i.received_quantity ≤ℤ i.ordered_quantity

-- A line that was checked against the items, and is for none of the items that were seen.
abbrev IsChecked : List PurchaseItem → ReceiptLine → Type 0
IsChecked items l =
    (find_item l.item.id items ≡ some l.item)
    × (l.dto.accepted_quantity ≤ℤ l.item.ordered_quantity -ℤ l.item.received_quantity)

abbrev pub AreChecked : List PurchaseItem → List ℕ → List ReceiptLine → Type 0
AreChecked items seen [] = Unit
AreChecked items seen (l ∷ lines) =
    IsChecked items l
    × (any (λ id. id == l.item.id) seen ≡ false)
    × AreChecked items (l.item.id ∷ seen) lines

fits : (a b : ℤ) → ltb_ℤ a b ≡ false → b ≤ℤ a
fits a b h = ground (arith, h)

check_item-IsChecked :
    (seen : List ℕ) (items : List PurchaseItem) (dto : ItemDto) (i : PurchaseItem)
    → check_item seen items dto ≡ ok i
    → (find_item dto.purchase_item items ≡ some i)
      × (dto.accepted_quantity ≤ℤ i.ordered_quantity -ℤ i.received_quantity)
      × (any (λ id. id == dto.purchase_item) seen ≡ false)
unfolding check_item
check_item-IsChecked seen items dto i h =
    elim (Bool-cases (any (λ id. id == dto.purchase_item) seen)) [
      | inl e ↦ absurd (ground (arith, h, e))
      | inr e ↦ elim (Option-cases (find_item dto.purchase_item items)) [
        | inl e1 ↦ absurd (ground (arith, h, e, e1))
        | inr (j, e1) ↦ elim (Bool-cases (ltb_ℤ dto.received_quantity dto.accepted_quantity)) [
          | inl e2 ↦ absurd (ground (arith, h, e, e1, e2))
          | inr e2 ↦
              elim (Bool-cases
                (ltb_ℤ (j.ordered_quantity -ℤ j.received_quantity) dto.accepted_quantity)) [
                  | inl e3 ↦ absurd (ground (arith, h, e, e1, e2, e3))
                  | inr e3 ↦
                      let same : j ≡ i = ground (arith, h, e, e1, e2, e3) in
                      rw (← same) (
                        e1,
                        fits (j.ordered_quantity -ℤ j.received_quantity) dto.accepted_quantity e3,
                        e,
                      )
                ]
        ]
      ]
    ]

pub check_items-AreChecked :
    (items : List PurchaseItem) (seen : List ℕ) (dtos : List ItemDto) (db : Purchasing)
    → Returns (check_items items seen dtos db) (λ lines t. AreChecked items seen lines)
unfolding check_items
check_items-AreChecked items seen [] db = tt
check_items-AreChecked items seen (dto ∷ dtos) db =
    let Q = λ (lines : List ReceiptLine) (t : Purchasing). AreChecked items seen lines in
    Returns-lift Q (λ (db : Purchasing). check_item seen items dto) _ db
      λ i checked. Returns-bind Q (batch_for i dto db) _ λ batch t _.
        let (found, room, new) = check_item-IsChecked seen items dto i checked in
        let id = find_row-id item_id dto.purchase_item items found in
        Returns-then (λ lines t. AreChecked items (dto.purchase_item ∷ seen) lines) Q
          (check_items items (dto.purchase_item ∷ seen) dtos t)
          (λ lines u. ok (line_of i dto batch ∷ lines, u))
          (check_items-AreChecked items (dto.purchase_item ∷ seen) dtos t)
          (λ lines u rest. (
            (ap (λ j. find_item j items) id ∙ found, room),
            ap (λ (j : ℕ). any (λ x. x == j) seen) id ∙ new,
            subst (λ (j : ℕ). AreChecked items (j ∷ seen) lines) (sym id) rest,
          ))

-- An update of an item that has been seen leaves the checks of the others as they are.
AreChecked-update :
    (id : ℕ) (f : PurchaseItem → PurchaseItem) (items : List PurchaseItem) (seen : List ℕ)
    (lines : List ReceiptLine)
    → ((i : PurchaseItem) → (f i).id ≡ i.id)
    → any (λ x. x == id) seen ≡ true
    → AreChecked items seen lines
    → AreChecked (update_row item_id id f items) seen lines
AreChecked-update id f items seen [] keep member h = tt
AreChecked-update id f items seen (l ∷ lines) keep member ((found, room), new, rest) =
    elim (Bool-cases (id == l.item.id)) [
      | inl e ↦
          let same : id ≡ l.item.id = (==_iff id l.item.id).0 e in
          let member' : any (λ x. x == l.item.id) seen ≡ true =
            sym (ap (λ (j : ℕ). any (λ x. x == j) seen) same) ∙ member in
          absurd (ground (arith, member', new))
      | inr e ↦ (
        (find_row-update_row_other item_id id l.item.id f items keep e ∙ found, room),
        new,
        AreChecked-update id f items (l.item.id ∷ seen) lines keep (ground (arith, member)) rest,
      )
    ]

room_left : (r o a : ℤ) → a ≤ℤ o -ℤ r → r +ℤ a ≤ℤ o
room_left r o a h = grind (int_laws, h)

pub add_received-IsWithin :
    (lines : List ReceiptLine) (seen : List ℕ) (items : List PurchaseItem)
    → AreChecked items seen lines
    → All IsWithin items
    → All IsWithin (add_received lines items)
unfolding add_received
add_received-IsWithin [] seen items checked h = h
add_received-IsWithin (l ∷ lines) seen items ((found, room), new, rest) h =
    let f = received_more l.dto.accepted_quantity in
    add_received-IsWithin lines (l.item.id ∷ seen) (update_row item_id l.item.id f items)
      (AreChecked-update l.item.id f items (l.item.id ∷ seen) lines (λ i. refl)
        (ground (arith, ==-refl l.item.id)) rest)
      (All-update_row item_id IsWithin l.item.id f items
        (λ r at_id within.
          let same : l.item ≡ r = ground (arith, found, at_id) in
          rw (← same) (
            room_left l.item.received_quantity l.item.ordered_quantity l.dto.accepted_quantity
              room))
        h)
