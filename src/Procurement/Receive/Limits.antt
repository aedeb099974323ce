-- ===== src/Procurement/Receive/Limits.antt =====
-- No step of a purchase order accepts more of an item than was ordered.
use mathlib.Core.Path.{subst}
use pasalho.Prelude.{
  ℕ, ◌≡◌, refl, sym, ◌∙◌, ap, Option, none, some, List, [], ◌∷◌, Bool-cases, Option-cases, inl, inr,
  ◌||◌, ◌&&◌, not, All, All-update_row, All-find_row, find_row-id, if◌then◌else◌, is_some,
  update_row,
}
use pasalho.Prelude.Int.{pos, ltb_ℤ}
use pasalho.Prelude.Result.{Result-cases, ok, err, app_error, validation_error, Tx, transaction}
use pasalho.Prelude.Loops.{
  Ensures, Ensures-then, Ensures-ok, Returns, Returns-then, Returns-lift, Returns-bind, Returns-ok,
  Returns_of_Ensures,
}
use pasalho.Inventory.Data.{Inventory}
use pasalho.Inventory.Count.{find_first}
use pasalho.Procurement.Data.{
  PurchaseItem, PurchaseOrder, PurchaseStatus, Purchasing, order_id, find_order, in_stock,
}
use pasalho.Procurement.Orders.{
  set_status, with_locked, is_draft, is_confirmed, has_receipts, confirm_locked,
  confirm_purchase_order, cancel_locked, cancel_purchase_order,
}
use pasalho.Procurement.Receipt.{
  ItemDto, ReceiptLine, is_number, check_item, check_items, batch_for, upsert_batch, line_of,
  is_key_taken, create_receipt, add_received,
}
use pasalho.Procurement.Receive.{
  with_items, with_status_for_items, begin_request, complete_request, find_request, write_receipt,
  receive_new, is_receivable, check_location, known_receipt, receive_locked, receive_goods,
}
use pasalho.Procurement.Receive.Bounds.{
  IsWithin, AreChecked, check_items-AreChecked, add_received-IsWithin,
}

-- Of no order has more been received than was ordered.
abbrev pub IsOrderWithin : PurchaseOrder → Type 0
IsOrderWithin o = All IsWithin o.items

abbrev pub AreWithin : Purchasing → Type 0
AreWithin db = All IsOrderWithin db.orders

in_stock-orders :
    {A : Type 0} (m : Tx Inventory A) (db : Purchasing)
    → Ensures (in_stock m db) (λ t. t.orders ≡ db.orders)
unfolding in_stock
in_stock-orders m db = elim (Result-cases (m db.stock)) [
  | inl ((a, s), e) ↦ rw (e, Ensures) refl
  | inr (x, e) ↦ rw (e, Ensures) tt
]

begin_request-orders :
    (key hash : ℕ) (db : Purchasing)
    → Ensures (begin_request key hash db) (λ t. t.orders ≡ db.orders)
unfolding begin_request
begin_request-orders key hash db = elim (Bool-cases (is_some (find_request key db.requests))) [
  | inl e ↦ rw (e, Ensures) tt
  | inr e ↦ rw (e, Ensures) refl
]

complete_request-orders :
    (key id : ℕ) (db : Purchasing)
    → Ensures (complete_request key id db) (λ t. t.orders ≡ db.orders)
unfolding complete_request
complete_request-orders key id db = elim (Option-cases (find_request key db.requests)) [
  | inl e ↦ rw (e, Ensures) tt
  | inr (r, e) ↦ rw (e, Ensures) refl
]

batch_for-orders :
    (i : PurchaseItem) (dto : ItemDto) (db : Purchasing)
    → Ensures (batch_for i dto db) (λ t. t.orders ≡ db.orders)
unfolding batch_for upsert_batch
batch_for-orders i dto db =
    elim (Bool-cases (i.product_unit.is_batch_tracked && ltb_ℤ (pos 0) dto.accepted_quantity)) [
      | inr e ↦ rw (e, Ensures) refl
      | inl e ↦ elim (Option-cases dto.batch_number) [
        | inl e1 ↦ rw (e, e1, Ensures) tt
        | inr (n, e1) ↦
            elim (Option-cases (find_first (is_number i.product_unit.product n) db.batch_numbers)) [
              | inl e2 ↦ rw (e, e1, e2, Ensures) refl
              | inr (b, e2) ↦ rw (e, e1, e2, Ensures) refl
            ]
      ]
    ]

check_items-orders :
    (os : List PurchaseOrder) (items : List PurchaseItem) (seen : List ℕ) (dtos : List ItemDto)
    (db : Purchasing)
    → db.orders ≡ os
    → Returns (check_items items seen dtos db) (λ lines t. t.orders ≡ os)
unfolding check_items
check_items-orders os items seen [] db h = h
check_items-orders os items seen (dto ∷ dtos) db h =
    let Q = λ (lines : List ReceiptLine) (t : Purchasing). t.orders ≡ os in
    Returns-lift Q (λ (db : Purchasing). check_item seen items dto) _ db
      λ i checked. Returns-bind Q (batch_for i dto db) _ λ batch t e.
        let kept =
          Ensures-ok (λ (u : Purchasing). u.orders ≡ db.orders) (batch_for i dto db)
            (batch_for-orders i dto db) e in
        Returns-then Q Q (check_items items (dto.purchase_item ∷ seen) dtos t)
          (λ lines u. ok (line_of i dto batch ∷ lines, u))
          (check_items-orders os items (dto.purchase_item ∷ seen) dtos t (kept ∙ h))
          (λ lines u rest. rest)

-- What the receipt writes to the order keeps it within what was ordered.
write_receipt-AreWithin :
    (o : PurchaseOrder) (lines : List ReceiptLine) (location key hash actor : ℕ) (db : Purchasing)
    → find_order o.id db.orders ≡ some o
    → AreChecked o.items [] lines
    → AreWithin db
    → Ensures (write_receipt o lines location key hash actor db) AreWithin
unfolding write_receipt create_receipt
write_receipt-AreWithin o lines location key hash actor db own checked h =
    let items = add_received lines o.items in
    let within =
      add_received-IsWithin lines [] o.items checked
        (All-find_row order_id IsOrderWithin o.id db.orders h own) in
    let os = update_row order_id o.id (with_items items) db.orders in
    let h1 : All IsOrderWithin os =
      All-update_row order_id IsOrderWithin o.id (with_items items) db.orders (λ r found p. within)
        h in
    elim (Bool-cases (is_key_taken key db.receipts)) [
      | inl taken ↦ rw (taken, Ensures) tt
      | inr free ↦
          rw (free, Ensures)
            (Ensures-then (λ t. t.orders ≡ os) AreWithin _ _ (in_stock-orders _ _)
              λ u t e.
                let h2 : All IsOrderWithin
                    (update_row order_id o.id with_status_for_items t.orders) =
                  All-update_row order_id IsOrderWithin o.id with_status_for_items t.orders
                    (λ r found p. p) (rw e h1) in
                Ensures-then
                  (λ v. v.orders ≡ update_row order_id o.id with_status_for_items t.orders)
                  AreWithin _ _ (complete_request-orders _ _ _) (λ u v e1. rw (e1) h2))
    ]

receive_new-AreWithin :
    (dtos : List ItemDto) (key hash actor : ℕ) (o : PurchaseOrder) (db : Purchasing)
    → find_order o.id db.orders ≡ some o
    → AreWithin db
    → Returns (receive_new dtos key hash actor o db) (λ id t. AreWithin t)
unfolding receive_new
receive_new-AreWithin dtos key hash actor o db own h =
    let Q = λ (id : ℕ) (t : Purchasing). AreWithin t in
    Returns-bind Q (begin_request key hash db) _ λ u t e.
      let kept =
        Ensures-ok (λ (v : Purchasing). v.orders ≡ db.orders) (begin_request key hash db)
          (begin_request-orders key hash db) e in
      Returns-lift Q
        (λ (db : Purchasing).
          if is_receivable o.status then ok tt else err (app_error validation_error 422))
        _ t
        λ u passed.
          Returns-lift Q (λ (db : Purchasing). check_location o.warehouse.location) _ t
            λ location at_location. Returns-bind Q (check_items o.items [] dtos t) _ λ lines v e1.
              let same : v.orders ≡ db.orders =
                Returns-ok (λ lines v. v.orders ≡ db.orders) (check_items o.items [] dtos t)
                  (check_items-orders db.orders o.items [] dtos t kept) e1 in
              let checked =
                Returns-ok (λ lines v. AreChecked o.items [] lines) (check_items o.items [] dtos t)
                  (check_items-AreChecked o.items [] dtos t) e1 in
              Returns_of_Ensures AreWithin (write_receipt o lines location key hash actor v) (
                write_receipt-AreWithin o lines location key hash actor v
                  (ap (find_order o.id) same ∙ own) checked
                  (subst (All IsOrderWithin) (sym same) h))

receive_locked-AreWithin :
    (dtos : List ItemDto) (key hash actor : ℕ) (o : PurchaseOrder) (db : Purchasing)
    → find_order o.id db.orders ≡ some o
    → AreWithin db
    → Returns (receive_locked dtos key hash actor o db) (λ id t. AreWithin t)
unfolding receive_locked
receive_locked-AreWithin dtos key hash actor o db own h =
    elim (Option-cases (find_request key db.requests)) [
      | inl e ↦ rw (e, Returns) (receive_new-AreWithin dtos key hash actor o db own h)
      | inr (r, e) ↦ elim (Result-cases (known_receipt hash r db.receipts)) [
        | inl (id, e1) ↦ rw (e, e1, Returns) h
        | inr (x, e1) ↦ rw (e, e1, Returns) tt
      ]
    ]

module _ {A : Type 0} where
  with_locked-AreWithin :
      (id : ℕ) (k : PurchaseOrder → Tx Purchasing A) (db : Purchasing)
      → ((o : PurchaseOrder)
          → find_order o.id db.orders ≡ some o
          → Returns (k o db) (λ a t. AreWithin t))
      → Returns (with_locked id k db) (λ a t. AreWithin t)
  unfolding with_locked
  with_locked-AreWithin id k db h = elim (Option-cases (find_order id db.orders)) [
    | inl e ↦ rw (e, Returns) tt
    | inr (o, e) ↦
        rw (e, Returns)
          (h o (ap (λ j. find_order j db.orders) (find_row-id order_id id db.orders e) ∙ e))
  ]

  transaction-AreWithin :
      (m : Tx Purchasing A) (db : Purchasing)
      → AreWithin db
      → Returns (m db) (λ a t. AreWithin t)
      → AreWithin (transaction m db).1
  unfolding transaction
  transaction-AreWithin m db h kept = elim (Result-cases (m db)) [
    | inl ((a, t), e) ↦ rw (e, transaction) (Returns-ok (λ a t. AreWithin t) (m db) kept e)
    | inr (x, e) ↦ rw (e, transaction) h
  ]

confirm_locked-AreWithin :
    (actor : ℕ) (o : PurchaseOrder) (db : Purchasing)
    → AreWithin db
    → Returns (confirm_locked actor o db) (λ a t. AreWithin t)
unfolding confirm_locked
confirm_locked-AreWithin actor o db h = elim (Bool-cases (is_draft o.status)) [
  | inl e ↦
      rw (e, Returns)
        (All-update_row order_id IsOrderWithin o.id (set_status PurchaseStatus.confirmed) db.orders
          (λ r found p. p) h)
  | inr e ↦ rw (e, Returns) tt
]

cancel_locked-AreWithin :
    (actor : ℕ) (o : PurchaseOrder) (db : Purchasing)
    → AreWithin db
    → Returns (cancel_locked actor o db) (λ a t. AreWithin t)
unfolding cancel_locked
cancel_locked-AreWithin actor o db h =
    elim (Bool-cases
      (not (is_draft o.status || is_confirmed o.status) || has_receipts o.id db.receipts)) [
        | inl e ↦ rw (e, Returns) tt
        | inr e ↦
            rw (e, Returns)
              (All-update_row order_id IsOrderWithin o.id (set_status PurchaseStatus.cancelled)
                db.orders (λ r found p. p) h)
      ]

pub confirm_purchase_order-AreWithin :
    (id actor : ℕ) (db : Purchasing)
    → AreWithin db
    → AreWithin (confirm_purchase_order id actor db).1
unfolding confirm_purchase_order
confirm_purchase_order-AreWithin id actor db h =
    transaction-AreWithin (with_locked id (confirm_locked actor)) db h (
      with_locked-AreWithin id (confirm_locked actor) db
        (λ o own. confirm_locked-AreWithin actor o db h))

pub cancel_purchase_order-AreWithin :
    (id actor : ℕ) (db : Purchasing)
    → AreWithin db
    → AreWithin (cancel_purchase_order id actor db).1
unfolding cancel_purchase_order
cancel_purchase_order-AreWithin id actor db h =
    transaction-AreWithin (with_locked id (cancel_locked actor)) db h (
      with_locked-AreWithin id (cancel_locked actor) db
        (λ o own. cancel_locked-AreWithin actor o db h))

pub receive_goods-AreWithin :
    (receipt_hash : ℕ → List ItemDto → ℕ) (id : ℕ) (dtos : List ItemDto) (key : Option ℕ)
    (actor : ℕ) (db : Purchasing)
    → AreWithin db
    → AreWithin (receive_goods receipt_hash id dtos key actor db).1
unfolding receive_goods
receive_goods-AreWithin receipt_hash id dtos none actor db h = h
receive_goods-AreWithin receipt_hash id [] (some key) actor db h = h
receive_goods-AreWithin receipt_hash id (dto ∷ dtos) (some key) actor db h =
    let hash = receipt_hash id (dto ∷ dtos) in
    let m = receive_locked (dto ∷ dtos) key hash actor in
    transaction-AreWithin (with_locked id m) db h (
      with_locked-AreWithin id m db
        (λ o own. receive_locked-AreWithin (dto ∷ dtos) key hash actor o db own h))
