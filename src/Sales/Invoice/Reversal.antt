-- ===== src/Sales/Invoice/Reversal.antt =====
-- What voiding a posted invoice gives back, and what it leaves.
use pasalho.Prelude.{
  ℕ, ◌≡◌, refl, sym, ◌∙◌, ap, Bool, true, false, Option, none, some, List, [], ◌∷◌, arith, map,
  Bool-cases, inl, inr, find_row, update_row, find_row-id, find_row-update_row, if◌then◌else◌,
  is_some, ◌||◌,
}
use pasalho.Prelude.Int.{ℤ, pos, ◌+ℤ◌, -ℤ◌, sum_by, int_laws}
use pasalho.Prelude.Result.{Result-cases, ok, transaction}
use pasalho.Prelude.Loops.{Ensures, Ensures-ok}
use pasalho.Audit
use pasalho.Audit.{invoice_posted}
use pasalho.Inventory.Data.{
  StockKey, EventKey, PostEventInput, Inventory, same_key, same_event_key, same_event_key_iff,
}
use pasalho.Inventory.Snapshots.{on_hand}
use pasalho.Inventory.Ledger.{post_event, existing_event, find_event, has_key}
use pasalho.Inventory.Ledger.Effects.{delta}
use pasalho.Inventory.Ledger.Posting.{on_hand-post_event}
use pasalho.Inventory.Ledger.Keys.{or_false, is_known-post_event}
use pasalho.Finance.Data.{InvoiceStatus, Invoice, InvoiceLine, Books}
use pasalho.Finance.RetailerLedger.{create_invoice_debit}
use pasalho.Sales.Data.{Shop, in_stock, invoice_id, set_invoice, audited}
use pasalho.Sales.Invoice.Post.{
  take_stock, order_of, sale_event, sold, posted_row, enter_debt, post_draft, post_in, is_draft,
  post,
}
use pasalho.Sales.Invoice.Void.{
  void_invoice, void_found, with_found, void_event, returned, voided_row, is_voidable, read_back,
}
use pasalho.Sales.Invoice.Posting.{post_draft-inverted}

one_line :
    (b : Bool) (d x y : ℤ)
    → x ≡ -ℤ◌ y
    → (if b then d else pos 0) +ℤ x ≡ -ℤ◌ ((if b then -ℤ◌ d else pos 0) +ℤ y)
one_line true d x y h = rw h (omega int_laws)
one_line false d x y h = rw h (omega int_laws)

-- Under every key, voiding adds what the sale took.
delta-returned :
    (i : Invoice) (items : List InvoiceLine) (k : StockKey)
    → delta k (map (returned i) items) ≡ -ℤ◌ (delta k (map (sold i) items))
unfolding delta sum_by
delta-returned i [] k = omega int_laws
delta-returned i (item ∷ items) k =
    one_line (same_key k (sold i item).key) item.base_quantity (delta k (map (returned i) items))
      (delta k (map (sold i) items)) (delta-returned i items k)

void_is_not_post :
    (a b : ℕ) → same_event_key (EventKey.invoice_void a) (EventKey.invoice_post b) ≡ false
void_is_not_post a b =
    elim (Bool-cases (same_event_key (EventKey.invoice_void a) (EventKey.invoice_post b))) [
      | inr e ↦ e
      | inl e ↦
          let same = (same_event_key_iff (EventKey.invoice_void a) (EventKey.invoice_post b)).0 e in
          absurd (ground (arith, same))
    ]

post_is_not_void :
    (a b : ℕ) → same_event_key (EventKey.invoice_post a) (EventKey.invoice_void b) ≡ false
post_is_not_void a b =
    elim (Bool-cases (same_event_key (EventKey.invoice_post a) (EventKey.invoice_void b))) [
      | inr e ↦ e
      | inl e ↦
          let same = (same_event_key_iff (EventKey.invoice_post a) (EventKey.invoice_void b)).0 e in
          absurd (ground (arith, same))
    ]

-- A new event moves the stock by its movements, and makes no other key known.
new_event-moves :
    (k : StockKey) (key other : EventKey) (input : PostEventInput) (db s : Inventory) (n : ℕ)
    → input.idempotency_key ≡ some key
    → is_some (find_event key db.events) ≡ false
    → same_event_key other key ≡ false
    → post_event input db ≡ ok (n, s)
    → (on_hand k s.snapshots ≡ on_hand k db.snapshots +ℤ delta k input.movements)
      × (is_some (find_event other s.events) ≡ is_some (find_event other db.events))
unfolding existing_event has_key
new_event-moves k key other input db s n e new differ done =
    let moved =
      Ensures-ok
        (λ (t : Inventory).
          on_hand k t.snapshots
          ≡ on_hand k db.snapshots
            +ℤ (if is_some (existing_event input.idempotency_key db.events)
                then pos 0
                else delta k input.movements))
        (post_event input db) (on_hand-post_event input k db) done in
    let known =
      Ensures-ok
        (λ (t : Inventory).
          is_some (find_event other t.events)
          ≡ (is_some (find_event other db.events) || has_key other input.idempotency_key))
        (post_event input db) (is_known-post_event other input db) done in
    let unknown : is_some (existing_event input.idempotency_key db.events) ≡ false =
      rw (e, existing_event) new in
    let foreign : has_key other input.idempotency_key ≡ false = rw (e, has_key) differ in
    (moved ∙ rw unknown refl, known ∙ rw foreign (or_false (is_some (find_event other db.events))))

-- The invoice half of a post that went through, on a draft without an order.
post-inverted :
    (id actor : ℕ) (db t : Shop) (i r : Invoice)
    → find_row invoice_id id db.books.invoices ≡ some i
    → is_draft i.status ≡ true
    → post id actor db ≡ (ok r, t)
    → (v : Shop) × (post_draft i actor db ≡ ok ((posted_row actor i, false), v))
      × (t ≡ audited actor invoice_posted Audit.invoice i.id (some i.branch) v)
unfolding post post_in transaction
post-inverted id actor db t i r found draft h = elim (Result-cases (post_draft i actor db)) [
  | inr (x, e) ↦ absurd (ground (arith, h, found, draft, e))
  | inl ((p, v), e) ↦
      let (s, _, b, _, same, _) = post_draft-inverted i actor db v p e in
      let e' : post_draft i actor db ≡ ok ((posted_row actor i, false), v) =
        e ∙ ap (λ (q : Invoice × Bool). ok (q, v)) same in
      (v, e', ground (arith, h, found, draft, e'))
]

take_stock-sold :
    (i : Invoice) (actor : ℕ) (db s : Shop)
    → order_of i.id db.orders ≡ none
    → take_stock i actor db ≡ ok (tt, s)
    → (n : ℕ) × (stock : Inventory) × (post_event (sale_event i actor) db.stock ≡ ok (n, stock))
      × (s ≡ record db { stock = stock })
unfolding take_stock in_stock
take_stock-sold i actor db s lone h =
    elim (Result-cases (post_event (sale_event i actor) db.stock)) [
      | inl ((n, stock), e) ↦ (n, stock, e, ground (arith, h, lone, e))
      | inr (x, e) ↦ absurd (ground (arith, h, lone, e))
    ]

enter_debt-invoices :
    (i : Invoice) (actor : ℕ) (retailer : Option ℕ) (db : Books)
    → Ensures (enter_debt i actor retailer db) (λ t. t.invoices ≡ db.invoices)
unfolding enter_debt create_invoice_debit
enter_debt-invoices i actor none db = refl
enter_debt-invoices i actor (some r) db = refl

void-inverted :
    (voider : ℕ) (t u : Shop) (p v : Invoice) (id : ℕ)
    → find_row invoice_id id t.books.invoices ≡ some p
    → void_invoice id voider t ≡ (ok v, u)
    → (n : ℕ) × (s : Inventory) × (post_event (void_event p voider) t.stock ≡ ok (n, s))
      × (v ≡ voided_row voider p)
      × (find_row invoice_id p.id u.books.invoices ≡ some v)
      × (u.stock ≡ s)
      × (u.books.ledger ≡ t.books.ledger)
      × (u.books.financial ≡ t.books.financial)
unfolding void_invoice with_found void_found read_back
void-inverted voider t u p v id found h = elim (Bool-cases (is_voidable p.status)) [
  | inr e ↦ absurd (ground (arith, h, found, e))
  | inl e ↦ elim (Result-cases (post_event (void_event p voider) t.stock)) [
    | inr (x, e') ↦ absurd (ground (arith, h, found, e, e'))
    | inl ((n, s), e') ↦
        let own : find_row invoice_id p.id t.books.invoices ≡ some p =
          ap (λ j. find_row invoice_id j t.books.invoices)
            (find_row-id invoice_id id t.books.invoices found)
          ∙ found in
        let row =
          find_row-update_row invoice_id p.id (voided_row voider) t.books.invoices refl own in
        (
          n,
          s,
          e',
          ground (arith, h, found, e, e', row),
          ground (arith, h, found, e, e', row),
          ground (arith, h, found, e, e', row),
          ground (arith, h, found, e, e', row),
          ground (arith, h, found, e, e', row),
        )
  ]
]

-- The invoice and the stock after a post, as the void finds them.
posted-state :
    (id actor : ℕ) (db t : Shop) (i r : Invoice)
    → find_row invoice_id id db.books.invoices ≡ some i
    → is_draft i.status ≡ true
    → order_of i.id db.orders ≡ none
    → post id actor db ≡ (ok r, t)
    → (n : ℕ) × (post_event (sale_event i actor) db.stock ≡ ok (n, t.stock))
      × (find_row invoice_id i.id t.books.invoices ≡ some (posted_row actor i))
posted-state id actor db t i r found draft lone h =
    let (v, h1, audit) = post-inverted id actor db t i r found draft h in
    let (s, h2, b, h3, same, after) =
      post_draft-inverted i actor db v (posted_row actor i, false) h1 in
    let (n, stock, sale, rest) = take_stock-sold i actor db s lone h2 in
    let own : find_row invoice_id i.id db.books.invoices ≡ some i =
      ap (λ j. find_row invoice_id j db.books.invoices)
        (find_row-id invoice_id id db.books.invoices found)
      ∙ found in
    let rows =
      Ensures-ok
        (λ (b : Books). b.invoices ≡ (set_invoice i.id (posted_row actor) s).books.invoices)
        (enter_debt i actor i.retailer (set_invoice i.id (posted_row actor) s).books)
        (enter_debt-invoices i actor i.retailer (set_invoice i.id (posted_row actor) s).books) h3 in
    let stocks : t.stock ≡ stock =
      ap (λ (x : Shop). x.stock) audit
      ∙ ap (λ (x : Shop). x.stock) after
      ∙ ap (λ (x : Shop). x.stock) rest in
    let invoices : t.books.invoices
        ≡ update_row invoice_id i.id (posted_row actor) db.books.invoices =
      ap (λ (x : Shop). x.books.invoices) audit
      ∙ ap (λ (x : Shop). x.books.invoices) after
      ∙ rows
      ∙ ap (λ (x : Shop). update_row invoice_id i.id (posted_row actor) x.books.invoices) rest in
    (
      n,
      sale ∙ ap (λ (x : Inventory). ok (n, x)) (sym stocks),
      ap (find_row invoice_id i.id) invoices
          ∙ find_row-update_row invoice_id i.id (posted_row actor) db.books.invoices refl own,
    )

back : (a d x : ℤ) → x ≡ -ℤ◌ d → a +ℤ d +ℤ x ≡ a
back a d x h = rw h (omega int_laws)

-- If a draft without an order is posted and the posted invoice is then voided, neither having had an
-- event before, the stock under every key is what it was before the two, and the invoice stands in
-- its table as a voided one, which is what the call returns; but the entries that the post made in the two ledgers stay as they are, with none against them.
pub post_void-restores :
    (id actor voider : ℕ) (k : StockKey) (db t u : Shop) (i r v : Invoice)
    → find_row invoice_id id db.books.invoices ≡ some i
    → is_draft i.status ≡ true
    → order_of i.id db.orders ≡ none
    → is_some (find_event (EventKey.invoice_post i.id) db.stock.events) ≡ false
    → is_some (find_event (EventKey.invoice_void i.id) db.stock.events) ≡ false
    → post id actor db ≡ (ok r, t)
    → void_invoice i.id voider t ≡ (ok v, u)
    → (on_hand k u.stock.snapshots ≡ on_hand k db.stock.snapshots)
      × (find_row invoice_id i.id u.books.invoices ≡ some v)
      × (v.status ≡ InvoiceStatus.voided)
      × (u.books.ledger ≡ t.books.ledger)
      × (u.books.financial ≡ t.books.financial)
post_void-restores id actor voider k db t u i r v found draft lone unsold unvoided h h' =
    let (n, sale, row) = posted-state id actor db t i r found draft lone h in
    let (m, s, reversal, voided, written, stock, ledger, financial) =
      void-inverted voider t u (posted_row actor i) v i.id row h' in
    let (sold_total, known) =
      new_event-moves k (EventKey.invoice_post i.id) (EventKey.invoice_void i.id)
        (sale_event i actor) db.stock t.stock n refl unsold (void_is_not_post i.id i.id) sale in
    let (back_total, _) =
      new_event-moves k (EventKey.invoice_void i.id) (EventKey.invoice_post i.id)
        (void_event (posted_row actor i) voider) t.stock s m refl (known ∙ unvoided)
        (post_is_not_void i.id i.id) reversal in
    (
      ap (λ (x : Inventory). on_hand k x.snapshots) stock
          ∙ back_total
          ∙ ap (λ x. x +ℤ delta k (map (returned (posted_row actor i)) i.items)) sold_total
          ∙ back (on_hand k db.stock.snapshots) (delta k (map (sold i) i.items))
              (delta k (map (returned i) i.items)) (delta-returned i i.items k),
      written,
      rw voided refl,
      ledger,
      financial,
    )
