-- ===== src/Sales/Order/Validate.antt =====
-- What `create` of backend/src/sales-orders/sales-order.service.ts checks before it writes: who
-- orders, for whom, along which route, and what. Quantities are in units of 0.000001 and prices in
-- units of 0.0001; products of the two are exact, as in an invoice, until a column rounds them.
use pasalho.Prelude.{
  ℕ, Bool, true, false, Option, none, some, List, [], ◌∷◌, if◌then◌else◌, ◌==◌, ◌&&◌, ◌||◌, not,
  any, is_some, same_id?, find_row,
}
use pasalho.Prelude.Int.{ℤ, pos, ◌+ℤ◌, ◌*ℤ◌, ltb_ℤ, round_div}
use pasalho.Prelude.Result.{Result, ok, err, app_error, validation_error, forbidden, internal_error}
use pasalho.Inventory.Data.{BatchStatus, Batch}
use pasalho.Inventory.Count.{find_first}
use pasalho.Finance.Data.{Retailer, Books}
use pasalho.Finance.RetailerLedger.{get_outstanding}
use pasalho.Finance.Tables.{find_retailer}
use pasalho.Sales.Data.{OrderSource, Location, ProductUnit, Product, SalesRep, Route, Catalog}
use pasalho.Sales.Invoice.{exact}
use pasalho.Sales.Invoice.Post.{find_batch}

pub record ItemDto : Type 0 where
  pub product : ℕ
  pub batch : Option ℕ
  pub unit : Option ℕ
  pub quantity : ℤ

-- The request with the options of the call: `branch` and `retailer` are those of the options where
-- these are given, and `dto_branch` is the branch of the request itself.
pub record OrderInput : Type 0 where
  pub is_online : Bool
  pub dto_branch : Option ℕ
  pub branch : ℕ
  pub retailer : Option ℕ
  pub location : Option ℕ
  pub sales_rep : ℕ
  pub route : Option ℕ
  pub channel : Option OrderSource
  pub items : List ItemDto

abbrev pub lookup {ℓ} : {A : Type ℓ} → (ℕ → Option A) → Option ℕ → Option A
lookup find none = none
lookup find (some id) = find id

abbrev pub is_dnp_channel : Option OrderSource → Bool
is_dnp_channel (some OrderSource.dnp) = true
is_dnp_channel _ = false

-- The guard on the retailer, who must be there unless the order is online.
unfoldable pub allows_retailer : OrderInput → Option Retailer → Bool
allows_retailer input none = input.is_online
allows_retailer input (some r) =
    ((r.branch == input.branch) || (input.is_online && is_dnp_channel input.channel)) && r.is_active

unfoldable pub allows_rep : OrderInput → ℕ → Option SalesRep → Bool
allows_rep input actor none = false
allows_rep input actor (some rep) =
    (rep.branch == input.branch) && rep.is_active && (rep.user == actor)

unfoldable pub allows_route : OrderInput → Option Route → Bool
allows_route input none = false
allows_route input (some route) =
    (route.branch == input.branch) && (route.sales_rep == input.sales_rep) && route.is_active

unfoldable pub has_stop : Option ℕ → Option Route → Bool
has_stop (some retailer) (some route) = any (λ r. r == retailer) route.stops
has_stop _ _ = false

abbrev pub find_rep : ℕ → Catalog → Option SalesRep
find_rep id c = find_row (λ (r : SalesRep). r.id) id c.sales_reps

abbrev pub find_route : ℕ → Catalog → Option Route
find_route id c = find_row (λ (r : Route). r.id) id c.routes

-- `inventoryLocation.findFirst`
abbrev pub is_location : OrderInput → Location → Bool
is_location input l =
    (l.branch == input.branch)
    && l.is_active
    && (not (is_some input.location) || same_id? input.location (some l.id))

unfoldable pub find_location : OrderInput → List Location → Result ℕ
unfolding find_first
find_location input ls = elim (find_first (is_location input) ls) [
  | none ↦ err (app_error validation_error 422)
  | some l ↦ ok l.id
]

-- The guards from the branch to the location, in their order; it returns the location.
unfoldable pub check_parties : OrderInput → ℕ → Catalog → List Retailer → Result ℕ
check_parties input actor c retailers =
    let retailer = lookup (λ id. find_retailer id retailers) input.retailer in
    let route = lookup (λ id. find_route id c) input.route in
    if not (any (λ b. b == input.branch) c.branches && allows_retailer input retailer)
    then err (app_error validation_error 422)
    else if not (input.is_online || allows_rep input actor (find_rep input.sales_rep c))
    then err (app_error forbidden 403)
    else if not (input.is_online || allows_route input route)
    then err (app_error forbidden 403)
    else if not (input.is_online || has_stop input.retailer route)
    then err (app_error forbidden 403)
    else find_location input c.locations

-- An item of `validatedItems`.
pub record ValidItem : Type 0 where
  pub product : ℕ
  pub is_batch_tracked : Bool
  pub batch : Option ℕ
  pub unit : ℕ
  pub quantity : ℤ
  pub base_quantity : ℤ
  pub unit_price : ℤ
  pub line_total : ℤ

-- `a ?? b`
abbrev pub or_else {ℓ} : {A : Type ℓ} → Option A → Option A → Option A
or_else none b = b
or_else (some a) b = some a

unfoldable pub unit_for : Option ℕ → Product → Option ProductUnit
unfolding find_first
unit_for (some u) p = find_first (λ (x : ProductUnit). x.unit == u) p.units
unit_for none p =
    or_else (find_first (λ (x : ProductUnit). x.is_base_unit) p.units)
      (find_first (λ (x : ProductUnit). x.unit == p.default_unit) p.units)

abbrev pub is_active_batch : BatchStatus → Bool
is_active_batch BatchStatus.active = true
is_active_batch _ = false

-- The guard on the batch that an item names.
unfoldable pub allows_batch : ℕ → List Batch → Option ℕ → Bool
allows_batch product batches none = true
allows_batch product batches (some id) = elim (find_batch id batches) [
  | none ↦ false
  | some b ↦ (b.product == product) && is_active_batch b.status
]

abbrev pub price_of : Option ℤ → ℤ
price_of none = pos 0
price_of (some p) = p

abbrev pub valid_item : ItemDto → Product → ProductUnit → ValidItem
valid_item item p u = record {
  product = p.id;
  is_batch_tracked = p.is_batch_tracked;
  batch = item.batch;
  unit = u.unit;
  quantity = item.quantity;
  base_quantity = round_div (item.quantity *ℤ u.conversion_to_base) (pos 1000000);
  unit_price = price_of p.selling_price;
  line_total = item.quantity *ℤ price_of p.selling_price;
}

-- The checks of one round of the loop over the items.
unfoldable pub validate_unit : ItemDto → Product → List Batch → Result ValidItem
validate_unit item p batches = elim (unit_for item.unit p) [
  | none ↦ err (app_error validation_error 422)
  | some u ↦
      if allows_batch p.id batches item.batch
      then ok (valid_item item p u)
      else err (app_error validation_error 422)
]

unfoldable pub validate_item : ItemDto → List Product → List Batch → Result ValidItem
validate_item item products batches =
    elim (find_row (λ (p : Product). p.id) item.product products) [
      | none ↦ err (app_error validation_error 422)
      | some p ↦
          if p.is_active then validate_unit item p batches else err (app_error validation_error 422)
    ]

unfoldable pub validate_items : List ItemDto → List Product → List Batch → Result (List ValidItem)
validate_items [] products batches = ok []
validate_items (item ∷ items) products batches = elim (validate_item item products batches) [
  | err e ↦ err e
  | ok v ↦ elim (validate_items items products batches) [ err e ↦ err e | ok vs ↦ ok (v ∷ vs) ]
]

-- `subtotal += lineTotal`
unfoldable pub subtotal_from : ℤ → List ValidItem → ℤ
subtotal_from acc [] = acc
subtotal_from acc (v ∷ vs) = subtotal_from (acc +ℤ v.line_total) vs

-- The credit check; a retailer whose row is missing makes the handler fail.
unfoldable pub check_credit : Option ℕ → ℤ → Books → Result (Unit {0})
check_credit none subtotal db = ok tt
check_credit (some id) subtotal db = elim (find_retailer id db.retailers) [
  | none ↦ err (app_error internal_error 500)
  | some r ↦
      if ltb_ℤ (exact r.credit_limit) (exact (get_outstanding id db) +ℤ subtotal)
      then err (app_error validation_error 422)
      else ok tt
]
