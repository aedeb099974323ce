-- ===== src/Sales/Order/Create/Credit.antt =====
-- An order stays within the credit of its retailer.
use pasalho.Prelude.{ℕ, ◌≡◌, some, List}
use pasalho.Prelude.Int.{ℤ, ◌+ℤ◌, ◌≤ℤ◌, sum_by}
use pasalho.Finance.Data.{Retailer, Books}
use pasalho.Finance.Tables.{find_retailer}
use pasalho.Finance.RetailerLedger.{get_outstanding}
use pasalho.Sales.Data.{SalesOrder, Shop}
use pasalho.Sales.Invoice.{exact, stored}
use pasalho.Sales.Order.Validate.{OrderInput, ValidItem}
use pasalho.Sales.Order.Create.Lines.{AreFor}

-- What a retailer owes, with the subtotal of an order, is no more than the credit limit.
abbrev pub IsWithinCredit : ℕ → ℤ → Books → Type 0
IsWithinCredit c subtotal db =
    (r : Retailer) × (find_retailer c db.retailers ≡ some r)
    × (exact (get_outstanding c db) +ℤ subtotal ≤ℤ exact r.credit_limit)

-- What an order is made for: items that are for what was asked, and a total within the credit.
abbrev pub IsCovered : OrderInput → Shop → SalesOrder → Type 0
IsCovered input db o =
    (items : List ValidItem) × AreFor db.catalog.products db.stock.batches input.items items
    × (o.grand_total ≡ stored (sum_by (λ (v : ValidItem). v.line_total) items))
    × ((c : ℕ)
        → input.retailer ≡ some c
        → IsWithinCredit c (sum_by (λ (v : ValidItem). v.line_total) items) db.books)
