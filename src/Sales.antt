-- ===== src/Sales.antt =====
-- Invoices and orders: backend/src/sales/invoice.service.ts and backend/src/sales-orders.
pub mod Data
pub mod Invoice
pub mod Order
