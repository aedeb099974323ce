-- ===== src/Procurement.antt =====
-- Purchases: backend/src/procurement.
pub mod Data
pub mod Suppliers
pub mod Create
pub mod Orders
pub mod Receipt
pub mod Receive
pub mod History
