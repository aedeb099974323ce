-- ===== src/Finance.antt =====
-- The money of the backend: backend/src/finance and the payments of backend/src/sales.
pub mod Data
pub mod Tables
pub mod RetailerLedger
pub mod CreditLimit
pub mod Allocation
pub mod Payment
pub mod CashSession
