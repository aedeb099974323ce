-- ===== src/Inventory.antt =====
-- backend/src/inventory: the stock ledger and the services that move stock through it.
pub mod Data
pub mod Stockroom
pub mod Adjustment
pub mod Damage
pub mod Count
pub mod Snapshots
pub mod Ledger
pub mod Reservation
pub mod Allocation
pub mod Consumption
pub mod Transfer
