-- ===== src/Tests.antt =====
-- Runs of the code at fixed inputs, and the theorems at inputs that meet their hypotheses.
mod Stock
mod Consumption
mod Money
mod Transfers
mod Cash
mod Stockroom
mod Sales
mod Procurement
mod Deliveries
