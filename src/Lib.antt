-- ===== src/Lib.antt =====
-- PASALO, a distribution and sales system for consumer goods: the stock and the money of its NestJS
-- backend (backend/src).
--
-- A service method that runs in a database transaction is a function from the tables it uses to
-- a result and new tables (`Tx` of Prelude/Result.antt); an error rolls everything back. A
-- method that opens transactions itself is an `Action`, which keeps what was committed. Rows are
-- records and tables are lists, in the order in which the rows were created. Ids are UUIDs that
-- the code only compares, so they are numbers, and `next_id` stands for the generator.
-- Quantities are integers in units of 0.000001 and amounts of money in units of 0.0001, as their
-- columns hold them; the code computes them as floating-point numbers, which the model takes to
-- be exact, rounded where a value is stored.
--
-- A history is a sequence of calls. The transactions that reserve, move and consume stock, that
-- create, progress and cancel orders, that post invoices, and those of transfers and payments lock
-- the rows that they read, so they run one after the other. The handlers of cash sessions, credit limits,
-- payment allocations, stock adjustments, damage reports, stock counts, suppliers and deliveries,
-- the voiding and cancelling of invoices, and the confirmation of orders and their conversion to
-- invoices do not lock the rows whose status they check. For the last two Sales/Order/Overlap.antt
-- lets other calls run between the read and the writes; of the others, two calls that overlap are
-- not modelled.
--
-- Files, with the code they are about:
--   Prelude       shared names, integers, results and transactions, rules for loops; the error
--                 codes and the mapping of database errors (common/errors)
--   Audit         audit/audit-log.service.ts
--   Inventory     Data: the tables. Snapshots: the rows of InventorySnapshot.
--                 Ledger: inventory/services/inventory-ledger.service.ts (postEvent is
--                 `post_event`, applyMovementWithinTransaction is `apply_movement`).
--                 Reservation: reserveStock and releaseStock of stock-reservation.service.ts;
--                 Allocation: its reserveSalesOrderItem; Consumption: its consumeForOrder and
--                 consumeForOnlineDispatch; Transfer: confirm, dispatch and
--                 acknowledgeStoreReceipt of stock-transfer.service.ts, which post their
--                 movements through Ledger; its Sync is the message to the store. Stockroom: the tables of the documents below.
--                 Adjustment, Damage and Count: stock-adjustment, damage-report and
--                 inventory-reconciliation.service.ts; a count posts its variances through
--                 Adjustment
--   Finance       Data: the tables. RetailerLedger, CreditLimit, CashSession and Allocation: the
--                 services under finance (payment-allocation for Allocation). Payment:
--                 sales/payment.service.ts. A payment enters its credit through
--                 RetailerLedger, and the credit check reads the account there
--   Sales         Data: the tables. Invoice: sales/invoice.service.ts, which moves stock through
--                 Inventory.Ledger and enters debts through Finance. Order:
--                 sales-orders/sales-order.service.ts, which reserves and consumes stock through
--                 Inventory and checks credit through Finance; its Validate, Write and Create are
--                 the method `create`, its Convert the method `convertToInvoice`
--   Procurement   Data: the tables. Suppliers, Create, Orders, Receipt and Receive:
--                 procurement/procurement.service.ts, whose receipts post their movements through
--                 Inventory.Ledger. History: its calls in any order
--   Deliveries    deliveries/delivery.service.ts. Life: its calls in any order
--   Tests         concrete runs and examples of the theorems
--
-- Every loop runs over a list, so no fuel is needed. Not modelled: listings and queries for
-- display, time stamps and JSON columns, the HTTP layer, guards and validation of requests,
-- createPublicOrder, which chooses the warehouse of a storefront order, the creation of stock
-- transfers and retryStoreSync, the services of expiry and franchise stores, the master data,
-- authentication, the retailer portal, notifications, reports, and the frontend.
pub mod Prelude
pub mod Audit
pub mod Deliveries
pub mod Finance
pub mod Inventory
pub mod Procurement
pub mod Sales
mod Tests
