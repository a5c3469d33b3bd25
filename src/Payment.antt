-- ===== src/Payment.antt =====
-- services/payment: deposits, the wallet ledger, purchases and access to paid study sets.
pub mod Model
pub mod Ledger
pub mod Orders
pub mod Deposit
pub mod Purchase
pub mod Access
pub mod World
mod Examples
