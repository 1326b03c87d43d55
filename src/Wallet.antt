-- ===== src/Wallet.antt =====
-- services/wallet/wallet_service: users, balances, the ledger and transfers.
pub mod Models
pub mod Ledger
pub mod Users
pub mod Transfers
pub mod Deposits
pub mod Dispatcher
pub mod Progress
pub mod Idempotency
pub mod Invariant
pub mod Frame
pub mod Routes
pub mod Kept
pub mod Delivery
pub mod Consumer
pub mod Examples
