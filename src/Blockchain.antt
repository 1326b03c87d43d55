-- ===== src/Blockchain.antt =====
-- services/blockchain: the service that talks to the chain.
pub mod Models
pub mod Transactions
pub mod Watcher
pub mod Addresses
pub mod Deposits
pub mod Dispatcher
pub mod Consumer
pub mod MockChain
pub mod Examples
