-- ===== src/Chain.antt =====
-- src/chain/.
pub mod CompactSize
pub mod Transaction
pub mod Block
pub mod HashMap
pub mod LevelDb
pub mod BalanceDb
pub mod InflowDb
pub mod Indexer
pub mod Script
pub mod Sync
pub mod Sign
