-- ===== src/Chain/Sync.antt =====
-- src/chain/sync.cpp.
pub mod Queue
pub mod Display
pub mod Walk
pub mod Start
mod Examples
