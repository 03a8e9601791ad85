-- ===== src/Net.antt =====
-- src/net: the node's wire protocol.
pub mod P2p
