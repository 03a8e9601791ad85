-- ===== src/Core.antt =====
-- src/core: hashes and encodings.
pub mod Hash
pub mod Hex
pub mod Base58
pub mod Bech32
pub mod Secp
pub mod Network
pub mod Pubkey
pub mod Privkey
pub mod Address
