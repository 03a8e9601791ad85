-- ===== src/Chain/Sync/Examples.antt =====
-- Hashes as an RPC server shows them.
use bitcoin_toolkit.Common.{refl, arith, ok, ◌≡◌, replicate}
use bitcoin_toolkit.Chain.Sync.Display.{
  hash_from_display-hash_to_display, hash_to_display, hash_from_display,
}

hash_from_display-hash_to_display_example :
    hash_from_display "balance" (hash_to_display (replicate 32 0xab)) ≡ ok (replicate 32 0xab)
hash_from_display-hash_to_display_example =
    hash_from_display-hash_to_display "balance" (replicate 32 0xab) (ground arith) refl
