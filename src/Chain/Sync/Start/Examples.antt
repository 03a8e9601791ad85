-- ===== src/Chain/Sync/Start/Examples.antt =====
-- A node whose block at every height has the same hash.
use bitcoin_toolkit.Chain.Sync.Display.{hash_to_display}
use bitcoin_toolkit.Chain.Sync.Start.{IsResumed, plan-IsResumed, plan}
use bitcoin_toolkit.Chain.Sync.Walk.{Node}
use bitcoin_toolkit.Common.{refl, arith, some, [], true, ok, replicate, Bytes}

abbrev tip_hash : Bytes
tip_hash = replicate 32 0xab

abbrev node : Node
node = record { block_hash_at = λ h. ok (hash_to_display tip_hash); get_block = λ hash. ok [] }

plan-IsResumed_example :
    IsResumed "balance" 9 7 tip_hash
      (some tip_hash)
      (plan "balance" node (ok 9) true 7 (some tip_hash))
plan-IsResumed_example =
    plan-IsResumed "balance" node 9 7 tip_hash (some tip_hash) (ground arith) refl refl
