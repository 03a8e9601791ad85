-- ===== src/Chain/Block/Examples.antt =====
-- A block of one transaction, and the theorems at it.
use bitcoin_toolkit.Common.{◌≡◌, refl, true, inl, [], ◌∷◌, map, take, replicate, arith, ok}
use bitcoin_toolkit.Chain.Transaction.{Transaction, Block}
use bitcoin_toolkit.Chain.Transaction.Valid.{stripped}
use bitcoin_toolkit.Chain.Block.{parse_block, txid, wtxid}
use bitcoin_toolkit.Chain.Block.RoundTrip.{IsValidBlock, block_bytes, seen, parse_block-block_bytes}
use bitcoin_toolkit.Chain.Block.Identity.{txid-stripped}

abbrev coinbase : Transaction
coinbase = record {
  version = 1;
  has_witness = true;
  vin =
      record {
        prev_txid = replicate 32 0;
        prev_vout = 0xffff_ffff;
        script_sig = 3 ∷ 1 ∷ 0 ∷ 0 ∷ [];
        sequence = 0xffff_ffff;
        witness = replicate 32 0 ∷ [];
      }
      ∷ [];
  vout = record { value = 5000000000; script_pubkey = 0x51 ∷ [] } ∷ [];
  locktime = 0;
}

abbrev sample : Block
sample = record {
  version = 0x2000_0000;
  prev = replicate 32 7;
  merkle = replicate 32 8;
  time = 1700000000;
  bits = 0x1d00_ffff;
  nonce = 42;
  txs = coinbase ∷ [];
}

sample-IsValidBlock : IsValidBlock sample
sample-IsValidBlock = record {
  version = omega arith;
  prev = refl;
  merkle = refl;
  time = omega arith;
  bits = omega arith;
  nonce = omega arith;
  count = omega arith;
  readable = ((omega arith, inl refl), tt);
}

parse_block-block_bytes_example :
    parse_block (block_bytes sample) ≡ ok (record sample { txs = map seen sample.txs })
parse_block-block_bytes_example = parse_block-block_bytes sample sample-IsValidBlock

txid-stripped_example :
    (txid (take 32) (stripped coinbase) ≡ txid (take 32) coinbase)
    × (wtxid (take 32) (stripped coinbase) ≡ txid (take 32) coinbase)
txid-stripped_example = txid-stripped (take 32) coinbase
