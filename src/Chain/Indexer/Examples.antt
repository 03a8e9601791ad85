-- ===== src/Chain/Indexer/Examples.antt =====
-- The effects of a block with one payment.
use bitcoin_toolkit.Common.{refl, none, [], ok, ◌≡◌, replicate, false, Bytes, ◌∷◌}
use bitcoin_toolkit.Chain.Transaction.{Transaction, Block, is_null_prevout}
use bitcoin_toolkit.Chain.Block.{txid, block_hash}
use bitcoin_toolkit.Chain.Script.{
  AddressCodec, address_from_script, segwit_address, is_p2pkh, is_p2sh, is_p2wpkh,
}
use bitcoin_toolkit.Chain.BalanceDb.{BlockEffects}
use bitcoin_toolkit.Chain.Indexer.{
  spends_of, credit_of, credits_of, tx_effects, all_effects, effects_from_block,
}
use bitcoin_toolkit.Chain.Indexer.Effects.{Each, effects_from_block-Each}

abbrev tagged : AddressCodec
tagged = record {
  base58check_encode = λ p. b'1' ∷ p;
  base58check_decode = λ s. ok s;
  segwit_encode = λ hrp w p. ok (b'b' ∷ w ∷ p);
  segwit_decode = λ s. none;
}

abbrev no_hash : Bytes → Bytes
no_hash bs = replicate 32 1

abbrev payment : Transaction
payment = record {
  version = 2;
  has_witness = false;
  vin =
      record {
        prev_txid = replicate 32 5;
        prev_vout = 3;
        script_sig = [];
        sequence = 0;
        witness = [];
      }
      ∷ [];
  vout =
      record { value = 0; script_pubkey = 0x6a ∷ [] }
      ∷ record { value = 700; script_pubkey = 0 ∷ 20 ∷ replicate 20 7 }
      ∷ [];
  locktime = 0;
}

abbrev block : Block
block = record {
  version = 1;
  prev = replicate 32 0;
  merkle = replicate 32 0;
  time = 9;
  bits = 0;
  nonce = 0;
  txs = payment ∷ [];
}

abbrev effects : BlockEffects
effects = record {
  height = 4;
  time = 9;
  hash = replicate 32 1;
  txs =
      record {
        spends = record { txid = replicate 32 5; vout = 3 } ∷ [];
        credits =
            record {
              txid = replicate 32 1;
              vout = 1;
              address = b'b' ∷ 0 ∷ replicate 20 7;
              amount = 700;
            }
            ∷ [];
      }
      ∷ [];
}

effects_computed : effects_from_block tagged no_hash no_hash block 4 ≡ ok effects
unfolding effects_from_block all_effects tx_effects credits_of credit_of spends_of is_null_prevout
    txid block_hash address_from_script segwit_address is_p2pkh is_p2sh is_p2wpkh
effects_computed = refl

effects_from_block-Each_example :
    (effects.height ≡ 4)
    × (effects.time ≡ block.time)
    × (effects.hash ≡ block_hash no_hash block)
    × Each tagged no_hash no_hash block.txs effects.txs
effects_from_block-Each_example =
    effects_from_block-Each tagged no_hash no_hash block 4 effects effects_computed
