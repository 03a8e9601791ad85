-- ===== src/Chain/Transaction/Examples.antt =====
-- A transaction with one input, one output and two witness items: runs, and the theorems at it.
use bitcoin_toolkit.Common.{
  ◌≡◌, refl, true, false, inl, inr, [], ◌∷◌, ◌++◌, length, replicate, arith, ok,
}
use bitcoin_toolkit.Chain.Transaction.{
  TxIn, Transaction, serialize_tx, parse_tx, parse_tx_prefix, is_null_prevout,
}
use bitcoin_toolkit.Chain.Transaction.Valid.{IsValidTx, stripped}
use bitcoin_toolkit.Chain.Transaction.RoundTrip.{
  parse_tx_prefix-serialize_tx, parse_tx-serialize_tx,
}

abbrev input : TxIn
input = record {
  prev_txid = replicate 32 0;
  prev_vout = 1;
  script_sig = [];
  sequence = 0xffff_fffd;
  witness = (0x30 ∷ 1 ∷ []) ∷ (2 ∷ 3 ∷ 4 ∷ []) ∷ [];
}

abbrev sample : Transaction
sample = record {
  version = 2;
  has_witness = true;
  vin = input ∷ [];
  vout = record { value = 100000; script_pubkey = 0x00 ∷ 0x14 ∷ [] } ∷ [];
  locktime = 0;
}

sample-IsValidTx : IsValidTx sample
sample-IsValidTx = omega arith

null_prevout : is_null_prevout input ≡ true
unfolding is_null_prevout
null_prevout = refl

parse_tx_prefix-serialize_tx_example :
    parse_tx_prefix (serialize_tx sample true ++ (9 ∷ []))
    ≡ ok (sample, length (serialize_tx sample true))
parse_tx_prefix-serialize_tx_example =
    parse_tx_prefix-serialize_tx sample true (9 ∷ []) sample-IsValidTx (inl refl)

parse_tx-serialize_tx_example : parse_tx (serialize_tx sample false) ≡ ok (stripped sample)
parse_tx-serialize_tx_example =
    parse_tx-serialize_tx sample false sample-IsValidTx (inr (omega arith))
