-- ===== src/Chain/Block/Identity.antt =====
-- What the hashes of a transaction depend on.
use bitcoin_toolkit.Common.{◌≡◌, ap, true, false, Bytes}
use bitcoin_toolkit.Chain.Transaction.{Transaction}
use bitcoin_toolkit.Chain.Transaction.Valid.{stripped, serialize_tx-stripped}
use bitcoin_toolkit.Chain.Block.{txid, wtxid}

-- The witness data has no part in a transaction's `txid`, and a transaction without any has one hash
-- for both.
pub txid-stripped :
    (hash256 : Bytes → Bytes) (tx : Transaction)
    → (txid hash256 (stripped tx) ≡ txid hash256 tx)
      × (wtxid hash256 (stripped tx) ≡ txid hash256 tx)
unfolding txid wtxid
txid-stripped hash256 tx =
    (ap hash256 (serialize_tx-stripped tx false), ap hash256 (serialize_tx-stripped tx true))
