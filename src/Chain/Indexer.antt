-- ===== src/Chain/Indexer.antt =====
-- src/chain/indexer.cpp: what a block does to the index. A `value` of 64 bits is positive where its
-- sign bit is clear and it is not 0. An output's position is below 2 ^ 32, as is the number of outputs.
pub mod Effects
mod Examples
use bitcoin_toolkit.Common.{
  ◌^◌, leb, ◌+◌, none, ◌||◌, [], ◌>>=◌, ok, some, ◌==◌, if◌then◌else◌, Result, Option, Bool, ◌∷◌,
  Bytes, ℕ, List,
}
use bitcoin_toolkit.Chain.Transaction.{TxIn, TxOut, Transaction, Block, is_null_prevout}
use bitcoin_toolkit.Chain.Block.{txid, block_hash}
use bitcoin_toolkit.Chain.Script.{AddressCodec, address_from_script}
use bitcoin_toolkit.Chain.BalanceDb.{OutpointRef, Credit, TxEffects, BlockEffects}

pub spends_of : List TxIn → List OutpointRef
spends_of [] = []
spends_of (i ∷ rest) =
    let others = spends_of rest in
    if is_null_prevout i then others else record { txid = i.prev_txid; vout = i.prev_vout } ∷ others

-- `out.value <= 0`
abbrev pub not_positive : ℕ → Bool
not_positive v = (v == 0) || leb (2 ^ 63) v

module _ (C : AddressCodec) (hash160 : Bytes → Bytes) where
  -- The credit of the output at position `i`, before those behind it.
  pub credit_of : Bytes → ℕ → TxOut → Option Bytes → List Credit → List Credit
  credit_of id i out none others = others
  credit_of id i out (some addr) others =
      record { txid = id; vout = i; address = addr; amount = out.value } ∷ others

  pub credits_of : Bytes → ℕ → List TxOut → Result (List Credit)
  unfolding credit_of
  credits_of id i [] = ok []
  credits_of id i (out ∷ rest) =
      let others = credits_of id (i + 1) rest in
      if not_positive out.value then others else do
        addr ← address_from_script C hash160 out.script_pubkey
        cs ← others
        ok (credit_of id i out addr cs)

  module _ (hash256 : Bytes → Bytes) where
    pub tx_effects : Transaction → Result TxEffects
    unfolding spends_of
    tx_effects tx = do
      cs ← credits_of (txid hash256 tx) 0 tx.vout
      ok (record { spends = spends_of tx.vin; credits = cs })

    pub all_effects : List Transaction → Result (List TxEffects)
    all_effects [] = ok []
    all_effects (tx ∷ rest) = do te ← tx_effects tx; others ← all_effects rest; ok (te ∷ others)

    unfoldable pub effects_from_block : Block → ℕ → Result BlockEffects
    unfolding all_effects
    effects_from_block block height = do
      txs ← all_effects block.txs
      ok (record { height = height; time = block.time; hash = block_hash hash256 block; txs = txs })
