-- ===== src/Chain/Transaction/Valid.antt =====
-- Well-formed transactions, and the views of one without its witness.
use bitcoin_toolkit.Common.{
  true, Bool, suc, ◌^◌, ◌<◌, ◌≡◌, refl, ap, false, List, [], ◌∷◌, ◌++◌, Bytes, All, length, map,
}
use bitcoin_toolkit.Chain.Transaction.{
  write_counted, write_vin_vout, serialize_tx, TxIn, TxOut, Transaction, write_in, write_each,
}

-- The widths of the fields, and sizes that a `std::vector` can have.
pub record IsValidIn (i : TxIn) : Type 0 where
  pub txid : length i.prev_txid ≡ 32
  pub vout : i.prev_vout < 2 ^ 32
  pub script : length i.script_sig < 2 ^ 64
  pub seq : i.sequence < 2 ^ 32
  pub items : length i.witness < 2 ^ 64
  pub item_sizes : All (λ (b : Bytes). length b < 2 ^ 64) i.witness

pub record IsValidOut (o : TxOut) : Type 0 where
  pub amount : o.value < 2 ^ 64
  pub script : length o.script_pubkey < 2 ^ 64

pub record IsValidTx (tx : Transaction) : Type 0 where
  pub version : tx.version < 2 ^ 32
  pub ins : length tx.vin < 2 ^ 64
  pub each_in : All IsValidIn tx.vin
  pub outs : length tx.vout < 2 ^ 64
  pub each_out : All IsValidOut tx.vout
  pub locktime : tx.locktime < 2 ^ 32

unfoldable pub without_witness : TxIn → TxIn
without_witness i = record i { witness = [] }

-- What a serialization without witness data still tells.
unfoldable pub stripped : Transaction → Transaction
unfolding without_witness
stripped tx = record tx { has_witness = false; vin = map without_witness tx.vin }

pub length-map : (xs : List TxIn) → length (map without_witness xs) ≡ length xs
length-map [] = refl
length-map (x ∷ xs) = ap suc (length-map xs)

pub write_in-without_witness :
    (xs : List TxIn) → write_each write_in (map without_witness xs) ≡ write_each write_in xs
unfolding write_each write_in without_witness
write_in-without_witness [] = refl
write_in-without_witness (x ∷ xs) =
    ap (λ (t : Bytes). write_in x ++ t) (write_in-without_witness xs)

-- Without its witness data, a transaction is written the same way in both forms.
pub serialize_tx-stripped :
    (tx : Transaction) (include_witness : Bool)
    → serialize_tx (stripped tx) include_witness ≡ serialize_tx tx false
unfolding serialize_tx stripped write_vin_vout write_counted
serialize_tx-stripped tx true = simp (length-map, write_in-without_witness)
serialize_tx-stripped tx false = simp (length-map, write_in-without_witness)
