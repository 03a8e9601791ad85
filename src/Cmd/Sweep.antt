-- ===== src/Cmd/Sweep.antt =====
-- src/cmd/sweep.cpp: how `sweep_one` chooses the coins, sets the fee and makes the transaction, from what
-- the node answers. The answers are arguments: the scan of the UTXO set, the estimate of the fee rate
-- (`none` where there is none) and the result of sending the transaction.
pub mod Coins
pub mod Balance
mod Examples
use bitcoin_toolkit.Core.Pubkey.{pubkey_from_secret}
use bitcoin_toolkit.Core.Hex.{hex_encode, hex_decode}
use bitcoin_toolkit.Core.Secp.{or_throw, Secp}
use bitcoin_toolkit.Core.Address.{AddressStyle}
use bitcoin_toolkit.Chain.Script.{dust_sats, script_from_address, AddressCodec}
use bitcoin_toolkit.Chain.Transaction.{serialize_tx, Transaction}
use bitcoin_toolkit.Core.Privkey.{Privkey}
use bitcoin_toolkit.Chain.Sign.{sign_sweep, estimate_sweep_vsize, txid_display_hex, Utxo}
use bitcoin_toolkit.Common.{
  ◌/◌, ◌++◌, ◌+◌, ◌&&◌, ◌-◌, leb, ◌||◌, ◌^◌, [], ltb, ◌==◌, none, ◌%◌, ◌∷◌, bytes_eq, true, length,
  false, ◌*◌, some, not, err, List, ◌>>=◌, if◌then◌else◌, ok, btk_error, ℕ, Option, Result,
  BtkError, Bool, Bytes,
}
use Prim.Native.String.{String}
use bitcoin_toolkit.Chain.Block.{txid}
use mathlib.Core.List.{reverse}

-- `RpcUtxo` and `ScanUtxoSet` of src/net/jsonrpc.hpp.
pub record RpcUtxo : Type 0 where
  pub txid : Bytes
  pub vout : ℕ
  pub script_hex : Bytes
  pub amount_sats : ℕ
  pub coinbase : Bool
  pub height : ℕ

pub record ScanUtxoSet : Type 0 where
  pub success : Bool
  pub height : ℕ
  pub unspents : List RpcUtxo

abbrev fail : String → BtkError
fail what = btk_error "sweep" what

-- A decoded field, or the error of a bad answer.
rpc_bytes : Result Bytes → Result Bytes
rpc_bytes (ok b) = ok b
rpc_bytes (err e) = err (fail "invalid rpc response")

rpc_txid : Bytes → Result Bytes
rpc_txid raw =
    if not (length raw == 32) then err (fail "invalid rpc response") else ok (reverse raw)

pub utxo_from_rpc : RpcUtxo → Result Utxo
unfolding rpc_bytes rpc_txid
utxo_from_rpc ru = do
  raw ← rpc_bytes (hex_decode ru.txid)
  txid ← rpc_txid raw
  script ← rpc_bytes (hex_decode ru.script_hex)
  ok (record {
    txid_internal = txid;
    vout = ru.vout;
    amount = ru.amount_sats;
    script_pubkey = script;
    coinbase = ru.coinbase;
    height = ru.height;
  })

pub coinbase_mature : Utxo → ℕ → Bool
coinbase_mature u tip =
    if not u.coinbase
    then true
    else if ltb tip u.height
    then false
    else leb 100 ((tip - u.height + 1) % 2 ^ 32)

-- A round of the loop over the unspents: the coins and the total so far.
choose_coin : Bytes → ℕ → List Utxo × ℕ → Utxo → Result (List Utxo × ℕ)
unfolding coinbase_mature
choose_coin expect tip (utxos, total) u =
    if not (bytes_eq u.script_pubkey expect)
    then err (fail "invalid rpc response")
    else if not (coinbase_mature u tip)
    then ok (utxos, total)
    else if ltb (2 ^ 64 - 1 - total) u.amount
    then err (fail "insufficient funds")
    else ok (utxos ++ u ∷ [], (total + u.amount) % 2 ^ 64)

pub collect : Bytes → ℕ → List Utxo × ℕ → List RpcUtxo → Result (List Utxo × ℕ)
unfolding choose_coin
collect expect tip acc [] = ok acc
collect expect tip acc (ru ∷ rest) = do
  u ← utxo_from_rpc ru
  acc' ← choose_coin expect tip acc u
  collect expect tip acc' rest

-- The rate given, or the estimate.
pub fee_rate : Option ℕ → Option ℕ → Result ℕ
fee_rate (some satvb) est = ok satvb
fee_rate none (some satvb) = ok satvb
fee_rate none none = err (fail "fee rate unavailable (pass --fee-rate)")

-- The fee for a size and a rate, and what is left of the total.
amounts : Bytes → ℕ → ℕ → ℕ → Result (ℕ × ℕ)
amounts dest_script total vsize satvb =
    let fee = (vsize * satvb) % 2 ^ 64 in
    if ltb 100000 vsize
    then err (fail "transaction too large")
    else if ltb 0 satvb && ltb ((2 ^ 64 - 1) / satvb) vsize
    then err (fail "insufficient funds")
    else if leb total fee
    then err (fail "insufficient funds")
    else if ltb (total - fee) (dust_sats dest_script)
    then err (fail "insufficient funds")
    else ok (total - fee, fee)

-- An error of signing, with the command's name.
signed : Result Transaction → Result Transaction
signed (ok tx) = ok tx
signed (err (btk_error c what)) = err (fail what)

-- What `tx_object` shows.
pub record TxObject : Type 0 where
  pub txid : Bytes
  pub from_address : Bytes
  pub to_address : Bytes
  pub sats : ℕ
  pub fee : ℕ
  pub inputs : ℕ
  pub broadcast : Bool
  pub hex : Option Bytes

pub record SweepOptions : Type 0 where
  pub to_address : Bytes
  pub fee_rate : Option ℕ
  pub dry_run : Bool
  pub verbose : Bool

pub record Spend : Type 0 where
  pub key : Privkey
  pub style : AddressStyle
  pub from_address : Bytes

-- What sweep_one returns: the object, the transaction, and what was sent to the node.
pub record Swept : Type 0 where
  pub shown : TxObject
  pub tx : Transaction
  pub sent : Option Bytes

module _ (C : AddressCodec) (S : Secp) (hash256 hash160 sha256 : Bytes → Bytes)
    (tagged_hash : Bytes → Bytes → Bytes) where
  tx_object : SweepOptions → Spend → Transaction → ℕ × ℕ → Bool → TxObject
  tx_object opts sp tx (sats, fee) broadcast = record {
    txid = txid_display_hex (txid hash256 tx);
    from_address = sp.from_address;
    to_address = opts.to_address;
    sats = sats;
    fee = fee;
    inputs = length tx.vin;
    broadcast = broadcast;
    hex = if opts.verbose || opts.dry_run then some (hex_encode (serialize_tx tx true)) else none;
  }

  -- A dry run sends nothing.
  finish : SweepOptions → Spend → Result Bytes → Transaction → ℕ × ℕ → Result Swept
  unfolding tx_object
  finish opts sp reply tx sats_fee =
      if opts.dry_run
      then ok (record { shown = tx_object opts sp tx sats_fee false; tx = tx; sent = none })
      else (do
        id ← reply
        ok (record {
          shown = tx_object opts sp tx sats_fee true;
          tx = tx;
          sent = some (hex_encode (serialize_tx tx true));
        }))

  -- From the coins on.
  pub pay_coins :
      SweepOptions → Spend → Bytes → ℕ → Option ℕ → Result Bytes → List Utxo × ℕ → Result Swept
  unfolding fee_rate amounts signed finish
  pay_coins opts sp dest_script height est reply (utxos, total) =
      if length utxos == 0 then err (fail "no unspent outputs") else do
        satvb ← fee_rate opts.fee_rate est
        pk ← pubkey_from_secret S sp.key.secret sp.key.compressed sp.key.network
        vsize ← estimate_sweep_vsize sp.style pk (length utxos) dest_script
        sats_fee ← amounts dest_script total vsize satvb
        tx ← signed (
            sign_sweep S hash256 sha256 tagged_hash sp.key sp.style utxos dest_script sats_fee.0
              height)
        finish opts sp reply tx sats_fee

  pub sweep_one :
      SweepOptions → Spend → Bytes → ScanUtxoSet → Option ℕ → Result Bytes → Result Swept
  unfolding collect pay_coins
  sweep_one opts sp dest_script scan est reply = do
    expect ← or_throw (fail "not a bitcoin address") (script_from_address C sp.from_address)
    if not scan.success then err (fail "utxo scan failed") else (do
      coins ← collect expect scan.height ([], 0) scan.unspents
      pay_coins opts sp dest_script scan.height est reply coins)
