-- ===== src/Chain/Sign.antt =====
-- src/chain/sign.cpp: the transaction that sweeps coins, its size, what its signatures sign, and the
-- signatures, which libsecp256k1 makes. Amounts are kept as the bit patterns of 64-bit words.
pub mod Keeps
pub mod Sizes
pub mod Estimate
pub mod Legacy
mod Examples
use bitcoin_toolkit.Core.Privkey.{Privkey}
use bitcoin_toolkit.LittleEndian.{write_le32, write_le64}
use bitcoin_toolkit.Core.Hex.{hex_encode}
use bitcoin_toolkit.Chain.CompactSize.{write_compact_size}
use bitcoin_toolkit.Core.Secp.{or_throw, Secp}
use bitcoin_toolkit.Core.Pubkey.{pubkey_from_secret, Pubkey}
use bitcoin_toolkit.Chain.Transaction.{write_each, serialize_tx, TxOut, Transaction, TxIn}
use bitcoin_toolkit.Common.{
  ◌&&◌, drop, ◌/◌, ◌||◌, err, ◌+◌, take, zero, leb, ◌==◌, ◌*◌, not, ltb, suc, get_or, ok, ◌-◌,
  ◌>>=◌, true, if◌then◌else◌, ◌++◌, length, ◌∷◌, map, false, Result, btk_error, [], List, Bool, ℕ,
  BtkError, replicate, Bytes,
}
use Prim.Native.String.{String}
use mathlib.Core.List.{reverse}
use bitcoin_toolkit.Core.Network.{main}
use bitcoin_toolkit.Core.Address.{all_zeros, tap_tweak, AddressStyle, p2pkh, p2wpkh, p2tr}

pub record Utxo : Type 0 where
  pub txid_internal : Bytes
  pub vout : ℕ
  pub amount : ℕ
  pub script_pubkey : Bytes
  pub coinbase : Bool
  pub height : ℕ

abbrev pub no_utxo : Utxo
no_utxo = record {
  txid_internal = replicate 32 0;
  vout = 0;
  amount = 0;
  script_pubkey = [];
  coinbase = false;
  height = 0;
}

abbrev pub no_in : TxIn
no_in = record {
  prev_txid = replicate 32 0;
  prev_vout = 0;
  script_sig = [];
  sequence = 0;
  witness = [];
}

abbrev fail_sign : String → BtkError
fail_sign what = btk_error "" what

write_script : Bytes → Bytes
write_script script = write_compact_size (length script) ++ script

push_data : Bytes → Result Bytes
push_data data' =
    if ltb 75 (length data') then err (fail_sign "could not sign") else ok (length data' ∷ data')

abbrev pub k_sequence_rbf : ℕ
k_sequence_rbf = 0xfffffffd

abbrev k_sighash_all : ℕ
k_sighash_all = 1

abbrev k_dummy_ecdsa : ℕ
k_dummy_ecdsa = 73

abbrev k_schnorr : ℕ
k_schnorr = 64

pub is_witness_style : AddressStyle → Bool
is_witness_style p2pkh = false
is_witness_style p2wpkh = true
is_witness_style p2tr = true

spend_of : Utxo → TxIn
spend_of u = record {
  prev_txid = u.txid_internal;
  prev_vout = u.vout;
  script_sig = [];
  sequence = k_sequence_rbf;
  witness = [];
}

unfoldable pub make_skeleton : List Utxo → Bytes → ℕ → ℕ → Bool → Transaction
unfolding spend_of
make_skeleton utxos dest output_sats locktime witness = record {
  version = 2;
  has_witness = witness;
  vin = map spend_of utxos;
  vout = record { value = output_sats; script_pubkey = dest } ∷ [];
  locktime = locktime;
}

-- A signature and a public key, as a script.
two_pushes : Bytes → Bytes → Result Bytes
unfolding push_data
two_pushes sig key = do a ← push_data sig; b ← push_data key; ok (a ++ b)

dummy_sig : Bytes
dummy_sig = 0x30 ∷ replicate (k_dummy_ecdsa - 1) 0x00

dummy_in : AddressStyle → Pubkey → TxIn → Result TxIn
unfolding two_pushes dummy_sig
dummy_in p2pkh pk i = do
  script ← two_pushes dummy_sig pk.serialized
  ok (record i { script_sig = script; witness = [] })
dummy_in p2wpkh pk i = ok (record i { script_sig = []; witness = dummy_sig ∷ pk.serialized ∷ [] })
dummy_in p2tr pk i = ok (record i { script_sig = []; witness = replicate k_schnorr 0x00 ∷ [] })

dummy_ins : AddressStyle → Pubkey → List TxIn → Result (List TxIn)
unfolding dummy_in
dummy_ins style pk [] = ok []
dummy_ins style pk (i ∷ rest) = do
  d ← dummy_in style pk i
  others ← dummy_ins style pk rest
  ok (d ∷ others)

unfoldable pub fill_dummy : Transaction → AddressStyle → Pubkey → Result Transaction
unfolding dummy_ins
fill_dummy tx style pk = do ins ← dummy_ins style pk tx.vin; ok (record tx { vin = ins })

unfoldable pub p2wpkh_script_code : Bytes → Result Bytes
p2wpkh_script_code spk =
    if not (length spk == 22) || not (get_or spk 0 0 == 0x00) || not (get_or spk 1 0 == 20)
    then err (fail_sign "unexpected scriptPubKey")
    else ok (0x76 ∷ 0xa9 ∷ 20 ∷ (drop 2 spk ++ 0x88 ∷ 0xac ∷ []))

unfoldable pub tx_vsize : Transaction → ℕ
tx_vsize tx =
    let base = length (serialize_tx tx false) in
    if tx.has_witness then (base * 3 + length (serialize_tx tx true) + 3) / 4 else base

unfoldable pub estimate_sweep_vsize : AddressStyle → Pubkey → ℕ → Bytes → Result ℕ
unfolding is_witness_style
estimate_sweep_vsize style pk n_inputs dest_script = if n_inputs == 0 then ok 0 else do
  tx ←
      fill_dummy
        (make_skeleton (replicate n_inputs no_utxo) dest_script 0 0 (is_witness_style style)) style
        pk
  ok (tx_vsize tx)

unfoldable pub txid_display_hex : Bytes → Bytes
txid_display_hex internal = hex_encode (reverse internal)

-- The inputs as the legacy hash takes them, from position `i` on.
legacy_ins : Bytes → ℕ → ℕ → List TxIn → Bytes
legacy_ins code index i [] = []
legacy_ins code index i (in' ∷ rest) =
    in'.prev_txid
    ++ (write_le32 in'.prev_vout
        ++ ((if i == index then write_script code else write_compact_size 0)
            ++ (write_le32 in'.sequence ++ legacy_ins code index (i + 1) rest)))

out_bytes : TxOut → Bytes
out_bytes o = write_le64 o.value ++ write_script o.script_pubkey

prevout_bytes : TxIn → Bytes
prevout_bytes i = i.prev_txid ++ write_le32 i.prev_vout

module _ (hash256 : Bytes → Bytes) where
  pub sighash_legacy : Transaction → ℕ → Bytes → Result Bytes
  unfolding legacy_ins out_bytes write_script
  sighash_legacy tx index script_code =
      if leb (length tx.vin) index
      then err (fail_sign "could not sign")
      else ok (
          hash256 (
            write_le32 tx.version
            ++ (write_compact_size (length tx.vin)
                ++ (legacy_ins script_code index 0 tx.vin
                    ++ (write_compact_size (length tx.vout)
                        ++ (write_each out_bytes tx.vout
                            ++ (write_le32 tx.locktime ++ write_le32 k_sighash_all)))))))

  unfoldable pub sighash_bip143 : Transaction → ℕ → Bytes → ℕ → Result Bytes
  unfolding out_bytes prevout_bytes write_script
  sighash_bip143 tx index script_code amount =
      let in' = get_or tx.vin index no_in in
      if leb (length tx.vin) index
      then err (fail_sign "could not sign")
      else ok (
          hash256 (
            write_le32 tx.version
            ++ (hash256 (write_each prevout_bytes tx.vin)
                ++ (hash256 (write_each (λ (i : TxIn). write_le32 i.sequence) tx.vin)
                    ++ (prevout_bytes in'
                        ++ (write_script script_code
                            ++ (write_le64 amount
                                ++ (write_le32 in'.sequence
                                    ++ (hash256 (write_each out_bytes tx.vout)
                                        ++ (write_le32 tx.locktime
                                            ++ write_le32 k_sighash_all))))))))))

-- "TapSighash"
abbrev tap_sighash : Bytes
tap_sighash = b'T' ∷ b'a' ∷ b'p' ∷ b'S' ∷ b'i' ∷ b'g' ∷ b'h' ∷ b'a' ∷ b's' ∷ b'h' ∷ []

module _ (sha256 : Bytes → Bytes) (tagged_hash : Bytes → Bytes → Bytes) where
  pub sighash_taproot : Transaction → ℕ → List Utxo → Result Bytes
  unfolding out_bytes prevout_bytes write_script
  sighash_taproot tx index utxos =
      if leb (length tx.vin) index || not (length utxos == length tx.vin)
      then err (fail_sign "could not sign")
      else ok (
          tagged_hash tap_sighash (
            0x00
            ∷ 0x00
            ∷ (write_le32 tx.version
                ++ (write_le32 tx.locktime
                    ++ (sha256 (write_each prevout_bytes tx.vin)
                        ++ (sha256 (write_each (λ (u : Utxo). write_le64 u.amount) utxos)
                            ++ (sha256
                                  (write_each (λ (u : Utxo). write_script u.script_pubkey) utxos)
                                ++ (sha256 (write_each (λ (i : TxIn). write_le32 i.sequence) tx.vin)
                                    ++ (sha256 (write_each out_bytes tx.vout)
                                        ++ (0x00 ∷ write_le32 index))))))))))

-- `tx.vin[i] = in`.
pub set_in : List TxIn → ℕ → TxIn → List TxIn
set_in [] i x = []
set_in (y ∷ ys) zero x = x ∷ ys
set_in (y ∷ ys) (suc i) x = y ∷ set_in ys i x

module _ (S : Secp) where
  ecdsa_der : Bytes → Bytes → Result Bytes
  unfolding or_throw
  ecdsa_der msg secret = do
    sig ← or_throw (fail_sign "could not sign") (S.ecdsa_sign msg secret)
    der ← or_throw (fail_sign "could not sign") (S.signature_serialize_der sig)
    ok (der ++ 0x01 ∷ [])

  module _ (hash256 sha256 : Bytes → Bytes) (tagged_hash : Bytes → Bytes → Bytes) where
    -- Refuses a key that is not compressed and a tweak that is out of range.
    tweak_of : Pubkey → Result Bytes
    tweak_of pk =
        let tweak = tagged_hash tap_tweak (take 32 (drop 1 pk.serialized)) in
        if not (length pk.serialized == 33)
        then err (fail_sign "uncompressed key cannot produce p2wpkh or p2tr")
        else ok tweak

    tweak_in_range : Bytes → Result Bytes
    tweak_in_range tweak =
        if not (all_zeros tweak) && not (S.seckey_verify tweak)
        then err (fail_sign "taproot tweak out of range")
        else ok tweak

    schnorr_sig : Bytes → Bytes → Result Bytes
    unfolding tweak_of tweak_in_range or_throw
    schnorr_sig msg secret = do
      pk ← pubkey_from_secret S secret true main
      tweak ← tweak_of pk
      keypair ← or_throw (fail_sign "could not sign") (S.keypair_create secret)
      tweak' ← tweak_in_range tweak
      tweaked ←
          or_throw (fail_sign "taproot tweak out of range")
            (S.keypair_xonly_tweak_add keypair tweak')
      or_throw (fail_sign "could not sign") (S.schnorrsig_sign32 msg tweaked (replicate 32 0))

    module _ (key : Privkey) (pk : Pubkey) (utxos : List Utxo) where
      -- The input at `i`, signed.
      pub sign_in : AddressStyle → Transaction → ℕ → TxIn → Result TxIn
      unfolding two_pushes ecdsa_der schnorr_sig
      sign_in p2pkh tx i in' = do
        msg ← sighash_legacy hash256 tx i (get_or utxos i no_utxo).script_pubkey
        sig ← ecdsa_der msg key.secret
        script ← two_pushes sig pk.serialized
        ok (record in' { script_sig = script })
      sign_in p2wpkh tx i in' = do
        code ← p2wpkh_script_code (get_or utxos i no_utxo).script_pubkey
        msg ← sighash_bip143 hash256 tx i code (get_or utxos i no_utxo).amount
        sig ← ecdsa_der msg key.secret
        ok (record in' { script_sig = []; witness = sig ∷ pk.serialized ∷ [] })
      sign_in p2tr tx i in' = do
        msg ← sighash_taproot sha256 tagged_hash tx i utxos
        sig ← schnorr_sig msg key.secret
        ok (record in' { script_sig = []; witness = sig ∷ [] })

      -- The loop over i, with the rounds left.
      pub sign_loop : AddressStyle → ℕ → ℕ → Transaction → Result Transaction
      unfolding sign_in set_in
      sign_loop style zero i tx = ok tx
      sign_loop style (suc left) i tx = do
        in' ← sign_in style tx i (get_or tx.vin i no_in)
        sign_loop style left (i + 1) (record tx { vin = set_in tx.vin i in' })

    sign_all : Privkey → AddressStyle → List Utxo → Transaction → Pubkey → Result Transaction
    unfolding sign_loop
    sign_all key style utxos tx pk = sign_loop key pk utxos style (length tx.vin) 0 tx

    unfoldable pub sign_sweep :
        Privkey → AddressStyle → List Utxo → Bytes → ℕ → ℕ → Result Transaction
    unfolding is_witness_style sign_all
    sign_sweep key style utxos dest_script output_sats locktime =
        if length utxos == 0 then err (fail_sign "no unspent outputs") else do
          pk ← pubkey_from_secret S key.secret key.compressed key.network
          sign_all key style utxos
              (make_skeleton utxos dest_script output_sats locktime (is_witness_style style)) pk
