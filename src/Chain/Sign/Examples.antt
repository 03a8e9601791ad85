-- ===== src/Chain/Sign/Examples.antt =====
-- A curve library whose keys and signatures are constants of the sizes that the real ones have, and a
-- sweep of two coins of a p2wpkh address.
use mathlib.Core.Option.{some-injective}
use bitcoin_toolkit.Chain.Sign.Legacy.{sighash_legacy-serialize_tx, with_code}
use bitcoin_toolkit.Chain.Sign.Estimate.{tx_vsize-sign_sweep, sign_sweep-Spends}
use bitcoin_toolkit.Core.Pubkey.{pubkey_from_secret}
use bitcoin_toolkit.Chain.Sign.{
  is_witness_style, tx_vsize, sighash_bip143, k_sequence_rbf, p2wpkh, p2wpkh_script_code, main,
  estimate_sweep_vsize, make_skeleton, Utxo, sighash_legacy, sign_sweep,
}
use bitcoin_toolkit.Chain.Transaction.{serialize_tx, TxIn, Transaction}
use bitcoin_toolkit.Core.Privkey.{Privkey}
use bitcoin_toolkit.Common.{
  sym, ◌≤◌, refl, ◌++◌, length, ok, [], false, ap, some, ◌≡◌, take, ◌∷◌, replicate, arith, true,
  Bytes, ℕ,
}
use bitcoin_toolkit.Chain.Sign.Keeps.{Spends, Pairs, SecpSizes}
use bitcoin_toolkit.Core.Secp.{Secp}

abbrev curve : Secp
curve = record {
  seckey_verify = λ s. true;
  pubkey_create = λ s. some s;
  pubkey_parse = λ b. some b;
  pubkey_serialize = λ p c. some (replicate 33 2);
  xonly_pubkey_parse = λ b. some b;
  xonly_pubkey_tweak_add = λ p t. some p;
  xonly_pubkey_from_pubkey = λ p. some p;
  xonly_pubkey_serialize = λ p. p;
  ecdsa_sign = λ m s. some m;
  signature_serialize_der = λ s. some (replicate 71 0x30);
  keypair_create = λ s. some s;
  keypair_xonly_tweak_add = λ k t. some k;
  schnorrsig_sign32 = λ m k a. some (replicate 64 1);
}

curve-SecpSizes : SecpSizes curve
curve-SecpSizes = record {
  der = λ sig bytes e. ground (arith, ap length (some-injective _ _ e));
  schnorr = λ m k a sig e. sym (ap length (some-injective _ _ e));
  pubkey = λ p c bytes e. ground (arith, ap length (some-injective _ _ e));
}

abbrev coin : ℕ → Utxo
coin n = record {
  txid_internal = replicate 32 n;
  vout = n;
  amount = 70000;
  script_pubkey = 0 ∷ 20 ∷ replicate 20 9;
  coinbase = false;
  height = 800000;
}

abbrev key : Privkey
key = record { secret = replicate 32 1; network = main; compressed = true }

abbrev dest : Bytes
dest = 0 ∷ 20 ∷ replicate 20 8

abbrev signed_in : ℕ → TxIn
signed_in n = record {
  prev_txid = replicate 32 n;
  prev_vout = n;
  script_sig = [];
  sequence = k_sequence_rbf;
  witness = (replicate 71 0x30 ++ 1 ∷ []) ∷ replicate 33 2 ∷ [];
}

abbrev swept : Transaction
swept = record {
  version = 2;
  has_witness = true;
  vin = signed_in 3 ∷ signed_in 4 ∷ [];
  vout = record { value = 138000; script_pubkey = dest } ∷ [];
  locktime = 800100;
}

abbrev first_32 : Bytes → Bytes
first_32 = take 32

sweep_two :
    sign_sweep curve first_32 first_32
      (λ tag d. take 32 d)
      key
      p2wpkh
      (coin 3 ∷ coin 4 ∷ [])
      dest
      138000
      800100
    ≡ ok swept
unfolding sign_sweep pubkey_from_secret make_skeleton p2wpkh_script_code sighash_bip143
sweep_two = refl

tx_vsize-sign_sweep_example :
    (v : ℕ) × (estimate_sweep_vsize p2wpkh
        (record { serialized = replicate 33 2; network = main; compressed = true })
        2
        dest
      ≡ ok v)
    × (tx_vsize swept ≤ v)
unfolding pubkey_from_secret
tx_vsize-sign_sweep_example =
    tx_vsize-sign_sweep curve curve-SecpSizes first_32 first_32 (λ tag d. take 32 d) key p2wpkh
      (coin 3 ∷ coin 4 ∷ []) dest 138000 800100
      (record { serialized = replicate 33 2; network = main; compressed = true }) swept
      (refl, (refl, tt)) refl sweep_two

sign_sweep-Spends_example :
    Pairs Spends (coin 3 ∷ coin 4 ∷ []) swept.vin
    × (swept.vout ≡ record { value = 138000; script_pubkey = dest } ∷ [])
    × (swept.version ≡ 2)
    × (swept.locktime ≡ 800100)
    × (swept.has_witness ≡ is_witness_style p2wpkh)
sign_sweep-Spends_example =
    sign_sweep-Spends curve curve-SecpSizes first_32 first_32 (λ tag d. take 32 d) key p2wpkh
      (coin 3 ∷ coin 4 ∷ []) dest 138000 800100 swept sweep_two

sighash_legacy-serialize_tx_example :
    sighash_legacy first_32 swept 1 dest
    ≡ ok (
        first_32 (
          serialize_tx (record swept { vin = with_code dest 1 0 swept.vin }) false
          ++ (1 ∷ 0 ∷ 0 ∷ 0 ∷ [])))
sighash_legacy-serialize_tx_example =
    sighash_legacy-serialize_tx first_32 swept 1 dest (omega arith)
