-- ===== src/Cmd/Sweep/Examples.antt =====
-- A sweep of a scan with a mature and an immature coinbase output, of a p2wpkh address, at 10 sat/vB,
-- with constants for what libsecp256k1 returns.
use bitcoin_toolkit.Chain.CompactSize.{write_compact_size}
use bitcoin_toolkit.LittleEndian.{write_le64, write_le32}
use bitcoin_toolkit.Cmd.Sweep.Balance.{sweep_one-IsPaid, IsPaid}
use bitcoin_toolkit.Chain.Transaction.{
  write_witness, write_out, write_bytes, write_in, write_each, write_counted, write_vin_vout,
  serialize_tx,
}
use bitcoin_toolkit.Cmd.Sweep.Coins.{total_of, mature_of, IsMature}
use bitcoin_toolkit.Core.Pubkey.{pubkey_from_secret}
use bitcoin_toolkit.Chain.Sign.{
  sighash_bip143, p2wpkh_script_code, tx_vsize, make_skeleton, fill_dummy, Utxo,
  estimate_sweep_vsize, sign_sweep,
}
use bitcoin_toolkit.Core.Hex.{hex_decode, hex_encode}
use bitcoin_toolkit.Cmd.Sweep.{
  utxo_from_rpc, Swept, RpcUtxo, sweep_one, Spend, SweepOptions, ScanUtxoSet,
}
use bitcoin_toolkit.Common.{
  All, bytes_eq, List, refl, ◌≡◌, none, sym, err, false, length, ap, some, take, [], ◌∷◌, replicate,
  ok, arith, true, Result, ℕ, Bytes,
}
use bitcoin_toolkit.Chain.Script.{
  dust_sats, program_script, bc, by_encoding, script_from_address, AddressCodec,
}
use bitcoin_toolkit.Chain.Sign.Keeps.{Pairs, SecpSizes}
use bitcoin_toolkit.Core.Secp.{Secp}
use mathlib.Core.Option.{some-injective}
use bitcoin_toolkit.Core.Address.{p2wpkh}
use bitcoin_toolkit.Core.Network.{main}

abbrev curve : Secp
curve = record {
  seckey_verify = λ s. true;
  pubkey_create = λ s. some s;
  pubkey_parse = λ b. some b;
  pubkey_serialize = λ p c. some (replicate 33 2);
  xonly_pubkey_parse = λ b. some b;
  xonly_pubkey_tweak_add = λ p t. some p;
  xonly_pubkey_from_pubkey = λ p. some p;
  xonly_pubkey_serialize = λ p. p;
  ecdsa_sign = λ m s. some m;
  signature_serialize_der = λ s. some (replicate 71 0x30);
  keypair_create = λ s. some s;
  keypair_xonly_tweak_add = λ k t. some k;
  schnorrsig_sign32 = λ m k a. some (replicate 64 1);
}

curve-SecpSizes : SecpSizes curve
curve-SecpSizes = record {
  der = λ sig bytes e. ground (arith, ap length (some-injective _ _ e));
  schnorr = λ m k a sig e. sym (ap length (some-injective _ _ e));
  pubkey = λ p c bytes e. ground (arith, ap length (some-injective _ _ e));
}

-- An address is its script.
abbrev plain : AddressCodec
plain = record {
  base58check_encode = λ p. p;
  base58check_decode = λ p. ok p;
  segwit_encode = λ hrp w p. ok p;
  segwit_decode = λ a. some (bc, 0, a);
}

abbrev home : Bytes
home = replicate 20 9

abbrev dest : Bytes
dest = 0 ∷ 20 ∷ replicate 20 8

abbrev unspent : ℕ → ℕ → RpcUtxo
unspent n height = record {
  txid = hex_encode (replicate 32 n);
  vout = n;
  script_hex = hex_encode (0 ∷ 20 ∷ home);
  amount_sats = 70000;
  coinbase = true;
  height = height;
}

abbrev scan : ScanUtxoSet
scan = record {
  success = true;
  height = 800000;
  unspents = unspent 3 799901 ∷ unspent 4 799902 ∷ [];
}

abbrev opts : SweepOptions
opts = record { to_address = []; fee_rate = some 10; dry_run = true; verbose = false }

abbrev sp : Spend
sp = record {
  key = record { secret = replicate 32 1; network = main; compressed = true };
  style = p2wpkh;
  from_address = home;
}

abbrev first_32 : Bytes → Bytes
first_32 = take 32

result : Result Swept
result =
    sweep_one plain curve first_32 first_32 first_32 (λ tag d. take 32 d) opts sp dest scan none
      (ok [])

nothing : Swept
nothing = record {
  shown = record {
    txid = [];
    from_address = [];
    to_address = [];
    sats = 0;
    fee = 0;
    inputs = 0;
    broadcast = false;
    hex = none;
  };
  tx = record { version = 0; has_witness = false; vin = []; vout = []; locktime = 0 };
  sent = none;
}

swept_of : Result Swept → Swept
swept_of (err e) = nothing
swept_of (ok r) = r

amount_of : Swept → ℕ × ℕ × ℕ
amount_of r = (r.shown.sats, r.shown.fee, r.shown.inputs)

-- The immature output stays; the fee is for 110 vbytes.
result_amount : amount_of (swept_of result) ≡ (68900, 1100, 1)
unfolding result swept_of amount_of sweep_one script_from_address by_encoding program_script
    bytes_eq sign_sweep estimate_sweep_vsize hex_decode hex_encode utxo_from_rpc pubkey_from_secret
    fill_dummy make_skeleton tx_vsize serialize_tx write_le32 write_vin_vout write_counted
    write_compact_size write_each write_in write_bytes write_out write_le64 write_witness dust_sats
    p2wpkh_script_code sighash_bip143
result_amount = refl

result_succeeds :
    sweep_one plain curve first_32 first_32 first_32
      (λ tag d. take 32 d)
      opts
      sp
      dest
      scan
      none
      (ok [])
    ≡ ok (swept_of result)
unfolding result swept_of sweep_one script_from_address by_encoding program_script bytes_eq
    sign_sweep estimate_sweep_vsize hex_decode hex_encode utxo_from_rpc pubkey_from_secret
    fill_dummy make_skeleton tx_vsize serialize_tx write_le32 write_vin_vout write_counted
    write_compact_size write_each write_in write_bytes write_out write_le64 write_witness dust_sats
    p2wpkh_script_code sighash_bip143
result_succeeds = refl

sweep_one-IsPaid_example :
    (expect : Bytes) × (coins : List Utxo) × (script_from_address plain home ≡ some expect)
    × Pairs (λ (ru : RpcUtxo) (u : Utxo). utxo_from_rpc ru ≡ ok u) scan.unspents coins
    × All (λ (u : Utxo). u.script_pubkey ≡ expect) coins
    × All (IsMature 800000) (mature_of 800000 coins)
    × IsPaid plain curve curve-SecpSizes first_32 first_32 first_32
        (λ tag d. take 32 d)
        opts
        sp
        dest
        (mature_of 800000 coins)
        (total_of (mature_of 800000 coins))
        none
        (swept_of result)
sweep_one-IsPaid_example =
    sweep_one-IsPaid plain curve curve-SecpSizes first_32 first_32 first_32 (λ tag d. take 32 d)
      opts sp dest scan none (ok []) (swept_of result) (omega arith) result_succeeds
