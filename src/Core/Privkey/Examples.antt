-- ===== src/Core/Privkey/Examples.antt =====
-- The secret of 32 bytes with the value 1, with a curve that takes every secret.
use bitcoin_toolkit.Core.Privkey.Decimal.{decode_secret_dec-encode_secret_dec}
use bitcoin_toolkit.Common.Options.{◌>>=◌}
use bitcoin_toolkit.Core.Privkey.Wif.{parse_privkey_string-encode_wif}
use bitcoin_toolkit.Core.Hash.{hash256}
use bitcoin_toolkit.Common.{[], ok, ◌∷◌, refl, ◌++◌, some, ◌≡◌, arith, replicate, true, IsBytes}
use bitcoin_toolkit.Core.Privkey.{
  decode_secret_dec, encode_secret_dec, test, parse_privkey_string, encode_wif, decode_wif,
  secret_is_valid, Privkey,
}
use bitcoin_toolkit.Core.Secp.{Secp}

abbrev curve : Secp
curve = record {
  seckey_verify = λ s. true;
  pubkey_create = λ s. some s;
  pubkey_parse = λ b. some b;
  pubkey_serialize = λ p c. some (replicate 33 2);
  xonly_pubkey_parse = λ b. some b;
  xonly_pubkey_tweak_add = λ p t. some p;
  xonly_pubkey_from_pubkey = λ p. some p;
  xonly_pubkey_serialize = λ p. p;
  ecdsa_sign = λ m s. some m;
  signature_serialize_der = λ s. some (replicate 71 0x30);
  keypair_create = λ s. some s;
  keypair_xonly_tweak_add = λ k t. some k;
  schnorrsig_sign32 = λ m k a. some (replicate 64 1);
}

abbrev key : Privkey
key = record { secret = replicate 31 0 ++ 1 ∷ []; network = test; compressed = true }

key-IsBytes : IsBytes key.secret
key-IsBytes = ground arith

key-valid : secret_is_valid curve key.secret ≡ true
unfolding secret_is_valid
key-valid = refl

parse_privkey_string-encode_wif_example :
    (decode_wif curve hash256 (encode_wif curve hash256 key) ≡ ok key)
    × (parse_privkey_string curve hash256 (encode_wif curve hash256 key) ≡ ok key)
parse_privkey_string-encode_wif_example =
    parse_privkey_string-encode_wif curve key refl key-IsBytes key-valid

decode_secret_dec-encode_secret_dec_example :
    (encode_secret_dec key.secret >>= (λ text. some (decode_secret_dec curve text)))
    ≡ some (ok key.secret)
decode_secret_dec-encode_secret_dec_example =
    decode_secret_dec-encode_secret_dec curve key.secret refl key-IsBytes key-valid
