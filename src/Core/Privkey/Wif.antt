-- ===== src/Core/Privkey/Wif.antt =====
-- src/core/privkey.cpp: the WIF strings, over the hash256 of src/core/hash.cpp.
use bitcoin_toolkit.Core.Base58.RoundTrip.{base58_decode-base58_encode}
use bitcoin_toolkit.Core.Base58.Check.{checked_parts}
use bitcoin_toolkit.Core.Base58.{base58check_encode}
use bitcoin_toolkit.Core.Hash.{hash256}
use bitcoin_toolkit.Core.Privkey.{
  Privkey, guessed, parse_privkey_string, checksum_ok, decoded_wif, wif_raw, decode_wif,
  try_parse_wif, encode_wif, good, secret_is_valid, require_valid_secret, wif_network, k_wif_test,
  wif_key, k_wif_main, wif_payload,
}
use bitcoin_toolkit.Core.Secp.{Secp}
use bitcoin_toolkit.Common.{
  bytes_eq_refl, IsBytes-append, IsBytes, arith, refl, get_or-append, length-append, ok,
  take-append, subst, ◌++◌, false, take, true, ◌≡◌, [], length, ◌∷◌, ℕ, Bytes, Bool,
}
use bitcoin_toolkit.Core.Network.{is_test, test, main, Network}

-- The first byte and what follows the secret in `encode_wif`.
abbrev version_of : Network → ℕ
version_of main = k_wif_main
version_of test = k_wif_test

abbrev suffix : Bool → Bytes
suffix true = 0x01 ∷ []
suffix false = []

take_32 : (s t : Bytes) → length s ≡ 32 → take 32 (s ++ t) ≡ s
take_32 s t l = subst (λ (k : ℕ). take k (s ++ t) ≡ s) l (take-append s t)

module _ (S : Secp) where
  wif_payload_lem :
      (s : Bytes) (n : Network) (c : Bool)
      → length s ≡ 32
      → secret_is_valid S s ≡ true
      → wif_payload S hash256 (version_of n ∷ (s ++ suffix c))
        ≡ ok (good (record { secret = s; network = n; compressed = c }))
  unfolding wif_payload wif_key wif_network require_valid_secret
  wif_payload_lem s main true l v =
      rw
        (
          length-append {0} s (0x01 ∷ []),
          take_32 s (0x01 ∷ []) l,
          get_or-append 32 0 s (0x01 ∷ []) 0 (omega (arith, l)),
          l,
          v,
        )
        refl
  wif_payload_lem s test true l v =
      rw
        (
          length-append {0} s (0x01 ∷ []),
          take_32 s (0x01 ∷ []) l,
          get_or-append 32 0 s (0x01 ∷ []) 0 (omega (arith, l)),
          l,
          v,
        )
        refl
  wif_payload_lem s main false l v = rw (length-append {0} s [], take_32 s [] l, l, v) refl
  wif_payload_lem s test false l v = rw (length-append {0} s [], take_32 s [] l, l, v) refl

  encode_wif-payload :
      (s : Bytes) (n : Network) (c : Bool)
      → encode_wif S hash256 (record { secret = s; network = n; compressed = c })
        ≡ base58check_encode hash256 (version_of n ∷ (s ++ suffix c))
  unfolding encode_wif is_test
  encode_wif-payload s main true = refl
  encode_wif-payload s main false = refl
  encode_wif-payload s test true = refl
  encode_wif-payload s test false = refl

  payload-IsBytes :
      (s : Bytes) (n : Network) (c : Bool) → IsBytes s → IsBytes (version_of n ∷ (s ++ suffix c))
  payload-IsBytes s main true h = (omega arith, IsBytes-append s _ h (omega arith, tt))
  payload-IsBytes s main false h = (omega arith, IsBytes-append s _ h tt)
  payload-IsBytes s test true h = (omega arith, IsBytes-append s _ h (omega arith, tt))
  payload-IsBytes s test false h = (omega arith, IsBytes-append s _ h tt)

  try_parse_wif-encode_wif :
      (s : Bytes) (n : Network) (c : Bool)
      → length s ≡ 32
      → IsBytes s
      → secret_is_valid S s ≡ true
      → try_parse_wif S hash256
          (encode_wif S hash256 (record { secret = s; network = n; compressed = c }))
        ≡ ok (good (record { secret = s; network = n; compressed = c }))
  unfolding try_parse_wif wif_raw checksum_ok base58check_encode
  try_parse_wif-encode_wif s n c l h v =
      let d : Bytes = version_of n ∷ (s ++ suffix c) in
      let (all, t, u, b) = checked_parts d in
      rw
        (
          encode_wif-payload s n c,
          base58_decode-base58_encode (d ++ take 4 (hash256 d))
              (IsBytes-append d _ (payload-IsBytes s n c h) b),
        )
        (rw (t, u, bytes_eq_refl (take 4 (hash256 d)), wif_payload_lem s n c l v, all)
          (ground arith))

  -- A key whose secret has 32 bytes that libsecp256k1 takes: `decode_wif` and `parse_privkey_string`
  -- read back from the string of `encode_wif` the key with its network and its `compressed`, whatever
  -- the network and `compressed` are.
  pub parse_privkey_string-encode_wif :
      (key : Privkey)
      → length key.secret ≡ 32
      → IsBytes key.secret
      → secret_is_valid S key.secret ≡ true
      → (decode_wif S hash256 (encode_wif S hash256 key) ≡ ok key)
        × (parse_privkey_string S hash256 (encode_wif S hash256 key) ≡ ok key)
  unfolding decode_wif decoded_wif parse_privkey_string guessed
  parse_privkey_string-encode_wif key l h v =
      let back = try_parse_wif-encode_wif key.secret key.network key.compressed l h v in
      (rw back refl, rw back refl)
