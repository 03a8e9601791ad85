-- ===== src/Core/Base58/Examples.antt =====
-- The empty string, and the bytes 0, 0, 1, 2.
use bitcoin_toolkit.Core.Base58.Check.{base58check_decode-base58check_encode}
use bitcoin_toolkit.Core.Base58.RoundTrip.{base58_decode-base58_encode}
use bitcoin_toolkit.Core.Hash.{hash256}
use bitcoin_toolkit.Common.{arith, ok, refl, ◌≡◌, [], ◌∷◌}
use bitcoin_toolkit.Core.Base58.{
  base58check_encode, base58check_decode, base58_decode, base58_encode,
}

encode_small : base58_encode (0 ∷ 0 ∷ 1 ∷ 2 ∷ []) ≡ b'1' ∷ b'1' ∷ b'5' ∷ b'T' ∷ []
unfolding base58_encode
encode_small = refl

base58_decode-base58_encode_example :
    base58_decode (base58_encode (0 ∷ 0 ∷ 1 ∷ 2 ∷ [])) ≡ ok (0 ∷ 0 ∷ 1 ∷ 2 ∷ [])
base58_decode-base58_encode_example =
    base58_decode-base58_encode (0 ∷ 0 ∷ 1 ∷ 2 ∷ []) (ground arith)

base58check_decode-base58check_encode_example :
    base58check_decode hash256 (base58check_encode hash256 (0 ∷ 0 ∷ 1 ∷ 2 ∷ []))
    ≡ ok (0 ∷ 0 ∷ 1 ∷ 2 ∷ [])
base58check_decode-base58check_encode_example =
    base58check_decode-base58check_encode (0 ∷ 0 ∷ 1 ∷ 2 ∷ []) (ground arith)
