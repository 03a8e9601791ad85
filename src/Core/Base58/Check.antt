-- ===== src/Core/Base58/Check.antt =====
-- src/core/base58.cpp: base58check, over the hash256 of src/core/hash.cpp.
use bitcoin_toolkit.Core.Hash.Sizes.{digests-IsDigest}
use bitcoin_toolkit.Core.Base58.RoundTrip.{base58_decode-base58_encode}
use bitcoin_toolkit.Core.Hash.{hash256}
use bitcoin_toolkit.Core.Base58.{checked_payload, base58check_decode, base58check_encode}
use bitcoin_toolkit.Common.{
  zero, ◌∷◌, suc, ℕ, drop-append, take-append, length-append, length-take, [], arith, bytes_eq_refl,
  IsBytes-append, drop, ◌-◌, ok, ◌+◌, ◌≡◌, IsBytes, take, ◌++◌, length, Bytes,
}

IsBytes-take : (n : ℕ) (d : Bytes) → IsBytes d → IsBytes (take n d)
IsBytes-take zero d h = tt
IsBytes-take (suc n) [] h = tt
IsBytes-take (suc n) (b ∷ bs) (h, hs) = (h, IsBytes-take n bs hs)

-- The parts of a payload with its checksum behind it.
pub checked_parts :
    (d : Bytes)
    → (length (d ++ take 4 (hash256 d)) ≡ length d + 4)
      × (take (length (d ++ take 4 (hash256 d)) - 4) (d ++ take 4 (hash256 d)) ≡ d)
      × (drop (length (d ++ take 4 (hash256 d)) - 4) (d ++ take 4 (hash256 d)) ≡ take 4 (hash256 d))
      × IsBytes (take 4 (hash256 d))
checked_parts d =
    let (l, b) = (digests-IsDigest [] d).1 in
    let sum : Bytes = take 4 (hash256 d) in
    let four : length sum ≡ 4 = length-take 4 (hash256 d) (omega (arith, l)) in
    let all : length (d ++ sum) ≡ length d + 4 = omega (arith, length-append {0} d sum, four) in
    let front : length (d ++ sum) - 4 ≡ length d = omega (arith, all) in
    (all, rw front (take-append d sum), rw front (drop-append d sum), IsBytes-take 4 (hash256 d) b)

-- `base58check_decode` of what `base58check_encode` writes for any bytes returns the bytes, with the
-- hash256 of src/core/hash.cpp.
pub base58check_decode-base58check_encode :
    (d : Bytes) → IsBytes d → base58check_decode hash256 (base58check_encode hash256 d) ≡ ok d
unfolding base58check_encode base58check_decode checked_payload
base58check_decode-base58check_encode d h =
    let (l, t, u, b) = checked_parts d in
    rw (base58_decode-base58_encode (d ++ take 4 (hash256 d)) (IsBytes-append d _ h b))
      (rw (t, u, bytes_eq_refl (take 4 (hash256 d)), l) (ground arith))
