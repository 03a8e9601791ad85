-- ===== src/Core/Hash/Words.antt =====
-- src/core/hash.cpp: words of 32 bits. `load_le32` and `store_le32` are `read_le32` and `write_le32`.
use bitcoin_toolkit.Common.{
  zero, drop, suc, [], get_or, ◌*◌, ◌/◌, ◌-◌, ◌%◌, List, ◌∷◌, bit_or, ◌^◌, ◌+◌, Bytes, ℕ,
}
use bitcoin_toolkit.LittleEndian.{byte_at}

abbrev pub add32 : ℕ → ℕ → ℕ
add32 x y = (x + y) % 2 ^ 32

-- `~x`
abbrev pub not32 : ℕ → ℕ
not32 x = 2 ^ 32 - 1 - x

unfoldable pub rotr32 : ℕ → ℕ → ℕ
rotr32 x n = bit_or (x / 2 ^ n) (x * 2 ^ (32 - n) % 2 ^ 32)

unfoldable pub rotl32 : ℕ → ℕ → ℕ
rotl32 x n = bit_or (x * 2 ^ n % 2 ^ 32) (x / 2 ^ (32 - n))

unfoldable pub load_be32 : Bytes → ℕ
load_be32 p =
    bit_or (bit_or (bit_or (get_or p 0 0 * 2 ^ 24) (get_or p 1 0 * 2 ^ 16)) (get_or p 2 0 * 2 ^ 8))
      (get_or p 3 0)

unfoldable pub store_be32 : ℕ → Bytes
store_be32 v = byte_at v 24 ∷ byte_at v 16 ∷ byte_at v 8 ∷ v % 256 ∷ []

-- The words of a block, each loaded with `load`.
unfoldable pub block_words : (Bytes → ℕ) → ℕ → Bytes → List ℕ
block_words load zero p = []
block_words load (suc n) p = load p ∷ block_words load n (drop 4 p)
