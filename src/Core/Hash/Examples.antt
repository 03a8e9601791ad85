-- ===== src/Core/Hash/Examples.antt =====
-- Digests of a known message, and the padding of it.
use bitcoin_toolkit.LittleEndian.{read_le32, write_le32}
use bitcoin_toolkit.Core.Hash.Ripemd160.{rmd_digest, rmd160_compress}
use bitcoin_toolkit.Core.Hash.Words.{store_be32}
use bitcoin_toolkit.Core.Hash.Blocks.{hash_padded-IsPadded, IsPadded}
use mathlib.Core.List.{foldl}
use bitcoin_toolkit.Common.{refl, List, ◌≡◌, true, [], ◌∷◌, Bytes}
use bitcoin_toolkit.Core.Hash.Padded.{length_bytes, hash_padded, absorb}
use bitcoin_toolkit.Core.Hash.Sha256.{sha_digest, sha256_compress, sha_start}
use bitcoin_toolkit.Core.Hash.{sha256, ripemd160}

-- "abc"
abbrev message : Bytes
message = b'a' ∷ b'b' ∷ b'c' ∷ []

hash_padded-IsPadded_example :
    (blocks : List Bytes) × IsPadded true message blocks
    × (hash_padded sha256_compress true sha_start message ≡ foldl sha256_compress sha_start blocks)
hash_padded-IsPadded_example = hash_padded-IsPadded sha256_compress true sha_start message

-- ba7816bf 8f01cfea 414140de 5dae2223 b00361a3 96177a9c b410ff61 f20015ad
sha256_abc :
    sha256 message
    ≡ 0xba ∷ 0x78 ∷ 0x16 ∷ 0xbf ∷ 0x8f ∷ 0x01 ∷ 0xcf ∷ 0xea ∷ 0x41 ∷ 0x41 ∷ 0x40 ∷ 0xde ∷ 0x5d
      ∷ 0xae ∷ 0x22 ∷ 0x23 ∷ 0xb0 ∷ 0x03 ∷ 0x61 ∷ 0xa3 ∷ 0x96 ∷ 0x17 ∷ 0x7a ∷ 0x9c ∷ 0xb4 ∷ 0x10
      ∷ 0xff ∷ 0x61 ∷ 0xf2 ∷ 0x00 ∷ 0x15 ∷ 0xad ∷ []
unfolding sha256 hash_padded absorb length_bytes sha256_compress sha_digest store_be32
sha256_abc = refl

-- 8eb208f7 e05d987a 9b044a8e 98c6b087 f15a0bfc
ripemd160_abc :
    ripemd160 message
    ≡ 0x8e ∷ 0xb2 ∷ 0x08 ∷ 0xf7 ∷ 0xe0 ∷ 0x5d ∷ 0x98 ∷ 0x7a ∷ 0x9b ∷ 0x04 ∷ 0x4a ∷ 0x8e ∷ 0x98
      ∷ 0xc6 ∷ 0xb0 ∷ 0x87 ∷ 0xf1 ∷ 0x5a ∷ 0x0b ∷ 0xfc ∷ []
unfolding ripemd160 hash_padded absorb length_bytes rmd160_compress rmd_digest write_le32 read_le32
ripemd160_abc = refl
