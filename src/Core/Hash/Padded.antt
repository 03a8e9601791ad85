-- ===== src/Core/Hash/Padded.antt =====
-- src/core/hash.cpp: `hash_padded`, over any compression function.
use bitcoin_toolkit.Core.Hash.Words.{store_be32}
use bitcoin_toolkit.Common.{
  leb, if◌then◌else◌, zero, ◌-◌, ◌^◌, drop, ◌/◌, replicate, ◌%◌, take, length, ◌∷◌, ◌*◌, suc, ◌++◌,
  Bool, ℕ, Bytes,
}
use bitcoin_toolkit.LittleEndian.{write_le32}

module _ {S : Type 0} (compress : S → Bytes → S) where
  -- `while (offset + 64 <= len)`, which has `len / 64` rounds.
  unfoldable pub absorb : ℕ → S → Bytes → S
  absorb zero s p = s
  absorb (suc n) s p = absorb n (compress s (take 64 p)) (drop 64 p)

  -- The bytes of the length, at the end of the last block.
  unfoldable pub length_bytes : Bool → ℕ → Bytes
  length_bytes length_be len =
      let bits = len * 8 % 2 ^ 64 in
      if length_be
      then store_be32 (bits / 2 ^ 32) ++ store_be32 (bits % 2 ^ 32)
      else write_le32 (bits % 2 ^ 32) ++ write_le32 (bits / 2 ^ 32)

  -- The block behind the loop, with the bytes that remain.
  abbrev pub last_block : Bytes → Bytes
  last_block rest = rest ++ 0x80 ∷ replicate (63 - length rest) 0

  -- The final state.
  unfoldable pub hash_padded : Bool → S → Bytes → S
  hash_padded length_be state p =
      let n = length p / 64 in
      let rest = drop (64 * n) p in
      let s = absorb n state p in
      let size = length_bytes length_be (length p) in
      if leb 56 (length rest)
      then compress (compress s (last_block rest)) (replicate 56 0 ++ size)
      else compress s (take 56 (last_block rest) ++ size)
