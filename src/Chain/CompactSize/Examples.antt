-- ===== src/Chain/CompactSize/Examples.antt =====
-- Runs of CompactSize, and its theorems at concrete inputs.
use bitcoin_toolkit.Common.{
  ◌+◌, ◌^◌, ◌≤◌, ◌<◌, ◌≡◌, refl, [], ◌∷◌, ◌++◌, Bytes, length, drop, arith, ok, err,
}
use bitcoin_toolkit.LittleEndian.{write_le16, read_le16}
use bitcoin_toolkit.Chain.CompactSize.{
  write_compact_size, read_body, read_with, read_compact_size, invalid_compact_size,
}
use bitcoin_toolkit.Chain.CompactSize.RoundTrip.{read_compact_size-write_compact_size}
use bitcoin_toolkit.Chain.CompactSize.Canonical.{read_compact_size_canonical}

write_300 : write_compact_size 300 ≡ 0xfd ∷ 0x2c ∷ 0x01 ∷ []
unfolding write_compact_size write_le16
write_300 = refl

read_300 : read_compact_size (7 ∷ 0xfd ∷ 0x2c ∷ 0x01 ∷ 9 ∷ []) 1 ≡ ok (300, 4)
unfolding read_compact_size read_with read_body read_le16
read_300 = refl

-- 5 in three bytes is refused.
read_padded : read_compact_size (0xfd ∷ 5 ∷ 0 ∷ []) 0 ≡ err invalid_compact_size
unfolding read_compact_size read_with read_body read_le16
read_padded = refl

read_compact_size-write_compact_size_example :
    read_compact_size ((7 ∷ []) ++ (write_compact_size 300 ++ (9 ∷ []))) 1
    ≡ ok (300, 1 + length (write_compact_size 300))
read_compact_size-write_compact_size_example =
    read_compact_size-write_compact_size 300 (7 ∷ []) (9 ∷ []) (omega arith)

abbrev sample : Bytes
sample = 7 ∷ 0xfd ∷ 0x2c ∷ 0x01 ∷ 9 ∷ []

read_compact_size_canonical_example :
    (drop 1 sample ≡ write_compact_size 300 ++ drop 4 sample)
    × (300 < 2 ^ 64)
    × (1 < 4)
    × (4 ≤ length sample)
read_compact_size_canonical_example =
    read_compact_size_canonical sample 1 300 4 (omega arith) read_300
