-- ===== src/Chain/CompactSize.antt =====
-- src/chain/compactsize.cpp: CompactSize integers. Lengths and offsets are below 2 ^ 63, so the sums
-- `off + 8` do not wrap.
pub mod RoundTrip
pub mod Canonical
mod Examples
use bitcoin_toolkit.Common.{
  ℕ, ◌+◌, ◌%◌, ◌^◌, [], ◌∷◌, Bytes, get_or, length, drop, ltb, leb, ◌==◌, if◌then◌else◌, ok, err,
  BtkError, btk_error,
}
use bitcoin_toolkit.Reader.{Reader}
use bitcoin_toolkit.LittleEndian.{
  byte_at, read_le16, read_le32, read_le64, write_le16, write_le32, write_le64,
}

abbrev pub invalid_compact_size : BtkError
invalid_compact_size = btk_error "balance" "invalid compact size"

-- What is appended to `out`.
unfoldable pub write_compact_size : ℕ → Bytes
write_compact_size n =
    if ltb n 0xfd
    then n % 256 ∷ []
    else if leb n 0xffff
    then 0xfd ∷ write_le16 n
    else if leb n 0xffff_ffff
    then 0xfe ∷ write_le32 n
    else 0xff ∷ write_le64 n

-- The reader with the error that `fail` throws; `off` is the offset behind the first byte.
unfoldable pub read_body : BtkError → ℕ → Reader ℕ
read_body e b data' off =
    if ltb b 0xfd
    then ok (b, off)
    else if b == 0xfd
    then (if ltb (length data') (off + 2)
        then err e
        else let n = read_le16 (drop off data') in if ltb n 0xfd then err e else ok (n, off + 2))
    else if b == 0xfe
    then (if ltb (length data') (off + 4)
        then err e
        else let n = read_le32 (drop off data') in if leb n 0xffff then err e else ok (n, off + 4))
    else if ltb (length data') (off + 8)
    then err e
    else let n = read_le64 (drop off data') in if leb n 0xffff_ffff then err e else ok (n, off + 8)

unfoldable pub read_with : BtkError → Reader ℕ
read_with e data' off =
    if leb (length data') off then err e else read_body e (get_or data' off 0) data' (off + 1)

unfoldable pub read_compact_size : Reader ℕ
read_compact_size = read_with invalid_compact_size
