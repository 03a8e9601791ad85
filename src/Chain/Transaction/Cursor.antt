-- ===== src/Chain/Transaction/Cursor.antt =====
-- The `Cursor` of src/chain/transaction.cpp: each operation is a reader. No sum of an offset and a
-- length wraps: every length is at most the input's (`check_len`), which is below 2 ^ 63.
use bitcoin_toolkit.Common.{
  ℕ, ◌+◌, ◌-◌, Bytes, get_or, length, take, drop, ltb, leb, if◌then◌else◌, ok, err, BtkError,
  btk_error,
}
use bitcoin_toolkit.Reader.{Reader, ◌>>◌}
use bitcoin_toolkit.LittleEndian.{read_le32, read_le64}
use bitcoin_toolkit.Chain.CompactSize.{read_compact_size}

abbrev pub fail_tx : BtkError
fail_tx = btk_error "balance" "invalid transaction"

unfoldable pub need : ℕ → Reader Unit
need n data' off = if ltb (length data') (off + n) then err fail_tx else ok (tt, off)

-- `data[c.off]`, with no step.
unfoldable pub peek : Reader ℕ
peek data' off = ok (get_or data' off 0, off)

unfoldable pub u8 : Reader ℕ
unfolding need
u8 = need 1 >> (λ data' off. ok (get_or data' off 0, off + 1))

unfoldable pub le32 : Reader ℕ
unfolding need
le32 = need 4 >> (λ data' off. ok (read_le32 (drop off data'), off + 4))

unfoldable pub le64 : Reader ℕ
unfolding need
le64 = need 8 >> (λ data' off. ok (read_le64 (drop off data'), off + 8))

unfoldable pub compact : Reader ℕ
compact = read_compact_size

unfoldable pub bytes : ℕ → Reader Bytes
unfolding need
bytes n = need n >> (λ data' off. ok (take n (drop off data'), off + n))

unfoldable pub copy32 : Reader Bytes
unfolding need
copy32 = need 32 >> (λ data' off. ok (take 32 (drop off data'), off + 32))

unfoldable pub remain : Bytes → ℕ → ℕ
remain data' off = if leb off (length data') then length data' - off else 0

unfoldable pub bound_count : ℕ → Reader Unit
unfolding remain
bound_count n data' off = if ltb (remain data' off) n then err fail_tx else ok (tt, off)

-- `if (slen > len) fail_tx();`
unfoldable pub check_len : ℕ → Reader Unit
check_len n data' off = if ltb (length data') n then err fail_tx else ok (tt, off)
