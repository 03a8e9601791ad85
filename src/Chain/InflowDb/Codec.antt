-- ===== src/Chain/InflowDb/Codec.antt =====
-- Rows as bytes.
use bitcoin_toolkit.Common.{
  [], append-nil, ap, ◌∙◌, arith, drop-drop, some, length-append, sym, drop-append_at, ◌++◌, ◌^◌,
  ◌≡◌, length, drop, Bytes, ◌<◌,
}
use bitcoin_toolkit.LittleEndian.{
  write_le32, write_le64, read_le32, read_le64, read_le64-write_le64, read_le32-write_le32,
  length-write_le32, length-write_le64,
}
use bitcoin_toolkit.Chain.InflowDb.{InflowRow, encode_row, decode_row}

-- The widths of the fields.
pub record IsValidRow (row : InflowRow) : Type 0 where
  pub sats : row.sats < 2 ^ 64
  pub count : row.count < 2 ^ 64
  pub last : row.last < 2 ^ 32

module _ (row : InflowRow) (v : IsValidRow row) where
  abbrev last_on : Bytes
  last_on = write_le32 row.last

  abbrev count_on : Bytes
  count_on = write_le64 row.count ++ last_on

  drop-count : drop 8 (encode_row row) ≡ count_on
  unfolding encode_row
  drop-count = drop-append_at 8 (write_le64 row.sats) count_on (length-write_le64 row.sats)

  drop-last : drop 16 (encode_row row) ≡ last_on
  drop-last =
      sym (drop-drop 8 8 (encode_row row))
      ∙ ap (drop 8) drop-count
      ∙ drop-append_at 8 (write_le64 row.count) last_on (length-write_le64 row.count)

  length-encode_row : length (encode_row row) ≡ 20
  unfolding encode_row
  length-encode_row = simp length-append (
      omega (
        arith,
        length-write_le64 row.sats,
        length-write_le64 row.count,
        length-write_le32 row.last,
      ))

  read_sats : read_le64 (encode_row row) ≡ row.sats
  unfolding encode_row
  read_sats = read_le64-write_le64 row.sats count_on v.sats

  -- `decode_row` returns the row that `encode_row` wrote, for fields of their widths.
  pub decode_row-encode_row : decode_row (encode_row row) ≡ some row
  unfolding decode_row
  decode_row-encode_row = ground (
    arith,
    length-encode_row,
    read_sats,
    ap read_le64 drop-count,
    read_le64-write_le64 row.count last_on v.count,
    ap read_le32 drop-last,
    rw append-nil at (read_le32-write_le32 row.last [] v.last),
  )
