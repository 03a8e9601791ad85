-- ===== src/Chain/BalanceDb/Codec.antt =====
-- The value stored for a coin decodes to the coin.
use bitcoin_toolkit.Common.{
  ◌+◌, ◌^◌, ◌<◌, ◌≡◌, refl, [], ◌++◌, Bytes, length, take, drop, some, append-nil, arith,
  length-append, take-append, drop-append, ok,
}
use native.Mathlib.Nat.{zero-add}
use bitcoin_toolkit.Reader.{drop_past}
use bitcoin_toolkit.LittleEndian.{write_le64, read_le64, read_le64-write_le64, length-write_le64}
use bitcoin_toolkit.Chain.CompactSize.{invalid_compact_size, write_compact_size, read_compact_size}
use bitcoin_toolkit.Chain.CompactSize.RoundTrip.{
  read_with-write_compact_size, length-write_compact_size_pos, length-write_compact_size_le,
}
use bitcoin_toolkit.Chain.BalanceDb.{Coin, encode_out_value, decode_out_value}

module _ (c : Coin) (size : length c.address < 2 ^ 63) (fits : c.amount < 2 ^ 64) where
  abbrev tag : Bytes
  tag = write_compact_size (length c.address)

  read_tag : read_compact_size (encode_out_value c) 0 ≡ ok (length c.address, length tag)
  unfolding read_compact_size encode_out_value
  read_tag = rw zero-add at (
      (read_with-write_compact_size invalid_compact_size (length c.address) (omega arith)).at
        (encode_out_value c) 0 (c.address ++ write_le64 c.amount) (omega arith) refl)

  length-encode_out_value : length (encode_out_value c) ≡ length tag + length c.address + 8
  unfolding encode_out_value
  length-encode_out_value = omega (
    arith,
    length-append {0} tag (c.address ++ write_le64 c.amount),
    length-append {0} c.address (write_le64 c.amount),
    length-write_le64 c.amount,
  )

  behind_tag : drop (length tag) (encode_out_value c) ≡ c.address ++ write_le64 c.amount
  unfolding encode_out_value
  behind_tag = drop-append tag (c.address ++ write_le64 c.amount)

  amount_bytes : drop (length tag + length c.address) (encode_out_value c) ≡ write_le64 c.amount
  amount_bytes =
      drop_past (encode_out_value c) (length tag) c.address (write_le64 c.amount) behind_tag

  amount_read : read_le64 (drop (length tag + length c.address) (encode_out_value c)) ≡ c.amount
  amount_read = rw amount_bytes (rw append-nil at (read_le64-write_le64 c.amount [] fits))

  address_read : take (length c.address) (drop (length tag) (encode_out_value c)) ≡ c.address
  address_read = rw behind_tag (take-append c.address (write_le64 c.amount))

  -- `decode_out_value` returns the coin that `encode_out_value` wrote, for an address shorter than
  -- 2 ^ 63 bytes and a uint64 amount.
  pub decode_out_value-encode_out_value : decode_out_value (encode_out_value c) ≡ some c
  unfolding decode_out_value
  decode_out_value-encode_out_value = ground (
    arith,
    read_tag,
    length-encode_out_value,
    amount_read,
    address_read,
    length-write_compact_size_pos (length c.address),
    length-write_compact_size_le (length c.address),
  )
