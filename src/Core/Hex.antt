-- ===== src/Core/Hex.antt =====
-- src/core/hex.cpp: bytes as hexadecimal digits. `hex_nibble` returns -1, here `none`, for what is no
-- digit.
pub mod RoundTrip
mod Examples
use bitcoin_toolkit.Common.{
  ◌*◌, none, bit_or, bit_and, ◌+◌, ◌==◌, ◌>>=◌, ◌^◌, ◌-◌, ◌%◌, some, ◌/◌, ◌&&◌, length, ok, err,
  get_or, [], leb, Result, ◌∷◌, if◌then◌else◌, btk_error, Option, Bytes, ℕ, BtkError,
}

abbrev invalid_hex : BtkError
invalid_hex = btk_error "" "invalid hex"

hex_nibble : ℕ → Option ℕ
hex_nibble c =
    if leb b'0' c && leb c b'9'
    then some (c - b'0')
    else if leb b'a' c && leb c b'f'
    then some (c - b'a' + 10)
    else if leb b'A' c && leb c b'F'
    then some (c - b'A' + 10)
    else none

-- "0123456789abcdef"
abbrev digits : Bytes
digits =
    b'0' ∷ b'1' ∷ b'2' ∷ b'3' ∷ b'4' ∷ b'5' ∷ b'6' ∷ b'7' ∷ b'8' ∷ b'9' ∷ b'a' ∷ b'b' ∷ b'c' ∷ b'd'
    ∷ b'e' ∷ b'f' ∷ []

unfoldable pub hex_encode : Bytes → Bytes
hex_encode [] = []
hex_encode (b ∷ bs) = get_or digits (b / 2 ^ 4) 0 ∷ get_or digits (bit_and b 0x0f) 0 ∷ hex_encode bs

-- The byte of two digits, before those that follow.
join_nibbles : Option ℕ → Option ℕ → Result Bytes → Result Bytes
join_nibbles none lo others = err invalid_hex
join_nibbles (some hi) none others = err invalid_hex
join_nibbles (some hi) (some lo) others = do bs ← others; ok (bit_or (hi * 2 ^ 4) lo % 256 ∷ bs)

-- The loop over the pairs of digits.
decode_pairs : Bytes → Result Bytes
unfolding join_nibbles hex_nibble
decode_pairs [] = ok []
decode_pairs (c ∷ []) = ok []
decode_pairs (hi ∷ lo ∷ rest) = join_nibbles (hex_nibble hi) (hex_nibble lo) (decode_pairs rest)

unfoldable pub hex_decode : Bytes → Result Bytes
unfolding decode_pairs
hex_decode hex = if length hex % 2 == 0 then decode_pairs hex else err invalid_hex
