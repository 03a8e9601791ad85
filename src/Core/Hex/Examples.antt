-- ===== src/Core/Hex/Examples.antt =====
-- Hexadecimal strings at concrete bytes.
use bitcoin_toolkit.Common.{Bytes, IsBytes, refl, arith, ◌*◌, ok, length, [], ◌≡◌, ◌∷◌}
use bitcoin_toolkit.Core.Hex.{hex_nibble, hex_encode, join_nibbles, decode_pairs, hex_decode}
use bitcoin_toolkit.Core.Hex.RoundTrip.{hex_decode-hex_encode, hex_decode-size}

hex_decode-hex_encode_example : hex_decode (hex_encode (0xab ∷ 0x09 ∷ [])) ≡ ok (0xab ∷ 0x09 ∷ [])
hex_decode-hex_encode_example = hex_decode-hex_encode (0xab ∷ 0x09 ∷ []) (omega arith)

mixed_case : hex_decode (b'a' ∷ b'B' ∷ []) ≡ ok (0xab ∷ [])
unfolding hex_decode decode_pairs join_nibbles hex_nibble
mixed_case = refl

abbrev one_byte : Bytes
one_byte = 0xab ∷ []

hex_decode-size_example : (2 ≡ length one_byte * 2) × IsBytes one_byte
hex_decode-size_example = hex_decode-size (b'a' ∷ b'B' ∷ []) one_byte mixed_case
