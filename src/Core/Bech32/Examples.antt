-- ===== src/Core/Bech32/Examples.antt =====
-- The first address of BIP 173: the program of 20 bytes, and its text.
use bitcoin_toolkit.Core.Bech32.Addresses.{segwit_decode-segwit_encode, IsHrp}
use bitcoin_toolkit.Core.Bech32.Groups.{convertbits-convertbits}
use bitcoin_toolkit.Common.Options.{◌>>=◌}
use bitcoin_toolkit.Core.Bech32.Programs.{segwit_decode-IsProgram, IsProgram}
use bitcoin_toolkit.Core.Bech32.{convertbits, segwit_decode, segwit_encode}
use bitcoin_toolkit.Common.{inl, arith, false, true, refl, ok, some, [], ◌≡◌, ◌∷◌, Bytes}

abbrev program : Bytes
program =
    0x75 ∷ 0x1e ∷ 0x76 ∷ 0xe8 ∷ 0x19 ∷ 0x91 ∷ 0x96 ∷ 0xd4 ∷ 0x54 ∷ 0x94 ∷ 0x1c ∷ 0x45 ∷ 0xd1 ∷ 0xb3
    ∷ 0xa3 ∷ 0x23 ∷ 0xf1 ∷ 0x43 ∷ 0x3b ∷ 0xd6 ∷ []

-- "bc1qw508d6qejxtdg4y5r3zarvary0c5xw7kv8f3t4"
abbrev text : Bytes
text =
    b'b' ∷ b'c' ∷ b'1' ∷ b'q' ∷ b'w' ∷ b'5' ∷ b'0' ∷ b'8' ∷ b'd' ∷ b'6' ∷ b'q' ∷ b'e' ∷ b'j' ∷ b'x'
    ∷ b't' ∷ b'd' ∷ b'g' ∷ b'4' ∷ b'y' ∷ b'5' ∷ b'r' ∷ b'3' ∷ b'z' ∷ b'a' ∷ b'r' ∷ b'v' ∷ b'a'
    ∷ b'r' ∷ b'y' ∷ b'0' ∷ b'c' ∷ b'5' ∷ b'x' ∷ b'w' ∷ b'7' ∷ b'k' ∷ b'v' ∷ b'8' ∷ b'f' ∷ b'3'
    ∷ b't' ∷ b'4' ∷ []

written : segwit_encode (b'b' ∷ b'c' ∷ []) 0 program ≡ ok text
unfolding segwit_encode
written = refl

read_back : segwit_decode text ≡ some (b'b' ∷ b'c' ∷ [], 0, program)
unfolding segwit_decode
read_back = refl

segwit_decode-IsProgram_example : IsProgram 0 program
segwit_decode-IsProgram_example =
    segwit_decode-IsProgram text (b'b' ∷ b'c' ∷ [], 0, program) read_back

convertbits-convertbits_example :
    (convertbits 8 5 program true >>= (λ g. convertbits 5 8 g false)) ≡ some program
convertbits-convertbits_example = convertbits-convertbits program (ground arith)

bc-IsHrp : IsHrp (b'b' ∷ b'c' ∷ [])
bc-IsHrp = record { not_empty = omega arith; short = omega arith; visible = ground arith }

program-IsProgram : IsProgram 0 program
program-IsProgram = record {
  version = omega arith;
  least = omega arith;
  most = omega arith;
  version_0 = λ z. inl refl;
  each_byte = ground arith;
}

segwit_decode-segwit_encode_example :
    (out : Bytes) × (segwit_encode (b'b' ∷ b'c' ∷ []) 0 program ≡ ok out)
    × (segwit_decode out ≡ some (b'b' ∷ b'c' ∷ [], 0, program))
segwit_decode-segwit_encode_example =
    segwit_decode-segwit_encode (b'b' ∷ b'c' ∷ []) 0 program bc-IsHrp program-IsProgram
