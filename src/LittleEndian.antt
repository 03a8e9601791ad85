-- ===== src/LittleEndian.antt =====
-- Little-endian words, as every file of the source writes and reads them (src/chain/transaction.cpp).
pub mod Inverse
use bitcoin_toolkit.Common.{
  ℕ, zero, suc, ◌+◌, ◌*◌, ◌/◌, ◌%◌, ◌^◌, ◌<◌, ◌≡◌, refl, bit_or, [], ◌∷◌, ◌++◌, Bytes, IsBytes,
  get_or, length, arith,
}
use native.Mathlib.Nat.{mul-one}
use bitcoin_toolkit.Common.Bits.{bit_or_disjoint, zero-bit_or}

-- `static_cast<std::uint8_t>(v >> s)`
abbrev pub byte_at : ℕ → ℕ → ℕ
byte_at v s = v / 2 ^ s % 256

-- A pointer is the bytes from it on.
unfoldable pub read_le32 : Bytes → ℕ
read_le32 p =
    bit_or (bit_or (bit_or (get_or p 0 0) (get_or p 1 0 * 2 ^ 8)) (get_or p 2 0 * 2 ^ 16))
      (get_or p 3 0 * 2 ^ 24)

unfoldable pub read_le16 : Bytes → ℕ
read_le16 p = bit_or (get_or p 0 0) (get_or p 1 0 * 2 ^ 8)

unfoldable pub write_le16 : ℕ → Bytes
write_le16 v = v % 256 ∷ byte_at v 8 ∷ []

-- `for (i = 0; i < 8; ++i) v |= p[i] << (8 * i)`, with the rounds left.
pub read_le_loop : ℕ → ℕ → ℕ → Bytes → ℕ
read_le_loop zero i v p = v
read_le_loop (suc n) i v p = read_le_loop n (i + 1) (bit_or v (get_or p i 0 * 2 ^ (8 * i))) p

unfoldable pub read_le64 : Bytes → ℕ
unfolding read_le_loop
read_le64 p = read_le_loop 8 0 0 p

unfoldable pub write_le32 : ℕ → Bytes
write_le32 v = v % 256 ∷ byte_at v 8 ∷ byte_at v 16 ∷ byte_at v 24 ∷ []

pub write_le_loop : ℕ → ℕ → ℕ → Bytes
write_le_loop zero i v = []
write_le_loop (suc n) i v = byte_at v (8 * i) ∷ write_le_loop n (i + 1) v

unfoldable pub write_le64 : ℕ → Bytes
unfolding write_le_loop
write_le64 v = write_le_loop 8 0 v

pub read_le16_value :
    (a b : ℕ) (rest : Bytes) → a < 256 → b < 256 → read_le16 (a ∷ b ∷ rest) ≡ a + b * 2 ^ 8
unfolding read_le16
read_le16_value a b rest ha hb = bit_or_disjoint 8 a b ha

pub read_le16-write_le16 :
    (v : ℕ) (rest : Bytes) → v < 2 ^ 16 → read_le16 (write_le16 v ++ rest) ≡ v
unfolding write_le16
read_le16-write_le16 v rest h =
    rw (read_le16_value (v % 256) (byte_at v 8) rest (omega arith) (omega arith)) (omega arith)

pub read_le32_value :
    (a b c d : ℕ) (rest : Bytes)
    → a < 256
    → b < 256
    → c < 256
    → d < 256
    → read_le32 (a ∷ b ∷ c ∷ d ∷ rest) ≡ a + b * 2 ^ 8 + c * 2 ^ 16 + d * 2 ^ 24
unfolding read_le32
read_le32_value a b c d rest ha hb hc hd = rw (
  bit_or_disjoint 8 a b ha,
  bit_or_disjoint 16 (a + b * 2 ^ 8) c (omega arith),
  bit_or_disjoint 24 (a + b * 2 ^ 8 + c * 2 ^ 16) d (omega arith),
)

pub read_le32-write_le32 :
    (v : ℕ) (rest : Bytes) → v < 2 ^ 32 → read_le32 (write_le32 v ++ rest) ≡ v
unfolding write_le32
read_le32-write_le32 v rest h =
    rw
      (read_le32_value (v % 256) (byte_at v 8) (byte_at v 16) (byte_at v 24) rest (omega arith)
        (omega arith) (omega arith) (omega arith))
      (omega arith)

pub read_le64_value :
    (b0 b1 b2 b3 b4 b5 b6 b7 : ℕ) (rest : Bytes)
    → b0 < 256
    → b1 < 256
    → b2 < 256
    → b3 < 256
    → b4 < 256
    → b5 < 256
    → b6 < 256
    → b7 < 256
    → read_le64 (b0 ∷ b1 ∷ b2 ∷ b3 ∷ b4 ∷ b5 ∷ b6 ∷ b7 ∷ rest)
      ≡ b0
        + b1 * 2 ^ 8
        + b2 * 2 ^ 16
        + b3 * 2 ^ 24
        + b4 * 2 ^ 32
        + b5 * 2 ^ 40
        + b6 * 2 ^ 48
        + b7 * 2 ^ 56
unfolding read_le64
read_le64_value b0 b1 b2 b3 b4 b5 b6 b7 rest h0 h1 h2 h3 h4 h5 h6 h7 =
    rw
      (
        zero-bit_or,
        mul-one b0,
        bit_or_disjoint 8 (b0) b1 (omega arith),
        bit_or_disjoint 16 (b0 + b1 * 2 ^ 8) b2 (omega arith),
        bit_or_disjoint 24 (b0 + b1 * 2 ^ 8 + b2 * 2 ^ 16) b3 (omega arith),
        bit_or_disjoint 32 (b0 + b1 * 2 ^ 8 + b2 * 2 ^ 16 + b3 * 2 ^ 24) b4 (omega arith),
        bit_or_disjoint 40 (b0 + b1 * 2 ^ 8 + b2 * 2 ^ 16 + b3 * 2 ^ 24 + b4 * 2 ^ 32) b5
            (omega arith),
        bit_or_disjoint 48 (b0 + b1 * 2 ^ 8 + b2 * 2 ^ 16 + b3 * 2 ^ 24 + b4 * 2 ^ 32 + b5 * 2 ^ 40)
            b6 (omega arith),
        bit_or_disjoint 56
            (b0 + b1 * 2 ^ 8 + b2 * 2 ^ 16 + b3 * 2 ^ 24 + b4 * 2 ^ 32 + b5 * 2 ^ 40 + b6 * 2 ^ 48)
            b7 (omega arith),
      )
      (omega arith)

pub read_le64-write_le64 :
    (v : ℕ) (rest : Bytes) → v < 2 ^ 64 → read_le64 (write_le64 v ++ rest) ≡ v
unfolding write_le64
read_le64-write_le64 v rest h =
    rw
      (read_le64_value (byte_at v 0) (byte_at v 8) (byte_at v 16) (byte_at v 24) (byte_at v 32)
        (byte_at v 40) (byte_at v 48) (byte_at v 56) rest (omega arith) (omega arith) (omega arith)
        (omega arith) (omega arith) (omega arith) (omega arith) (omega arith))
      (omega arith)

pub length-write_le16 : (v : ℕ) → length (write_le16 v) ≡ 2
unfolding write_le16
length-write_le16 v = refl

pub length-write_le32 : (v : ℕ) → length (write_le32 v) ≡ 4
unfolding write_le32
length-write_le32 v = refl

pub length-write_le64 : (v : ℕ) → length (write_le64 v) ≡ 8
unfolding write_le64
length-write_le64 v = refl

pub write_le32-IsBytes : (v : ℕ) → IsBytes (write_le32 v)
unfolding write_le32
write_le32-IsBytes v = omega arith

pub write_le64-IsBytes : (v : ℕ) → IsBytes (write_le64 v)
unfolding write_le64
write_le64-IsBytes v = omega arith
