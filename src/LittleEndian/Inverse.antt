-- ===== src/LittleEndian/Inverse.antt =====
-- Writing a word that was read gives the bytes back.
use bitcoin_toolkit.Common.{
  ℕ, ◌+◌, ◌^◌, ◌≤◌, ◌<◌, ◌≡◌, ap, [], ◌∷◌, ◌++◌, Bytes, IsBytes, length, drop, arith, drop-drop,
  length-drop, IsBytes-drop,
}
use bitcoin_toolkit.LittleEndian.{
  write_le16, write_le32, write_le64, read_le16, read_le32, read_le64, read_le16_value,
  read_le32_value, read_le64_value,
}

write_le16-read_le16 :
    (b0 b1 : ℕ) (rest : Bytes)
    → b0 < 256
    → b1 < 256
    → (b0 ∷ b1 ∷ [] ≡ write_le16 (read_le16 (b0 ∷ b1 ∷ rest)))
      × (read_le16 (b0 ∷ b1 ∷ rest) < 2 ^ 16)
unfolding write_le16
write_le16-read_le16 b0 b1 rest h0 h1 =
    rw (read_le16_value b0 b1 rest h0 h1) (ground arith, omega arith)

word16_bytes :
    (p : Bytes)
    → IsBytes p
    → 2 ≤ length p
    → (p ≡ write_le16 (read_le16 p) ++ drop 2 p) × (read_le16 p < 2 ^ 16)
word16_bytes [] hb h = absurd (omega arith)
word16_bytes (b0 ∷ []) hb h = absurd (omega arith)
word16_bytes (b0 ∷ b1 ∷ rest) hb h =
    let (e, lt) = write_le16-read_le16 b0 b1 rest hb.0 hb.1.0 in
    (ap (λ (t : Bytes). t ++ rest) e, lt)

-- A word of 2 bytes at an offset.
pub word16 :
    (d : Bytes) (off : ℕ)
    → IsBytes d
    → off + 2 ≤ length d
    → (drop off d ≡ write_le16 (read_le16 (drop off d)) ++ drop (off + 2) d)
      × (read_le16 (drop off d) < 2 ^ 16)
word16 d off hb h =
    let (e, lt) =
      word16_bytes (drop off d) (IsBytes-drop off d hb) (omega (arith, length-drop {0} off d)) in
    (rw (← drop-drop 2 off d) e, lt)

write_le32-read_le32 :
    (b0 b1 b2 b3 : ℕ) (rest : Bytes)
    → b0 < 256
    → b1 < 256
    → b2 < 256
    → b3 < 256
    → (b0 ∷ b1 ∷ b2 ∷ b3 ∷ [] ≡ write_le32 (read_le32 (b0 ∷ b1 ∷ b2 ∷ b3 ∷ rest)))
      × (read_le32 (b0 ∷ b1 ∷ b2 ∷ b3 ∷ rest) < 2 ^ 32)
unfolding write_le32
write_le32-read_le32 b0 b1 b2 b3 rest h0 h1 h2 h3 =
    rw (read_le32_value b0 b1 b2 b3 rest h0 h1 h2 h3) (ground arith, omega arith)

word32_bytes :
    (p : Bytes)
    → IsBytes p
    → 4 ≤ length p
    → (p ≡ write_le32 (read_le32 p) ++ drop 4 p) × (read_le32 p < 2 ^ 32)
word32_bytes [] hb h = absurd (omega arith)
word32_bytes (b0 ∷ []) hb h = absurd (omega arith)
word32_bytes (b0 ∷ b1 ∷ []) hb h = absurd (omega arith)
word32_bytes (b0 ∷ b1 ∷ b2 ∷ []) hb h = absurd (omega arith)
word32_bytes (b0 ∷ b1 ∷ b2 ∷ b3 ∷ rest) hb h =
    let (e, lt) = write_le32-read_le32 b0 b1 b2 b3 rest hb.0 hb.1.0 hb.1.1.0 hb.1.1.1.0 in
    (ap (λ (t : Bytes). t ++ rest) e, lt)

-- A word of 4 bytes at an offset.
pub word32 :
    (d : Bytes) (off : ℕ)
    → IsBytes d
    → off + 4 ≤ length d
    → (drop off d ≡ write_le32 (read_le32 (drop off d)) ++ drop (off + 4) d)
      × (read_le32 (drop off d) < 2 ^ 32)
word32 d off hb h =
    let (e, lt) =
      word32_bytes (drop off d) (IsBytes-drop off d hb) (omega (arith, length-drop {0} off d)) in
    (rw (← drop-drop 4 off d) e, lt)

write_le64-read_le64 :
    (b0 b1 b2 b3 b4 b5 b6 b7 : ℕ) (rest : Bytes)
    → b0 < 256
    → b1 < 256
    → b2 < 256
    → b3 < 256
    → b4 < 256
    → b5 < 256
    → b6 < 256
    → b7 < 256
    → (b0 ∷ b1 ∷ b2 ∷ b3 ∷ b4 ∷ b5 ∷ b6 ∷ b7 ∷ []
        ≡ write_le64 (read_le64 (b0 ∷ b1 ∷ b2 ∷ b3 ∷ b4 ∷ b5 ∷ b6 ∷ b7 ∷ rest)))
      × (read_le64 (b0 ∷ b1 ∷ b2 ∷ b3 ∷ b4 ∷ b5 ∷ b6 ∷ b7 ∷ rest) < 2 ^ 64)
unfolding write_le64
write_le64-read_le64 b0 b1 b2 b3 b4 b5 b6 b7 rest h0 h1 h2 h3 h4 h5 h6 h7 =
    rw (read_le64_value b0 b1 b2 b3 b4 b5 b6 b7 rest h0 h1 h2 h3 h4 h5 h6 h7)
      (ground arith, omega arith)

word64_bytes :
    (p : Bytes)
    → IsBytes p
    → 8 ≤ length p
    → (p ≡ write_le64 (read_le64 p) ++ drop 8 p) × (read_le64 p < 2 ^ 64)
word64_bytes [] hb h = absurd (omega arith)
word64_bytes (b0 ∷ []) hb h = absurd (omega arith)
word64_bytes (b0 ∷ b1 ∷ []) hb h = absurd (omega arith)
word64_bytes (b0 ∷ b1 ∷ b2 ∷ []) hb h = absurd (omega arith)
word64_bytes (b0 ∷ b1 ∷ b2 ∷ b3 ∷ []) hb h = absurd (omega arith)
word64_bytes (b0 ∷ b1 ∷ b2 ∷ b3 ∷ b4 ∷ []) hb h = absurd (omega arith)
word64_bytes (b0 ∷ b1 ∷ b2 ∷ b3 ∷ b4 ∷ b5 ∷ []) hb h = absurd (omega arith)
word64_bytes (b0 ∷ b1 ∷ b2 ∷ b3 ∷ b4 ∷ b5 ∷ b6 ∷ []) hb h = absurd (omega arith)
word64_bytes (b0 ∷ b1 ∷ b2 ∷ b3 ∷ b4 ∷ b5 ∷ b6 ∷ b7 ∷ rest) hb h =
    let (e, lt) =
      write_le64-read_le64 b0 b1 b2 b3 b4 b5 b6 b7 rest hb.0 hb.1.0 hb.1.1.0 hb.1.1.1.0 hb.1.1.1.1.0
        hb.1.1.1.1.1.0 hb.1.1.1.1.1.1.0 hb.1.1.1.1.1.1.1.0 in
    (ap (λ (t : Bytes). t ++ rest) e, lt)

-- A word of 8 bytes at an offset.
pub word64 :
    (d : Bytes) (off : ℕ)
    → IsBytes d
    → off + 8 ≤ length d
    → (drop off d ≡ write_le64 (read_le64 (drop off d)) ++ drop (off + 8) d)
      × (read_le64 (drop off d) < 2 ^ 64)
word64 d off hb h =
    let (e, lt) =
      word64_bytes (drop off d) (IsBytes-drop off d hb) (omega (arith, length-drop {0} off d)) in
    (rw (← drop-drop 8 off d) e, lt)
