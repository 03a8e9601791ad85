-- ===== src/Chain/CompactSize/RoundTrip.antt =====
-- Reading back what was written.
use bitcoin_toolkit.Common.{
  ℕ, ◌+◌, ◌^◌, ◌≤◌, ◌<◌, ◌≡◌, ◌≢◌, refl, ap, ◌∙◌, [], ◌∷◌, ◌++◌, Bytes, length, drop, arith,
  drop-append, length-append, drop-eq-cons, ok, BtkError,
}
use native.Mathlib.Decide.{dec_lt}
use bitcoin_toolkit.Reader.{Reads, drop_past}
use bitcoin_toolkit.LittleEndian.{
  read_le16-write_le16, read_le32-write_le32, read_le64-write_le64, write_le16, write_le32,
  write_le64, length-write_le16, length-write_le32, length-write_le64,
}
use bitcoin_toolkit.Chain.CompactSize.{write_compact_size, read_with, read_body, read_compact_size}

-- The reader past the first byte `b`, where the bytes `bs` follow.
read_with_first :
    (e : BtkError) (d : Bytes) (off b : ℕ) (rest : Bytes)
    → drop off d ≡ b ∷ rest
    → read_with e d off ≡ read_body e b d (off + 1)
unfolding read_with
read_with_first e d off b rest h =
    let (first, len) = drop-eq-cons off d 0 h in ground (arith, first, len)

-- One word behind the tag.
module _ (e : BtkError) (d : Bytes) (off n : ℕ) (rest : Bytes) where
  body_le16 :
      drop off d ≡ write_le16 n ++ rest
      → n < 2 ^ 16
      → 0xfd ≤ n
      → read_body e 0xfd d off ≡ ok (n, off + 2)
  unfolding read_body write_le16
  body_le16 h fits big =
      let (first, len) = drop-eq-cons off d 0 h in
      rw h (ground (arith, read_le16-write_le16 n rest fits, len))

  body_le32 :
      drop off d ≡ write_le32 n ++ rest
      → n < 2 ^ 32
      → 0xffff < n
      → read_body e 0xfe d off ≡ ok (n, off + 4)
  unfolding read_body write_le32
  body_le32 h fits big =
      let (first, len) = drop-eq-cons off d 0 h in
      rw h (ground (arith, read_le32-write_le32 n rest fits, len))

  body_le64 :
      drop off d ≡ write_le64 n ++ rest
      → n < 2 ^ 64
      → 0xffff_ffff < n
      → read_body e 0xff d off ≡ ok (n, off + 8)
  unfolding read_body write_le64
  body_le64 h fits big =
      let (first, len) = drop-eq-cons off d 0 h in
      rw h (ground (arith, read_le64-write_le64 n rest fits, len))

-- The four forms of `write_compact_size`, each with its range.
data Form (n : ℕ) : Type 0 where
  one_byte : n < 0xfd → write_compact_size n ≡ n ∷ [] → Form n
  three_bytes : 0xfd ≤ n → n < 2 ^ 16 → write_compact_size n ≡ 0xfd ∷ write_le16 n → Form n
  five_bytes : 0xffff < n → n < 2 ^ 32 → write_compact_size n ≡ 0xfe ∷ write_le32 n → Form n
  nine_bytes : 0xffff_ffff < n → write_compact_size n ≡ 0xff ∷ write_le64 n → Form n

form : (n : ℕ) → Form n
unfolding write_compact_size
form n = elim (dec_lt n 0xfd) [
  | yes a ↦ one_byte a (ground arith)
  | no a ↦ elim (dec_lt n (2 ^ 16)) [
    | yes b ↦ three_bytes (omega arith) b (ground arith)
    | no b ↦ elim (dec_lt n (2 ^ 32)) [
      | yes c ↦ five_bytes (omega arith) c (ground arith)
      | no c ↦ nine_bytes (omega arith) (ground arith)
    ]
  ]
]

-- The first byte of a nonzero number is not 0.
pub write_compact_size_head :
    (n : ℕ) → 0 < n → (b : ℕ) × (bs : Bytes) × (write_compact_size n ≡ b ∷ bs) × (b ≢ 0)
write_compact_size_head n h = elim (form n) [
  | one_byte a w ↦ (n, [], w, omega arith)
  | three_bytes a b w ↦ (0xfd, write_le16 n, w, omega arith)
  | five_bytes a b w ↦ (0xfe, write_le32 n, w, omega arith)
  | nine_bytes a w ↦ (0xff, write_le64 n, w, omega arith)
]

pub length-write_compact_size_pos : (n : ℕ) → 0 < length (write_compact_size n)
unfolding write_compact_size
length-write_compact_size_pos n = ground arith

pub length-write_compact_size_le : (n : ℕ) → length (write_compact_size n) ≤ 9
unfolding write_compact_size
length-write_compact_size_le n =
    ground (arith, length-write_le16 n, length-write_le32 n, length-write_le64 n)

module _ (e : BtkError) (n : ℕ) (fits : n < 2 ^ 64) (d : Bytes) (off : ℕ) (rest : Bytes) where
  -- Past the tag `b`, where the bytes `bs` of the word stand.
  reads_word :
      (b k : ℕ) (bs : Bytes)
      → write_compact_size n ≡ b ∷ bs
      → length bs ≡ k
      → drop off d ≡ write_compact_size n ++ rest
      → (drop (off + 1) d ≡ bs ++ rest → read_body e b d (off + 1) ≡ ok (n, off + 1 + k))
      → read_with e d off ≡ ok (n, off + length (write_compact_size n))
  reads_word b k bs w len h body =
      let h' : drop off d ≡ b ∷ (bs ++ rest) = rw w at h in
      read_with_first e d off b (bs ++ rest) h'
      ∙ body (drop_past d off (b ∷ []) (bs ++ rest) h')
      ∙ ap (λ (m : ℕ). ok (n, m)) (rw w (omega arith))

  reads-Form :
      Form n
      → drop off d ≡ write_compact_size n ++ rest
      → read_with e d off ≡ ok (n, off + length (write_compact_size n))
  reads-Form (one_byte a w) h = reads_word n 0 [] w refl h (λ _. unfold read_body in ground arith)
  reads-Form (three_bytes a b w) h =
      reads_word 0xfd 2 (write_le16 n) w (length-write_le16 n) h
        (λ k. body_le16 e d (off + 1) n rest k b a)
  reads-Form (five_bytes a b w) h =
      reads_word 0xfe 4 (write_le32 n) w (length-write_le32 n) h
        (λ k. body_le32 e d (off + 1) n rest k b a)
  reads-Form (nine_bytes a w) h =
      reads_word 0xff 8 (write_le64 n) w (length-write_le64 n) h
        (λ k. body_le64 e d (off + 1) n rest k fits a)

-- The bytes that `write_compact_size` appends for `n` are read back as `n`, whatever follows.
pub read_with-write_compact_size :
    (e : BtkError) (n : ℕ) → n < 2 ^ 64 → Reads (read_with e) (write_compact_size n) n
read_with-write_compact_size e n fits = record {
  at = λ d off rest _ h. reads-Form e n fits d off rest (form n) h;
}

-- `read_compact_size` at an offset where the bytes of `write_compact_size n` stand, with any bytes
-- before and behind them, returns `n` and the offset behind them, for every uint64 `n`.
pub read_compact_size-write_compact_size :
    (n : ℕ) (before rest : Bytes)
    → n < 2 ^ 64
    → read_compact_size (before ++ (write_compact_size n ++ rest)) (length before)
      ≡ ok (n, length before + length (write_compact_size n))
unfolding read_compact_size
read_compact_size-write_compact_size n before rest fits =
    (read_with-write_compact_size _ n fits).at _ (length before) rest
      (omega (arith, length-append {0} before (write_compact_size n ++ rest)))
      (drop-append before (write_compact_size n ++ rest))
