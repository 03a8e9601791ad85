-- ===== src/Chain/CompactSize/Canonical.antt =====
-- What the reader accepts is what the writer writes.
use bitcoin_toolkit.Common.{
  ℕ, ◌+◌, ◌^◌, ◌≤◌, ◌<◌, ◌≡◌, ◌∷◌, ◌++◌, Bytes, IsBytes, get_or, length, drop, arith,
  IsBytes-get_or, drop-cons, ok, BtkError,
}
use bitcoin_toolkit.LittleEndian.Inverse.{word16, word32, word64}
use bitcoin_toolkit.Chain.CompactSize.{write_compact_size, read_with, read_body, read_compact_size}

-- What the reader took, tag included, is the writer's form of `n`.
abbrev Taken : ℕ → Bytes → ℕ → ℕ → ℕ → Type 0
Taken b d off n off' =
    (b ∷ drop off d ≡ write_compact_size n ++ drop off' d)
    × (n < 2 ^ 64)
    × (off ≤ off')
    × (off' ≤ length d)

read_body-Taken :
    (e : BtkError) (b : ℕ) (d : Bytes) (off n off' : ℕ)
    → IsBytes d
    → b < 256
    → off ≤ length d
    → read_body e b d off ≡ ok (n, off')
    → Taken b d off n off'
unfolding read_body write_compact_size
read_body-Taken e b d off n off' hd hb ho h =
    ground (arith, word16 d off hd, word32 d off hd, word64 d off hd)

pub read_with_taken :
    (e : BtkError) (d : Bytes) (off n off' : ℕ)
    → IsBytes d
    → read_with e d off ≡ ok (n, off')
    → (drop off d ≡ write_compact_size n ++ drop off' d)
      × (n < 2 ^ 64)
      × (off < off')
      × (off' ≤ length d)
unfolding read_with
read_with_taken e d off n off' hd h = ground (
  arith,
  drop-cons off d 0,
  read_body-Taken e (get_or d off 0) d (off + 1) n off' hd (IsBytes-get_or d off hd),
)

-- On any bytes, where `read_compact_size` returns `n` and a new offset, the bytes between the two
-- offsets are exactly what `write_compact_size` writes for `n` (no longer form is accepted), `n` is
-- a uint64, the offset has moved forward, and it is within the data.
pub read_compact_size_canonical :
    (d : Bytes) (off n off' : ℕ)
    → IsBytes d
    → read_compact_size d off ≡ ok (n, off')
    → (drop off d ≡ write_compact_size n ++ drop off' d)
      × (n < 2 ^ 64)
      × (off < off')
      × (off' ≤ length d)
unfolding read_compact_size
read_compact_size_canonical d off n off' hd h = read_with_taken _ d off n off' hd h
