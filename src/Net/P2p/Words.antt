-- ===== src/Net/P2p/Words.antt =====
-- What the unchecked steps of the parser read.
use bitcoin_toolkit.Common.{
  refl, take-append, take, ◌%◌, ok, ap, ◌*◌, ◌++◌, arith, ◌^◌, drop, ◌≡◌, ◌≤◌, length, ◌<◌, Bytes,
  ℕ,
}
use bitcoin_toolkit.Common.Bits.{bit_or_disjoint, bit_or_comm}
use bitcoin_toolkit.Reader.{Reads, fits_past}
use bitcoin_toolkit.LittleEndian.{
  byte_at, read_le32, read_le64, write_le32, write_le64, read_le32-write_le32, read_le64-write_le64,
  length-write_le32, length-write_le64,
}
use bitcoin_toolkit.Chain.CompactSize.RoundTrip.{read_with-write_compact_size}
use bitcoin_toolkit.Net.P2p.{
  put_be16, get_be16, put_compact_size, get_compact_size, need, next_le32, next_le64, next_be16,
  next_bytes,
}

get_be16-put_be16 : (v : ℕ) (rest : Bytes) → v < 2 ^ 16 → get_be16 (put_be16 v ++ rest) ≡ v
unfolding get_be16 put_be16
get_be16-put_be16 v rest h =
    rw
      (
        bit_or_comm (byte_at v 8 * 2 ^ 8) (v % 256),
        bit_or_disjoint 8 (v % 256) (byte_at v 8) (omega arith),
      )
      (omega arith)

pub Reads-next_le32 : (v : ℕ) → v < 2 ^ 32 → Reads next_le32 (write_le32 v) v
unfolding next_le32
Reads-next_le32 v h = record {
  at = λ d off rest h' e.
      ground (arith, length-write_le32 v, ap read_le32 e, read_le32-write_le32 v rest h);
}

pub Reads-next_le64 : (v : ℕ) → v < 2 ^ 64 → Reads next_le64 (write_le64 v) v
unfolding next_le64
Reads-next_le64 v h = record {
  at = λ d off rest h' e.
      ground (arith, length-write_le64 v, ap read_le64 e, read_le64-write_le64 v rest h);
}

pub length-put_be16 : (v : ℕ) → length (put_be16 v) ≡ 2
unfolding put_be16
length-put_be16 v = refl

pub Reads-next_be16 : (v : ℕ) → v < 2 ^ 16 → Reads next_be16 (put_be16 v) v
unfolding next_be16
Reads-next_be16 v h = record {
  at = λ d off rest h' e.
      ground (arith, length-put_be16 v, ap get_be16 e, get_be16-put_be16 v rest h);
}

pub Reads-next_bytes : (n : ℕ) (bs : Bytes) → length bs ≡ n → Reads (next_bytes n) bs bs
unfolding next_bytes
Reads-next_bytes n bs h = record {
  at = λ d off rest h' e. ground (arith, ap (take {A = ℕ} n) e, rw h at (take-append bs rest));
}

pub Reads-get_compact_size : (n : ℕ) → n < 2 ^ 64 → Reads get_compact_size (put_compact_size n) n
unfolding get_compact_size put_compact_size
Reads-get_compact_size n h = read_with-write_compact_size _ n h

pub need_ok :
    (n : ℕ) (d : Bytes) (off : ℕ) (bs rest : Bytes)
    → off ≤ length d
    → drop off d ≡ bs ++ rest
    → n ≤ length bs
    → need n d off ≡ ok (tt, off)
unfolding need
need_ok n d off bs rest h e le = ground (arith, fits_past d off bs rest h e)
