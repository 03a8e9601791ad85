-- ===== src/Chain/Transaction/Reads.antt =====
-- What each operation of the cursor reads.
use bitcoin_toolkit.Common.{
  ℕ, ◌^◌, ◌≤◌, ◌<◌, ◌≡◌, ap, List, [], ◌∷◌, ◌++◌, Bytes, All, length, take, drop, arith,
  drop-eq-cons, length-append, take-append, ok,
}
use bitcoin_toolkit.Reader.{
  Reader, Reads, Reads-bind, Reads-wrap, Reads-check, Reads-pure, times, fits_past,
}
use bitcoin_toolkit.LittleEndian.{
  read_le32-write_le32, read_le64-write_le64, write_le32, write_le64, read_le32, read_le64,
  length-write_le32, length-write_le64,
}
use bitcoin_toolkit.Chain.CompactSize.{write_compact_size, read_compact_size}
use bitcoin_toolkit.Chain.CompactSize.RoundTrip.{read_with-write_compact_size}
use bitcoin_toolkit.Chain.Transaction.{write_bytes, read_bytes, write_each, write_counted, counted}
use bitcoin_toolkit.Chain.Transaction.Cursor.{
  need, u8, peek, le32, le64, compact, bytes, copy32, bound_count, check_len,
}

-- A count that is at most the bytes that stand at the offset passes both checks.
module _ (d : Bytes) (off : ℕ) (bs rest : Bytes) (h : off ≤ length d)
    (e : drop off d ≡ bs ++ rest) where
  bound_count_ok : (n : ℕ) → n ≤ length bs → bound_count n d off ≡ ok (tt, off)
  unfolding bound_count
  bound_count_ok n le = ground (arith, fits_past d off bs rest h e)

  check_len_ok : (n : ℕ) → n ≤ length bs → check_len n d off ≡ ok (tt, off)
  unfolding check_len
  check_len_ok n le = ground (arith, fits_past d off bs rest h e)

  pub need_ok : (n : ℕ) → n ≤ length bs → need n d off ≡ ok (tt, off)
  unfolding need
  need_ok n le = ground (arith, fits_past d off bs rest h e)

pub Reads-le32 : (v : ℕ) → v < 2 ^ 32 → Reads le32 (write_le32 v) v
unfolding le32
Reads-le32 v h = record {
  at = λ d off rest h' e. ground (
    arith,
    length-write_le32 v,
    fits_past d off (write_le32 v) rest h' e,
    ap read_le32 e,
    read_le32-write_le32 v rest h,
  );
}

pub Reads-le64 : (v : ℕ) → v < 2 ^ 64 → Reads le64 (write_le64 v) v
unfolding le64
Reads-le64 v h = record {
  at = λ d off rest h' e. ground (
    arith,
    length-write_le64 v,
    fits_past d off (write_le64 v) rest h' e,
    ap read_le64 e,
    read_le64-write_le64 v rest h,
  );
}

pub Reads-u8 : (b : ℕ) → Reads u8 (b ∷ []) b
unfolding u8
Reads-u8 b = record {
  at = λ d off rest h' e. let (first, len) = drop-eq-cons off d 0 e in ground (arith, first, len);
}

pub Reads-compact : (n : ℕ) → n < 2 ^ 64 → Reads compact (write_compact_size n) n
unfolding compact read_compact_size
Reads-compact n h = read_with-write_compact_size _ n h

pub Reads-copy32 : (bs : Bytes) → length bs ≡ 32 → Reads copy32 bs bs
unfolding copy32
Reads-copy32 bs h = record {
  at = λ d off rest h' e.
      ground (
        arith,
        fits_past d off bs rest h' e,
        ap (take {A = ℕ} 32) e,
        rw h at (take-append bs rest),
      );
}

pub Reads-bytes : (bs : Bytes) → Reads (bytes (length bs)) bs bs
unfolding bytes
Reads-bytes bs = record {
  at = λ d off rest h' e.
      ground
        (arith, fits_past d off bs rest h' e, ap (take {A = ℕ} (length bs)) e, take-append bs rest);
}

pub Reads-read_bytes : (bs : Bytes) → length bs < 2 ^ 64 → Reads read_bytes (write_bytes bs) bs
unfolding read_bytes write_bytes
Reads-read_bytes bs h = Reads-bind _ (Reads-compact (length bs) h) (
    Reads-check (check_len (length bs))
      (λ d off rest h' e. check_len_ok d off bs rest h' e (length bs) (omega arith))
      (Reads-bytes bs))

-- A list of items, one after the other.
pub Reads-times :
    {A : Type 0} (p : Reader A) (w : A → Bytes) (xs : List A)
    → All (λ x. Reads p (w x) x) xs
    → Reads (times (length xs) p) (write_each w xs) xs
unfolding times write_each
Reads-times p w [] h = Reads-pure []
Reads-times p w (x ∷ xs) (hx, hxs) =
    Reads-bind _ hx (Reads-wrap (λ ys. x ∷ ys) (Reads-times p w xs hxs))

-- Each item takes a byte at least, so the count passes its bound.
pub length-write_each :
    {A : Type 0} (w : A → Bytes) (xs : List A)
    → ((x : A) → 0 < length (w x))
    → length xs ≤ length (write_each w xs)
unfolding write_each
length-write_each w [] h = omega arith
length-write_each w (x ∷ xs) h =
    omega (arith, h x, length-append {0} (w x) (write_each w xs), length-write_each w xs h)

pub Reads-counted :
    {A : Type 0} (p : Reader A) (w : A → Bytes) (xs : List A)
    → length xs < 2 ^ 64
    → ((x : A) → 0 < length (w x))
    → All (λ x. Reads p (w x) x) xs
    → Reads (counted p) (write_counted w xs) xs
unfolding counted write_counted
Reads-counted p w xs fits pos h = Reads-bind _ (Reads-compact (length xs) fits) (
    Reads-check (bound_count (length xs))
      (λ d off rest h' e.
        bound_count_ok d off (write_each w xs) rest h' e (length xs) (length-write_each w xs pos))
      (Reads-times p w xs h))

pub peek_ok :
    (d : Bytes) (off b : ℕ) (rest : Bytes) → drop off d ≡ b ∷ rest → peek d off ≡ ok (b, off)
unfolding peek
peek_ok d off b rest e = ap (λ (n : ℕ). ok (n, off)) (drop-eq-cons off d 0 e).0
