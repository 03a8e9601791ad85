-- ===== src/Core/Hex/RoundTrip.antt =====
-- `hex_decode` reads back what `hex_encode` wrote.
use bitcoin_toolkit.Common.{
  none, err, inr, err-ne-ok, ==_iff, Result, refl, inl, Option, bit_and, zero, ◌==◌, ok-injective,
  ◌^◌, ap, Bool-cases, subst, [], ◌/◌, ◌∙◌, ◌+◌, suc, ◌%◌, ◌*◌, ok, bit_or, get_or, some, ◌≡◌,
  length, IsBytes, ◌<◌, ◌∷◌, Bytes, arith, ℕ,
}
use bitcoin_toolkit.Common.Bits.{bit_or_disjoint, bit_or_comm, low_nibble}
use bitcoin_toolkit.Core.Hex.{
  digits, hex_nibble, hex_encode, join_nibbles, decode_pairs, hex_decode,
}

-- The characters are the digits from `k` on.
abbrev Counts : ℕ → Bytes → Type 0
Counts k [] = Unit
Counts k (c ∷ cs) = (hex_nibble c ≡ some k) × Counts (suc k) cs

digits-Counts : Counts 0 digits
unfolding hex_nibble
digits-Counts = ground arith

hex_nibble-Counts :
    (k n : ℕ) (cs : Bytes) → Counts k cs → n < length cs → hex_nibble (get_or cs n 0) ≡ some (k + n)
hex_nibble-Counts k n [] h lt = absurd (omega arith)
hex_nibble-Counts k zero (c ∷ cs) h lt = h.0 ∙ ap some (omega arith)
hex_nibble-Counts k (suc n) (c ∷ cs) h lt =
    hex_nibble-Counts (suc k) n cs h.1 (omega arith) ∙ ap some (omega arith)

-- Each of the sixteen digits is read as its value.
hex_nibble-digit : (n : ℕ) → n < 16 → hex_nibble (get_or digits n 0) ≡ some n
hex_nibble-digit n h = hex_nibble-Counts 0 n digits digits-Counts h ∙ ap some (omega arith)

joined : (b : ℕ) → b < 256 → bit_or (b / 2 ^ 4 * 2 ^ 4) (bit_and b 0x0f) % 256 ≡ b
joined b h =
    rw
      (
        low_nibble b,
        bit_or_comm (b / 2 ^ 4 * 2 ^ 4) (b % 16),
        bit_or_disjoint 4 (b % 16) (b / 2 ^ 4) (omega arith),
      )
      (omega arith)

decode_pairs-hex_encode : (bs : Bytes) → IsBytes bs → decode_pairs (hex_encode bs) ≡ ok bs
unfolding decode_pairs hex_encode join_nibbles
decode_pairs-hex_encode [] h = refl
decode_pairs-hex_encode (b ∷ bs) (hb, h) =
    rw
      (
        hex_nibble-digit (b / 2 ^ 4) (omega arith),
        hex_nibble-digit (bit_and b 0x0f) (omega (arith, low_nibble b)),
        decode_pairs-hex_encode bs h,
      )
      (ap (λ (n : ℕ). ok (n ∷ bs)) (joined b hb))

pub length-hex_encode : (bs : Bytes) → length (hex_encode bs) ≡ length bs * 2
unfolding hex_encode
length-hex_encode [] = omega arith
length-hex_encode (b ∷ bs) = omega (arith, length-hex_encode bs)

-- `hex_decode` of what `hex_encode` writes for any bytes returns the bytes.
pub hex_decode-hex_encode : (bs : Bytes) → IsBytes bs → hex_decode (hex_encode bs) ≡ ok bs
unfolding hex_decode
hex_decode-hex_encode bs h =
    rw (decode_pairs-hex_encode bs h) (ground (arith, length-hex_encode bs))

decode_pairs-size :
    (s bs : Bytes)
    → length s % 2 ≡ 0
    → decode_pairs s ≡ ok bs
    → (length s ≡ length bs * 2) × IsBytes bs
unfolding decode_pairs join_nibbles
decode_pairs-size [] bs e h =
    subst (λ (t : Bytes). (0 ≡ length t * 2) × IsBytes t) (ok-injective h) (omega arith)
decode_pairs-size (c ∷ []) bs e h = absurd (omega arith)
decode_pairs-size (c ∷ d ∷ s) bs e h =
    joined_size (hex_nibble c) (hex_nibble d) (decode_pairs s)
      (λ ds q. decode_pairs-size s ds (omega arith) q) h
  where
    joined_size :
        (hi lo : Option ℕ) (r : Result Bytes)
        → ((ds : Bytes) → r ≡ ok ds → (length s ≡ length ds * 2) × IsBytes ds)
        → join_nibbles hi lo r ≡ ok bs
        → (length (c ∷ d ∷ s) ≡ length bs * 2) × IsBytes bs
    joined_size none lo r f h = absurd (err-ne-ok h)
    joined_size (some hi) none r f h = absurd (err-ne-ok h)
    joined_size (some hi) (some lo) (err x) f h = absurd (err-ne-ok h)
    joined_size (some hi) (some lo) (ok ds) f h =
        let (l, b) = f ds refl in
        subst (λ (t : Bytes). (length (c ∷ d ∷ s) ≡ length t * 2) × IsBytes t) (ok-injective h)
          (omega (arith, l), (omega arith, b))

-- Where `hex_decode` accepts a string, it returns half as many bytes as there are digits.
pub hex_decode-size :
    (s bs : Bytes) → hex_decode s ≡ ok bs → (length s ≡ length bs * 2) × IsBytes bs
unfolding hex_decode
hex_decode-size s bs h = elim (Bool-cases (length s % 2 == 0)) [
  | inl z ↦ decode_pairs-size s bs ((==_iff (length s % 2) 0).0 z) (rw z at h)
  | inr z ↦ absurd (err-ne-ok (rw z at h))
]
