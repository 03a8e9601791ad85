-- ===== src/Core/Bech32/Addresses.antt =====
-- src/core/bech32.cpp: every witness program has an address.
use bitcoin_toolkit.Core.Bech32.Checksum.{length-check_values}
use bitcoin_toolkit.Core.Bech32.Letters.{length-charset_letters}
use bitcoin_toolkit.Core.Bech32.Groups.{convertbits-convertbits}
use bitcoin_toolkit.Core.Bech32.RoundTrip.{segwit_decode-written}
use bitcoin_toolkit.Core.Bech32.Programs.{convert_loop-AllBelow, AllBelow, IsProgram}
use bitcoin_toolkit.Core.Base58.Digits.{Below}
use bitcoin_toolkit.Core.Bech32.{
  charset_letters, checksum_of, check_values, segwit_variant, Bech32Variant, segwit_decode,
  bech32_text, bech32_encode, segwit_encode, convertbits, encode_converted, bad_hrp_char,
  convert_loop, groups_before, last_group, put_out, some_above_31, some_bad_hrp_char,
}
use bitcoin_toolkit.Common.{
  ◌++◌, ◌%◌, zero, inr, ◌-◌, ◌&&◌, ◌^◌, inl, refl, ◌||◌, ◌/◌, ◌==◌, leb, [], ltb, length-append,
  not, none, suc, ◌∷◌, ◌⊎◌, ok, subst, Bool-cases, arith, false, ◌≤◌, true, some, ◌≡◌, All, length,
  ◌+◌, Option, ◌*◌, ◌<◌, ℕ, Bytes,
}
use bitcoin_toolkit.Common.Options.{◌>>=◌}

-- A readable part that leaves room for the longest program: visible characters, none in upper case.
pub record IsHrp (hrp : Bytes) : Type 0 where
  pub not_empty : 0 < length hrp
  pub short : length hrp ≤ 18
  pub visible : All (λ (c : ℕ). (33 ≤ c) × (c ≤ 126) × ((c < b'A') ⊎ (b'Z' < c))) hrp

visible-good :
    (cs : Bytes)
    → All (λ (c : ℕ). (33 ≤ c) × (c ≤ 126) × ((c < b'A') ⊎ (b'Z' < c))) cs
    → some_bad_hrp_char cs ≡ false
unfolding some_bad_hrp_char bad_hrp_char
visible-good [] h = refl
visible-good (c ∷ cs) (h, hs) = ground (arith, visible-good cs hs)

Below-some_above_31 : (vs : Bytes) → Below 32 vs → some_above_31 vs ≡ false
unfolding some_above_31
Below-some_above_31 [] h = refl
Below-some_above_31 (v ∷ vs) (h, hs) = ground (arith, Below-some_above_31 vs hs)

length-put_out :
    (acc fuel bits : ℕ)
    → 5 * length (put_out 8 5 acc fuel bits).0 + (put_out 8 5 acc fuel bits).1 ≡ bits
unfolding put_out
length-put_out acc zero bits = omega arith
length-put_out acc (suc fuel) bits = elim (Bool-cases (leb 5 bits)) [
  | inl z ↦
      let more : 5 ≤ bits = ground arith in
      rw z (omega (arith, more, length-put_out acc fuel (bits - 5)))
  | inr z ↦ rw z (omega arith)
]

-- The groups that are returned fit the bits of the bytes.
abbrev Fits : ℕ → Option Bytes → Type 0
Fits n none = Unit
Fits n (some g) = 5 * length g ≤ n

last_group-Fits : (acc bits : ℕ) → Fits (bits + 4) (last_group 8 5 true acc bits)
unfolding last_group
last_group-Fits acc bits = elim (Bool-cases (not (bits == 0))) [
  | inl z ↦ let some_bit : 0 < bits = ground arith in rw z (omega (arith, some_bit))
  | inr z ↦ rw z (omega arith)
]

groups_before-Fits :
    (gs : Bytes) (n m : ℕ) (o : Option Bytes)
    → 5 * length gs + n ≡ m
    → Fits n o
    → Fits m (groups_before 8 5 gs o)
unfolding groups_before
groups_before-Fits gs n m none e h = tt
groups_before-Fits gs n m (some g) e h = omega (arith, length-append {0} gs g, e, h)

convert_loop-Fits :
    (acc bits : ℕ) (vs : Bytes)
    → Fits (8 * length vs + bits + 4) (convert_loop 8 5 true acc bits vs)
unfolding convert_loop
convert_loop-Fits acc bits [] =
    subst (λ (n : ℕ). Fits n (last_group 8 5 true acc bits)) (omega arith)
      (last_group-Fits acc bits)
convert_loop-Fits acc bits (v ∷ vs) = elim (Bool-cases (not (v / 2 ^ 8 == 0))) [
  | inl z ↦ rw z tt
  | inr z ↦
      let acc' : ℕ = (acc * 2 ^ 8 + v) % 2 ^ 12 in
      let out : Bytes × ℕ = put_out 8 5 acc' (bits + 8) (bits + 8) in
      rw z (
        groups_before-Fits out.0 (8 * length vs + out.1 + 4) (8 * length (v ∷ vs) + bits + 4) _
          (omega (arith, length-put_out acc' (bits + 8) (bits + 8)))
          (convert_loop-Fits acc' out.1 vs))
]

-- The encoder returns a text where its groups fit.
module _ (hrp : Bytes) (h : IsHrp hrp) (witver : ℕ) (program : Bytes)
    (p : IsProgram witver program) where
  encode_converted-returns :
      (g : Bytes)
      → Below 32 g
      → 5 * length g ≤ 8 * length program + 4
      → (out : Bytes) × (encode_converted hrp witver (some g) ≡ ok out)
  unfolding encode_converted bech32_encode bech32_text
  encode_converted-returns g b fits =
      let variant : Bech32Variant = segwit_variant witver in
      let check : Bytes = check_values (checksum_of hrp (witver ∷ g) variant) in
      let out : Bytes = bech32_text hrp (witver ∷ g) variant in
      let size : length out ≡ length hrp + 1 + (1 + length g) + 6 = omega (
        arith,
        length-append {0} hrp (b'1' ∷ (charset_letters (witver ∷ g) ++ charset_letters check)),
        length-append {0} (charset_letters (witver ∷ g)) (charset_letters check),
        length-charset_letters (witver ∷ g),
        length-charset_letters check,
        length-check_values (checksum_of hrp (witver ∷ g) variant),
      ) in
      let hrp_size : (length hrp == 0 || ltb 83 (length hrp)) ≡ false =
        ground (arith, h.not_empty, h.short) in
      let small : some_above_31 (witver ∷ g) ≡ false =
        Below-some_above_31 (witver ∷ g) (omega (arith, p.version), b) in
      let short : ltb 90 (length out) ≡ false = ground (arith, size, fits, p.most, h.short) in
      (out, rw (hrp_size, visible-good hrp h.visible, small, short) refl)

  converted-returns :
      (o : Option Bytes)
      → (o >>= (λ g. convertbits 5 8 g false)) ≡ some program
      → AllBelow 8 5 o
      → Fits (8 * length program + 0 + 4) o
      → (out : Bytes) × (encode_converted hrp witver o ≡ ok out)
  converted-returns none back b fits = absurd (ground (arith, back))
  converted-returns (some g) back b fits = encode_converted-returns g b (omega (arith, fits))

  segwit_encode-returns : (out : Bytes) × (segwit_encode hrp witver program ≡ ok out)
  unfolding segwit_encode convertbits
  segwit_encode-returns =
      let version : ltb 16 witver ≡ false = ground (arith, p.version) in
      let size : (ltb (length program) 2 || ltb 40 (length program)) ≡ false =
        ground (arith, p.least, p.most) in
      let zero_size : ((witver == 0) && not (length program == 20) && not (length program == 32))
          ≡ false =
        elim (Bool-cases (witver == 0)) [
          | inl z ↦ ground (arith, p.version_0 (ground arith))
          | inr z ↦ rw z refl
        ] in
      let (out, e) =
        converted-returns (convertbits 8 5 program true)
          (convertbits-convertbits program p.each_byte) (convert_loop-AllBelow 8 5 true 0 0 program)
          (convert_loop-Fits 0 0 program) in
      (out, rw (version, size, zero_size) e)

-- For a readable part of 1 to 18 visible characters without upper case and a witness program, with its
-- version up to 16 and its size, `segwit_encode` returns a text, and `segwit_decode` reads back from it
-- the readable part, the version and the program.
pub segwit_decode-segwit_encode :
    (hrp : Bytes) (witver : ℕ) (program : Bytes)
    → IsHrp hrp
    → IsProgram witver program
    → (out : Bytes) × (segwit_encode hrp witver program ≡ ok out)
      × (segwit_decode out ≡ some (hrp, witver, program))
segwit_decode-segwit_encode hrp witver program h p =
    let (out, e) = segwit_encode-returns hrp h witver program p in
    (out, e, segwit_decode-written hrp witver program out p.each_byte e)
