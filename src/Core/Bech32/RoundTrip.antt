-- ===== src/Core/Bech32/RoundTrip.antt =====
-- src/core/bech32.cpp: `bech32_decode` and `segwit_decode` read back what was written.
use bitcoin_toolkit.Core.Bech32.Groups.{convertbits-convertbits}
use bitcoin_toolkit.Core.Bech32.Checksum.{length-check_values, polymod-checksum_of}
use bitcoin_toolkit.Core.Bech32.Letters.{
  charset_values-charset_letters, some_above_31-Below, lowered-Plain, some_bad_hrp_char-Plain,
  last_one-separator, charset_letters-append, length-charset_letters, case_flags-Plain,
  charset_letters-Plain, Plain,
}
use bitcoin_toolkit.Core.Base58.Digits.{Below}
use bitcoin_toolkit.Core.Bech32.{
  convertbits, segwit_parts, same_variant, segwit_decode, segwit_variant, segwit_encode,
  encode_converted, program_ok, some_above_31, lowered, some_bad_hrp_char, bech32m, bech32_decode,
  split_at, bad_hrp_char, bech32_text, charset_letters, checksum_of, bech32, Bech32Variant,
  variant_const, bech32_encode, check_values, variant_of,
}
use bitcoin_toolkit.Common.{
  inr, none, inl, Bool-cases, Option, not, true, IsBytes, ◌-◌, drop-append_at, append_assoc, drop,
  take-append, ok-injective, take, ◌&&◌, ltb, false, ◌∙◌, ◌||◌, sym, ap, length-append, ◌==◌, refl,
  ◌+◌, guard_ok, ◌≤◌, [], ok, length, some, ◌∷◌, ◌<◌, arith, ◌≡◌, ◌++◌, ℕ, All, Bytes,
}
use bitcoin_toolkit.Common.Options.{◌>>=◌}

append-Below : (xs ys : Bytes) → Below 32 xs → Below 32 ys → Below 32 (xs ++ ys)
append-Below [] ys h k = k
append-Below (x ∷ xs) ys (h, hs) k = (h, append-Below xs ys hs k)

append-Plain : (xs ys : Bytes) → All Plain xs → All Plain ys → All Plain (xs ++ ys)
append-Plain [] ys h k = k
append-Plain (x ∷ xs) ys (h, hs) k = (h, append-Plain xs ys hs k)

variant_of-variant_const : (v : Bech32Variant) → variant_of (variant_const v) ≡ some v
unfolding variant_of variant_const
variant_of-variant_const bech32 = refl
variant_of-variant_const bech32m = refl

check_values-Below : (m : ℕ) → Below 32 (check_values m)
unfolding check_values
check_values-Below m = omega arith

-- What a text that was written consists of.
record IsWritten (hrp values : Bytes) (variant : Bech32Variant) (out : Bytes) : Type 0 where
  not_empty : 0 < length hrp
  plain : All Plain hrp
  groups : Below 32 values
  most : length out ≤ 90
  text : bech32_text hrp values variant ≡ out

bech32_encode-IsWritten :
    (hrp values : Bytes) (variant : Bech32Variant) (out : Bytes)
    → bech32_encode hrp values variant ≡ ok out
    → IsWritten hrp values variant out
unfolding bech32_encode
bech32_encode-IsWritten hrp values variant out e =
    let (sizes, e1) = guard_ok (length hrp == 0 || ltb 83 (length hrp)) _ _ e in
    let (plain, e2) = guard_ok (some_bad_hrp_char hrp) _ _ e1 in
    let (groups, e3) = guard_ok (some_above_31 values) _ _ e2 in
    let (short, e4) = guard_ok (ltb 90 (length (bech32_text hrp values variant))) _ _ e3 in
    let same : bech32_text hrp values variant ≡ out = ok-injective e4 in
    record {
      not_empty = ground (arith, sizes);
      plain = some_bad_hrp_char-Plain hrp plain;
      groups = some_above_31-Below values groups;
      most = ground (arith, short, ap length same);
      text = same;
    }

module _ (hrp values : Bytes) (variant : Bech32Variant) (some_char : 0 < length hrp)
    (plain : All Plain hrp) (groups : Below 32 values) where
  abbrev check : Bytes
  check = check_values (checksum_of hrp values variant)

  abbrev text : Bytes
  text = hrp ++ b'1' ∷ charset_letters (values ++ check)

  all_groups : Below 32 (values ++ check)
  all_groups =
      append-Below values check groups (check_values-Below (checksum_of hrp values variant))

  length-all : length (values ++ check) ≡ length values + 6
  length-all =
      length-append {0} values check
      ∙ ap (λ (n : ℕ). length values + n) (length-check_values (checksum_of hrp values variant))

  length-text : length text ≡ length hrp + 1 + length values + 6
  length-text = omega (
    arith,
    length-append {0} hrp (b'1' ∷ charset_letters (values ++ check)),
    length-charset_letters (values ++ check),
    length-all,
  )

  bech32_text-eq : bech32_text hrp values variant ≡ text
  unfolding bech32_text
  bech32_text-eq = ap (λ (t : Bytes). hrp ++ b'1' ∷ t) (sym (charset_letters-append values check))

  text-Plain : All Plain text
  unfolding bad_hrp_char
  text-Plain = append-Plain hrp _ plain (refl, charset_letters-Plain (values ++ check) all_groups)

  split_at-text : split_at text (length hrp) ≡ some (hrp, values, variant)
  unfolding split_at
  split_at-text =
      let room : (length hrp == 0 || ltb (length text) (length hrp + 7)) ≡ false =
        ground (arith, length-text, some_char) in
      let front : lowered (take (length hrp) text) ≡ hrp =
        ap lowered (take-append hrp _) ∙ lowered-Plain hrp plain in
      let back : drop (length hrp + 1) text ≡ charset_letters (values ++ check) =
        ap (drop (length hrp + 1))
          (sym (append_assoc hrp (b'1' ∷ []) (charset_letters (values ++ check))))
        ∙ drop-append_at (length hrp + 1) (hrp ++ b'1' ∷ []) _
            (length-append {0} hrp (b'1' ∷ [])) in
      let mine : take (length (values ++ check) - 6) (values ++ check) ≡ values =
        ap (λ (n : ℕ). take n (values ++ check)) {x = length (values ++ check) - 6}
          {y = length values} (omega (arith, length-all))
        ∙ take-append values check in
      rw
        (
          room,
          back,
          charset_values-charset_letters (values ++ check) all_groups,
          front,
          polymod-checksum_of hrp values variant,
          variant_of-variant_const variant,
          mine,
        )
        refl

  bech32_decode-text : length text ≤ 90 → bech32_decode text ≡ some (hrp, values, variant)
  unfolding bech32_decode
  bech32_decode-text most =
      let (b, flags) = case_flags-Plain text false text-Plain in
      let sizes : (ltb (length text) 8 || ltb 90 (length text)) ≡ false =
        ground (arith, length-text, some_char, most) in
      let one_case : (b && false) ≡ false = ground arith in
      rw (sizes, flags, one_case, last_one-separator hrp (values ++ check) 0 all_groups)
        (ap (split_at text) {x = 0 + length hrp} {y = length hrp} (omega arith) ∙ split_at-text)

-- `bech32_decode` reads back from a text that `bech32_encode` returned its readable part, values and
-- variant.
pub bech32_decode-bech32_encode :
    (hrp values : Bytes) (variant : Bech32Variant) (out : Bytes)
    → bech32_encode hrp values variant ≡ ok out
    → bech32_decode out ≡ some (hrp, values, variant)
bech32_decode-bech32_encode hrp values variant out e =
    let w = bech32_encode-IsWritten hrp values variant out e in
    let same : text hrp values variant w.not_empty w.plain w.groups ≡ out =
      sym (bech32_text-eq hrp values variant w.not_empty w.plain w.groups) ∙ w.text in
    ap bech32_decode (sym same)
    ∙ bech32_decode-text hrp values variant w.not_empty w.plain w.groups
        (omega (arith, w.most, ap length same))

segwit_variant-program_ok :
    (witver : ℕ) (program : Bytes)
    → (ltb (length program) 2 || ltb 40 (length program)) ≡ false
    → ((witver == 0) && not (length program == 20) && not (length program == 32)) ≡ false
    → program_ok witver (segwit_variant witver) program ≡ true
unfolding program_ok segwit_variant same_variant
segwit_variant-program_ok witver program h k = elim (Bool-cases (witver == 0)) [
  | inl z ↦
      let size : (length program == 20 || length program == 32) ≡ true = ground arith in
      rw (h, z, size) refl
  | inr z ↦ rw (h, z) refl
]

read_program :
    (hrp : Bytes) (witver : ℕ) (g program out : Bytes)
    → program_ok witver (segwit_variant witver) program ≡ true
    → ltb 16 witver ≡ false
    → convertbits 5 8 g false ≡ some program
    → encode_converted hrp witver (some g) ≡ ok out
    → segwit_decode out ≡ some (hrp, witver, program)
unfolding encode_converted segwit_decode segwit_parts
read_program hrp witver g program out good version back e =
    rw
      (
        bech32_decode-bech32_encode hrp (witver ∷ g) (segwit_variant witver) out e,
        version,
        back,
        good,
      )
      refl

-- `segwit_decode` reads back from a text that `segwit_encode` returned its readable part, version and
-- program, where the program is bytes.
pub segwit_decode-written :
    (hrp : Bytes) (witver : ℕ) (program out : Bytes)
    → IsBytes program
    → segwit_encode hrp witver program ≡ ok out
    → segwit_decode out ≡ some (hrp, witver, program)
unfolding segwit_encode
segwit_decode-written hrp witver program out b e =
    let (version, e1) = guard_ok (ltb 16 witver) _ _ e in
    let (size, e2) = guard_ok (ltb (length program) 2 || ltb 40 (length program)) _ _ e1 in
    let (zero_size, e3) =
      guard_ok ((witver == 0) && not (length program == 20) && not (length program == 32)) _ _ e2 in
    converted (segwit_variant-program_ok witver program size zero_size) version
      (convertbits 8 5 program true) (convertbits-convertbits program b) e3
  where
    converted :
        program_ok witver (segwit_variant witver) program ≡ true
        → ltb 16 witver ≡ false
        → (o : Option Bytes) → (o >>= (λ g. convertbits 5 8 g false)) ≡ some program
        → encode_converted hrp witver o ≡ ok out
        → segwit_decode out ≡ some (hrp, witver, program)
    converted good version none back e' = absurd (ground (arith, back))
    converted good version (some g) back e' =
        read_program hrp witver g program out good version back e'
