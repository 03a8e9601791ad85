-- ===== src/Core/Bech32/Checksum.antt =====
-- src/core/bech32.cpp: the checksum of `bech32_encode` is the one that `bech32_decode` looks for.
use bitcoin_toolkit.Core.Base58.Convert.{big_endian}
use bitcoin_toolkit.Core.Bech32.{
  bech32m, bech32, hrp_expand, checksum_of, Bech32Variant, polymod, check_values, variant_const,
  polymod_loop, xor_gens, xor_gen,
}
use bitcoin_toolkit.Common.{
  zero, suc, inr, inl, ap, ap₂, ◌==◌, [], replicate, ◌+◌, ◌∙◌, sym, refl, Bool-cases, ◌%◌, ◌++◌,
  ◌∷◌, ◌*◌, ◌≡◌, ◌^◌, length, arith, Bytes, ◌<◌, bit_xor, ◌/◌, ℕ,
}
use bitcoin_toolkit.Common.Xor.{
  xor_swap, xor_assoc, xor_comm, xor_zero_left, xor_double, xor_low, xor-lt, xor_twice,
}

-- One round of `polymod`.
abbrev next : ℕ → ℕ → ℕ
next c v = xor_gens (c / 2 ^ 25 % 256) (bit_xor (c % 2 ^ 25 * 2 ^ 5) v)

xor_gen-xor : (b i g c e : ℕ) → xor_gen b i g (bit_xor c e) ≡ bit_xor (xor_gen b i g c) e
unfolding xor_gen
xor_gen-xor b i g c e = elim (Bool-cases (b / 2 ^ i % 2 == 1)) [
  | inl z ↦ rw z (xor_swap c e g)
  | inr z ↦ rw z refl
]

xor_gens-xor : (b c e : ℕ) → xor_gens b (bit_xor c e) ≡ bit_xor (xor_gens b c) e
unfolding xor_gens
xor_gens-xor b c e =
    rw
      (
        xor_gen-xor b 0 0x3b6a57b2 c e,
        xor_gen-xor b 1 0x26508e6d _ e,
        xor_gen-xor b 2 0x1ea119fa _ e,
        xor_gen-xor b 3 0x3d4233dd _ e,
        xor_gen-xor b 4 0x2a1462b3 _ e,
      )
      refl

shift_xor : (l e : ℕ) → bit_xor l e * 2 ^ 5 ≡ bit_xor (l * 2 ^ 5) (e * 2 ^ 5)
shift_xor l e =
    let five : (t : ℕ) → t * 2 * 2 * 2 * 2 * 2 ≡ t * 2 ^ 5 = λ t. omega arith in
    sym (
      ap₂ bit_xor (sym (five l)) (sym (five e))
      ∙ xor_double (l * 2 * 2 * 2 * 2) (e * 2 * 2 * 2 * 2)
      ∙ ap (λ (t : ℕ). t * 2) (xor_double (l * 2 * 2 * 2) (e * 2 * 2 * 2))
      ∙ ap (λ (t : ℕ). t * 2 * 2) (xor_double (l * 2 * 2) (e * 2 * 2))
      ∙ ap (λ (t : ℕ). t * 2 * 2 * 2) (xor_double (l * 2) (e * 2))
      ∙ ap (λ (t : ℕ). t * 2 * 2 * 2 * 2) (xor_double l e)
      ∙ five (bit_xor l e))

xor_zero_right : (a : ℕ) → bit_xor a 0 ≡ a
xor_zero_right a = xor_comm a 0 ∙ xor_zero_left a

-- A round is linear in the low bits and the value.
next-xor :
    (c e v : ℕ) → e < 2 ^ 25 → v < 32 → next (bit_xor c e) v ≡ bit_xor (next c 0) (32 * e + v)
next-xor c e v h k =
    let l : ℕ = c % 2 ^ 25 in
    let low : bit_xor l e < 2 ^ 25 = xor-lt 25 l e (omega arith) h in
    let parts : bit_xor c e ≡ c / 2 ^ 25 * 2 ^ 25 + bit_xor l e =
      ap (λ (t : ℕ). bit_xor t e) {x = c} {y = c / 2 ^ 25 * 2 ^ 25 + l} (omega arith)
      ∙ xor_low 25 (c / 2 ^ 25) l e (omega arith) h in
    let top : bit_xor c e / 2 ^ 25 % 256 ≡ c / 2 ^ 25 % 256 = omega (arith, parts, low) in
    let rest : bit_xor c e % 2 ^ 25 ≡ bit_xor l e = omega (arith, parts, low) in
    let value : bit_xor (e * 2 ^ 5) v ≡ 32 * e + v =
      ap (λ (t : ℕ). bit_xor t v) {x = e * 2 ^ 5} {y = e * 2 ^ 5 + 0} (omega arith)
      ∙ xor_low 5 e 0 v (omega arith) (omega (arith, k))
      ∙ omega (arith, xor_zero_left v) in
    let inner : bit_xor (bit_xor c e % 2 ^ 25 * 2 ^ 5) v
        ≡ bit_xor (bit_xor (l * 2 ^ 5) 0) (32 * e + v) =
      ap (λ (t : ℕ). bit_xor (t * 2 ^ 5) v) rest
      ∙ ap (λ (t : ℕ). bit_xor t v) (shift_xor l e)
      ∙ xor_assoc (l * 2 ^ 5) (e * 2 ^ 5) v
      ∙ ap₂ bit_xor (sym (xor_zero_right (l * 2 ^ 5))) value in
    ap₂ xor_gens top inner ∙ xor_gens-xor (c / 2 ^ 25 % 256) (bit_xor (l * 2 ^ 5) 0) (32 * e + v)

-- No round but the last shifts a bit of the values out.
abbrev Small : ℕ → Bytes → Type 0
Small e [] = Unit
Small e (v ∷ vs) = (e < 2 ^ 25) × (v < 32) × Small (32 * e + v) vs

polymod_loop-xor :
    (vs : Bytes) (c e : ℕ)
    → Small e vs
    → polymod_loop (bit_xor c e) vs
      ≡ bit_xor (polymod_loop c (replicate (length vs) 0)) (big_endian 32 e vs)
unfolding polymod_loop big_endian
polymod_loop-xor [] c e s = refl
polymod_loop-xor (v ∷ vs) c e (h, k, s) =
    ap (λ (t : ℕ). polymod_loop t vs) (next-xor c e v h k)
    ∙ polymod_loop-xor vs (next c 0) (32 * e + v) s

polymod_loop-append :
    (xs ys : Bytes) (c : ℕ) → polymod_loop c (xs ++ ys) ≡ polymod_loop (polymod_loop c xs) ys
unfolding polymod_loop
polymod_loop-append [] ys c = refl
polymod_loop-append (x ∷ xs) ys c = polymod_loop-append xs ys (next c x)

xor_gen-lt : (b i g c : ℕ) → g < 2 ^ 30 → c < 2 ^ 30 → xor_gen b i g c < 2 ^ 30
unfolding xor_gen
xor_gen-lt b i g c h k = elim (Bool-cases (b / 2 ^ i % 2 == 1)) [
  | inl z ↦ rw z (xor-lt 30 c g k h)
  | inr z ↦ rw z k
]

next-lt : (c : ℕ) → next c 0 < 2 ^ 30
unfolding xor_gens
next-lt c =
    let start : bit_xor (c % 2 ^ 25 * 2 ^ 5) 0 < 2 ^ 30 =
      xor-lt 30 _ 0 (omega arith) (omega arith) in
    let b : ℕ = c / 2 ^ 25 % 256 in
    xor_gen-lt b 4 0x2a1462b3 _ (omega arith) (
      xor_gen-lt b 3 0x3d4233dd _ (omega arith) (
        xor_gen-lt b 2 0x1ea119fa _ (omega arith) (
          xor_gen-lt b 1 0x26508e6d _ (omega arith)
            (xor_gen-lt b 0 0x3b6a57b2 _ (omega arith) start))))

variant_const-lt : (variant : Bech32Variant) → variant_const variant < 2 ^ 30
unfolding variant_const
variant_const-lt bech32 = omega arith
variant_const-lt bech32m = omega arith

check_values-Small : (m : ℕ) → Small 0 (check_values m)
unfolding check_values
check_values-Small m = omega arith

check_values-number : (m : ℕ) → m < 2 ^ 30 → big_endian 32 0 (check_values m) ≡ m
unfolding check_values big_endian
check_values-number m h = omega (arith, h)

pub length-check_values : (m : ℕ) → length (check_values m) ≡ 6
unfolding check_values
length-check_values m = refl

zeros-lt : (n c : ℕ) → polymod_loop c (replicate (suc n) 0) < 2 ^ 30
unfolding polymod_loop
zeros-lt zero c = next-lt c
zeros-lt (suc n) c = zeros-lt n (next c 0)

-- The rounds of what stands behind the values.
behind :
    (hrp values tail : Bytes)
    → polymod (hrp_expand hrp ++ (values ++ tail))
      ≡ polymod_loop (polymod_loop (polymod_loop 1 (hrp_expand hrp)) values) tail
unfolding polymod
behind hrp values tail =
    polymod_loop-append (hrp_expand hrp) (values ++ tail) 1
    ∙ polymod_loop-append values tail (polymod_loop 1 (hrp_expand hrp))

checked :
    (c k : ℕ)
    → k < 2 ^ 30
    → polymod_loop c (check_values (bit_xor (polymod_loop c (replicate 6 0)) k)) ≡ k
checked c k h =
    let p : ℕ = polymod_loop c (replicate 6 0) in
    let m : ℕ = bit_xor p k in
    let small : m < 2 ^ 30 = xor-lt 30 p k (zeros-lt 5 c) h in
    ap (λ (t : ℕ). polymod_loop t (check_values m)) (sym (xor_zero_right c))
    ∙ polymod_loop-xor (check_values m) c 0 (check_values-Small m)
    ∙ ap₂ (λ (n t : ℕ). bit_xor (polymod_loop c (replicate n 0)) t) (length-check_values m)
        (check_values-number m small)
    ∙ xor_twice p k

-- The text that is written has the checksum of its variant.
pub polymod-checksum_of :
    (hrp values : Bytes) (variant : Bech32Variant)
    → polymod (hrp_expand hrp ++ (values ++ check_values (checksum_of hrp values variant)))
      ≡ variant_const variant
unfolding checksum_of
polymod-checksum_of hrp values variant =
    let c : ℕ = polymod_loop (polymod_loop 1 (hrp_expand hrp)) values in
    rw
      (
        behind hrp values (replicate 6 0),
        behind hrp values
            (check_values (bit_xor (polymod_loop c (replicate 6 0)) (variant_const variant))),
      )
      (checked c (variant_const variant) (variant_const-lt variant))
