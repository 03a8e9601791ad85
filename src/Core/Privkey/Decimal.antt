-- ===== src/Core/Privkey/Decimal.antt =====
-- src/core/privkey.cpp: `decode_secret_dec` makes a secret of its decimal digits.
use bitcoin_toolkit.Common.Options.{◌>>=◌}
use bitcoin_toolkit.Core.Secp.{Secp}
use bitcoin_toolkit.Core.Base58.Room.{big_endian_lt}
use bitcoin_toolkit.Core.Base58.Canonical.{Below-reverse_aux, big_endian-reverse_aux, value-reverse}
use native.Mathlib.Nat.{pow-zero, pow-succ'}
use mathlib.Core.List.{reverse}
use bitcoin_toolkit.Core.Base58.Digits.{Below, value}
use bitcoin_toolkit.Core.Base58.Convert.{big_endian}
use bitcoin_toolkit.Core.Privkey.{
  secret_is_valid, require_valid_secret, decode_secret_dec, encode_secret_dec, add_digit, dec_loop,
  mul10_add, skip_zeros, mul10_loop,
}
use bitcoin_toolkit.Common.{
  replicate, IsBytes, sym, ok, some, ◌≤◌, Result, true, suc, ◌∙◌, inr, ap, inl, ap₂, refl, ◌==◌,
  arith, ◌/◌, [], Bool-cases, length, ◌^◌, ◌-◌, ◌+◌, ◌≡◌, ◌<◌, ◌*◌, ◌∷◌, Bytes, ℕ,
}
use bitcoin_toolkit.Core.Privkey.Digits.{dec_value, encode_secret_dec-Written, length-reverse}

mul10_loop-value :
    (carry : ℕ) (bs : Bytes)
    → (value 256 (mul10_loop carry bs).0 + 256 ^ length bs * (mul10_loop carry bs).1
        ≡ 10 * value 256 bs + carry)
      × Below 256 (mul10_loop carry bs).0
      × (length (mul10_loop carry bs).0 ≡ length bs)
unfolding mul10_loop value
mul10_loop-value carry [] = (omega (arith, pow-zero 256), tt, refl)
mul10_loop-value carry (b ∷ bs) =
    let v : ℕ = b * 10 + carry in
    let (e, d, l) = mul10_loop-value (v / 2 ^ 8) bs in
    let o : ℕ = (mul10_loop (v / 2 ^ 8) bs).1 in
    let shift : 256 ^ suc (length bs) * o ≡ 256 * (256 ^ length bs * o) =
      rw (pow-succ' 256 (length bs)) (grind arith) in
    (omega (arith, e, shift), (omega arith, d), ap suc l)

big_endian_unique :
    (a a' : ℕ) (xs ys : Bytes)
    → Below 256 xs
    → Below 256 ys
    → length xs ≡ length ys
    → big_endian 256 a xs ≡ big_endian 256 a' ys
    → (a ≡ a') × (xs ≡ ys)
unfolding big_endian
big_endian_unique a a' [] [] h k l e = (e, refl)
big_endian_unique a a' [] (y ∷ ys) h k l e = absurd (omega arith)
big_endian_unique a a' (x ∷ xs) [] h k l e = absurd (omega arith)
big_endian_unique a a' (x ∷ xs) (y ∷ ys) (h, hs) (k, ks) l e =
    let (n, t) = big_endian_unique (256 * a + x) (256 * a' + y) xs ys hs ks (omega arith) e in
    (omega arith, ap₂ ◌∷◌ (omega arith) t)

skip_zeros-value : (cs : Bytes) → dec_value 0 (skip_zeros cs) ≡ dec_value 0 cs
unfolding skip_zeros dec_value
skip_zeros-value [] = refl
skip_zeros-value (c ∷ cs) = elim (Bool-cases (c == b'0')) [
  | inl z ↦
      let nought : 10 * 0 + (c - b'0') ≡ 0 = ground arith in rw (z, nought) (skip_zeros-value cs)
  | inr z ↦ rw z refl
]

-- The bytes that a loop of the decoder leaves.
record Loaded (o : Result Bytes) (n : ℕ) : Type 0 where
  left : Bytes
  loaded : o ≡ ok left
  same : big_endian 256 0 left ≡ n
  below : Below 256 left
  all_32 : length left ≡ 32

dec_value-le : (n : ℕ) (cs : Bytes) → n ≤ dec_value n cs
unfolding dec_value
dec_value-le n [] = omega arith
dec_value-le n (c ∷ cs) = omega (arith, dec_value-le (10 * n + (c - b'0')) cs)

mul10_add-Loaded :
    (acc : Bytes) (d : ℕ)
    → length acc ≡ 32
    → 10 * big_endian 256 0 acc + d < 256 ^ 32
    → Loaded (add_digit (mul10_add acc d)) (10 * big_endian 256 0 acc + d)
unfolding mul10_add add_digit big_endian
mul10_add-Loaded acc d l h =
    let out : Bytes × ℕ = mul10_loop d (reverse acc) in
    let (e, b, k) = mul10_loop-value d (reverse acc) in
    let size : length (reverse acc) ≡ 32 = length-reverse acc ∙ l in
    let total : value 256 out.0 + 256 ^ 32 * out.1 ≡ 10 * big_endian 256 0 acc + d =
      ap (λ (t : ℕ). value 256 out.0 + 256 ^ t * out.1) (sym size)
      ∙ e
      ∙ ap (λ (t : ℕ). 10 * t + d) (value-reverse 256 acc) in
    let none_out : out.1 ≡ 0 = omega (arith, total, h) in
    record {
      left = reverse out.0;
      loaded = rw none_out refl;
      same = big_endian-reverse_aux 256 out.0 [] ∙ omega (arith, total, none_out);
      below = Below-reverse_aux 256 out.0 [] b tt;
      all_32 = length-reverse out.0 ∙ k ∙ size;
    }

dec_loop-Loaded :
    (acc cs : Bytes)
    → length acc ≡ 32
    → Below 256 acc
    → dec_value (big_endian 256 0 acc) cs < 256 ^ 32
    → Loaded (dec_loop acc cs) (dec_value (big_endian 256 0 acc) cs)
unfolding dec_loop dec_value
dec_loop-Loaded acc [] l b h = record {
  left = acc;
  loaded = refl;
  same = refl;
  below = b;
  all_32 = l;
}
dec_loop-Loaded acc (c ∷ cs) l b h =
    let next : ℕ = 10 * big_endian 256 0 acc + (c - b'0') in
    let step : Loaded (add_digit (mul10_add acc (c - b'0'))) next =
      mul10_add-Loaded acc (c - b'0') l (omega (arith, dec_value-le next cs, h)) in
    let rest : Loaded (dec_loop step.left cs) (dec_value (big_endian 256 0 step.left) cs) =
      dec_loop-Loaded step.left cs step.all_32 step.below (rw step.same h) in
    record {
      left = rest.left;
      loaded = rw step.loaded rest.loaded;
      same = rest.same ∙ ap (λ (t : ℕ). dec_value t cs) step.same;
      below = rest.below;
      all_32 = rest.all_32;
    }

zeros_value : big_endian 256 0 (replicate 32 0) ≡ 0
unfolding big_endian
zeros_value = refl

big_endian-lt :
    (secret : Bytes) → length secret ≡ 32 → Below 256 secret → big_endian 256 0 secret < 256 ^ 32
big_endian-lt secret l b =
    let few : (0 + 1) * 256 ^ length secret ≡ 256 ^ 32 = rw l (omega arith) in
    omega (arith, few, big_endian_lt 256 0 secret b)

-- A secret of 32 bytes that libsecp256k1 takes is what `decode_secret_dec` makes of the digits of
-- `encode_secret_dec`, which never lacks a result: 78 rounds are enough.
pub decode_secret_dec-encode_secret_dec :
    (S : Secp) (secret : Bytes)
    → length secret ≡ 32
    → IsBytes secret
    → secret_is_valid S secret ≡ true
    → (encode_secret_dec secret >>= (λ text. some (decode_secret_dec S text))) ≡ some (ok secret)
unfolding decode_secret_dec require_valid_secret
decode_secret_dec-encode_secret_dec S secret l b v =
    let w = encode_secret_dec-Written secret b (big_endian-lt secret l b) in
    let value : dec_value (big_endian 256 0 (replicate 32 0)) (skip_zeros w.text)
        ≡ big_endian 256 0 secret =
      rw zeros_value (skip_zeros-value w.text ∙ w.number) in
    let d =
      dec_loop-Loaded (replicate 32 0) (skip_zeros w.text) refl (ground arith)
        (rw value (big_endian-lt secret l b)) in
    let back : d.left ≡ secret =
      (big_endian_unique 0 0 d.left secret d.below b (d.all_32 ∙ sym l) (d.same ∙ value)).1 in
    rw (w.found, w.digits_only, d.loaded, back, v) refl
