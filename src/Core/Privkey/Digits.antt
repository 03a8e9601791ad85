-- ===== src/Core/Privkey/Digits.antt =====
-- src/core/privkey.cpp: the decimal digits that `encode_secret_dec` returns.
use native.Mathlib.Nat.{pow-zero, pow-succ'}
use mathlib.Core.List.{reverse, reverse_aux}
use bitcoin_toolkit.Core.Base58.Digits.{Below}
use bitcoin_toolkit.Core.Base58.Convert.{acc-le-big_endian, big_endian}
use bitcoin_toolkit.Core.Privkey.{
  digits_in_order, encode_secret_dec, looks_like_decimal, digit_before, dec_digits, all_digits,
  any_nonzero, div10,
}
use bitcoin_toolkit.Common.{
  sym, zero, some, Option, true, suc, ◌∙◌, inr, ap, inl, refl, ◌%◌, ◌==◌, arith, ◌/◌, [],
  Bool-cases, length, false, ◌^◌, ◌-◌, ◌+◌, ◌≡◌, ◌<◌, ◌*◌, ◌∷◌, Bytes, ℕ,
}

unfoldable pub dec_value : ℕ → Bytes → ℕ
dec_value n [] = n
dec_value n (c ∷ cs) = dec_value (10 * n + (c - b'0')) cs

record Divided (acc rem : ℕ) (bs : Bytes) (out : Bytes × ℕ) : Type 0 where
  sum_up : big_endian 256 (10 * acc + rem) bs ≡ 10 * big_endian 256 acc out.0 + out.1
  remainder : out.1 < 10
  in_bytes : Below 256 out.0

div10-Divided :
    (acc rem : ℕ) (bs : Bytes) → rem < 10 → Below 256 bs → Divided acc rem bs (div10 rem bs)
unfolding div10 big_endian
div10-Divided acc rem [] h b = record { sum_up = refl; remainder = h; in_bytes = tt }
div10-Divided acc rem (x ∷ bs) h (b, bb) =
    let v : ℕ = rem * 2 ^ 8 + x in
    let rest = div10-Divided (256 * acc + v / 10) (v % 10) bs (omega arith) bb in
    let same : 256 * (10 * acc + rem) + x ≡ 10 * (256 * acc + v / 10) + v % 10 = omega arith in
    record {
      sum_up = ap (λ (t : ℕ). big_endian 256 t bs) same ∙ rest.sum_up;
      remainder = rest.remainder;
      in_bytes = (omega arith, rest.in_bytes);
    }

any_nonzero-false : (bs : Bytes) → any_nonzero bs ≡ false → big_endian 256 0 bs ≡ 0
unfolding any_nonzero big_endian
any_nonzero-false [] h = refl
any_nonzero-false (x ∷ bs) h =
    let zero_here : 256 * 0 + x ≡ 0 = ground arith in
    let others : any_nonzero bs ≡ false = ground arith in rw zero_here (any_nonzero-false bs others)

any_nonzero-true : (bs : Bytes) → any_nonzero bs ≡ true → 0 < big_endian 256 0 bs
unfolding any_nonzero big_endian
any_nonzero-true [] h = absurd (ground (arith, h))
any_nonzero-true (x ∷ bs) h = elim (Bool-cases (x == 0)) [
  | inl z ↦
      let zero_here : 256 * 0 + x ≡ 0 = ground arith in
      let others : any_nonzero bs ≡ true = ground arith in rw zero_here (any_nonzero-true bs others)
  | inr z ↦
      let here : 0 < x = ground arith in
      omega (arith, acc-le-big_endian 256 (256 * 0 + x) bs (omega arith))
]

-- The number of decimal digits, the last one first.
unfoldable dec_le : Bytes → ℕ
dec_le [] = 0
dec_le (c ∷ cs) = (c - b'0') + 10 * dec_le cs

dec_value-reverse_aux : (xs ys : Bytes) → dec_value 0 (reverse_aux xs ys) ≡ dec_value (dec_le xs) ys
unfolding dec_value dec_le
dec_value-reverse_aux [] ys = refl
dec_value-reverse_aux (x ∷ xs) ys =
    dec_value-reverse_aux xs (x ∷ ys) ∙ ap (λ (n : ℕ). dec_value n ys) (omega arith)

all_digits-reverse_aux :
    (xs ys : Bytes)
    → all_digits xs ≡ true
    → all_digits ys ≡ true
    → all_digits (reverse_aux xs ys) ≡ true
unfolding all_digits
all_digits-reverse_aux [] ys h k = k
all_digits-reverse_aux (x ∷ xs) ys h k =
    all_digits-reverse_aux xs (x ∷ ys) (ground arith) (ground arith)

length-reverse_aux : (xs ys : Bytes) → length (reverse_aux xs ys) ≡ length xs + length ys
length-reverse_aux [] ys = omega arith
length-reverse_aux (x ∷ xs) ys = omega (arith, length-reverse_aux xs (x ∷ ys))

record Spelled (o : Option Bytes) (n : ℕ) : Type 0 where
  text : Bytes
  found : o ≡ some text
  number : dec_le text ≡ n
  digits_only : all_digits text ≡ true
  not_empty : 0 < length text

dec_digits-Spelled :
    (fuel : ℕ) (acc : Bytes)
    → Below 256 acc
    → any_nonzero acc ≡ true
    → big_endian 256 0 acc < 10 ^ fuel
    → Spelled (dec_digits fuel acc) (big_endian 256 0 acc)
unfolding dec_digits dec_le all_digits digit_before
dec_digits-Spelled zero acc b nz h = absurd (omega (arith, any_nonzero-true acc nz, pow-zero 10))
dec_digits-Spelled (suc fuel) acc b nz h =
    let q : Bytes = (div10 0 acc).0 in
    let r : ℕ = (div10 0 acc).1 in
    let d = div10-Divided 0 0 acc (omega arith) b in
    let sum_up : big_endian 256 0 acc ≡ 10 * big_endian 256 0 q + r = d.sum_up in
    let digit : r < 10 = d.remainder in
    elim (Bool-cases (any_nonzero q)) [
      | inl z ↦
          let rest : Spelled (dec_digits fuel q) (big_endian 256 0 q) =
            dec_digits-Spelled fuel q d.in_bytes z (omega (arith, sum_up, h, pow-succ' 10 fuel)) in
          record {
            text = (b'0' + r) ∷ rest.text;
            found = rw (z, rest.found) refl;
            number = omega (arith, sum_up, rest.number);
            digits_only = ground (arith, digit, rest.digits_only);
            not_empty = omega arith;
          }
      | inr z ↦ record {
        text = (b'0' + r) ∷ [];
        found = rw z refl;
        number = omega (arith, sum_up, any_nonzero-false q z);
        digits_only = ground (arith, digit);
        not_empty = omega arith;
      }
    ]

pub length-reverse : (xs : Bytes) → length (reverse xs) ≡ length xs
length-reverse xs = omega (arith, length-reverse_aux xs [])

pub record Written (o : Option Bytes) (n : ℕ) : Type 0 where
  pub text : Bytes
  pub found : o ≡ some text
  pub number : dec_value 0 text ≡ n
  pub digits_only : looks_like_decimal text ≡ true

looks_like_decimal_lem :
    (text : Bytes) → 0 < length text → all_digits text ≡ true → looks_like_decimal text ≡ true
unfolding looks_like_decimal
looks_like_decimal_lem text h e = ground (arith, e)

pub encode_secret_dec-Written :
    (secret : Bytes)
    → Below 256 secret
    → big_endian 256 0 secret < 256 ^ 32
    → Written (encode_secret_dec secret) (big_endian 256 0 secret)
unfolding encode_secret_dec digits_in_order looks_like_decimal dec_value all_digits
encode_secret_dec-Written secret b h = elim (Bool-cases (any_nonzero secret)) [
  | inl z ↦
      let room : 256 ^ 32 < 10 ^ 78 = omega arith in
      let s : Spelled (dec_digits 78 secret) (big_endian 256 0 secret) =
        dec_digits-Spelled 78 secret b z (omega (arith, room, h)) in
      let digits : all_digits (reverse s.text) ≡ true =
        all_digits-reverse_aux s.text [] s.digits_only refl in
      let some_char : 0 < length (reverse s.text) =
        omega (arith, length-reverse s.text, s.not_empty) in
      record {
        text = reverse s.text;
        found = rw (z, s.found) refl;
        number = dec_value-reverse_aux s.text [] ∙ s.number;
        digits_only = looks_like_decimal_lem (reverse s.text) some_char digits;
      }
  | inr z ↦ record {
    text = b'0' ∷ [];
    found = rw z refl;
    number = sym (any_nonzero-false secret z);
    digits_only = refl;
  }
]
