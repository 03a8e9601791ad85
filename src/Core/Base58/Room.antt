-- ===== src/Core/Base58/Room.antt =====
-- src/core/base58.cpp: the buffers have room for every input.
use bitcoin_toolkit.Core.Base58.Digits.{Below}
use bitcoin_toolkit.Core.Base58.Convert.{big_endian}
use bitcoin_toolkit.Common.{
  inr, subst, inl, ltb, ◌==◌, ◌-◌, refl, Bool-cases, [], ◌≤◌, zero, ◌∷◌, ap, ◌/◌, ◌&&◌, length,
  arith, suc, ◌<◌, ◌*◌, leb, ◌≡◌, true, ◌+◌, Bool, List, ◌^◌, ℕ,
}
use native.Mathlib.Nat.{
  pow-zero, pow-suc, pow-succ', mul-le-mul, add-suc, add-zero, add-mul-div_left,
}

pow-add : (a n k : ℕ) → a ^ (n + k) ≡ a ^ n * a ^ k
pow-add a n zero = rw (pow-zero a) (omega (arith, ap (λ (t : ℕ). a ^ t) (add-zero n)))
pow-add a n (suc k) =
    let one_more : a ^ (n + k) * a ≡ a ^ n * (a ^ k * a) = rw (pow-add a n k) (grind arith) in
    omega (
      arith,
      pow-suc a (n + k),
      pow-suc a k,
      one_more,
      ap (λ (t : ℕ). a ^ n * t) (pow-suc a k),
      ap (λ (t : ℕ). a ^ t) (add-suc n k),
    )

-- A number of digits in base `a` is below a power of the base.
pub big_endian_lt :
    (a acc : ℕ) (vs : List ℕ) → Below a vs → big_endian a acc vs < (acc + 1) * a ^ length vs
unfolding big_endian
big_endian_lt a acc [] h = rw (pow-zero a) (omega arith)
big_endian_lt a acc (v ∷ vs) h =
    let next : (a * acc + v + 1) * a ^ length vs ≤ ((acc + 1) * a) * a ^ length vs =
      grind (arith, h.0) in
    let split : ((acc + 1) * a) * a ^ length vs ≡ (acc + 1) * a ^ suc (length vs) =
      grind (arith, pow-succ' a (length vs)) in
    omega (arith, big_endian_lt a (a * acc + v) vs h.1)

-- The sizes up to `n` for which a test holds.
all_to : (ℕ → Bool) → ℕ → Bool
all_to t zero = true
all_to t (suc n) = t n && all_to t n

all_to-at : (t : ℕ → Bool) (n i : ℕ) → all_to t n ≡ true → i < n → t i ≡ true
unfolding all_to
all_to-at t zero i h l = absurd (omega arith)
all_to-at t (suc n) i h l =
    let here : t n ≡ true = ground arith in
    let below : all_to t n ≡ true = ground arith in
    elim (Bool-cases (i == n)) [
      | inl z ↦ subst (λ (k : ℕ). t k ≡ true) (ground arith) here
      | inr z ↦ all_to-at t n i below (ground arith)
    ]

-- Numbers of `m` digits in base `a` fit in `m * num / den + 2` digits in base `b`.
fits : ℕ → ℕ → ℕ → ℕ → ℕ → Bool
fits a b num den m = leb (a ^ m) (b ^ (m * num / den + 2))

fits_58 : all_to (fits 256 58 138 100) 100 ≡ true
unfolding all_to fits
fits_58 = refl

fits_256 : all_to (fits 58 256 733 1000) 1000 ≡ true
unfolding all_to fits
fits_256 = refl

-- From the sizes below `den` to all sizes.
module _ (a b num den : ℕ) (positive : 0 < den) (whole : a ^ den ≤ b ^ num)
    (base_case : (m : ℕ) → m < den → a ^ m ≤ b ^ (m * num / den + 2)) where
  one_more :
      (k : ℕ) → a ^ k ≤ b ^ (k * num / den + 2) → a ^ (k + den) ≤ b ^ ((k + den) * num / den + 2)
  one_more k ih =
      let distributed : (k + den) * num ≡ k * num + den * num = grind arith in
      let e : (k + den) * num / den + 2 ≡ k * num / den + 2 + num =
        omega
          (arith, add-mul-div_left (k * num) num positive, ap (λ (t : ℕ). t / den) distributed) in
      rw (e, pow-add a k den, pow-add b (k * num / den + 2) num) (mul-le-mul ih whole)

  fits_all : (fuel m : ℕ) → m < fuel → a ^ m ≤ b ^ (m * num / den + 2)
  fits_all zero m h = absurd (omega arith)
  fits_all (suc fuel) m h = elim (Bool-cases (ltb m den)) [
    | inl z ↦ base_case m (ground arith)
    | inr z ↦
        let back : m - den + den ≡ m = ground arith in
        subst (λ (t : ℕ). a ^ t ≤ b ^ (t * num / den + 2)) back
          (one_more (m - den) (fits_all fuel (m - den) (ground arith)))
  ]

room_58 : (m : ℕ) → 256 ^ m ≤ 58 ^ (m * 138 / 100 + 2)
unfolding fits
room_58 m =
    fits_all 256 58 138 100 (omega arith) (omega arith)
      (λ k l.
        let t : fits 256 58 138 100 k ≡ true = all_to-at (fits 256 58 138 100) 100 k fits_58 l in
        ground arith)
      (suc m) m (omega arith)

room_256 : (m : ℕ) → 58 ^ m ≤ 256 ^ (m * 733 / 1000 + 2)
unfolding fits
room_256 m =
    fits_all 58 256 733 1000 (omega arith) (omega arith)
      (λ k l.
        let t : fits 58 256 733 1000 k ≡ true =
          all_to-at (fits 58 256 733 1000) 1000 k fits_256 l in
        ground arith)
      (suc m) m (omega arith)

-- The number of any bytes fits in the buffer of base58_encode, and that of any digits in the buffer of
-- base58_decode.
pub bytes-room :
    (vs : List ℕ) → Below 256 vs → big_endian 256 0 vs < 58 ^ (length vs * 138 / 100 + 2)
bytes-room vs h = omega (arith, big_endian_lt 256 0 vs h, room_58 (length vs))

pub digits-room :
    (vs : List ℕ) → Below 58 vs → big_endian 58 0 vs < 256 ^ (length vs * 733 / 1000 + 2)
digits-room vs h = omega (arith, big_endian_lt 58 0 vs h, room_256 (length vs))
