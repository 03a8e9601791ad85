-- ===== src/Core/Base58/Canonical.antt =====
-- src/core/base58.cpp: the digits that are left when the zeros at the front are skipped.
use bitcoin_toolkit.Core.Base58.Convert.{Holds, big_endian}
use bitcoin_toolkit.Core.Base58.{found_digits, skip_front}
use bitcoin_toolkit.Common.{
  inr, refl, ap₂, inl, zero, ap, arith, ◌*◌, ◌==◌, suc, sym, ◌∙◌, ◌+◌, Bool-cases, ◌≢◌, [], take,
  ◌≡◌, ◌<◌, ◌∷◌, List, ℕ,
}
use bitcoin_toolkit.Core.Base58.Digits.{value-zeros, Below, ZeroFrom, value}
use mathlib.Core.List.{reverse, reverse_aux, reverse-reverse}

pub big_endian-reverse_aux :
    (base : ℕ) (xs ys : List ℕ)
    → big_endian base 0 (reverse_aux xs ys) ≡ big_endian base (value base xs) ys
unfolding value big_endian
big_endian-reverse_aux base [] ys = refl
big_endian-reverse_aux base (x ∷ xs) ys =
    big_endian-reverse_aux base xs (x ∷ ys) ∙ ap (λ (n : ℕ). big_endian base n ys) (omega arith)

value-take :
    (base len : ℕ) (ds : List ℕ) → ZeroFrom len ds → value base (take len ds) ≡ value base ds
unfolding value
value-take base zero ds z = sym (value-zeros base ds z)
value-take base (suc len) [] z = refl
value-take base (suc len) (d ∷ ds) z = ap (λ (n : ℕ). d + base * n) (value-take base len ds z)

Below-take : (base len : ℕ) (ds : List ℕ) → Below base ds → Below base (take len ds)
Below-take base zero ds b = tt
Below-take base (suc len) [] b = tt
Below-take base (suc len) (d ∷ ds) b = (b.0, Below-take base len ds b.1)

pub Below-reverse_aux :
    (base : ℕ) (xs ys : List ℕ) → Below base xs → Below base ys → Below base (reverse_aux xs ys)
Below-reverse_aux base [] ys b c = c
Below-reverse_aux base (x ∷ xs) ys b c = Below-reverse_aux base xs (x ∷ ys) b.1 (b.0, c)

-- No zero at the front.
abbrev pub NoLead : List ℕ → Type 0
NoLead [] = Unit
NoLead (x ∷ xs) = x ≢ 0

pub skip_front-NoLead : (xs : List ℕ) → NoLead (skip_front 0 xs)
unfolding skip_front
skip_front-NoLead [] = tt
skip_front-NoLead (x ∷ xs) = elim (Bool-cases (x == 0)) [
  | inl z ↦ rw z (skip_front-NoLead xs)
  | inr z ↦ rw z (λ e. ground arith)
]

pub Below-skip_front : (base : ℕ) (xs : List ℕ) → Below base xs → Below base (skip_front 0 xs)
unfolding skip_front
Below-skip_front base [] b = tt
Below-skip_front base (x ∷ xs) b = elim (Bool-cases (x == 0)) [
  | inl z ↦ rw z (Below-skip_front base xs b.1)
  | inr z ↦ rw z b
]

big_endian-skip_front :
    (base : ℕ) (xs : List ℕ) → big_endian base 0 (skip_front 0 xs) ≡ big_endian base 0 xs
unfolding skip_front big_endian
big_endian-skip_front base [] = refl
big_endian-skip_front base (x ∷ xs) = elim (Bool-cases (x == 0)) [
  | inl z ↦
      let nought : base * 0 + x ≡ 0 = ground arith in rw (z, nought) (big_endian-skip_front base xs)
  | inr z ↦ rw z refl
]

-- Every digit has something that is not zero at or behind it.
abbrev Canon : ℕ → List ℕ → Type 0
Canon base [] = Unit
Canon base (x ∷ xs) = (0 < value base (x ∷ xs)) × Canon base xs

Canon-reverse_aux :
    (base : ℕ) (xs ys : List ℕ)
    → 0 < base
    → 0 < value base ys
    → Canon base ys
    → Canon base (reverse_aux xs ys)
unfolding value
Canon-reverse_aux base [] ys h p c = c
Canon-reverse_aux base (x ∷ xs) ys h p c =
    let more : 0 < x + base * value base ys = grind arith in
    Canon-reverse_aux base xs (x ∷ ys) h more (more, c)

Canon-reverse : (base : ℕ) (xs : List ℕ) → 0 < base → NoLead xs → Canon base (reverse xs)
unfolding value
Canon-reverse base [] h n = tt
Canon-reverse base (x ∷ xs) h n =
    let more : 0 < x + base * 0 = grind arith in
    Canon-reverse_aux base xs (x ∷ []) h more (more, tt)

same_rest : (base x y v w : ℕ) → x < base → y < base → x + base * v ≡ y + base * w → v ≡ w
same_rest base x y v w hx hy e = grind arith

same_digit : (base x y v w : ℕ) → x < base → y < base → x + base * v ≡ y + base * w → x ≡ y
same_digit base x y v w hx hy e =
    let rest : v ≡ w = same_rest base x y v w hx hy e in
    omega (arith, ap (λ (n : ℕ). base * n) rest)

value_unique :
    (base : ℕ) (xs ys : List ℕ)
    → Below base xs
    → Below base ys
    → Canon base xs
    → Canon base ys
    → value base xs ≡ value base ys
    → xs ≡ ys
unfolding value
value_unique base [] [] a b c d e = refl
value_unique base [] (y ∷ ys) a b c d e = absurd (omega arith)
value_unique base (x ∷ xs) [] a b c d e = absurd (omega arith)
value_unique base (x ∷ xs) (y ∷ ys) a b c d e =
    let first : x ≡ y = same_digit base x y (value base xs) (value base ys) a.0 b.0 e in
    let rest : value base xs ≡ value base ys =
      same_rest base x y (value base xs) (value base ys) a.0 b.0 e in
    ap₂ ◌∷◌ first (value_unique base xs ys a.1 b.1 c.1 d.1 rest)

pub value-reverse : (base : ℕ) (xs : List ℕ) → value base (reverse xs) ≡ big_endian base 0 xs
unfolding big_endian
value-reverse base xs =
    sym (big_endian-reverse_aux base (reverse xs) []) ∙ ap (big_endian base 0) (reverse-reverse xs)

-- Digits without a zero at the front are determined by their number.
pub big_endian_unique :
    (base : ℕ) (xs ys : List ℕ)
    → 0 < base
    → Below base xs
    → Below base ys
    → NoLead xs
    → NoLead ys
    → big_endian base 0 xs ≡ big_endian base 0 ys
    → xs ≡ ys
big_endian_unique base xs ys h a b c d e =
    let same : reverse xs ≡ reverse ys =
      value_unique base (reverse xs) (reverse ys) (Below-reverse_aux base xs [] a tt)
        (Below-reverse_aux base ys [] b tt) (Canon-reverse base xs h c) (Canon-reverse base ys h d)
        (value-reverse base xs ∙ e ∙ sym (value-reverse base ys)) in
    sym (reverse-reverse xs) ∙ ap reverse same ∙ reverse-reverse ys

-- The digits found in a buffer: of its number, each below the base, and no zero at the front.
pub found_digits-Holds :
    (base total n : ℕ) (st : List ℕ × ℕ)
    → Holds base total n st
    → (big_endian base 0 (found_digits st) ≡ total)
      × Below base (found_digits st)
      × NoLead (found_digits st)
unfolding found_digits big_endian
found_digits-Holds base total n (ds, len) s = (
  big_endian-skip_front base (reverse (take len ds))
      ∙ big_endian-reverse_aux base (take len ds) []
      ∙ value-take base len ds s.zeros
      ∙ s.same_value,
  Below-skip_front base (reverse (take len ds))
      (Below-reverse_aux base (take len ds) [] (Below-take base len ds s.in_base) tt),
  skip_front-NoLead (reverse (take len ds)),
)
