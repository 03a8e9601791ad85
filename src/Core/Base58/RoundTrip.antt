-- ===== src/Core/Base58/RoundTrip.antt =====
-- src/core/base58.cpp: `base58_decode` reads back what `base58_encode` wrote.
use bitcoin_toolkit.Core.Base58.Room.{digits-room, bytes-room}
use bitcoin_toolkit.Core.Base58.Canonical.{
  skip_front-NoLead, big_endian_unique, found_digits-Holds, Below-skip_front, NoLead,
}
use bitcoin_toolkit.Core.Base58.Convert.{convert-Holds, big_endian, Holds}
use bitcoin_toolkit.Core.Base58.Digits.{ZeroFrom, Below, value}
use bitcoin_toolkit.Common.{
  ◌/◌, sym, refl, ap₂, zero, ◌*◌, inr, [], ==_refl, false, inl, ok, ap, ◌∙◌, ◌+◌, suc, ◌==◌,
  Bool-cases, IsBytes, some, get_or, length, arith, ◌∷◌, ◌++◌, replicate, ◌≡◌, List, ◌<◌, Bytes, ℕ,
}
use bitcoin_toolkit.Core.Base58.{
  convert, found_digits, base58_decode, value_before, alphabet, base58_encode, values, letters,
  alphabet_value, skip_front, count_front,
}

front : (z : ℕ) (d : Bytes) → replicate (count_front z d) z ++ skip_front z d ≡ d
unfolding count_front skip_front
front z [] = refl
front z (x ∷ xs) = elim (Bool-cases (x == z)) [
  | inl e ↦ let same : x ≡ z = ground arith in rw e (ap₂ ◌∷◌ (sym same) (front z xs))
  | inr e ↦ rw e refl
]

-- Text that does not begin with the character.
abbrev NotFirst : ℕ → Bytes → Type 0
NotFirst z [] = Unit
NotFirst z (x ∷ xs) = (x == z) ≡ false

count_front-replicate :
    (z n : ℕ) (s : Bytes) → NotFirst z s → count_front z (replicate n z ++ s) ≡ n
unfolding count_front
count_front-replicate z zero [] h = refl
count_front-replicate z zero (x ∷ xs) h = rw h refl
count_front-replicate z (suc n) s h = rw (==_refl z) (ap suc (count_front-replicate z n s h))

skip_front-replicate : (z n : ℕ) (s : Bytes) → NotFirst z s → skip_front z (replicate n z ++ s) ≡ s
unfolding skip_front
skip_front-replicate z zero [] h = refl
skip_front-replicate z zero (x ∷ xs) h = rw h refl
skip_front-replicate z (suc n) s h = rw (==_refl z) (skip_front-replicate z n s h)

-- The characters are the letters of the digits from `k` on.
abbrev Spells : ℕ → Bytes → Type 0
Spells k [] = Unit
Spells k (c ∷ cs) = (alphabet_value c ≡ some k) × Spells (suc k) cs

alphabet-Spells : Spells 0 alphabet
unfolding alphabet_value
alphabet-Spells = ground arith

Spells-at :
    (k n : ℕ) (cs : Bytes)
    → Spells k cs
    → n < length cs
    → alphabet_value (get_or cs n 0) ≡ some (k + n)
Spells-at k n [] h lt = absurd (omega arith)
Spells-at k zero (c ∷ cs) h lt = h.0 ∙ ap some (omega arith)
Spells-at k (suc n) (c ∷ cs) h lt = Spells-at (suc k) n cs h.1 (omega arith) ∙ ap some (omega arith)

alphabet_value-letter : (d : ℕ) → d < 58 → alphabet_value (get_or alphabet d 0) ≡ some d
alphabet_value-letter d h = Spells-at 0 d alphabet alphabet-Spells h ∙ ap some (omega arith)

length-letters : (ds : List ℕ) → length (letters ds) ≡ length ds
unfolding letters
length-letters [] = refl
length-letters (d ∷ ds) = ap suc (length-letters ds)

values-letters : (ds : List ℕ) → Below 58 ds → values (letters ds) ≡ ok ds
unfolding values letters value_before
values-letters [] h = refl
values-letters (d ∷ ds) h = rw (alphabet_value-letter d h.0, values-letters ds h.1) refl

zero_letter : (d : ℕ) → alphabet_value b'1' ≡ some d → d ≡ 0
unfolding alphabet_value
zero_letter d e = ground arith

letters-NotFirst : (ds : List ℕ) → Below 58 ds → NoLead ds → NotFirst b'1' (letters ds)
unfolding letters
letters-NotFirst [] h n = tt
letters-NotFirst (d ∷ ds) h n = elim (Bool-cases (get_or alphabet d 0 == b'1')) [
  | inr z ↦ z
  | inl z ↦
      let one : get_or alphabet d 0 ≡ b'1' = ground arith in
      absurd (n (zero_letter d (ap alphabet_value (sym one) ∙ alphabet_value-letter d h.0)))
]

value-replicate :
    (base n : ℕ)
    → (value base (replicate n 0) ≡ 0)
      × ZeroFrom 0 (replicate n 0)
      × (length {A = ℕ} (replicate n 0) ≡ n)
unfolding value
value-replicate base zero = (refl, tt, refl)
value-replicate base (suc n) =
    let (v, z, l) = value-replicate base n in
    (omega (arith, ap (λ (t : ℕ). base * t) v), (refl, z), ap suc l)

Below-replicate : (base n : ℕ) → 0 < base → Below base (replicate n 0)
Below-replicate base zero h = tt
Below-replicate base (suc n) h = (h, Below-replicate base n h)

start-Holds : (base n : ℕ) → 0 < base → Holds base 0 n (replicate n 0, 0)
start-Holds base n h =
    let (v, z, l) = value-replicate base n in
    record { same_value = v; in_base = Below-replicate base n h; zeros = z; size = l }

-- `base58_decode` of what `base58_encode` writes for any bytes returns the bytes.
pub base58_decode-base58_encode : (d : Bytes) → IsBytes d → base58_decode (base58_encode d) ≡ ok d
unfolding base58_encode base58_decode
base58_decode-base58_encode d h =
    let rest : Bytes = skip_front 0 d in
    let n : ℕ = length rest * 138 / 100 + 2 in
    let ds : List ℕ = found_digits (convert 58 256 rest (replicate n 0, 0)) in
    let k : ℕ = length ds * 733 / 1000 + 2 in
    let small : Below 256 rest = Below-skip_front 256 d h in
    let (same, digits, lead) = found_digits-Holds 58 (big_endian 256 0 rest) n _ (
      convert-Holds 58 256 n (omega arith) (omega arith) rest 0 _ (start-Holds 58 n (omega arith))
        (bytes-room rest small)) in
    let (same', digits', lead') = found_digits-Holds 256 (big_endian 58 0 ds) k _ (
      convert-Holds 256 58 k (omega arith) (omega arith) ds 0 _ (start-Holds 256 k (omega arith))
        (digits-room ds digits)) in
    let back : found_digits (convert 256 58 ds (replicate k 0, 0)) ≡ rest =
      big_endian_unique 256 _ rest (omega arith) digits' small lead' (skip_front-NoLead d)
        (same' ∙ same) in
    let first : NotFirst b'1' (letters ds) = letters-NotFirst ds digits lead in
    rw
      (
        skip_front-replicate b'1' (count_front 0 d) (letters ds) first,
        count_front-replicate b'1' (count_front 0 d) (letters ds) first,
        values-letters ds digits,
        length-letters ds,
        back,
      )
      (ap ok (front 0 d))
