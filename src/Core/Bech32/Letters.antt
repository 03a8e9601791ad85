-- ===== src/Core/Bech32/Letters.antt =====
-- src/core/bech32.cpp: the letters of a bech32 text, written and read.
use bitcoin_toolkit.Core.Base58.Digits.{Below}
use bitcoin_toolkit.Core.Bech32.{
  charset, lower, later_or, index_of, case_flags, lowered, some_above_31, some_bad_hrp_char,
  last_one, charset_letters, charset_values, charset_rev, bad_hrp_char,
}
use bitcoin_toolkit.Common.{
  inr, true, inl, Bool-cases, ◌||◌, ltb, zero, ◌&&◌, refl, ◌∙◌, ◌+◌, suc, leb, ap, none, [], some,
  arith, Bool, ◌++◌, get_or, ◌∷◌, length, false, ◌<◌, Bytes, All, ◌==◌, ◌≡◌, ℕ,
}

-- Allowed in the readable part: not upper case.
abbrev pub Plain : ℕ → Type 0
Plain c = bad_hrp_char c ≡ false

abbrev IsLetter : ℕ → Type 0
IsLetter c = Plain c × ((c == b'1') ≡ false)

charset-letters : All IsLetter charset
unfolding bad_hrp_char
charset-letters = ground arith

get_or-IsLetter : (cs : Bytes) (n : ℕ) → All IsLetter cs → n < length cs → IsLetter (get_or cs n 0)
get_or-IsLetter [] n h lt = absurd (omega arith)
get_or-IsLetter (c ∷ cs) zero h lt = h.0
get_or-IsLetter (c ∷ cs) (suc n) h lt = get_or-IsLetter cs n h.1 (omega arith)

-- The characters are the letters of the values from `k` on.
abbrev Spells : ℕ → Bytes → Type 0
Spells k [] = Unit
Spells k (c ∷ cs) = (charset_rev c ≡ some k) × Spells (suc k) cs

charset-Spells : Spells 0 charset
unfolding charset_rev index_of lower
charset-Spells = ground arith

Spells-at :
    (k n : ℕ) (cs : Bytes)
    → Spells k cs
    → n < length cs
    → charset_rev (get_or cs n 0) ≡ some (k + n)
Spells-at k n [] h lt = absurd (omega arith)
Spells-at k zero (c ∷ cs) h lt = h.0 ∙ ap some (omega arith)
Spells-at k (suc n) (c ∷ cs) h lt = Spells-at (suc k) n cs h.1 (omega arith) ∙ ap some (omega arith)

charset_rev-letter : (v : ℕ) → v < 32 → charset_rev (get_or charset v 0) ≡ some v
charset_rev-letter v h = Spells-at 0 v charset charset-Spells h ∙ ap some (omega arith)

pub charset_values-charset_letters :
    (vs : Bytes) → Below 32 vs → charset_values (charset_letters vs) ≡ some vs
unfolding charset_values charset_letters
charset_values-charset_letters [] h = refl
charset_values-charset_letters (v ∷ vs) (h, hs) =
    rw (charset_rev-letter v h, charset_values-charset_letters vs hs) refl

pub charset_letters-Plain : (vs : Bytes) → Below 32 vs → All Plain (charset_letters vs)
unfolding charset_letters
charset_letters-Plain [] h = tt
charset_letters-Plain (v ∷ vs) (h, hs) =
    ((get_or-IsLetter charset v charset-letters h).0, charset_letters-Plain vs hs)

last_one-charset_letters :
    (vs : Bytes) (i : ℕ) → Below 32 vs → last_one i (charset_letters vs) ≡ none
unfolding charset_letters last_one later_or
last_one-charset_letters [] i h = refl
last_one-charset_letters (v ∷ vs) i (h, hs) =
    rw (last_one-charset_letters vs (suc i) hs, (get_or-IsLetter charset v charset-letters h).1)
      refl

-- The separator is the last 1, whatever stands before it.
pub last_one-separator :
    (hrp vs : Bytes) (i : ℕ)
    → Below 32 vs
    → last_one i (hrp ++ b'1' ∷ charset_letters vs) ≡ some (i + length hrp)
unfolding last_one later_or
last_one-separator [] vs i h = rw (last_one-charset_letters vs (suc i) h) (ap some (omega arith))
last_one-separator (c ∷ hrp) vs i h =
    rw (last_one-separator hrp vs (suc i) h) (ap some (omega arith))

pub charset_letters-append :
    (xs ys : Bytes) → charset_letters (xs ++ ys) ≡ charset_letters xs ++ charset_letters ys
unfolding charset_letters
charset_letters-append [] ys = refl
charset_letters-append (x ∷ xs) ys =
    ap (λ (t : Bytes). get_or charset x 0 ∷ t) (charset_letters-append xs ys)

pub length-charset_letters : (vs : Bytes) → length (charset_letters vs) ≡ length vs
unfolding charset_letters
length-charset_letters [] = refl
length-charset_letters (v ∷ vs) = ap suc (length-charset_letters vs)

pub some_bad_hrp_char-Plain : (cs : Bytes) → some_bad_hrp_char cs ≡ false → All Plain cs
unfolding some_bad_hrp_char
some_bad_hrp_char-Plain [] h = tt
some_bad_hrp_char-Plain (c ∷ cs) h = (ground arith, some_bad_hrp_char-Plain cs (ground arith))

pub some_above_31-Below : (vs : Bytes) → some_above_31 vs ≡ false → Below 32 vs
unfolding some_above_31
some_above_31-Below [] h = tt
some_above_31-Below (v ∷ vs) h = (ground arith, some_above_31-Below vs (ground arith))

pub lowered-Plain : (cs : Bytes) → All Plain cs → lowered cs ≡ cs
unfolding lowered lower bad_hrp_char
lowered-Plain [] h = refl
lowered-Plain (c ∷ cs) (h, hs) =
    let small : (leb b'A' c && leb c b'Z') ≡ false = ground (arith, h) in
    rw (small, lowered-Plain cs hs) refl

pub case_flags-Plain :
    (cs : Bytes) (b : Bool)
    → All Plain cs
    → (b' : Bool) × (case_flags b false cs ≡ some (b', false))
unfolding case_flags bad_hrp_char
case_flags-Plain [] b h = (b, refl)
case_flags-Plain (c ∷ cs) b (h, hs) =
    let upper : (leb b'A' c && leb c b'Z') ≡ false = ground (arith, h) in
    let outside : (ltb c 33 || ltb 126 c) ≡ false = ground (arith, h) in
    elim (Bool-cases (leb b'a' c && leb c b'z')) [
      | inl z ↦ let (b', e) = case_flags-Plain cs true hs in (b', rw (outside, z) e)
      | inr z ↦ let (b', e) = case_flags-Plain cs b hs in (b', rw (outside, z, upper) e)
    ]
