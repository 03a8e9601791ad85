-- ===== src/Core/Base58/Digits.antt =====
-- src/core/base58.cpp: the loop over k is a multiplication and an addition.
use native.Mathlib.Nat.{pow-zero, pow-succ', div-add-mod, mod-lt}
-- The number whose digits these are, the last digit first.
use bitcoin_toolkit.Core.Base58.{carry_loop}
use bitcoin_toolkit.Common.{
  false, ◌∙◌, ap, ◌%◌, sym, ◌/◌, subst, inr, inl, ltb, ◌||◌, ◌==◌, not, Bool-cases, ◌^◌, ◌≤◌,
  length, ◌-◌, refl, zero, [], ◌*◌, arith, suc, ◌+◌, ◌≡◌, All, ◌∷◌, ◌<◌, List, ℕ,
}

unfoldable pub value : ℕ → List ℕ → ℕ
value base [] = 0
value base (d ∷ ds) = d + base * value base ds

-- Digits that are zero from a position on.
abbrev pub ZeroFrom : ℕ → List ℕ → Type 0
ZeroFrom len [] = Unit
ZeroFrom zero (d ∷ ds) = (d ≡ 0) × ZeroFrom zero ds
ZeroFrom (suc len) (d ∷ ds) = ZeroFrom len ds

abbrev pub Below : ℕ → List ℕ → Type 0
Below base ds = All (λ (d : ℕ). d < base) ds

pub value-zeros : (base : ℕ) (ds : List ℕ) → ZeroFrom 0 ds → value base ds ≡ 0
unfolding value
value-zeros base [] h = refl
value-zeros base (d ∷ ds) h = rw (h.0, value-zeros base ds h.1) (omega arith)

-- One digit of the product and the sum.
one_digit :
    (base mul d carry v q r : ℕ)
    → base * q + r ≡ carry + mul * d
    → r + base * (mul * v + q) ≡ mul * (d + base * v) + carry
one_digit base mul d carry v q r e = grind arith

small_rest : (base x r p : ℕ) → 0 < base → r + base * x < base * p → x < p
small_rest base x r p h l = grind arith

pub record IsProduct (base total j : ℕ) (ds : List ℕ) (r : List ℕ × ℕ) : Type 0 where
  pub same_value : value base r.0 ≡ total
  pub in_base : Below base r.0
  pub zeros : ZeroFrom (r.1 - j) r.0
  pub same_size : length r.0 ≡ length ds
  pub ahead : j ≤ r.1

ZeroFrom-next : (n d : ℕ) (ds : List ℕ) → ZeroFrom n (d ∷ ds) → ZeroFrom (n - 1) ds
ZeroFrom-next zero d ds z = z.1
ZeroFrom-next (suc n) d ds z = subst (λ (k : ℕ). ZeroFrom k ds) (omega arith) z

ZeroFrom-cons : (n m d : ℕ) (ds : List ℕ) → n ≡ suc m → ZeroFrom m ds → ZeroFrom n (d ∷ ds)
ZeroFrom-cons n m d ds e z = subst (λ (k : ℕ). ZeroFrom k (d ∷ ds)) (sym e) z

module _ (base mul : ℕ) (positive : 0 < base) where
  went :
      (len carry j d : ℕ) (ds : List ℕ) (out : List ℕ × ℕ)
      → (carry + mul * d) % base + base * (mul * value base ds + (carry + mul * d) / base)
        ≡ mul * (d + base * value base ds) + carry
      → IsProduct base (mul * value base ds + (carry + mul * d) / base) (suc j) ds out
      → IsProduct base
          (mul * value base (d ∷ ds) + carry)
          j
          (d ∷ ds)
          ((carry + mul * d) % base ∷ out.0, out.1)
  unfolding value
  went len carry j d ds out whole rest = record {
    same_value = ap (λ (n : ℕ). (carry + mul * d) % base + base * n) rest.same_value ∙ whole;
    in_base = (mod-lt (carry + mul * d) positive, rest.in_base);
    zeros =
        ZeroFrom-cons (out.1 - j) (out.1 - suc j) ((carry + mul * d) % base) out.0
          (omega (arith, rest.ahead)) rest.zeros;
    same_size = ap suc rest.same_size;
    ahead = omega (arith, rest.ahead);
  }

  stopped :
      (len carry j d : ℕ) (ds : List ℕ)
      → Below base (d ∷ ds)
      → ZeroFrom (len - j) (d ∷ ds)
      → (not (carry == 0) || ltb j len) ≡ false
      → IsProduct base (mul * value base (d ∷ ds) + carry) j (d ∷ ds) (d ∷ ds, j)
  stopped len carry j d ds b z stop =
      let none_left : len - j ≡ 0 = ground arith in
      let all : ZeroFrom 0 (d ∷ ds) = subst (λ (k : ℕ). ZeroFrom k (d ∷ ds)) none_left z in
      let again : 0 ≡ j - j = omega arith in
      let no_carry : carry ≡ 0 = ground arith in
      let nought : value base (d ∷ ds) ≡ 0 = value-zeros base (d ∷ ds) all in
      record {
        same_value = rw (nought, no_carry) (omega arith);
        in_base = b;
        zeros = subst (λ (k : ℕ). ZeroFrom k (d ∷ ds)) again all;
        same_size = refl;
        ahead = omega arith;
      }

  -- The digits from `j` on become those of the product and the sum, where the buffer has room.
  pub carry_loop-IsProduct :
      (len carry j : ℕ) (ds : List ℕ)
      → Below base ds
      → ZeroFrom (len - j) ds
      → mul * value base ds + carry < base ^ length ds
      → IsProduct base (mul * value base ds + carry) j ds (carry_loop base mul len carry j ds)
  unfolding carry_loop value
  carry_loop-IsProduct len carry j [] b z h = record {
    same_value = omega (arith, pow-zero base);
    in_base = tt;
    zeros = tt;
    same_size = refl;
    ahead = omega arith;
  }
  carry_loop-IsProduct len carry j (d ∷ ds) b z h =
      let q : ℕ = (carry + mul * d) / base in
      let r : ℕ = (carry + mul * d) % base in
      let v : ℕ = value base ds in
      let whole : r + base * (mul * v + q) ≡ mul * (d + base * v) + carry =
        one_digit base mul d carry v q r (div-add-mod (carry + mul * d) base) in
      let room : mul * v + q < base ^ length ds =
        small_rest base (mul * v + q) r (base ^ length ds) positive
          (omega (arith, pow-succ' base (length ds))) in
      let next : ZeroFrom (len - suc j) ds =
        subst (λ (k : ℕ). ZeroFrom k ds) (omega arith) (ZeroFrom-next (len - j) d ds z) in
      let out : List ℕ × ℕ = carry_loop base mul len q (suc j) ds in
      let rest : IsProduct base (mul * v + q) (suc j) ds out =
        carry_loop-IsProduct len q (suc j) ds b.1 next room in
      elim (Bool-cases (not (carry == 0) || ltb j len)) [
        | inl go ↦ rw go (went len carry j d ds out whole rest)
        | inr stop ↦ rw stop (stopped len carry j d ds b z stop)
      ]
