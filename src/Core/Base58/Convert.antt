-- ===== src/Core/Base58/Convert.antt =====
-- src/core/base58.cpp: the loops change the base of a number.
use bitcoin_toolkit.Core.Base58.{carry_loop, convert}
use bitcoin_toolkit.Core.Base58.Digits.{carry_loop-IsProduct, ZeroFrom, Below, value}
use bitcoin_toolkit.Common.{
  refl, ◌∙◌, subst, ◌-◌, length, [], ◌+◌, ◌^◌, ◌≡◌, arith, ◌*◌, ◌≤◌, ◌∷◌, ◌<◌, List, ℕ,
}

-- The number whose digits these are, the first digit first, behind those of `acc`.
unfoldable pub big_endian : ℕ → ℕ → List ℕ → ℕ
big_endian base acc [] = acc
big_endian base acc (v ∷ vs) = big_endian base (base * acc + v) vs

pub acc-le-big_endian : (base acc : ℕ) (vs : List ℕ) → 0 < base → acc ≤ big_endian base acc vs
unfolding big_endian
acc-le-big_endian base acc [] h = omega arith
acc-le-big_endian base acc (v ∷ vs) h =
    let next : acc ≤ base * acc + v = grind arith in
    omega (arith, acc-le-big_endian base (base * acc + v) vs h)

-- A buffer of `n` digits that holds a number.
pub record Holds (base total n : ℕ) (st : List ℕ × ℕ) : Type 0 where
  pub same_value : value base st.0 ≡ total
  pub in_base : Below base st.0
  pub zeros : ZeroFrom st.1 st.0
  pub size : length st.0 ≡ n

module _ (base mul n : ℕ) (h : 0 < base) (h' : 0 < mul) where
  pub convert-Holds :
      (vs : List ℕ) (acc : ℕ) (st : List ℕ × ℕ)
      → Holds base acc n st
      → big_endian mul acc vs < base ^ n
      → Holds base (big_endian mul acc vs) n (convert base mul vs st)
  unfolding convert big_endian
  convert-Holds [] acc st s room = s
  convert-Holds (v ∷ vs) acc st s room =
      let start : ZeroFrom (st.1 - 0) st.0 =
        subst (λ (k : ℕ). ZeroFrom k st.0) (omega arith) s.zeros in
      let now : mul * value base st.0 + v ≡ mul * acc + v = rw s.same_value refl in
      let small : mul * value base st.0 + v < base ^ length st.0 =
        rw (now, s.size) (omega (arith, acc-le-big_endian mul (mul * acc + v) vs h')) in
      let p = carry_loop-IsProduct base mul h st.1 v 0 st.0 s.in_base start small in
      convert-Holds vs (mul * acc + v) (carry_loop base mul st.1 v 0 st.0)
        (record {
          same_value = p.same_value ∙ now;
          in_base = p.in_base;
          zeros =
              subst (λ (k : ℕ). ZeroFrom k (carry_loop base mul st.1 v 0 st.0).0) (omega arith)
                p.zeros;
          size = p.same_size ∙ s.size;
        })
        room
