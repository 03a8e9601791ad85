-- ===== src/Core/Bech32/Groups.antt =====
-- src/core/bech32.cpp: `convertbits` from bytes to groups of five bits and back. When the encoder has
-- put out groups and the decoder has taken them, the bits that both keep are no byte or one.
use bitcoin_toolkit.Core.Bech32.{convertbits, last_group, put_out, convert_loop, groups_before}
use bitcoin_toolkit.Common.{
  IsBytes, ap₂, append_assoc, sym, refl, ◌∙◌, ◌-◌, ap, none, arith, ◌+◌, ◌*◌, some, ◌^◌, ◌∷◌, ◌%◌,
  false, [], ◌++◌, ◌/◌, ◌<◌, ◌≡◌, true, Option, Bool, Bytes, ℕ,
}
use bitcoin_toolkit.Common.Options.{◌>>=◌}

module _ (from to : ℕ) where
  convert_loop-cons :
      (pad : Bool) (acc bits v : ℕ) (vs : Bytes)
      → v / 2 ^ from ≡ 0
      → convert_loop from to pad acc bits (v ∷ vs)
        ≡ groups_before from to
            (put_out from to
              ((acc * 2 ^ from + v) % 2 ^ (from + to - 1))
              (bits + from)
              (bits + from)).0
            (convert_loop from to pad
              ((acc * 2 ^ from + v) % 2 ^ (from + to - 1))
              (put_out from to
                ((acc * 2 ^ from + v) % 2 ^ (from + to - 1))
                (bits + from)
                (bits + from)).1
              vs)
  unfolding convert_loop
  convert_loop-cons pad acc bits v vs h = rw h refl

-- A step of the encoder, with what the decoder makes of its groups.
chain :
    (o : Option Bytes) (gs out r : Bytes) (f f' : Bytes → Option Bytes)
    → ((g : Bytes) → f (gs ++ g) ≡ groups_before 5 8 out (f' g))
    → (o >>= f') ≡ some r
    → (groups_before 8 5 gs o >>= f) ≡ some (out ++ r)
unfolding groups_before
chain none gs out r f f' h e = absurd (ground (arith, e))
chain (some g) gs out r f f' h e = h g ∙ ap (groups_before 5 8 out) e

nothing_before : (o : Option Bytes) → groups_before 5 8 [] o ≡ o
unfolding groups_before
nothing_before none = refl
nothing_before (some g) = refl

append_before :
    (a b : Bytes) (o : Option Bytes)
    → groups_before 5 8 a (groups_before 5 8 b o) ≡ groups_before 5 8 (a ++ b) o
unfolding groups_before
append_before a b none = refl
append_before a b (some g) = ap some (sym (append_assoc a b g))

abbrev Even : Bytes → Type 0
Even vs =
    (acc acc' : ℕ) → (convert_loop 8 5 true acc 0 vs >>= convert_loop 5 8 false acc' 0) ≡ some vs

-- The byte `w` is still to come.
abbrev Goes : ℕ → ℕ → Bytes → Type 0
Goes e d vs =
    (acc acc' w : ℕ)
    → w ≡ acc' % 2 ^ d * 2 ^ e + acc % 2 ^ e
    → (convert_loop 8 5 true acc e vs >>= convert_loop 5 8 false acc' d) ≡ some (w ∷ vs)

Goes-nil_3 : Goes 3 5 []
unfolding convert_loop last_group put_out groups_before
Goes-nil_3 acc acc' w e =
    let g : ℕ = acc * 2 ^ 2 % 2 ^ 5 in
    let b : ℕ = (acc' * 2 ^ 5 + g) % 2 ^ 12 in
    let small : g / 2 ^ 5 ≡ 0 = omega arith in
    let no_rest : b * 2 ^ 6 % 2 ^ 8 ≡ 0 = omega arith in
    let out : b / 2 ^ 2 % 2 ^ 8 ≡ w = omega arith in rw (small, no_rest, out) refl

Goes-nil_1 : Goes 1 7 []
unfolding convert_loop last_group put_out groups_before
Goes-nil_1 acc acc' w e =
    let g : ℕ = acc * 2 ^ 4 % 2 ^ 5 in
    let b : ℕ = (acc' * 2 ^ 5 + g) % 2 ^ 12 in
    let small : g / 2 ^ 5 ≡ 0 = omega arith in
    let no_rest : b * 2 ^ 4 % 2 ^ 8 ≡ 0 = omega arith in
    let out : b / 2 ^ 4 % 2 ^ 8 ≡ w = omega arith in rw (small, no_rest, out) refl

Goes-nil_4 : Goes 4 4 []
unfolding convert_loop last_group put_out groups_before
Goes-nil_4 acc acc' w e =
    let g : ℕ = acc * 2 ^ 1 % 2 ^ 5 in
    let b : ℕ = (acc' * 2 ^ 5 + g) % 2 ^ 12 in
    let small : g / 2 ^ 5 ≡ 0 = omega arith in
    let no_rest : b * 2 ^ 7 % 2 ^ 8 ≡ 0 = omega arith in
    let out : b / 2 ^ 1 % 2 ^ 8 ≡ w = omega arith in rw (small, no_rest, out) refl

Goes-nil_2 : Goes 2 6 []
unfolding convert_loop last_group put_out groups_before
Goes-nil_2 acc acc' w e =
    let g : ℕ = acc * 2 ^ 3 % 2 ^ 5 in
    let b : ℕ = (acc' * 2 ^ 5 + g) % 2 ^ 12 in
    let small : g / 2 ^ 5 ≡ 0 = omega arith in
    let no_rest : b * 2 ^ 5 % 2 ^ 8 ≡ 0 = omega arith in
    let out : b / 2 ^ 3 % 2 ^ 8 ≡ w = omega arith in rw (small, no_rest, out) refl

Even-nil : Even []
unfolding convert_loop last_group groups_before
Even-nil acc acc' = let no_rest : acc' * 2 ^ 8 % 2 ^ 8 ≡ 0 = omega arith in rw no_rest refl

Goes-cons_3 : (v : ℕ) (vs : Bytes) → v < 256 → Goes 1 7 vs → Goes 3 5 (v ∷ vs)
unfolding put_out
Goes-cons_3 v vs h next acc acc' w e =
    let a : ℕ = (acc * 2 ^ 8 + v) % 2 ^ 12 in
    let g1 : ℕ = a / 2 ^ 6 % 2 ^ 5 in
    let g2 : ℕ = a / 2 ^ 1 % 2 ^ 5 in
    let b : ℕ = (acc' * 2 ^ 5 + g1) % 2 ^ 12 in
    let c : ℕ = (b * 2 ^ 5 + g2) % 2 ^ 12 in
    let out : b / 2 ^ 2 % 2 ^ 8 ≡ w = omega arith in
    let left : v ≡ c % 2 ^ 7 * 2 ^ 1 + a % 2 ^ 1 = omega arith in
    rw (convert_loop-cons 8 5 true acc 3 v vs (omega arith)) (
      chain _ (g1 ∷ g2 ∷ []) (w ∷ []) (v ∷ vs) _ (convert_loop 5 8 false c 7)
        (λ g.
          convert_loop-cons 5 8 false acc' 5 g1 (g2 ∷ g) (omega arith)
          ∙ ap (groups_before 5 8 (b / 2 ^ 2 % 2 ^ 8 ∷ []))
              (convert_loop-cons 5 8 false b 2 g2 g (omega arith) ∙ nothing_before _)
          ∙ ap (λ (t : ℕ). groups_before 5 8 (t ∷ []) (convert_loop 5 8 false c 7 g)) out)
        (next a c v left))

Goes-cons_1 : (v : ℕ) (vs : Bytes) → v < 256 → Goes 4 4 vs → Goes 1 7 (v ∷ vs)
unfolding put_out
Goes-cons_1 v vs h next acc acc' w e =
    let a : ℕ = (acc * 2 ^ 8 + v) % 2 ^ 12 in
    let g1 : ℕ = a / 2 ^ 4 % 2 ^ 5 in
    let b : ℕ = (acc' * 2 ^ 5 + g1) % 2 ^ 12 in
    let out : b / 2 ^ 4 % 2 ^ 8 ≡ w = omega arith in
    let left : v ≡ b % 2 ^ 4 * 2 ^ 4 + a % 2 ^ 4 = omega arith in
    rw (convert_loop-cons 8 5 true acc 1 v vs (omega arith)) (
      chain _ (g1 ∷ []) (w ∷ []) (v ∷ vs) _ (convert_loop 5 8 false b 4)
        (λ g.
          convert_loop-cons 5 8 false acc' 7 g1 g (omega arith)
          ∙ ap (λ (t : ℕ). groups_before 5 8 (t ∷ []) (convert_loop 5 8 false b 4 g)) out)
        (next a b v left))

Goes-cons_4 : (v : ℕ) (vs : Bytes) → v < 256 → Goes 2 6 vs → Goes 4 4 (v ∷ vs)
unfolding put_out
Goes-cons_4 v vs h next acc acc' w e =
    let a : ℕ = (acc * 2 ^ 8 + v) % 2 ^ 12 in
    let g1 : ℕ = a / 2 ^ 7 % 2 ^ 5 in
    let g2 : ℕ = a / 2 ^ 2 % 2 ^ 5 in
    let b : ℕ = (acc' * 2 ^ 5 + g1) % 2 ^ 12 in
    let c : ℕ = (b * 2 ^ 5 + g2) % 2 ^ 12 in
    let out : b / 2 ^ 1 % 2 ^ 8 ≡ w = omega arith in
    let left : v ≡ c % 2 ^ 6 * 2 ^ 2 + a % 2 ^ 2 = omega arith in
    rw (convert_loop-cons 8 5 true acc 4 v vs (omega arith)) (
      chain _ (g1 ∷ g2 ∷ []) (w ∷ []) (v ∷ vs) _ (convert_loop 5 8 false c 6)
        (λ g.
          convert_loop-cons 5 8 false acc' 4 g1 (g2 ∷ g) (omega arith)
          ∙ ap (groups_before 5 8 (b / 2 ^ 1 % 2 ^ 8 ∷ []))
              (convert_loop-cons 5 8 false b 1 g2 g (omega arith) ∙ nothing_before _)
          ∙ ap (λ (t : ℕ). groups_before 5 8 (t ∷ []) (convert_loop 5 8 false c 6 g)) out)
        (next a c v left))

Goes-cons_2 : (v : ℕ) (vs : Bytes) → v < 256 → Even vs → Goes 2 6 (v ∷ vs)
unfolding put_out
Goes-cons_2 v vs h next acc acc' w e =
    let a : ℕ = (acc * 2 ^ 8 + v) % 2 ^ 12 in
    let g1 : ℕ = a / 2 ^ 5 % 2 ^ 5 in
    let g2 : ℕ = a / 2 ^ 0 % 2 ^ 5 in
    let b : ℕ = (acc' * 2 ^ 5 + g1) % 2 ^ 12 in
    let c : ℕ = (b * 2 ^ 5 + g2) % 2 ^ 12 in
    let out : b / 2 ^ 3 % 2 ^ 8 ≡ w = omega arith in
    let out' : c / 2 ^ 0 % 2 ^ 8 ≡ v = omega arith in
    rw (convert_loop-cons 8 5 true acc 2 v vs (omega arith)) (
      chain _ (g1 ∷ g2 ∷ []) (w ∷ v ∷ []) vs _ (convert_loop 5 8 false c 0)
        (λ g.
          convert_loop-cons 5 8 false acc' 6 g1 (g2 ∷ g) (omega arith)
          ∙ ap (groups_before 5 8 (b / 2 ^ 3 % 2 ^ 8 ∷ []))
              (convert_loop-cons 5 8 false b 3 g2 g (omega arith))
          ∙ append_before (b / 2 ^ 3 % 2 ^ 8 ∷ []) (c / 2 ^ 0 % 2 ^ 8 ∷ []) _
          ∙ ap₂ (λ (t t' : ℕ). groups_before 5 8 (t ∷ t' ∷ []) (convert_loop 5 8 false c 0 g)) out
              out')
        (next a c))

Even-cons : (v : ℕ) (vs : Bytes) → v < 256 → Goes 3 5 vs → Even (v ∷ vs)
unfolding put_out
Even-cons v vs h next acc acc' =
    let a : ℕ = (acc * 2 ^ 8 + v) % 2 ^ 12 in
    let g1 : ℕ = a / 2 ^ 3 % 2 ^ 5 in
    let b : ℕ = (acc' * 2 ^ 5 + g1) % 2 ^ 12 in
    let left : v ≡ b % 2 ^ 5 * 2 ^ 3 + a % 2 ^ 3 = omega arith in
    rw (convert_loop-cons 8 5 true acc 0 v vs (omega arith)) (
      chain _ (g1 ∷ []) [] (v ∷ vs) _ (convert_loop 5 8 false b 5)
        (λ g. convert_loop-cons 5 8 false acc' 0 g1 g (omega arith)) (next a b v left))

-- What both keep comes round in this order.
all_states :
    (vs : Bytes) → IsBytes vs → Even vs × Goes 3 5 vs × Goes 1 7 vs × Goes 4 4 vs × Goes 2 6 vs
all_states [] h = (Even-nil, Goes-nil_3, Goes-nil_1, Goes-nil_4, Goes-nil_2)
all_states (v ∷ vs) (h, hs) =
    let (s0, s3, s1, s4, s2) = all_states vs hs in
    (
      Even-cons v vs h s3,
      Goes-cons_3 v vs h s1,
      Goes-cons_1 v vs h s4,
      Goes-cons_4 v vs h s2,
      Goes-cons_2 v vs h s0,
    )

-- For any bytes, `convertbits` to groups of five bits, padded, returns groups from which `convertbits` to
-- bytes, which checks the padding, returns the bytes.
pub convertbits-convertbits :
    (p : Bytes) → IsBytes p → (convertbits 8 5 p true >>= (λ g. convertbits 5 8 g false)) ≡ some p
unfolding convertbits
convertbits-convertbits p h = (all_states p h).0 0 0
