-- ===== src/Core/Bech32/Programs.antt =====
-- src/core/bech32.cpp: what `segwit_decode` accepts is a witness program.
use bitcoin_toolkit.Core.Base58.Digits.{Below}
use bitcoin_toolkit.Core.Bech32.{
  bech32_decode, convertbits, segwit_decode, segwit_parts, Bech32Variant, program_ok, convert_loop,
  groups_before, last_group, put_out,
}
use bitcoin_toolkit.Common.{
  subst, refl, ltb, ◌∙◌, if◌then◌else◌, sym, false, true, IsBytes, ◌%◌, ◌||◌, ◌⊎◌, ◌+◌, ◌==◌, zero,
  ◌≡◌, ◌*◌, not, [], inr, length, Bool, ◌∷◌, ◌-◌, arith, ◌≤◌, ◌++◌, ◌/◌, ◌<◌, inl, leb, Bool-cases,
  none, suc, some, ◌^◌, Bytes, Option, ℕ,
}
use bitcoin_toolkit.Common.Options.{◌>>=◌}
use mathlib.Core.Option.{some-injective}
use native.Mathlib.Nat.{mod-lt, one-le-pow}

module _ (from to : ℕ) where
  positive : 0 < 2 ^ to
  positive = one-le-pow to 2 (omega arith)

  put_out-Below : (acc fuel bits : ℕ) → Below (2 ^ to) (put_out from to acc fuel bits).0
  unfolding put_out
  put_out-Below acc zero bits = tt
  put_out-Below acc (suc fuel) bits = elim (Bool-cases (leb to bits)) [
    | inl z ↦ rw z (mod-lt (acc / 2 ^ (bits - to)) positive, put_out-Below acc fuel (bits - to))
    | inr z ↦ rw z tt
  ]

  append-Below : (base : ℕ) (xs ys : Bytes) → Below base xs → Below base ys → Below base (xs ++ ys)
  append-Below base [] ys h k = k
  append-Below base (x ∷ xs) ys (h, hs) k = (h, append-Below base xs ys hs k)

  -- The digits that are returned, if any, are below the base.
  abbrev pub AllBelow : Option Bytes → Type 0
  AllBelow none = Unit
  AllBelow (some vs) = Below (2 ^ to) vs

  last_group-AllBelow : (pad : Bool) (acc bits : ℕ) → AllBelow (last_group from to pad acc bits)
  unfolding last_group
  last_group-AllBelow true acc bits = elim (Bool-cases (not (bits == 0))) [
    | inl z ↦ rw z (mod-lt (acc * 2 ^ (to - bits)) positive, tt)
    | inr z ↦ rw z tt
  ]
  last_group-AllBelow false acc bits =
      elim (Bool-cases (leb from bits || not (acc * 2 ^ (to - bits) % 2 ^ to == 0))) [
        | inl z ↦ rw z tt
        | inr z ↦ rw z tt
      ]

  groups_before-AllBelow :
      (gs : Bytes) (o : Option Bytes)
      → Below (2 ^ to) gs
      → AllBelow o
      → AllBelow (groups_before from to gs o)
  unfolding groups_before
  groups_before-AllBelow gs none h k = tt
  groups_before-AllBelow gs (some vs) h k = append-Below (2 ^ to) gs vs h k

  pub convert_loop-AllBelow :
      (pad : Bool) (acc bits : ℕ) (vs : Bytes) → AllBelow (convert_loop from to pad acc bits vs)
  unfolding convert_loop
  convert_loop-AllBelow pad acc bits [] = last_group-AllBelow pad acc bits
  convert_loop-AllBelow pad acc bits (v ∷ vs) =
      let acc' : ℕ = (acc * 2 ^ from + v) % 2 ^ (from + to - 1) in
      let out : Bytes × ℕ = put_out from to acc' (bits + from) (bits + from) in
      elim (Bool-cases (not (v / 2 ^ from == 0))) [
        | inl z ↦ rw z tt
        | inr z ↦ rw z (
            groups_before-AllBelow out.0 _ (put_out-Below acc' (bits + from) (bits + from))
              (convert_loop-AllBelow pad acc' out.1 vs))
      ]

-- A witness program, its version and the variant that goes with it.
pub record IsProgram (witver : ℕ) (program : Bytes) : Type 0 where
  pub version : witver ≤ 16
  pub least : 2 ≤ length program
  pub most : length program ≤ 40
  pub version_0 : witver ≡ 0 → (length program ≡ 20) ⊎ (length program ≡ 32)
  pub each_byte : IsBytes program

program_ok-IsProgram :
    (witver : ℕ) (variant : Bech32Variant) (program : Bytes)
    → witver ≤ 16
    → IsBytes program
    → program_ok witver variant program ≡ true
    → IsProgram witver program
unfolding program_ok
program_ok-IsProgram witver variant program v h e = record {
  version = v;
  least = ground arith;
  most = ground arith;
  version_0 = λ z. elim (Bool-cases (length program == 20)) [
    | inl t ↦ inl (ground arith)
    | inr f ↦ inr (ground arith)
  ];
  each_byte = h;
}

accepted : Bytes → ℕ → Bech32Variant → Option Bytes → Option (Bytes × ℕ × Bytes)
accepted hrp witver variant o = do
  program ← o
  if program_ok witver variant program then some (hrp, witver, program) else none

accepted-IsProgram :
    (hrp : Bytes) (witver : ℕ) (variant : Bech32Variant) (o : Option Bytes) (r : Bytes × ℕ × Bytes)
    → witver ≤ 16
    → AllBelow 5 8 o
    → accepted hrp witver variant o ≡ some r
    → IsProgram r.1 r.2
unfolding accepted
accepted-IsProgram hrp witver variant none r v h e = absurd (ground (arith, e))
accepted-IsProgram hrp witver variant (some program) r v h e =
    elim (Bool-cases (program_ok witver variant program)) [
      | inl z ↦
          let same : some (hrp, witver, program) ≡ some r = sym (rw z refl) ∙ e in
          let parts = some-injective _ _ same in
          subst (λ (t : Bytes × ℕ × Bytes). IsProgram t.1 t.2) parts
            (program_ok-IsProgram witver variant program v h z)
      | inr z ↦ absurd (ground arith)
    ]

segwit_parts-IsProgram :
    (p : Bytes × Bytes × Bech32Variant) (r : Bytes × ℕ × Bytes)
    → segwit_parts p ≡ some r
    → IsProgram r.1 r.2
unfolding segwit_parts convertbits accepted
segwit_parts-IsProgram (hrp, [], variant) r e = absurd (ground (arith, e))
segwit_parts-IsProgram (hrp, witver ∷ prog5, variant) r e = elim (Bool-cases (ltb 16 witver)) [
  | inl z ↦ absurd (ground arith)
  | inr z ↦
      accepted-IsProgram hrp witver variant (convertbits 5 8 prog5 false) r (ground arith)
        (convert_loop-AllBelow 5 8 false 0 0 prog5) (sym (rw z refl) ∙ e)
]

-- What `segwit_decode` returns, for any text, is a witness program: the version is at most 16, and the
-- program is 2 to 40 bytes, for version 0 exactly 20 or 32.
pub segwit_decode-IsProgram :
    (addr : Bytes) (r : Bytes × ℕ × Bytes) → segwit_decode addr ≡ some r → IsProgram r.1 r.2
unfolding segwit_decode
segwit_decode-IsProgram addr r e = on_decoded (bech32_decode addr) r e
  where
    on_decoded :
        (o : Option (Bytes × Bytes × Bech32Variant)) (r : Bytes × ℕ × Bytes)
        → (o >>= segwit_parts) ≡ some r
        → IsProgram r.1 r.2
    on_decoded none r e = absurd (ground (arith, e))
    on_decoded (some p) r e = segwit_parts-IsProgram p r e
