-- ===== src/Chain/Script/Classes.antt =====
-- The three readings of an address agree.
use bitcoin_toolkit.Common.{
  ==_iff, refl, sym, Option-cases, length-drop, ◌&&◌, arith, inl, ◌∙◌, ◌==◌, drop, inr, ap, length,
  ok, bytes_eq, err, Bool-cases, true, ℕ, ◌≢◌, ◌≡◌, Bool, Result, Bytes, none, some, Option,
}
use Prim.Native.String.{String}
use bitcoin_toolkit.Chain.Script.{
  AddressCodec, bc, p2pkh_ver, p2sh_ver, at_is, program_script, payload_script, program_kind,
  payload_kind, program_mainnet, payload_mainnet, by_encoding, classify_mainnet_address,
  is_mainnet_address, script_from_address, dust_sats,
}
use bitcoin_toolkit.Chain.Script.Standard.{
  Standard, p2pkh, p2sh, p2wpkh, p2wsh, p2tr, script_of, IsSized, kind_of, dust_of,
  dust_sats-script_of,
}

-- A standard script, its kind, and a mainnet address.
abbrev pub IsClass : Option String → Bool → Bytes → Type 0
IsClass k m sc =
    (t : Standard) × (sc ≡ script_of t) × IsSized t × (k ≡ some (kind_of t)) × (m ≡ true)

some-eq : {A : Type 0} {a b : A} → some a ≡ some b → a ≡ b
some-eq e = cc

none-ne : {A : Type 0} {a : A} → none ≢ some a
none-ne e = cc

program-IsClass :
    (hrp : Bytes) (w : ℕ) (p sc : Bytes)
    → program_script (hrp, w, p) ≡ some sc
    → IsClass (program_kind (hrp, w, p)) (program_mainnet (hrp, w, p)) sc
unfolding program_script program_kind program_mainnet script_of IsSized kind_of
program-IsClass hrp w p sc e = elim (Bool-cases (bytes_eq hrp bc)) [
  | inr z ↦ absurd (none-ne (rw z at e))
  | inl z ↦ elim (Bool-cases ((w == 0) && (length p == 20))) [
    | inl y ↦ (p2wpkh p, sym (some-eq (rw (z, y) at e)), ground (arith, y), rw (z, y) refl, z)
    | inr y ↦ elim (Bool-cases ((w == 0) && (length p == 32))) [
      | inl x ↦
          (p2wsh p, sym (some-eq (rw (z, y, x) at e)), ground (arith, x), rw (z, y, x) refl, z)
      | inr x ↦ elim (Bool-cases ((w == 1) && (length p == 32))) [
        | inl v ↦ (
          p2tr p,
          sym (some-eq (rw (z, y, x, v) at e)),
          ground (arith, v),
          rw (z, y, x, v) refl,
          z,
        )
        | inr v ↦ absurd (none-ne (rw (z, y, x, v) at e))
      ]
    ]
  ]
]

payload-IsClass :
    (r : Result Bytes) (sc : Bytes)
    → payload_script r ≡ some sc
    → IsClass (payload_kind r) (payload_mainnet r) sc
unfolding payload_script payload_kind payload_mainnet script_of IsSized kind_of
payload-IsClass (err x) sc e = absurd (none-ne e)
payload-IsClass (ok payload) sc e =
    let size : (length payload ≡ 21) → length (drop 1 payload) ≡ 20 =
      λ h. omega (arith, h, length-drop {0} 1 payload) in
    elim (Bool-cases (length payload == 21)) [
      | inr z ↦ absurd (none-ne (rw z at e))
      | inl z ↦ elim (Bool-cases (at_is payload 0 p2pkh_ver)) [
        | inl y ↦ (
          p2pkh (drop 1 payload),
          sym (some-eq (rw (z, y) at e)),
          size ((==_iff (length payload) 21).0 z),
          rw (z, y) refl,
          rw (z, y) refl,
        )
        | inr y ↦ elim (Bool-cases (at_is payload 0 p2sh_ver)) [
          | inl x ↦ (
            p2sh (drop 1 payload),
            sym (some-eq (rw (z, y, x) at e)),
            size ((==_iff (length payload) 21).0 z),
            rw (z, y, x) refl,
            rw (z, y, x) refl,
          )
          | inr x ↦ absurd (none-ne (rw (z, y, x) at e))
        ]
      ]
    ]

module _ (C : AddressCodec) where
  address-IsClass :
      (addr sc : Bytes)
      → script_from_address C addr ≡ some sc
      → IsClass (classify_mainnet_address C addr) (is_mainnet_address C addr) sc
  unfolding script_from_address classify_mainnet_address is_mainnet_address by_encoding
  address-IsClass addr sc e = elim (Bool-cases (length addr == 0)) [
    | inl z ↦ absurd (none-ne (rw z at e))
    | inr z ↦ elim (Option-cases (C.segwit_decode addr)) [
      | inr ((hrp, w, p), d) ↦ rw (z, d) (program-IsClass hrp w p sc (rw (z, d) at e))
      | inl d ↦ rw (z, d) (payload-IsClass (C.base58check_decode addr) sc (rw (z, d) at e))
    ]
  ]

  -- Where `script_from_address` finds a script for an address, under any encodings, the script is a
  -- standard one with a hash or key of its size, `classify_mainnet_address` names its kind,
  -- `is_mainnet_address` holds, and `dust_sats` of the script is the amount of its kind.
  pub script_from_address-Standard :
      (addr sc : Bytes)
      → script_from_address C addr ≡ some sc
      → (t : Standard) × (sc ≡ script_of t)
        × IsSized t
        × (classify_mainnet_address C addr ≡ some (kind_of t))
        × (is_mainnet_address C addr ≡ true)
        × (dust_sats sc ≡ dust_of t)
  script_from_address-Standard addr sc e =
      let (t, s, z, k, m) = address-IsClass addr sc e in
      (t, s, z, k, m, ap dust_sats s ∙ dust_sats-script_of t z)
