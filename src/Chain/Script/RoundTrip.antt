-- ===== src/Chain/Script/RoundTrip.antt =====
-- Scripts and their addresses.
use bitcoin_toolkit.Common.{
  refl, take-all, ◌∙◌, sym, bytes_eq, take, arith, none, take-append_at, length, some, ◌<◌, ap, ok,
  ◌≡◌, ◌∷◌, Bytes, ℕ,
}
use bitcoin_toolkit.Chain.Script.{
  AddressCodec, p2pkh_ver, p2sh_ver, bc, program_script, payload_script, by_encoding,
  encode_base58_hash, segwit_address, address_from_script, script_from_address, is_p2pkh, is_p2sh,
  is_p2wpkh, is_p2wsh, is_p2tr,
}
use bitcoin_toolkit.Chain.Script.Standard.{
  Standard, p2pkh, p2sh, p2wpkh, p2wsh, p2tr, script_of, IsSized, p2pkh_recognised, p2sh_recognised,
  p2sh_only,
}

module _ (C : AddressCodec) where
  open C use {base58check_encode, base58check_decode, segwit_encode, segwit_decode}

  -- Decoding gives back what was encoded, and no address is empty.
  abbrev pub Base58Law : ℕ → Bytes → Type 0
  Base58Law ver h =
      (base58check_decode (base58check_encode (ver ∷ h)) ≡ ok (ver ∷ h))
      × (0 < length (base58check_encode (ver ∷ h)))
      × (segwit_decode (base58check_encode (ver ∷ h)) ≡ none)

  abbrev pub SegwitLaw : ℕ → Bytes → Type 0
  SegwitLaw witver program =
      (s : Bytes) × (segwit_encode bc witver program ≡ ok s)
      × (0 < length s)
      × (segwit_decode s ≡ some (bc, witver, program))

  -- What the round trip of a script relies on of the encodings, at its hash or key.
  unfoldable pub IsEncodable : Standard → Type 0
  IsEncodable (p2pkh h) = Base58Law p2pkh_ver h
  IsEncodable (p2sh h) = Base58Law p2sh_ver h
  IsEncodable (p2wpkh p) = SegwitLaw 0 p
  IsEncodable (p2wsh p) = SegwitLaw 0 p
  IsEncodable (p2tr x) = SegwitLaw 1 x

  module _ (hash160 : Bytes → Bytes) where
    -- The address of a script, and the script behind it.
    abbrev pub IsAddressOf : Standard → Bytes → Type 0
    IsAddressOf t addr =
        (address_from_script C hash160 (script_of t) ≡ ok (some addr))
        × (script_from_address C addr ≡ some (script_of t))

    base58_address :
        (h : Bytes)
        → length h ≡ 20
        → (Base58Law p2pkh_ver h → IsAddressOf (p2pkh h) (base58check_encode (p2pkh_ver ∷ h)))
          × (Base58Law p2sh_ver h → IsAddressOf (p2sh h) (base58check_encode (p2sh_ver ∷ h)))
    unfolding address_from_script script_from_address by_encoding encode_base58_hash payload_script
        script_of
    base58_address h z = (
      λ law. (
        rw (p2pkh_recognised h z) (
            ap (λ (x : Bytes). ok (some (base58check_encode (p2pkh_ver ∷ x))))
              (take-append_at 20 h _ z)),
        ground (arith, law, z),
      ),
      λ law. (
        rw (p2sh_only h z, p2sh_recognised h z)
            (ap (λ (x : Bytes). ok (some (base58check_encode (p2sh_ver ∷ x))))
              (take-append_at 20 h _ z)),
        ground (arith, law, z),
      ),
    )

    -- The whole of a program of `n` bytes.
    whole_program : (n : ℕ) (p : Bytes) → length p ≡ n → take n p ≡ p
    whole_program n p z = ap (λ (k : ℕ). take k p) (sym z) ∙ take-all p

    segwit_address_ok :
        (t : Standard) (n witver : ℕ) (p s : Bytes)
        → length p ≡ n
        → segwit_encode bc witver p ≡ ok s
        → address_from_script C hash160 (script_of t) ≡ segwit_address C hash160 witver (take n p)
        → address_from_script C hash160 (script_of t) ≡ ok (some s)
    unfolding segwit_address
    segwit_address_ok t n witver p s z enc e = e ∙ rw (whole_program n p z, enc) refl

    segwit_script :
        (t : Standard) (witver : ℕ) (p s : Bytes)
        → 0 < length s
        → segwit_decode s ≡ some (bc, witver, p)
        → program_script (bc, witver, p) ≡ some (script_of t)
        → script_from_address C s ≡ some (script_of t)
    unfolding script_from_address by_encoding
    segwit_script t witver p s pos dec e = ground (arith, dec)

    segwit_dispatch :
        (p : Bytes)
        → (length p ≡ 20
            → (address_from_script C hash160 (script_of (p2wpkh p))
                ≡ segwit_address C hash160 0 (take 20 p))
              × (program_script (bc, 0, p) ≡ some (script_of (p2wpkh p))))
          × (length p ≡ 32
              → (address_from_script C hash160 (script_of (p2wsh p))
                  ≡ segwit_address C hash160 0 (take 32 p))
                × (program_script (bc, 0, p) ≡ some (script_of (p2wsh p))))
          × (length p ≡ 32
              → (address_from_script C hash160 (script_of (p2tr p))
                  ≡ segwit_address C hash160 1 (take 32 p))
                × (program_script (bc, 1, p) ≡ some (script_of (p2tr p))))
    unfolding address_from_script program_script script_of is_p2pkh is_p2sh is_p2wpkh is_p2wsh
        is_p2tr bytes_eq
    segwit_dispatch p = (
      λ z. (ground (arith, z), ground (arith, z)),
      λ z. (ground (arith, z), ground (arith, z)),
      λ z. (ground (arith, z), ground (arith, z)),
    )

    -- Each standard script has an address, for a hash or key of the size that its kind has, and
    -- `script_from_address` of it is the script. Of the encodings it relies on the round trip at
    -- that hash or key, on addresses that are not empty, and on a base58 address not being read as a
    -- segwit address too.
    pub script_from_address-address_from_script :
        (t : Standard) → IsSized t → IsEncodable t → (addr : Bytes) × IsAddressOf t addr
    unfolding IsSized IsEncodable
    script_from_address-address_from_script (p2pkh h) z law =
        (base58check_encode (p2pkh_ver ∷ h), (base58_address h z).0 law)
    script_from_address-address_from_script (p2sh h) z law =
        (base58check_encode (p2sh_ver ∷ h), (base58_address h z).1 law)
    script_from_address-address_from_script (p2wpkh p) z (s, enc, pos, dec) =
        let (e, f) = (segwit_dispatch p).0 z in
        (
          s,
          (segwit_address_ok (p2wpkh p) 20 0 p s z enc e, segwit_script (p2wpkh p) 0 p s pos dec f),
        )
    script_from_address-address_from_script (p2wsh p) z (s, enc, pos, dec) =
        let (e, f) = (segwit_dispatch p).1 z in
        (s, (segwit_address_ok (p2wsh p) 32 0 p s z enc e, segwit_script (p2wsh p) 0 p s pos dec f))
    script_from_address-address_from_script (p2tr p) z (s, enc, pos, dec) =
        let (e, f) = (segwit_dispatch p).2 z in
        (s, (segwit_address_ok (p2tr p) 32 1 p s z enc e, segwit_script (p2tr p) 1 p s pos dec f))
