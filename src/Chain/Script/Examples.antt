-- ===== src/Chain/Script/Examples.antt =====
-- A simple pair of encodings, and the theorems at it.
use bitcoin_toolkit.Common.{
  ◌==◌, if◌then◌else◌, [], refl, none, btk_error, true, arith, ℕ, err, some, take, replicate, ok,
  Option, Result, ◌≡◌, ◌∷◌, Bytes,
}
use bitcoin_toolkit.Chain.Script.{
  AddressCodec, bc, classify_mainnet_address, is_mainnet_address, script_from_address, by_encoding,
  payload_script, dust_sats,
}
use bitcoin_toolkit.Chain.Script.Standard.{
  Standard, p2pkh, p2wpkh, script_of, IsSized, kind_of, dust_of,
}
use bitcoin_toolkit.Chain.Script.RoundTrip.{
  IsAddressOf, IsEncodable, script_from_address-address_from_script,
}
use bitcoin_toolkit.Chain.Script.Classes.{script_from_address-Standard}

decode_58 : Bytes → Result Bytes
decode_58 [] = err (btk_error "" "invalid WIF checksum")
decode_58 (b ∷ bs) = ok bs

decode_segwit : Bytes → Option (Bytes × ℕ × Bytes)
decode_segwit [] = none
decode_segwit (b ∷ []) = none
decode_segwit (b ∷ w ∷ p) = if b == b'b' then some (bc, w, p) else none

abbrev tagged : AddressCodec
tagged = record {
  base58check_encode = λ p. b'1' ∷ p;
  base58check_decode = decode_58;
  segwit_encode = λ hrp w p. ok (b'b' ∷ w ∷ p);
  segwit_decode = decode_segwit;
}

abbrev hash : Bytes
hash = replicate 20 7

script_from_address-address_from_script_example :
    (addr : Bytes) × IsAddressOf tagged (take 20) (p2wpkh hash) addr
unfolding IsSized IsEncodable decode_segwit
script_from_address-address_from_script_example =
    script_from_address-address_from_script tagged (take 20) (p2wpkh hash) refl
      (b'b' ∷ 0 ∷ hash, refl, omega arith, refl)

hash_script : script_from_address tagged (b'1' ∷ 0 ∷ hash) ≡ some (script_of (p2pkh hash))
unfolding script_from_address by_encoding decode_segwit decode_58 payload_script script_of
hash_script = refl

script_from_address-Standard_example :
    (t : Standard) × (script_of (p2pkh hash) ≡ script_of t)
    × IsSized t
    × (classify_mainnet_address tagged (b'1' ∷ 0 ∷ hash) ≡ some (kind_of t))
    × (is_mainnet_address tagged (b'1' ∷ 0 ∷ hash) ≡ true)
    × (dust_sats (script_of (p2pkh hash)) ≡ dust_of t)
script_from_address-Standard_example =
    script_from_address-Standard tagged (b'1' ∷ 0 ∷ hash) (script_of (p2pkh hash)) hash_script
