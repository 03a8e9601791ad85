-- ===== src/Core/Address.antt =====
-- src/core/address.cpp, over libsecp256k1, the address encodings and the hashes.
use bitcoin_toolkit.Core.Secp.{or_throw, Secp}
use bitcoin_toolkit.Chain.Script.{bc, AddressCodec}
use bitcoin_toolkit.Core.Pubkey.{Pubkey}
use bitcoin_toolkit.Core.Network.{is_test, Network}
use bitcoin_toolkit.Common.{
  ok, drop, err, take, ◌&&◌, ◌||◌, ◌==◌, none, ◌>>=◌, length, not, [], true, some, Result, ◌∷◌,
  Bool, if◌then◌else◌, btk_error, Bytes, Option, BtkError,
}
use Prim.Native.String.{String}
use bitcoin_toolkit.Common.Texts.{text_eq}

pub data AddressStyle : Type 0 where
  p2pkh p2wpkh p2tr : AddressStyle

abbrev address_error : String → BtkError
address_error what = btk_error "address" what

pub parse_address_style : String → Option AddressStyle
parse_address_style text =
    if text_eq text "p2pkh"
    then some p2pkh
    else if text_eq text "p2wpkh"
    then some p2wpkh
    else if text_eq text "p2tr"
    then some p2tr
    else none

pub address_style_name : AddressStyle → String
address_style_name p2pkh = "p2pkh"
address_style_name p2wpkh = "p2wpkh"
address_style_name p2tr = "p2tr"

unfoldable pub all_zeros : Bytes → Bool
all_zeros [] = true
all_zeros (b ∷ bs) = (b == 0) && all_zeros bs

-- "TapTweak"
abbrev pub tap_tweak : Bytes
tap_tweak = b'T' ∷ b'a' ∷ b'p' ∷ b'T' ∷ b'w' ∷ b'e' ∷ b'a' ∷ b'k' ∷ []

abbrev tb : Bytes
tb = b't' ∷ b'b' ∷ []

hrp_for : Network → Bytes
hrp_for network = if is_test network then tb else bc

-- `require_compressed`, before what follows it.
require_compressed : Pubkey → Result Pubkey
require_compressed pk =
    if not pk.compressed || not (length pk.serialized == 33)
    then err (address_error "uncompressed key cannot produce p2wpkh or p2tr")
    else ok pk

module _ (C : AddressCodec) (hash160 : Bytes → Bytes) where
  pub encode_p2pkh : Pubkey → Result Bytes
  encode_p2pkh pk =
      if length pk.serialized == 0
      then err (address_error "not a private or public key")
      else ok (
          C.base58check_encode
            ((if is_test pk.network then 0x6f else 0x00) ∷ hash160 pk.serialized))

  pub encode_p2wpkh : Pubkey → Result Bytes
  unfolding require_compressed hrp_for
  encode_p2wpkh pk = do
    k ← require_compressed pk
    C.segwit_encode (hrp_for k.network) 0 (hash160 k.serialized)

  module _ (S : Secp) (tagged_hash : Bytes → Bytes → Bytes) where
    -- `taproot tweak out of range`, before what follows it.
    checked_tweak : Bytes → Result Bytes
    unfolding all_zeros
    checked_tweak tweak =
        if not (all_zeros tweak) && not (S.seckey_verify tweak)
        then err (address_error "taproot tweak out of range")
        else ok tweak

    pub taproot_output_x : Pubkey → Result Bytes
    unfolding require_compressed checked_tweak or_throw
    taproot_output_x pk = do
      k ← require_compressed pk
      let x = take 32 (drop 1 k.serialized)
      tweak ← checked_tweak (tagged_hash tap_tweak x)
      internal ← or_throw (address_error "not a private or public key") (S.xonly_pubkey_parse x)
      tweaked ←
          or_throw (address_error "taproot tweak out of range")
            (S.xonly_pubkey_tweak_add internal tweak)
      out ←
          or_throw (address_error "taproot tweak out of range") (S.xonly_pubkey_from_pubkey tweaked)
      ok (S.xonly_pubkey_serialize out)

    pub encode_p2tr : Pubkey → Result Bytes
    unfolding hrp_for taproot_output_x
    encode_p2tr pk = do x ← taproot_output_x pk; C.segwit_encode (hrp_for pk.network) 1 x

    pub encode_address : Pubkey → AddressStyle → Result Bytes
    unfolding encode_p2pkh encode_p2wpkh encode_p2tr
    encode_address pk p2pkh = encode_p2pkh pk
    encode_address pk p2wpkh = encode_p2wpkh pk
    encode_address pk p2tr = encode_p2tr pk
