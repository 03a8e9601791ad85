-- ===== src/Core/Pubkey.antt =====
-- src/core/pubkey.cpp, over libsecp256k1.
use bitcoin_toolkit.Core.Hex.{hex_decode, hex_encode}
use bitcoin_toolkit.Core.Network.{main, Network}
use bitcoin_toolkit.Core.Secp.{or_throw, Secp}
use bitcoin_toolkit.Common.{
  err, [], ok, if◌then◌else◌, ◌>>=◌, false, ◌==◌, ◌∷◌, ◌&&◌, Result, not, ◌||◌, length, true, leb,
  btk_error, Bool, ℕ, BtkError, Bytes,
}

pub record Pubkey : Type 0 where
  pub serialized : Bytes
  pub network : Network
  pub compressed : Bool

abbrev pub not_a_key : BtkError
not_a_key = btk_error "pubkey" "not a private or public key"

abbrev pub out_of_range : BtkError
out_of_range = btk_error "pubkey" "private key out of range"

-- `std::isxdigit`.
pub is_xdigit : ℕ → Bool
is_xdigit c = (leb b'0' c && leb c b'9') || (leb b'a' c && leb c b'f') || (leb b'A' c && leb c b'F')

pub all_xdigits : Bytes → Bool
unfolding is_xdigit
all_xdigits [] = true
all_xdigits (c ∷ cs) = is_xdigit c && all_xdigits cs

is_hex_len : Bytes → ℕ → Bool
is_hex_len s n = (length s == n) && all_xdigits s

pub looks_like_pubkey_hex : Bytes → Bool
unfolding is_hex_len
looks_like_pubkey_hex text = is_hex_len text 66 || is_hex_len text 130

pub encode_pubkey_hex : Pubkey → Bytes
encode_pubkey_hex pk = hex_encode pk.serialized

same_flag : Bool → Bool → Bool
same_flag true b = b
same_flag false b = not b

module _ (S : Secp) where
  pub serialize_parsed : Bytes → Bool → Network → Result Pubkey
  serialize_parsed parsed compressed network = do
    bytes ← or_throw not_a_key (S.pubkey_serialize parsed compressed)
    ok (record { serialized = bytes; network = network; compressed = compressed })

  unfoldable pub pubkey_from_secret : Bytes → Bool → Network → Result Pubkey
  unfolding serialize_parsed or_throw
  pubkey_from_secret secret compressed network =
      if S.seckey_verify secret
      then (do
        parsed ← or_throw out_of_range (S.pubkey_create secret)
        serialize_parsed parsed compressed network)
      else err out_of_range

  decoded : Result Bytes → Result Bytes
  decoded (ok raw) = ok raw
  decoded (err e) = err not_a_key

  pub parse_pubkey_hex : Bytes → Result Pubkey
  unfolding serialize_parsed decoded or_throw
  parse_pubkey_hex hex =
      if looks_like_pubkey_hex hex
      then (do
        raw ← decoded (hex_decode hex)
        parsed ← or_throw not_a_key (S.pubkey_parse raw)
        serialize_parsed parsed (length raw == 33) main)
      else err not_a_key

  pub recompress_pubkey : Pubkey → Bool → Result Pubkey
  unfolding serialize_parsed or_throw
  recompress_pubkey pk compressed =
      if same_flag pk.compressed compressed && not (length pk.serialized == 0) then ok pk else (do
        parsed ← or_throw not_a_key (S.pubkey_parse pk.serialized)
        serialize_parsed parsed compressed pk.network)
