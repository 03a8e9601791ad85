-- ===== src/Core/Privkey.antt =====
-- src/core/privkey.cpp, over libsecp256k1 and any hash256. A Secret is 32 bytes. The random secrets of
-- generate_privkey come as a list of what random_bytes fills in.
pub mod Wif
pub mod Digits
pub mod Decimal
mod Examples
use bitcoin_toolkit.Core.Base58.{base58_decode, base58check_encode}
use bitcoin_toolkit.Core.Secp.{Secp}
use bitcoin_toolkit.Core.Pubkey.{all_xdigits}
use bitcoin_toolkit.Core.Hex.{hex_decode, hex_encode}
use bitcoin_toolkit.Core.Network.{is_test, main, test, Network}
use bitcoin_toolkit.Common.{
  ◌++◌, ltb, get_or, drop, ◌-◌, bytes_eq, take, ◌>>=◌, replicate, ok, err, Result, zero, true, [],
  ◌||◌, ◌%◌, some, ◌/◌, ◌&&◌, suc, not, ◌^◌, leb, ◌+◌, ◌==◌, none, false, if◌then◌else◌, ◌*◌,
  length, ◌∷◌, Option, List, Bool, btk_error, ℕ, BtkError, Bytes,
}
use Prim.Native.String.{String}
use mathlib.Core.List.{reverse}

pub record Privkey : Type 0 where
  pub secret : Bytes
  pub network : Network
  pub compressed : Bool

abbrev pub privkey_error : String → BtkError
privkey_error what = btk_error "privkey" what

abbrev pub k_wif_main : ℕ
k_wif_main = 0x80

abbrev pub k_wif_test : ℕ
k_wif_test = 0xef

is_hex64 : Bytes → Bool
is_hex64 s = (length s == 64) && all_xdigits s

-- The loop over the bytes, from the last one on: here the last byte stands first. The product and
-- what is carried out of it.
pub mul10_loop : ℕ → List ℕ → List ℕ × ℕ
mul10_loop carry [] = ([], carry)
mul10_loop carry (b ∷ bs) =
    let v = b * 10 + carry in let (rest, out) = mul10_loop (v / 2 ^ 8) bs in (v % 256 ∷ rest, out)

-- `none` where the carry is lost.
pub mul10_add : Bytes → ℕ → Option Bytes
unfolding mul10_loop
mul10_add acc digit =
    let (bs, carry) = mul10_loop digit (reverse acc) in
    if carry == 0 then some (reverse bs) else none

pub data WifResult : Type 0 where
  good : Privkey → WifResult
  not_wif bad_checksum invalid : WifResult

pub all_digits : Bytes → Bool
all_digits [] = true
all_digits (c ∷ cs) = (leb b'0' c && leb c b'9') && all_digits cs

pub looks_like_decimal : Bytes → Bool
unfolding all_digits
looks_like_decimal text = not (length text == 0) && all_digits text

pub encode_secret_hex : Bytes → Bytes
encode_secret_hex secret = hex_encode secret

-- The loop over i: the bytes divided by ten, and the remainder.
pub div10 : ℕ → Bytes → Bytes × ℕ
div10 rem [] = ([], rem)
div10 rem (b ∷ bs) =
    let v = rem * 2 ^ 8 + b in let (rest, out) = div10 (v % 10) bs in (v / 10 ∷ rest, out)

pub any_nonzero : Bytes → Bool
any_nonzero [] = false
any_nonzero (b ∷ bs) = not (b == 0) || any_nonzero bs

pub digit_before : ℕ → Option Bytes → Option Bytes
digit_before d none = none
digit_before d (some ds) = some (d ∷ ds)

-- The rounds of the do loop, at most the given number: the digits, the last one first.
pub dec_digits : ℕ → Bytes → Option Bytes
unfolding div10 any_nonzero digit_before
dec_digits zero acc = none
dec_digits (suc fuel) acc =
    let (acc', rem) = div10 0 acc in
    let others = dec_digits fuel acc' in
    if any_nonzero acc' then digit_before (b'0' + rem) others else some ((b'0' + rem) ∷ [])

pub digits_in_order : Option Bytes → Option Bytes
digits_in_order none = none
digits_in_order (some ds) = some (reverse ds)

-- A number below 256 ^ 32 has at most 78 digits.
pub encode_secret_dec : Bytes → Option Bytes
unfolding any_nonzero dec_digits digits_in_order
encode_secret_dec secret =
    if any_nonzero secret then digits_in_order (dec_digits 78 secret) else some (b'0' ∷ [])

pub add_digit : Option Bytes → Result Bytes
add_digit none = err (privkey_error "private key out of range")
add_digit (some acc) = ok acc

-- The loop over the characters, behind the zeros at the front.
pub dec_loop : Bytes → Bytes → Result Bytes
unfolding mul10_add add_digit
dec_loop acc [] = ok acc
dec_loop acc (c ∷ cs) = do acc' ← add_digit (mul10_add acc (c - b'0')); dec_loop acc' cs

pub skip_zeros : Bytes → Bytes
skip_zeros [] = []
skip_zeros (c ∷ cs) = let rest = skip_zeros cs in if c == b'0' then rest else c ∷ cs

not_a_privkey : BtkError
not_a_privkey = privkey_error "not a WIF, hex, or decimal private key"

module _ (S : Secp) where
  pub secret_is_valid : Bytes → Bool
  secret_is_valid secret = S.seckey_verify secret

  -- `require_valid_secret`, before what follows it.
  pub require_valid_secret : Bytes → Result Bytes
  unfolding secret_is_valid
  require_valid_secret secret =
      if secret_is_valid secret then ok secret else err (privkey_error "private key out of range")

  hex_secret : Result Bytes → Result Bytes
  unfolding require_valid_secret
  hex_secret (err e) = err (privkey_error "invalid hex private key")
  hex_secret (ok raw) = require_valid_secret raw

  pub decode_secret_hex : Bytes → Result Bytes
  unfolding hex_secret
  decode_secret_hex hex =
      if length hex == 64
      then hex_secret (hex_decode hex)
      else err (privkey_error "invalid hex private key")

  pub decode_secret_dec : Bytes → Result Bytes
  unfolding dec_loop skip_zeros require_valid_secret looks_like_decimal
  decode_secret_dec dec =
      if looks_like_decimal dec
      then dec_loop (replicate 32 0) (skip_zeros dec) >>= require_valid_secret
      else err (privkey_error "invalid decimal private key")

  pub privkey_from_digest : Bytes → Network → Bool → Result Privkey
  unfolding require_valid_secret
  privkey_from_digest digest network compressed = do
    secret ← require_valid_secret digest
    ok (record { secret = secret; network = network; compressed = compressed })

  -- `none` where none of the secrets drawn is valid: the loop goes on.
  pub generate_privkey : List Bytes → Network → Bool → Option Privkey
  unfolding secret_is_valid
  generate_privkey [] network compressed = none
  generate_privkey (drawn ∷ later) network compressed =
      let others = generate_privkey later network compressed in
      if secret_is_valid drawn
      then some (record { secret = drawn; network = network; compressed = compressed })
      else others

  module _ (hash256 : Bytes → Bytes) where
    pub encode_wif : Privkey → Bytes
    encode_wif key = base58check_encode hash256 (
        (if is_test key.network then k_wif_test else k_wif_main)
        ∷ (key.secret ++ (if key.compressed then 0x01 ∷ [] else [])))

    pub wif_network : ℕ → Network
    wif_network version = if version == k_wif_test then test else main

    pub wif_key : Bytes → Privkey
    unfolding wif_network
    wif_key payload = record {
      secret = take 32 (drop 1 payload);
      network = wif_network (get_or payload 0 0);
      compressed = length payload == 34;
    }

    pub wif_payload : Bytes → Result WifResult
    unfolding wif_key require_valid_secret
    wif_payload payload =
        if not (length payload == 33) && not (length payload == 34)
        then ok not_wif
        else if not (get_or payload 0 0 == k_wif_main) && not (get_or payload 0 0 == k_wif_test)
        then ok not_wif
        else if length payload == 34 && not (get_or payload 33 0 == 0x01)
        then ok invalid
        else (do
          secret ← require_valid_secret (take 32 (drop 1 payload))
          ok (good (wif_key payload)))

    pub checksum_ok : Bytes → Bool
    checksum_ok raw =
        bytes_eq (take 4 (hash256 (take (length raw - 4) raw))) (drop (length raw - 4) raw)

    pub wif_raw : Result Bytes → Result WifResult
    unfolding wif_payload checksum_ok
    wif_raw (err e) = ok not_wif
    wif_raw (ok raw) =
        if ltb (length raw) 4
        then ok not_wif
        else if checksum_ok raw
        then wif_payload (take (length raw - 4) raw)
        else ok (if length raw == 37 || length raw == 38 then bad_checksum else not_wif)

    pub try_parse_wif : Bytes → Result WifResult
    unfolding wif_raw
    try_parse_wif s = wif_raw (base58_decode s)

    shape_of : Result Bytes → Bool
    unfolding checksum_ok
    shape_of (err e) = false
    shape_of (ok raw) =
        if not (length raw == 37) && not (length raw == 38)
        then false
        else not (checksum_ok raw) || (get_or raw 0 0 == k_wif_main || get_or raw 0 0 == k_wif_test)

    pub looks_like_wif : Bytes → Bool
    unfolding shape_of
    looks_like_wif text = shape_of (base58_decode text)

    pub looks_like_privkey_text : Bytes → Bool
    unfolding looks_like_wif is_hex64 looks_like_decimal
    looks_like_privkey_text text = looks_like_wif text || is_hex64 text || looks_like_decimal text

    pub decoded_wif : WifResult → Result Privkey
    decoded_wif (good key) = ok key
    decoded_wif bad_checksum = err (privkey_error "invalid WIF checksum")
    decoded_wif not_wif = err not_a_privkey
    decoded_wif invalid = err not_a_privkey

    pub decode_wif : Bytes → Result Privkey
    unfolding try_parse_wif decoded_wif
    decode_wif wif = try_parse_wif wif >>= decoded_wif

    mainnet_key : Bytes → Privkey
    mainnet_key secret = record { secret = secret; network = main; compressed = true }

    -- The guess for a string that is no WIF.
    other_text : Bytes → Result Privkey
    unfolding is_hex64 mainnet_key looks_like_decimal
    other_text text =
        if is_hex64 text
        then (do secret ← decode_secret_hex text; ok (mainnet_key secret))
        else if looks_like_decimal text
        then (do secret ← decode_secret_dec text; ok (mainnet_key secret))
        else err not_a_privkey

    pub guessed : Bytes → WifResult → Result Privkey
    unfolding other_text
    guessed text (good key) = ok key
    guessed text bad_checksum = err (privkey_error "invalid WIF checksum")
    guessed text invalid = err not_a_privkey
    guessed text not_wif = other_text text

    pub parse_privkey_string : Bytes → Result Privkey
    unfolding guessed try_parse_wif
    parse_privkey_string text = try_parse_wif text >>= guessed text
