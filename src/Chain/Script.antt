-- ===== src/Chain/Script.antt =====
-- src/chain/script.cpp: output scripts and mainnet addresses. The encodings of addresses (src/core) are
-- taken through the interface `AddressCodec`, and `hash160` is a parameter.
pub mod Standard
pub mod RoundTrip
pub mod Classes
mod Examples
use Prim.Native.String.{String}
use bitcoin_toolkit.Common.{
  ◌++◌, ◌||◌, drop, ◌&&◌, some, ◌==◌, ok, ◌>>=◌, take, none, false, bytes_eq, err, not, length,
  get_or, [], if◌then◌else◌, Bool, ◌∷◌, Option, Result, ℕ, Bytes,
}

pub record AddressCodec : Type 0 where
  pub base58check_encode : Bytes → Bytes
  pub base58check_decode : Bytes → Result Bytes
  pub segwit_encode : Bytes → ℕ → Bytes → Result Bytes
  -- The human-readable part, the witness version and the program.
  pub segwit_decode : Bytes → Option (Bytes × ℕ × Bytes)

-- "bc"
abbrev pub bc : Bytes
bc = b'b' ∷ b'c' ∷ []

-- `kOp0` and so on, and the version bytes.
abbrev pub op_0 : ℕ
op_0 = 0x00

abbrev pub op_dup : ℕ
op_dup = 0x76

abbrev pub op_equal : ℕ
op_equal = 0x87

abbrev pub op_equalverify : ℕ
op_equalverify = 0x88

abbrev pub op_hash160 : ℕ
op_hash160 = 0xa9

abbrev pub op_checksig : ℕ
op_checksig = 0xac

abbrev pub op_1 : ℕ
op_1 = 0x51

abbrev pub p2pkh_ver : ℕ
p2pkh_ver = 0x00

abbrev pub p2sh_ver : ℕ
p2sh_ver = 0x05

-- `s[i] == b`
abbrev at_is : Bytes → ℕ → ℕ → Bool
at_is s i b = get_or s i 0 == b

-- The tests of `address_from_script`, in its order.
unfoldable pub is_p2pkh : Bytes → Bool
is_p2pkh s =
    (length s == 25)
    && at_is s 0 op_dup
    && at_is s 1 op_hash160
    && at_is s 2 20
    && at_is s 23 op_equalverify
    && at_is s 24 op_checksig

unfoldable pub is_p2sh : Bytes → Bool
is_p2sh s = (length s == 23) && at_is s 0 op_hash160 && at_is s 1 20 && at_is s 22 op_equal

unfoldable pub is_p2wpkh : Bytes → Bool
is_p2wpkh s = (length s == 22) && at_is s 0 op_0 && at_is s 1 20

unfoldable pub is_p2wsh : Bytes → Bool
is_p2wsh s = (length s == 34) && at_is s 0 op_0 && at_is s 1 32

unfoldable pub is_p2tr : Bytes → Bool
is_p2tr s = (length s == 34) && at_is s 0 op_1 && at_is s 1 32

unfoldable pub is_p2pk_compressed : Bytes → Bool
is_p2pk_compressed s =
    (length s == 35) && at_is s 0 33 && at_is s 34 op_checksig && (at_is s 1 2 || at_is s 1 3)

unfoldable pub is_p2pk_uncompressed : Bytes → Bool
is_p2pk_uncompressed s = (length s == 67) && at_is s 0 65 && at_is s 66 op_checksig && at_is s 1 4

unfoldable pub dust_sats : Bytes → ℕ
dust_sats s =
    if (length s == 25) && at_is s 0 op_dup && at_is s 1 op_hash160 && at_is s 2 20
    then 546
    else if (length s == 23) && at_is s 0 op_hash160 && at_is s 1 20
    then 540
    else if (length s == 22) && at_is s 0 op_0 && at_is s 1 20
    then 294
    else if (length s == 34) && at_is s 0 op_0 && at_is s 1 32
    then 330
    else if (length s == 34) && at_is s 0 op_1 && at_is s 1 32
    then 330
    else 546

-- What is made of a decoded address.
unfoldable pub program_script : Bytes × ℕ × Bytes → Option Bytes
program_script (hrp, witver, program) =
    if not (bytes_eq hrp bc)
    then none
    else if (witver == 0) && (length program == 20)
    then some (op_0 ∷ 20 ∷ program)
    else if (witver == 0) && (length program == 32)
    then some (op_0 ∷ 32 ∷ program)
    else if (witver == 1) && (length program == 32)
    then some (op_1 ∷ 32 ∷ program)
    else none

pub payload_script : Result Bytes → Option Bytes
payload_script (err e) = none
payload_script (ok payload) =
    if not (length payload == 21)
    then none
    else if at_is payload 0 p2pkh_ver
    then some (op_dup ∷ op_hash160 ∷ 20 ∷ (drop 1 payload ++ (op_equalverify ∷ op_checksig ∷ [])))
    else if at_is payload 0 p2sh_ver
    then some (op_hash160 ∷ 20 ∷ (drop 1 payload ++ (op_equal ∷ [])))
    else none

pub program_kind : Bytes × ℕ × Bytes → Option String
program_kind (hrp, witver, program) =
    if not (bytes_eq hrp bc)
    then none
    else if (witver == 0) && (length program == 20)
    then some "p2wpkh"
    else if (witver == 0) && (length program == 32)
    then some "p2wsh"
    else if (witver == 1) && (length program == 32)
    then some "p2tr"
    else none

pub payload_kind : Result Bytes → Option String
payload_kind (err e) = none
payload_kind (ok payload) =
    if not (length payload == 21)
    then none
    else if at_is payload 0 p2pkh_ver
    then some "p2pkh"
    else if at_is payload 0 p2sh_ver
    then some "p2sh"
    else none

pub program_mainnet : Bytes × ℕ × Bytes → Bool
program_mainnet (hrp, witver, program) = bytes_eq hrp bc

pub payload_mainnet : Result Bytes → Bool
payload_mainnet (err e) = false
payload_mainnet (ok payload) =
    if not (length payload == 21)
    then false
    else (at_is payload 0 p2pkh_ver || at_is payload 0 p2sh_ver)

-- `classify_mainnet_address`, `is_mainnet_address` and `script_from_address` try both encodings.
module _ (C : AddressCodec) where
  open C use {base58check_decode, segwit_decode}

  unfoldable pub by_encoding :
      {A : Type 0} → A → (Bytes × ℕ × Bytes → A) → (Result Bytes → A) → Bytes → A
  by_encoding empty f g s =
      if length s == 0
      then empty
      else elim (segwit_decode s) [ some t ↦ f t | none ↦ g (base58check_decode s) ]

  pub classify_mainnet_address : Bytes → Option String
  unfolding by_encoding
  classify_mainnet_address = by_encoding none program_kind payload_kind

  pub is_mainnet_address : Bytes → Bool
  unfolding by_encoding
  is_mainnet_address = by_encoding false program_mainnet payload_mainnet

  unfoldable pub script_from_address : Bytes → Option Bytes
  unfolding by_encoding
  script_from_address = by_encoding none program_script payload_script

module _ (C : AddressCodec) (hash160 : Bytes → Bytes) where
  open C use {base58check_encode, segwit_encode}

  unfoldable pub encode_base58_hash : ℕ → Bytes → Bytes
  encode_base58_hash ver h20 = base58check_encode (ver ∷ take 20 h20)

  -- `segwit_encode` may throw.
  unfoldable pub segwit_address : ℕ → Bytes → Result (Option Bytes)
  segwit_address witver program = do s ← segwit_encode bc witver program; ok (some s)

  unfoldable pub address_from_script : Bytes → Result (Option Bytes)
  unfolding is_p2pkh is_p2sh is_p2wpkh is_p2wsh is_p2tr is_p2pk_compressed is_p2pk_uncompressed
      encode_base58_hash segwit_address
  address_from_script s =
      if is_p2pkh s
      then ok (some (encode_base58_hash p2pkh_ver (drop 3 s)))
      else if is_p2sh s
      then ok (some (encode_base58_hash p2sh_ver (drop 2 s)))
      else if is_p2wpkh s
      then segwit_address 0 (take 20 (drop 2 s))
      else if is_p2wsh s
      then segwit_address 0 (take 32 (drop 2 s))
      else if is_p2tr s
      then segwit_address 1 (take 32 (drop 2 s))
      else if is_p2pk_compressed s
      then ok (some (encode_base58_hash p2pkh_ver (hash160 (take 33 (drop 1 s)))))
      else if is_p2pk_uncompressed s
      then ok (some (encode_base58_hash p2pkh_ver (hash160 (take 65 (drop 1 s)))))
      else ok none
