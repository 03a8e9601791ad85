-- ===== src/Core/Secp.antt =====
-- The functions of libsecp256k1 that the sources call, with the bytes of its opaque structs for its
-- values: `none` stands for a result other than 1.
use bitcoin_toolkit.Common.{none, ok, some, err, Result, Option, Bool, BtkError, Bytes}

pub record Secp : Type 0 where
  pub seckey_verify : Bytes → Bool
  pub pubkey_create : Bytes → Option Bytes
  pub pubkey_parse : Bytes → Option Bytes
  -- Compressed where the flag holds.
  pub pubkey_serialize : Bytes → Bool → Option Bytes
  pub xonly_pubkey_parse : Bytes → Option Bytes
  pub xonly_pubkey_tweak_add : Bytes → Bytes → Option Bytes
  pub xonly_pubkey_from_pubkey : Bytes → Option Bytes
  pub xonly_pubkey_serialize : Bytes → Bytes
  -- A message and a secret.
  pub ecdsa_sign : Bytes → Bytes → Option Bytes
  pub signature_serialize_der : Bytes → Option Bytes
  pub keypair_create : Bytes → Option Bytes
  pub keypair_xonly_tweak_add : Bytes → Bytes → Option Bytes
  -- A message, a key pair and the auxiliary bytes.
  pub schnorrsig_sign32 : Bytes → Bytes → Bytes → Option Bytes

-- A result, or the error that is thrown without one.
unfoldable pub or_throw : {A : Type 0} → BtkError → Option A → Result A
or_throw e none = err e
or_throw e (some a) = ok a
