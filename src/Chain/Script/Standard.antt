-- ===== src/Chain/Script/Standard.antt =====
-- The output scripts that have an address of their own.
use bitcoin_toolkit.Common.{
  get_or-append, [], length-append, ◌++◌, false, true, arith, ◌∷◌, ◌≡◌, ℕ, length, Bytes,
}
use Prim.Native.String.{String}
use bitcoin_toolkit.Chain.Script.{
  op_0, op_1, op_dup, op_hash160, op_equal, op_equalverify, op_checksig, is_p2pkh, is_p2sh,
  dust_sats,
}

pub data Standard : Type 0 where
  p2pkh : Bytes → Standard
  p2sh : Bytes → Standard
  p2wpkh : Bytes → Standard
  p2wsh : Bytes → Standard
  p2tr : Bytes → Standard

unfoldable pub script_of : Standard → Bytes
script_of (p2pkh h) = op_dup ∷ op_hash160 ∷ 20 ∷ (h ++ (op_equalverify ∷ op_checksig ∷ []))
script_of (p2sh h) = op_hash160 ∷ 20 ∷ (h ++ (op_equal ∷ []))
script_of (p2wpkh p) = op_0 ∷ 20 ∷ p
script_of (p2wsh p) = op_0 ∷ 32 ∷ p
script_of (p2tr x) = op_1 ∷ 32 ∷ x

-- The size of the hash or the key.
unfoldable pub IsSized : Standard → Type 0
IsSized (p2pkh h) = length h ≡ 20
IsSized (p2sh h) = length h ≡ 20
IsSized (p2wpkh p) = length p ≡ 20
IsSized (p2wsh p) = length p ≡ 32
IsSized (p2tr x) = length x ≡ 32

unfoldable pub kind_of : Standard → String
kind_of (p2pkh h) = "p2pkh"
kind_of (p2sh h) = "p2sh"
kind_of (p2wpkh p) = "p2wpkh"
kind_of (p2wsh p) = "p2wsh"
kind_of (p2tr x) = "p2tr"

unfoldable pub dust_of : Standard → ℕ
dust_of (p2pkh h) = 546
dust_of (p2sh h) = 540
dust_of (p2wpkh p) = 294
dust_of (p2wsh p) = 330
dust_of (p2tr x) = 330

-- The least amount that is not dust for a standard script.
pub dust_sats-script_of : (t : Standard) → IsSized t → dust_sats (script_of t) ≡ dust_of t
unfolding dust_sats script_of IsSized dust_of
dust_sats-script_of (p2pkh h) z =
    ground (arith, length-append {0} h (op_equalverify ∷ op_checksig ∷ []))
dust_sats-script_of (p2sh h) z = ground (arith, length-append {0} h (op_equal ∷ []))
dust_sats-script_of (p2wpkh p) z = ground (arith, z)
dust_sats-script_of (p2wsh p) z = ground (arith, z)
dust_sats-script_of (p2tr x) z = ground (arith, z)

module _ (h : Bytes) (z : length h ≡ 20) where
  pub p2pkh_recognised : is_p2pkh (script_of (p2pkh h)) ≡ true
  unfolding is_p2pkh script_of
  p2pkh_recognised = ground (
    arith,
    length-append {0} h (op_equalverify ∷ op_checksig ∷ []),
    get_or-append 20 0 h (op_equalverify ∷ op_checksig ∷ []) 0 (omega arith),
    get_or-append 21 1 h (op_equalverify ∷ op_checksig ∷ []) 0 (omega arith),
  )

  pub p2sh_recognised : is_p2sh (script_of (p2sh h)) ≡ true
  unfolding is_p2sh script_of
  p2sh_recognised = ground (
    arith,
    length-append {0} h (op_equal ∷ []),
    get_or-append 20 0 h (op_equal ∷ []) 0 (omega arith),
  )

  pub p2sh_only : is_p2pkh (script_of (p2sh h)) ≡ false
  unfolding is_p2pkh script_of
  p2sh_only = ground (arith, length-append {0} h (op_equal ∷ []))
