-- ===== src/Chain/Sign/Keeps.antt =====
-- src/chain/sign.cpp: what signing leaves of the inputs.
use bitcoin_toolkit.Core.Network.{Network}
use bitcoin_toolkit.Chain.CompactSize.{write_compact_size}
use bitcoin_toolkit.Core.Pubkey.{not_a_key, out_of_range, Pubkey, pubkey_from_secret}
use bitcoin_toolkit.Core.Privkey.{Privkey}
use bitcoin_toolkit.Core.Address.{p2tr, p2wpkh, p2pkh, AddressStyle}
use bitcoin_toolkit.Core.Secp.{or_throw, Secp}
use bitcoin_toolkit.Chain.Sign.{
  tweak_in_range, sighash_taproot, sighash_bip143, p2wpkh_script_code, no_utxo, sighash_legacy,
  tweak_of, main, sign_in, push_data, schnorr_sig, two_pushes, ecdsa_der, no_in, k_sequence_rbf,
  Utxo, set_in,
}
use bitcoin_toolkit.Common.{
  inl, inr, Bool-cases, Bool, refl, subst, append-nil, ltb, replicate, true, ◌+◌, length-append,
  zero, arith, suc, [], ◌∷◌, ◌++◌, btk_error, none, bind_ok, ok-injective, ap, ◌≤◌, err-ne-ok,
  length, ok, Option, some, BtkError, Bytes, get_or, ℕ, ◌≡◌, List,
}
use bitcoin_toolkit.Chain.Transaction.{
  Transaction, write_each, write_counted, write_bytes, write_witness, TxIn,
}

abbrev pub SameSpend : TxIn → TxIn → Type 0
SameSpend a b =
    (a.prev_txid ≡ b.prev_txid) × (a.prev_vout ≡ b.prev_vout) × (a.sequence ≡ b.sequence)

abbrev pub Pairs : {A B : Type 0} → (A → B → Type 0) → List A → List B → Type 0
Pairs R [] [] = Unit
Pairs R [] (y ∷ ys) = ⊥
Pairs R (x ∷ xs) [] = ⊥
Pairs R (x ∷ xs) (y ∷ ys) = R x y × Pairs R xs ys

pub set_in-Pairs :
    {A : Type 0} (R : A → TxIn → Type 0) (us : List A) (xs : List TxIn) (i : ℕ) (x : TxIn)
    → ((a : A) → R a (get_or xs i no_in) → R a x)
    → Pairs R us xs
    → Pairs R us (set_in xs i x)
unfolding set_in
set_in-Pairs R [] [] i x keep h = tt
set_in-Pairs R [] (y ∷ ys) i x keep h = elim h [ ]
set_in-Pairs R (a ∷ us) [] i x keep h = elim h [ ]
set_in-Pairs R (a ∷ us) (y ∷ ys) zero x keep h = (keep a h.0, h.1)
set_in-Pairs R (a ∷ us) (y ∷ ys) (suc i) x keep h = (h.0, set_in-Pairs R us ys i x keep h.1)

-- An input that spends the coin, to be replaced.
abbrev pub Spends : Utxo → TxIn → Type 0
Spends u i =
    (i.prev_txid ≡ u.txid_internal) × (i.prev_vout ≡ u.vout) × (i.sequence ≡ k_sequence_rbf)

-- What libsecp256k1 promises of sizes: a DER signature has at most 72 bytes, a Schnorr signature 64,
-- and a public key at most 65.
pub record SecpSizes (S : Secp) : Type 0 where
  pub der : (sig bytes : Bytes) → S.signature_serialize_der sig ≡ some bytes → length bytes ≤ 72
  pub schnorr :
      (msg keypair aux sig : Bytes)
      → S.schnorrsig_sign32 msg keypair aux ≡ some sig
      → length sig ≡ 64
  pub pubkey :
      (parsed : Bytes) (flag : Bool) (bytes : Bytes)
      → S.pubkey_serialize parsed flag ≡ some bytes
      → length bytes ≤ 65

pub or_throw-ok :
    {A : Type 0} (e : BtkError) (o : Option A) (a : A) → or_throw e o ≡ ok a → o ≡ some a
unfolding or_throw
or_throw-ok e none a h = absurd (err-ne-ok h)
or_throw-ok e (some x) a h = ap some (ok-injective h)

ecdsa_der-length :
    (S : Secp)
    → SecpSizes S
    → (msg secret sig : Bytes) → ecdsa_der S msg secret ≡ ok sig
    → length sig ≤ 73
unfolding ecdsa_der
ecdsa_der-length S sizes msg secret sig e =
    let (s, e1, e2) =
      bind_ok (or_throw (btk_error "" "could not sign") (S.ecdsa_sign msg secret)) _ e in
    let (der, e3, e4) =
      bind_ok (or_throw (btk_error "" "could not sign") (S.signature_serialize_der s)) _ e2 in
    let small : length der ≤ 72 = sizes.der s der (or_throw-ok _ _ der e3) in
    let eq : length (der ++ 0x01 ∷ []) ≡ length sig = ap length (ok-injective e4) in
    omega (arith, length-append der (0x01 ∷ []))

pub pubkey_from_secret-length :
    (S : Secp)
    → SecpSizes S
    → (secret : Bytes) (compressed : Bool) (network : Network) (pk : Pubkey)
    → pubkey_from_secret S secret compressed network ≡ ok pk
    → length pk.serialized ≤ 65
unfolding pubkey_from_secret
pubkey_from_secret-length S sizes secret compressed network pk e =
    elim (Bool-cases (S.seckey_verify secret)) [
      | inr z ↦ absurd (err-ne-ok {e = out_of_range} {a = pk} (rw z at e))
      | inl z ↦
          let (parsed, e1, r1) =
            bind_ok (or_throw out_of_range (S.pubkey_create secret)) _ (rw z at e) in
          let (bytes, e2, r2) =
            bind_ok (or_throw not_a_key (S.pubkey_serialize parsed compressed)) _ r1 in
          subst (λ (p : Pubkey). length p.serialized ≤ 65) (ok-injective r2)
            (sizes.pubkey parsed compressed bytes (or_throw-ok _ _ bytes e2))
    ]

length-two_pushes :
    (sig key script : Bytes)
    → two_pushes sig key ≡ ok script
    → length script ≡ 2 + length sig + length key
unfolding two_pushes push_data
length-two_pushes sig key script e = ground (arith, length-append sig (length key ∷ key))

-- What an input of a style may have, signed or not.
unfoldable pub Fits : AddressStyle → Pubkey → TxIn → Type 0
Fits p2pkh pk x = length x.script_sig ≤ 75 + length pk.serialized
Fits p2wpkh pk x =
    (x.script_sig ≡ []) × (length (write_witness x) ≤ 75 + length (write_bytes pk.serialized))
Fits p2tr pk x = (x.script_sig ≡ []) × (length (write_witness x) ≤ 66)

module _ (S : Secp) (sizes : SecpSizes S) (hash256 sha256 : Bytes → Bytes)
    (tagged_hash : Bytes → Bytes → Bytes) where
  schnorr_sig-length :
      (msg secret sig : Bytes)
      → schnorr_sig S hash256 sha256 tagged_hash msg secret ≡ ok sig
      → length sig ≡ 64
  unfolding schnorr_sig
  schnorr_sig-length msg secret sig e =
      let (pk, e1, r1) = bind_ok (pubkey_from_secret S secret true main) _ e in
      let (tweak, e2, r2) = bind_ok (tweak_of S hash256 sha256 tagged_hash pk) _ r1 in
      let (keypair, e3, r3) = bind_ok (or_throw _ (S.keypair_create secret)) _ r2 in
      let (tweak', e4, r4) = bind_ok (tweak_in_range S hash256 sha256 tagged_hash tweak) _ r3 in
      let (tweaked, e5, r5) =
        bind_ok (or_throw _ (S.keypair_xonly_tweak_add keypair tweak')) _ r4 in
      sizes.schnorr msg tweaked (replicate 32 0) sig (or_throw-ok _ _ sig r5)

  length-items :
      (sig key : Bytes)
      → length sig ≤ 73
      → length (write_counted write_bytes (sig ∷ key ∷ [])) ≤ 75 + length (write_bytes key)
  unfolding write_counted write_each write_bytes write_compact_size
  length-items sig key h =
      let small : ltb (length sig) 0xfd ≡ true = ground arith in
      rw small
        (ground (arith, length-append sig (write_bytes key ++ []), append-nil (write_bytes key)))

  length-item : (sig : Bytes) → length sig ≡ 64 → length (write_counted write_bytes (sig ∷ [])) ≤ 66
  unfolding write_counted write_each write_bytes write_compact_size
  length-item sig h = rw h (ground (arith, append-nil sig))

  module _ (key : Privkey) (pk : Pubkey) (utxos : List Utxo) where
    pub sign_in-Fits :
        (style : AddressStyle) (tx : Transaction) (i : ℕ) (a x : TxIn)
        → sign_in S hash256 sha256 tagged_hash key pk utxos style tx i a ≡ ok x
        → Fits style pk x × SameSpend x a
    unfolding sign_in Fits write_witness
    sign_in-Fits p2pkh tx i a x e =
        let (msg, e1, r1) =
          bind_ok (sighash_legacy hash256 tx i (get_or utxos i no_utxo).script_pubkey) _ e in
        let (sig, e2, r2) = bind_ok (ecdsa_der S msg key.secret) _ r1 in
        let (script, e3, r3) = bind_ok (two_pushes sig pk.serialized) _ r2 in
        ground (
          arith,
          ok-injective r3,
          ecdsa_der-length S sizes msg key.secret sig e2,
          length-two_pushes sig pk.serialized script e3,
        )
    sign_in-Fits p2wpkh tx i a x e =
        let (code, e0, r0) =
          bind_ok (p2wpkh_script_code (get_or utxos i no_utxo).script_pubkey) _ e in
        let (msg, e1, r1) =
          bind_ok (sighash_bip143 hash256 tx i code (get_or utxos i no_utxo).amount) _ r0 in
        let (sig, e2, r2) = bind_ok (ecdsa_der S msg key.secret) _ r1 in
        subst (λ (y : TxIn). Fits p2wpkh pk y × SameSpend y a) (ok-injective r2)
          (
            (refl, length-items sig pk.serialized (ecdsa_der-length S sizes msg key.secret sig e2)),
            (refl, refl, refl),
          )
    sign_in-Fits p2tr tx i a x e =
        let (msg, e1, r1) = bind_ok (sighash_taproot sha256 tagged_hash tx i utxos) _ e in
        let (sig, e2, r2) =
          bind_ok (schnorr_sig S hash256 sha256 tagged_hash msg key.secret) _ r1 in
        subst (λ (y : TxIn). Fits p2tr pk y × SameSpend y a) (ok-injective r2)
          ((refl, length-item sig (schnorr_sig-length msg key.secret sig e2)), (refl, refl, refl))
