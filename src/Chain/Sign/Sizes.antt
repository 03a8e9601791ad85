-- ===== src/Chain/Sign/Sizes.antt =====
-- src/chain/sign.cpp: the sizes of what is serialized.
use bitcoin_toolkit.LittleEndian.{length-write_le32, write_le64, write_le32, write_le16}
use bitcoin_toolkit.Common.{
  inr, inl, Bool-cases, ◌&&◌, false, ap, true, zero, [], suc, ◌∷◌, Bool, ◌*◌, All, arith, replicate,
  List, ◌+◌, length-append, ℕ, ◌≡◌, ◌≤◌, length, Bytes,
}
use bitcoin_toolkit.Chain.Transaction.{
  write_witness, write_out, Transaction, write_counted, write_vin_vout, write_each, TxIn,
  serialize_tx, write_in, write_bytes,
}
use bitcoin_toolkit.Chain.CompactSize.{write_compact_size}

pub length-write_compact_size_mono :
    (a b : ℕ) → a ≤ b → length (write_compact_size a) ≤ length (write_compact_size b)
unfolding write_compact_size write_le16 write_le32 write_le64
length-write_compact_size_mono a b h = ground arith

pub length-write_bytes_mono :
    (s t : Bytes) → length s ≤ length t → length (write_bytes s) ≤ length (write_bytes t)
unfolding write_bytes
length-write_bytes_mono s t h =
    simp length-append (omega (arith, length-write_compact_size_mono (length s) (length t) h))

pub length-write_in :
    (x : TxIn)
    → length x.prev_txid ≡ 32
    → length (write_in x) ≡ 40 + length (write_bytes x.script_sig)
unfolding write_in
length-write_in x h =
    simp length-append
      (omega (arith, h, length-write_le32 x.prev_vout, length-write_le32 x.sequence))

length-replicate : {A : Type 0} (n : ℕ) (x : A) → length (replicate n x) ≡ n
length-replicate zero x = omega arith
length-replicate (suc n) x = ap suc (length-replicate n x)

module _ {A : Type 0} (w : A → Bytes) where
  pub length-write_each-le :
      (bound : ℕ) (xs : List A)
      → All (λ (x : A). length (w x) ≤ bound) xs
      → length (write_each w xs) ≤ length xs * bound
  unfolding write_each
  length-write_each-le bound [] h = omega arith
  length-write_each-le bound (x ∷ xs) h =
      simp length-append (ground (arith, length-write_each-le bound xs h.1))

  pub length-write_each-replicate :
      (n : ℕ) (x : A) → length (write_each w (replicate n x)) ≡ n * length (w x)
  unfolding write_each
  length-write_each-replicate zero x = omega arith
  length-write_each-replicate (suc n) x =
      simp length-append (ground (arith, length-write_each-replicate n x))

abbrev witness_part : Bool → List TxIn → ℕ
witness_part true vin = 2 + length (write_each write_witness vin)
witness_part false vin = 0

pub length-serialize_tx :
    (tx : Transaction) (wit : Bool)
    → length (serialize_tx tx wit)
      ≡ 8
        + length (write_compact_size (length tx.vin))
        + length (write_each write_in tx.vin)
        + length (write_counted write_out tx.vout)
        + witness_part (wit && tx.has_witness) tx.vin
unfolding serialize_tx write_vin_vout write_counted
length-serialize_tx tx wit = elim (Bool-cases (wit && tx.has_witness)) [
  | inl z ↦ rw z (
      simp length-append
        (omega (arith, length-write_le32 tx.version, length-write_le32 tx.locktime)))
  | inr z ↦ rw z (
      simp length-append
        (omega (arith, length-write_le32 tx.version, length-write_le32 tx.locktime)))
]

-- A transaction whose inputs are bounded takes at most as many bytes as one with as many inputs, each
-- of the size of the bound.
pub length-serialize_tx_le :
    (tx big : Transaction) (d : TxIn) (wit : Bool)
    → tx.has_witness ≡ big.has_witness
    → big.vin ≡ replicate (length tx.vin) d
    → length (write_counted write_out tx.vout) ≡ length (write_counted write_out big.vout)
    → All (λ (x : TxIn). length (write_in x) ≤ length (write_in d)) tx.vin
    → (tx.has_witness ≡ true
        → All (λ (x : TxIn). length (write_witness x) ≤ length (write_witness d)) tx.vin)
    → length (serialize_tx tx wit) ≤ length (serialize_tx big wit)
length-serialize_tx_le tx big d wit same dummies outs ins wits =
    rw
      (
        length-serialize_tx tx wit,
        length-serialize_tx big wit,
        ← same,
        dummies,
        length-replicate (length tx.vin) d,
      )
      (elim (Bool-cases (wit && tx.has_witness)) [
        | inl z ↦ rw z (
            omega (
              arith,
              outs,
              length-write_each-le write_in (length (write_in d)) tx.vin ins,
              length-write_each-replicate write_in (length tx.vin) d,
              length-write_each-le write_witness (length (write_witness d)) tx.vin
                  (wits (ground arith)),
              length-write_each-replicate write_witness (length tx.vin) d,
            ))
        | inr z ↦ rw z (
            omega (
              arith,
              outs,
              length-write_each-le write_in (length (write_in d)) tx.vin ins,
              length-write_each-replicate write_in (length tx.vin) d,
            ))
      ])
