-- ===== src/Chain/Sign/Legacy.antt =====
-- src/chain/sign.cpp: what the legacy signature hash is a hash of.
-- The inputs with the script code at one index, no other script and no witness data.
use bitcoin_toolkit.LittleEndian.{write_le32}
use bitcoin_toolkit.Chain.Transaction.{
  Transaction, write_out, write_bytes, write_counted, write_in, TxIn, write_vin_vout, write_each,
  serialize_tx,
}
use bitcoin_toolkit.Chain.Sign.{out_bytes, write_script, legacy_ins, sighash_legacy}
use bitcoin_toolkit.Common.{
  arith, leb, ◌++◌, append-nil, false, inr, ok, append_assoc, refl, ◌<◌, ◌+◌, inl, suc, [],
  Bool-cases, ap, ◌==◌, ◌≡◌, if◌then◌else◌, length, ◌∷◌, List, ℕ, Bytes,
}

pub with_code : Bytes → ℕ → ℕ → List TxIn → List TxIn
with_code code index i [] = []
with_code code index i (x ∷ rest) =
    record x { script_sig = if i == index then code else []; witness = [] }
    ∷ with_code code index (i + 1) rest

pub length-with_code :
    (code : Bytes) (index i : ℕ) (xs : List TxIn) → length (with_code code index i xs) ≡ length xs
unfolding with_code
length-with_code code index i [] = refl
length-with_code code index i (x ∷ xs) = ap suc (length-with_code code index (i + 1) xs)

legacy_ins-with_code :
    (code : Bytes) (index i : ℕ) (xs : List TxIn)
    → legacy_ins code index i xs ≡ write_each write_in (with_code code index i xs)
unfolding legacy_ins with_code write_each write_in write_bytes write_script
legacy_ins-with_code code index i [] = refl
legacy_ins-with_code code index i (x ∷ xs) = elim (Bool-cases (i == index)) [
  | inl z ↦ rw z (simp (legacy_ins-with_code code index (i + 1) xs, append_assoc))
  | inr z ↦ rw z (simp (legacy_ins-with_code code index (i + 1) xs, append_assoc, append-nil))
]

-- The legacy signature hash of an input is the hash of the transaction, serialized without witness
-- data, in which that input has the script code and the others no script, followed by SIGHASH_ALL in
-- four bytes.
pub sighash_legacy-serialize_tx :
    (hash256 : Bytes → Bytes) (tx : Transaction) (index : ℕ) (code : Bytes)
    → index < length tx.vin
    → sighash_legacy hash256 tx index code
      ≡ ok (
          hash256 (
            serialize_tx (record tx { vin = with_code code index 0 tx.vin }) false
            ++ (1 ∷ 0 ∷ 0 ∷ 0 ∷ [])))
unfolding sighash_legacy serialize_tx write_vin_vout write_counted write_le32 out_bytes write_out
    write_bytes write_script
sighash_legacy-serialize_tx hash256 tx index code h =
    let inside : leb (length tx.vin) index ≡ false = ground arith in
    rw (inside, length-with_code code index 0 tx.vin, legacy_ins-with_code code index 0 tx.vin)
      (simp append_assoc)
