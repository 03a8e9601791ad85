-- ===== src/Chain/Indexer/Effects.antt =====
-- The effects of a block are those of its inputs and outputs.
use bitcoin_toolkit.Common.{
  true, ◌≤◌, refl, none, inr, Bool-cases, ap, inl, sym, arith, [], ◌⊎◌, err-ne-ok, err, ◌>>=◌,
  Option, Result, ◌+◌, ok-injective, ◌^◌, subst, ◌<◌, All, some, ok, ◌∷◌, ◌≡◌, ℕ, Bytes, List,
}
use bitcoin_toolkit.Chain.Transaction.{all_zero, TxIn, TxOut, Transaction, Block, is_null_prevout}
use bitcoin_toolkit.Chain.Block.{txid, block_hash}
use bitcoin_toolkit.Chain.Script.{AddressCodec, address_from_script}
use bitcoin_toolkit.Chain.BalanceDb.{OutpointRef, Credit, TxEffects, BlockEffects}
use bitcoin_toolkit.Chain.Indexer.{
  spends_of, not_positive, credit_of, credits_of, tx_effects, all_effects, effects_from_block,
}

abbrev pub outpoint : TxIn → OutpointRef
outpoint i = record { txid = i.prev_txid; vout = i.prev_vout }

abbrev pub IsNull : TxIn → Type 0
IsNull i = All (λ (b : ℕ). b ≡ 0) i.prev_txid

all_zero-All : (bs : Bytes) → all_zero bs ≡ true → All (λ (b : ℕ). b ≡ 0) bs
all_zero-All [] h = tt
all_zero-All (b ∷ bs) h = (ground arith, all_zero-All bs (ground arith))

All-all_zero : (bs : Bytes) → All (λ (b : ℕ). b ≡ 0) bs → all_zero bs ≡ true
All-all_zero [] h = refl
All-all_zero (b ∷ bs) (h, hs) = ground (arith, All-all_zero bs hs)

-- The outpoints that inputs spend: one for each input but the null ones, in order.
pub data Spent : List TxIn → List OutpointRef → Type 0 where
  no_input : Spent [] []
  null :
      {i : TxIn} {vin : List TxIn} {sps : List OutpointRef}
      → IsNull i
      → Spent vin sps
      → Spent (i ∷ vin) sps
  spends :
      {i : TxIn} {vin : List TxIn} {sps : List OutpointRef}
      → ¬ (IsNull i)
      → Spent vin sps
      → Spent (i ∷ vin) (outpoint i ∷ sps)

spends_of-Spent : (vin : List TxIn) → Spent vin (spends_of vin)
unfolding spends_of is_null_prevout
spends_of-Spent [] = no_input
spends_of-Spent (i ∷ vin) = elim (Bool-cases (all_zero i.prev_txid)) [
  | inl z ↦ rw z (null (all_zero-All i.prev_txid z) (spends_of-Spent vin))
  | inr z ↦
      rw z (spends (λ n. absurd (ground (arith, All-all_zero i.prev_txid n))) (spends_of-Spent vin))
]

module _ (C : AddressCodec) (hash160 : Bytes → Bytes) (id : Bytes) where
  -- The output pays a positive amount to the address.
  pub record IsPayment (out : TxOut) (a : Bytes) : Type 0 where
    pub addr : address_from_script C hash160 out.script_pubkey ≡ ok (some a)
    pub above_0 : 0 < out.value
    pub below_sign : out.value < 2 ^ 63

  -- The amount is zero or negative, or the script has no address.
  abbrev pub IsUnpaid : TxOut → Type 0
  IsUnpaid out =
      (out.value ≡ 0)
      ⊎ (2 ^ 63 ≤ out.value)
      ⊎ (address_from_script C hash160 out.script_pubkey ≡ ok none)

  -- The credits of the outputs from position `i` on: one for each payment, in order.
  pub data Credited : ℕ → List TxOut → List Credit → Type 0 where
    no_output : {i : ℕ} → Credited i [] []
    unpaid :
        {i : ℕ} {out : TxOut} {outs : List TxOut} {cs : List Credit}
        → IsUnpaid out
        → Credited (i + 1) outs cs
        → Credited i (out ∷ outs) cs
    pays :
        {i : ℕ} {out : TxOut} {outs : List TxOut} {cs : List Credit}
        → (a : Bytes) → IsPayment out a
        → Credited (i + 1) outs cs
        → Credited i
            (out ∷ outs)
            (record { txid = id; vout = i; address = a; amount = out.value } ∷ cs)

  credits_of-Credited :
      (i : ℕ) (outs : List TxOut) (cs : List Credit)
      → credits_of C hash160 id i outs ≡ ok cs
      → Credited i outs cs
  unfolding credits_of credit_of
  credits_of-Credited i [] cs e = subst (Credited i []) (ok-injective e) no_output
  credits_of-Credited i (out ∷ outs) cs e = elim (Bool-cases (not_positive out.value)) [
    | inl z ↦ unpaid (ground (arith, z)) (credits_of-Credited (i + 1) outs cs (rw z at e))
    | inr z ↦
        with_address (λ ds q. credits_of-Credited (i + 1) outs ds q) (ground (arith, z))
          (ground (arith, z)) (address_from_script C hash160 out.script_pubkey) refl
          (credits_of C hash160 id (i + 1) outs) refl (rw z at e)
  ]
    where
      with_address :
          ((ds : List Credit)
            → credits_of C hash160 id (i + 1) outs ≡ ok ds
            → Credited (i + 1) outs ds)
          → 0 < out.value
          → out.value < 2 ^ 63
          → (r : Result (Option Bytes)) → address_from_script C hash160 out.script_pubkey ≡ r
          → (others : Result (List Credit)) → credits_of C hash160 id (i + 1) outs ≡ others
          → (do addr ← r; ds ← others; ok (credit_of C hash160 id i out addr ds)) ≡ ok cs
          → Credited i (out ∷ outs) cs
      with_address h low high (err x) r others q e' = absurd (err-ne-ok e')
      with_address h low high (ok addr) r (err x) q e' = absurd (err-ne-ok e')
      with_address h low high (ok none) r (ok ds) q e' =
          subst (Credited i (out ∷ outs)) (ok-injective e') (unpaid (inr (inr r)) (h ds q))
      with_address h low high (ok (some a)) r (ok ds) q e' =
          subst (Credited i (out ∷ outs)) (ok-injective e')
            (pays a (record { addr = r; above_0 = low; below_sign = high }) (h ds q))

module _ (C : AddressCodec) (hash160 hash256 : Bytes → Bytes) where
  pub record IsEffectOf (tx : Transaction) (te : TxEffects) : Type 0 where
    pub spent : Spent tx.vin te.spends
    pub credited : Credited C hash160 (txid hash256 tx) 0 tx.vout te.credits

  tx_effects-IsEffectOf :
      (tx : Transaction) (te : TxEffects)
      → tx_effects C hash160 hash256 tx ≡ ok te
      → IsEffectOf tx te
  unfolding tx_effects
  tx_effects-IsEffectOf tx te e = from (credits_of C hash160 (txid hash256 tx) 0 tx.vout) refl e
    where
      from :
          (r : Result (List Credit))
          → credits_of C hash160 (txid hash256 tx) 0 tx.vout ≡ r
          → (do cs ← r; ok (record { spends = spends_of tx.vin; credits = cs })) ≡ ok te
          → IsEffectOf tx te
      from (err x) q e' = absurd (err-ne-ok e')
      from (ok cs) q e' = subst (IsEffectOf tx) (ok-injective e') (record {
        spent = spends_of-Spent tx.vin;
        credited = credits_of-Credited C hash160 (txid hash256 tx) 0 tx.vout cs q;
      })

  -- Two lists of one length, related item by item.
  abbrev pub Each : List Transaction → List TxEffects → Type 0
  Each [] [] = Unit
  Each [] (te ∷ tes) = ⊥
  Each (tx ∷ txs) [] = ⊥
  Each (tx ∷ txs) (te ∷ tes) = IsEffectOf tx te × Each txs tes

  all_effects-Each :
      (txs : List Transaction) (tes : List TxEffects)
      → all_effects C hash160 hash256 txs ≡ ok tes
      → Each txs tes
  unfolding all_effects
  all_effects-Each [] tes e = subst (Each []) (ok-injective e) tt
  all_effects-Each (tx ∷ txs) tes e =
      from (tx_effects C hash160 hash256 tx) refl (all_effects C hash160 hash256 txs)
        (λ others q. all_effects-Each txs others q) e
    where
      from :
          (r : Result TxEffects)
          → tx_effects C hash160 hash256 tx ≡ r
          → (rs : Result (List TxEffects))
          → ((others : List TxEffects) → rs ≡ ok others → Each txs others)
          → (do te ← r; others ← rs; ok (te ∷ others)) ≡ ok tes
          → Each (tx ∷ txs) tes
      from (err x) q rs h e' = absurd (err-ne-ok e')
      from (ok te) q (err x) h e' = absurd (err-ne-ok e')
      from (ok te) q (ok others) h e' =
          subst (Each (tx ∷ txs)) (ok-injective e') (tx_effects-IsEffectOf tx te q, h others refl)

  -- The effects that `effects_from_block` returns have the height given, the block's time and hash,
  -- and one entry for each transaction, in order. The spends of an entry are exactly the outpoints of
  -- the transaction's inputs but those whose txid is all zeros, in the order of the inputs. Its
  -- credits are exactly the outputs with an amount above 0 and an address, in the order of the
  -- outputs, each once, with the transaction's `txid`, the output's position, its address and amount.
  pub effects_from_block-Each :
      (block : Block) (height : ℕ) (fx : BlockEffects)
      → effects_from_block C hash160 hash256 block height ≡ ok fx
      → (fx.height ≡ height)
        × (fx.time ≡ block.time)
        × (fx.hash ≡ block_hash hash256 block)
        × Each block.txs fx.txs
  unfolding effects_from_block
  effects_from_block-Each block height fx e =
      from (all_effects C hash160 hash256 block.txs) (λ tes q. all_effects-Each block.txs tes q) e
    where
      from :
          (r : Result (List TxEffects))
          → ((tes : List TxEffects) → r ≡ ok tes → Each block.txs tes)
          → (do
            txs ← r
            ok (record {
              height = height;
              time = block.time;
              hash = block_hash hash256 block;
              txs = txs;
            }))
            ≡ ok fx
          → (fx.height ≡ height)
            × (fx.time ≡ block.time)
            × (fx.hash ≡ block_hash hash256 block)
            × Each block.txs fx.txs
      from (err x) h e' = absurd (err-ne-ok e')
      from (ok tes) h e' =
          let same = ok-injective e' in
          (
            sym (ap (λ (f : BlockEffects). f.height) same),
            sym (ap (λ (f : BlockEffects). f.time) same),
            sym (ap (λ (f : BlockEffects). f.hash) same),
            subst (λ (f : BlockEffects). Each block.txs f.txs) same (h tes refl),
          )
