-- ===== src/Chain/BalanceDb/Credits.antt =====
-- The credits of `apply`, and its loops over a block.
use bitcoin_toolkit.Common.{
  ℕ, ◌+◌, ◌%◌, ◌^◌, ◌≡◌, refl, ap, ◌∙◌, ◌||◌, some, List, [], ◌∷◌, ◌++◌, All, length, ◌==◌, Result,
  ok, ◌>>=◌, arith, Bool-cases, inl, inr,
}
use bitcoin_toolkit.Chain.HashMap.{find, assign, find-assign, assign-IsUnique}
use bitcoin_toolkit.Chain.LevelDb.{LevelDb, put, replay, replay-append}
use bitcoin_toolkit.Chain.BalanceDb.{
  OutpointRef, Credit, TxEffects, Pending, key_o, credit, credit_unchecked, spend_all, credit_all,
  apply_txs, encode_out_value,
}
use bitcoin_toolkit.Chain.BalanceDb.Codec.{decode_out_value-encode_out_value}
use bitcoin_toolkit.Chain.BalanceDb.Loop.{
  coin_in, key_o-ne-key_a, Agrees, Ahead, current_ok, seen-assign,
}
use bitcoin_toolkit.Chain.BalanceDb.Steps.{spend_ok}
use bitcoin_toolkit.Chain.BalanceDb.Ledger.{
  Ledger, update, key, spend_coin, coin, add_coin, spend_coins, add_coins, apply_block,
  block_spends, IsDistinct, IsValidCredit, IsValidBlock,
}

module _ (L : LevelDb) (db : L.Db) where
  -- The ledger and the pending state, with the coin of `c` added.
  abbrev credited : Ledger → Credit → Ledger
  credited l c = record {
    sats = update l.sats c.address ((l.sats c.address + c.amount) % 2 ^ 64);
    coins = update l.coins (key_o c.txid c.vout) (some (coin c));
  }

  Ahead-credit :
      (s s' : Pending) (l : Ledger) (c : Credit) (F : List OutpointRef)
      → s'.created ≡ assign (key_o c.txid c.vout) (coin c) s.created
      → Ahead L db s l F
      → Ahead L db s' (credited l c) F
  unfolding Ahead
  Ahead-credit s s' l c [] e h = tt
  Ahead-credit s s' l c (q ∷ F) e (h, hs) = (
    λ f. ground (
      arith,
      ap (find (key q)) e,
      find-assign (key_o c.txid c.vout) (key q) (coin c) s.created,
      h,
    ),
    Ahead-credit s s' l c F e hs,
  )

  credit_unchecked_ok :
      (s : Pending) (l : Ledger) (c : Credit)
      → Agrees L db s l
      → IsValidCredit c
      → (s' : Pending) × (credit_unchecked L db s c ≡ ok s')
        × Agrees L db s' (credited l c)
        × (s'.created ≡ assign (key_o c.txid c.vout) (coin c) s.created)
  unfolding credit_unchecked
  credit_unchecked_ok s l c h (size, fits) =
      let k = key_o c.txid c.vout in
      let (m, e, hm, um) = current_ok L db s.balances l.sats c.address h.sats h.unique in
      let v : ℕ = (l.sats c.address + c.amount) % 2 ^ 64 in
      (
        record {
          balances = assign c.address v m;
          created = assign k (coin c) s.created;
          batch = s.batch ++ put k (encode_out_value (coin c)) ∷ [];
        },
        ground (arith, e),
        record {
          sats = seen-assign L db m l.sats c.address v hm;
          unique = assign-IsUnique c.address v m um;
          bounded = λ a. ground (arith, h.bounded a);
          created = λ j d f. ground (arith, find-assign k j (coin c) s.created, h.created j d);
          batch = λ t' v'.
              unfold replay coin_in in
              rw replay-append (
                ground
                  (arith, h.batch t' v', decode_out_value-encode_out_value (coin c) size fits));
          untouched = λ a st.
              unfold replay in rw (replay-append, h.untouched a st, key_o-ne-key_a c.txid a c.vout);
        },
        refl,
      )

  -- A step of the pending state, and what is ahead of it.
  abbrev Follows : Result Pending → Ledger → List OutpointRef → Type 0
  Follows r l F = (s' : Pending) × (r ≡ ok s') × Agrees L db s' l × Ahead L db s' l F

  credit_ok :
      (s : Pending) (l : Ledger) (c : Credit) (F : List OutpointRef)
      → Agrees L db s l
      → Ahead L db s l F
      → IsValidCredit c
      → Follows (credit L db s c) (add_coin l c) F
  unfolding credit add_coin
  credit_ok s l c F h ahead v = elim (Bool-cases ((length c.address == 0) || (c.amount == 0))) [
    | inl skip ↦ rw skip (s, refl, h, ahead)
    | inr kept ↦
        let (s', e, agrees, cr) = credit_unchecked_ok s l c h v in
        rw kept (s', e, agrees, Ahead-credit s s' l c F cr ahead)
  ]

  credit_all_ok :
      (s : Pending) (l : Ledger) (cs : List Credit) (F : List OutpointRef)
      → Agrees L db s l
      → Ahead L db s l F
      → All IsValidCredit cs
      → Follows (credit_all L db s cs) (add_coins l cs) F
  unfolding credit_all add_coins
  credit_all_ok s l [] F h ahead v = (s, refl, h, ahead)
  credit_all_ok s l (c ∷ cs) F h ahead (v, vs) =
      let (s1, e1, h1, ahead1) = credit_ok s l c F h ahead v in
      let (s2, e2, h2, ahead2) = credit_all_ok s1 (add_coin l c) cs F h1 ahead1 vs in
      (s2, ap (λ (r : Result Pending). r >>= λ x. credit_all L db x cs) e1 ∙ e2, h2, ahead2)

  spend_all_ok :
      (s : Pending) (l : Ledger) (sps F : List OutpointRef)
      → Agrees L db s l
      → Ahead L db s l (sps ++ F)
      → IsDistinct (sps ++ F)
      → Follows (spend_all L db s sps) (spend_coins l sps) F
  unfolding spend_all spend_coins
  spend_all_ok s l [] F h ahead d = (s, refl, h, ahead)
  spend_all_ok s l (sp ∷ sps) F h ahead (apart, d) =
      let (s1, e1, h1, ahead1) = spend_ok L db s l sp (sps ++ F) h ahead apart in
      let (s2, e2, h2, ahead2) = spend_all_ok s1 (spend_coin l sp) sps F h1 ahead1 d in
      (s2, ap (λ (r : Result Pending). r >>= λ x. spend_all L db x sps) e1 ∙ e2, h2, ahead2)

  IsDistinct-after : (sps F : List OutpointRef) → IsDistinct (sps ++ F) → IsDistinct F
  IsDistinct-after [] F d = d
  IsDistinct-after (sp ∷ sps) F d = IsDistinct-after sps F d.1

  -- The whole block: the loops return, and follow the ledger.
  pub apply_txs_ok :
      (s : Pending) (l : Ledger) (txs : List TxEffects)
      → Agrees L db s l
      → Ahead L db s l (block_spends txs)
      → IsValidBlock txs
      → (s' : Pending) × (apply_txs L db s txs ≡ ok s') × Agrees L db s' (apply_block l txs)
  unfolding apply_txs apply_block block_spends
  apply_txs_ok s l [] h ahead v = (s, refl, h)
  apply_txs_ok s l (te ∷ txs) h ahead ((v, vs), d) =
      let F = block_spends txs in
      let (s1, e1, h1, ahead1) = spend_all_ok s l te.spends F h ahead d in
      let l1 = spend_coins l te.spends in
      let (s2, e2, h2, ahead2) = credit_all_ok s1 l1 te.credits F h1 ahead1 v in
      let (s3, e3, h3) =
        apply_txs_ok s2 (add_coins l1 te.credits) txs h2 ahead2
          (vs, IsDistinct-after te.spends F d) in
      (
        s3,
        ap
              (λ (r : Result Pending).
                r >>= λ x. credit_all L db x te.credits >>= λ y. apply_txs L db y txs)
              e1
            ∙ ap (λ (r : Result Pending). r >>= λ y. apply_txs L db y txs) e2
            ∙ e3,
        h3,
      )
