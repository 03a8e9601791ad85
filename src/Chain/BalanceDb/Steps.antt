-- ===== src/Chain/BalanceDb/Steps.antt =====
-- Each step of `apply` returns, and follows the ledger.
use bitcoin_toolkit.Common.{
  ◌≡◌, refl, sym, ap, ◌∙◌, false, none, some, List, [], ◌∷◌, Bytes, All, bytes_eq, bytes_eq_iff, ok,
  arith, subst, Option-cases, inl, inr,
}
use bitcoin_toolkit.Chain.HashMap.{HashMap, find, erase, find-erase}
use bitcoin_toolkit.Chain.LevelDb.{LevelDb}
use bitcoin_toolkit.Chain.BalanceDb.{OutpointRef, Coin, Pending, get_outpoint, debit, spend}
use bitcoin_toolkit.Chain.BalanceDb.Loop.{Agrees, Ahead, debit_ok}
use bitcoin_toolkit.Chain.BalanceDb.Ledger.{Ledger, take_coin, key, spend_coin}

module _ (L : LevelDb) (db : L.Db) where
  -- The outpoints ahead stay those of the database, past the spend of another.
  Ahead-spend :
      (s s' : Pending) (l : Ledger) (sp : OutpointRef) (F : List OutpointRef)
      → ((j : Bytes) → bytes_eq (key sp) j ≡ false → find j s'.created ≡ find j s.created)
      → All (λ q. bytes_eq (key sp) (key q) ≡ false) F
      → Ahead L db s l F
      → Ahead L db s' (spend_coin l sp) F
  unfolding Ahead spend_coin
  Ahead-spend s s' l sp [] same apart h = tt
  Ahead-spend s s' l sp (q ∷ F) same (a, apart) (h, hs) =
      (λ e. ground (arith, same (key q) a, h), Ahead-spend s s' l sp F same apart hs)

  -- What a spend leaves behind.
  abbrev pub Spent : Pending → Ledger → OutpointRef → List OutpointRef → Type 0
  Spent s l sp F =
      (s' : Pending) × (spend L db s sp ≡ ok s')
      × Agrees L db s' (spend_coin l sp)
      × Ahead L db s' (spend_coin l sp) F

  module _ (s : Pending) (l : Ledger) (sp : OutpointRef) (F : List OutpointRef)
      (h : Agrees L db s l) (ahead : Ahead L db s l (sp ∷ F))
      (apart : All (λ q. bytes_eq (key sp) (key q) ≡ false) F) where
    -- A coin of the ledger is spent by its debit.
    spend_coin_ok :
        (c : Coin) (created' : HashMap Coin)
        → l.coins (key sp) ≡ some c
        → spend L db s sp ≡ debit L db (record s { created = created' }) (key sp) c
        → ((j : Bytes) (d : Coin)
            → find j created' ≡ some d
            → (bytes_eq (key sp) j ≡ false) × (l.coins j ≡ some d))
        → ((j : Bytes) → bytes_eq (key sp) j ≡ false → find j created' ≡ find j s.created)
        → Spent s l sp F
    spend_coin_ok c created' has step left same =
        let (s', e, agrees, cr) = debit_ok L db s l sp.txid sp.vout c created' h left in
        (
          s',
          step ∙ e,
          unfold spend_coin in
              subst (λ o. Agrees L db s' (take_coin l (key sp) o)) (sym has) agrees,
          Ahead-spend s s' l sp F (λ j a. ap (find j) cr ∙ same j a) apart
              (unfold Ahead in ahead.1),
        )

    spend_created : (c : Coin) → find (key sp) s.created ≡ some c → Spent s l sp F
    unfolding spend
    spend_created c e =
        spend_coin_ok c (erase (key sp) s.created) (h.created (key sp) c e) (ground (arith, e))
          (λ j d f. ground (arith, find-erase (key sp) j s.created, h.created j d))
          (λ j a. ground (arith, find-erase (key sp) j s.created))

    spend_stored : find (key sp) s.created ≡ none → Spent s l sp F
    unfolding spend Ahead
    spend_stored e = elim (Option-cases (l.coins (key sp))) [
      | inr (c, has) ↦
          spend_coin_ok c s.created has (ground (arith, e, has, stored))
            (λ j d f. (ground (arith, e, bytes_eq_iff (key sp) j, cong j), h.created j d f))
            (λ j a. refl)
      | inl nothing ↦ (
        s,
        ground (arith, e, nothing, stored),
        unfold spend_coin in subst (λ o. Agrees L db s (take_coin l (key sp) o)) (sym nothing) h,
        Ahead-spend s s l sp F (λ j a. refl) apart (unfold Ahead in ahead.1),
      )
    ]
      where
        stored : get_outpoint L db sp.txid sp.vout ≡ ok (l.coins (key sp))
        stored = ahead.0 e

        cong : (j : Bytes) → key sp ≡ j → find (key sp) s.created ≡ find j s.created
        cong j p = ap (λ t. find t s.created) p

    pub spend_ok : Spent s l sp F
    spend_ok = elim (Option-cases (find (key sp) s.created)) [
      | inr (c, e) ↦ spend_created c e
      | inl e ↦ spend_stored e
    ]
