-- ===== src/Chain/BalanceDb/Loop.antt =====
-- The loops of `apply` follow the ledger: what they have pending, over the database as it was,
-- stands for the ledger as it is after the same steps.
use bitcoin_toolkit.Common.{
  ℕ, ◌^◌, ◌<◌, ◌≡◌, refl, false, Option, none, some, List, [], ◌∷◌, ◌++◌, Bytes, All, bytes_eq,
  bytes_eq_iff, Result, ok, err, arith, Option-cases, inl, inr,
}
use bitcoin_toolkit.Chain.HashMap.{HashMap, find, assign, find-assign, IsUnique, assign-IsUnique}
use bitcoin_toolkit.Chain.LevelDb.{
  LevelDb, Status, found, not_found, failed, delete, replay, replay-append, read_key,
}
use bitcoin_toolkit.Chain.BalanceDb.{
  read_failed, OutpointRef, Coin, Pending, key_o, key_a, get_sats, get_outpoint, current, debit,
  coin_of, decode_out_value,
}
use bitcoin_toolkit.Chain.BalanceDb.Ledger.{Ledger, update, minus, take_coin, key}

-- The coin that a `Get` of its key shows.
unfoldable pub coin_in : Status → Result (Option Coin)
unfolding coin_of
coin_in (found raw) = ok (decode_out_value raw)
coin_in not_found = ok none
coin_in failed = err read_failed

pub key_o-ne-key_a : (t a : Bytes) (v : ℕ) → bytes_eq (key_o t v) (key_a a) ≡ false
unfolding key_o key_a bytes_eq
key_o-ne-key_a t a v = refl

abbrev pub balance_or : Option ℕ → Result ℕ → Result ℕ
balance_or (some v) r = ok v
balance_or none r = r

module _ (L : LevelDb) (db : L.Db) where
  open L use {get}

  -- The balance of an address, as `current` finds it.
  unfoldable pub seen : HashMap ℕ → Bytes → Result ℕ
  seen m a = balance_or (find a m) (get_sats L db a)

  pub record Agrees (s : Pending) (l : Ledger) : Type 0 where
    pub sats : (a : Bytes) → seen s.balances a ≡ ok (l.sats a)
    pub unique : IsUnique s.balances
    pub bounded : (a : Bytes) → l.sats a < 2 ^ 64
    pub created : (k : Bytes) (c : Coin) → find k s.created ≡ some c → l.coins k ≡ some c
    pub batch :
        (t : Bytes) (v : ℕ)
        → coin_in (replay s.batch (key_o t v) (get db (key_o t v))) ≡ ok (l.coins (key_o t v))
    pub untouched : (a : Bytes) (st : Status) → replay s.batch (key_a a) st ≡ st

  -- The outpoints still to be spent, if the block did not create them, are those of the database.
  unfoldable pub Ahead : Pending → Ledger → List OutpointRef → Type 0
  Ahead s l =
      All (λ q.
        find (key q) s.created ≡ none → get_outpoint L db q.txid q.vout ≡ ok (l.coins (key q)))

  pub current_ok :
      (m : HashMap ℕ) (S : Bytes → ℕ) (a : Bytes)
      → ((j : Bytes) → seen m j ≡ ok (S j))
      → IsUnique m
      → (m' : HashMap ℕ) × (current L db m a ≡ ok (S a, m'))
        × ((j : Bytes) → seen m' j ≡ ok (S j))
        × IsUnique m'
  unfolding seen current
  current_ok m S a h u = elim (Option-cases (find a m)) [
    | inr (v, e) ↦ (m, ground (arith, e, h a), h, u)
    | inl e ↦ (
      assign a (S a) m,
      ground (arith, e, h a),
      λ j. ground (arith, e, find-assign a j (S a) m, bytes_eq_iff a j, h a, h j),
      assign-IsUnique a (S a) m u,
    )
  ]

  pub seen-assign :
      (m : HashMap ℕ) (S : Bytes → ℕ) (a : Bytes) (v : ℕ)
      → ((j : Bytes) → seen m j ≡ ok (S j))
      → (j : Bytes) → seen (assign a v m) j ≡ ok (update S a v j)
  unfolding seen
  seen-assign m S a v h j = ground (arith, find-assign a j v m, h j)

  pub get_outpoint_in : (t : Bytes) (v : ℕ) → get_outpoint L db t v ≡ coin_in (get db (key_o t v))
  unfolding get_outpoint read_key coin_in
  get_outpoint_in t v = ground arith

  -- The debit of a coin of the ledger, whatever entry of `created` went before it.
  pub debit_ok :
      (s : Pending) (l : Ledger) (t : Bytes) (v : ℕ) (c : Coin) (created' : HashMap Coin)
      → Agrees s l
      → ((j : Bytes) (d : Coin)
          → find j created' ≡ some d
          → (bytes_eq (key_o t v) j ≡ false) × (l.coins j ≡ some d))
      → (s' : Pending) × (debit L db (record s { created = created' }) (key_o t v) c ≡ ok s')
        × Agrees s' (take_coin l (key_o t v) (some c))
        × (s'.created ≡ created')
  unfolding debit
  debit_ok s l t v c created' h left =
      let k = key_o t v in
      let (m, e, hm, um) = current_ok s.balances l.sats c.address h.sats h.unique in
      let s' : Pending = record {
        balances = assign c.address (minus (l.sats c.address) c.amount) m;
        created = created';
        batch = s.batch ++ delete k ∷ [];
      } in
      (
        s',
        ground (arith, e),
        record {
          sats = seen-assign m l.sats c.address (minus (l.sats c.address) c.amount) hm;
          unique = assign-IsUnique c.address (minus (l.sats c.address) c.amount) m um;
          bounded = λ a. ground (arith, h.bounded a, h.bounded c.address);
          created = λ j d f. ground (arith, left j d f);
          batch =
              λ t' v'. unfold replay coin_in in rw replay-append (ground (arith, h.batch t' v'));
          untouched =
              λ a st. unfold replay in rw (replay-append, h.untouched a st, key_o-ne-key_a t a v);
        },
        refl,
      )
