-- ===== src/Chain/BalanceDb.antt =====
-- src/chain/balance_db.hpp and balance_db.cpp: the index of coins and balances in LevelDB.
pub mod Codec
pub mod Ledger
pub mod Loop
pub mod Steps
pub mod Credits
pub mod Refinement
mod Examples
use bitcoin_toolkit.Common.{
  ℕ, ◌+◌, ◌-◌, ◌%◌, ◌^◌, Bool, true, false, ◌&&◌, ◌||◌, not, Option, none, some, List, [], ◌∷◌,
  ◌++◌, Bytes, length, take, drop, ltb, ◌==◌, if◌then◌else◌, Result, ok, err, ◌>>=◌, BtkError,
  btk_error,
}
use bitcoin_toolkit.LittleEndian.{write_le32, write_le64, read_le32, read_le64}
use bitcoin_toolkit.Chain.CompactSize.{write_compact_size, read_compact_size}
use bitcoin_toolkit.Chain.HashMap.{HashMap, Order, find, assign, erase}
use bitcoin_toolkit.Chain.LevelDb.{LevelDb, WriteBatch, put, delete, read_key}

pub record OutpointRef : Type 0 where
  pub txid : Bytes
  pub vout : ℕ

pub record Credit : Type 0 where
  pub txid : Bytes
  pub vout : ℕ
  pub address : Bytes
  pub amount : ℕ

pub record TxEffects : Type 0 where
  pub spends : List OutpointRef
  pub credits : List Credit

pub record BlockEffects : Type 0 where
  pub height : ℕ
  pub time : ℕ
  pub hash : Bytes
  pub txs : List TxEffects

-- The address and the amount of an unspent output.
pub record Coin : Type 0 where
  pub address : Bytes
  pub amount : ℕ

abbrev read_failed : BtkError
read_failed = btk_error "balance" "leveldb read failed"

abbrev not_synced : BtkError
not_synced = btk_error "balance" "balance database not found (run btk balance --sync)"

unfoldable pub key_a : Bytes → Bytes
key_a addr = b'A' ∷ addr

unfoldable pub key_o : Bytes → ℕ → Bytes
key_o txid vout = b'O' ∷ (take 32 txid ++ write_le32 vout)

-- "Mheight" and "Mtip"
abbrev pub key_height : Bytes
key_height = b'M' ∷ b'h' ∷ b'e' ∷ b'i' ∷ b'g' ∷ b'h' ∷ b't' ∷ []

abbrev pub key_tip : Bytes
key_tip = b'M' ∷ b't' ∷ b'i' ∷ b'p' ∷ []

pub encode_out_value : Coin → Bytes
encode_out_value c = write_compact_size (length c.address) ++ (c.address ++ write_le64 c.amount)

-- The sums are of `size_t`, and wrap.
decode_at : Bytes → ℕ × ℕ → Option Coin
decode_at raw (n, off) =
    if (off + n + 8) % 2 ^ 64 == length raw
    then some (record {
      address = take n (drop off raw);
      amount = read_le64 (drop ((off + n) % 2 ^ 64) raw);
    })
    else none

pub decode_out_value : Bytes → Option Coin
unfolding decode_at
decode_out_value raw =
    if ltb (length raw) 9
    then none
    else elim (read_compact_size raw 0) [ ok r ↦ decode_at raw r | err e ↦ none ]

-- The variables of `apply` that its loops change.
pub record Pending : Type 0 where
  pub balances : HashMap ℕ
  pub created : HashMap Coin
  pub batch : WriteBatch

sats_of : Option Bytes → ℕ
sats_of none = 0
sats_of (some raw) = if length raw == 8 then read_le64 raw else 0

coin_of : Option Bytes → Option Coin
coin_of none = none
coin_of (some raw) = decode_out_value raw

has_size : ℕ → Option Bytes → Bool
has_size n none = false
has_size n (some raw) = length raw == n

value_of_size : ℕ → Option Bytes → Result Bytes
value_of_size n none = err not_synced
value_of_size n (some raw) = if length raw == n then ok raw else err not_synced

module _ (L : LevelDb) where
  open L use {Db}

  -- `BalanceDb::Impl`
  pub record BalanceDb : Type 0 where
    pub db : Db
    pub writable : Bool

  pub get_sats : Db → Bytes → Result ℕ
  unfolding sats_of
  get_sats db addr = do raw ← read_key L read_failed db (key_a addr); ok (sats_of raw)

  pub get_outpoint : Db → Bytes → ℕ → Result (Option Coin)
  unfolding coin_of
  get_outpoint db txid vout = do raw ← read_key L read_failed db (key_o txid vout); ok (coin_of raw)

  pub has_metadata : Db → Result Bool
  unfolding has_size
  has_metadata db = do
    h ← read_key L read_failed db key_height
    if has_size 4 h
        then (do t ← read_key L read_failed db key_tip; ok (has_size 32 t))
        else ok false

  pub height : Db → Result ℕ
  unfolding value_of_size
  height db = do
    h ← read_key L read_failed db key_height
    raw ← value_of_size 4 h
    ok (read_le32 raw)

  pub tip : Db → Result Bytes
  unfolding value_of_size
  tip db = do t ← read_key L read_failed db key_tip; value_of_size 32 t

  -- The lambda `current`: the balance, and `balances` with the entry that it may add.
  pub current : Db → HashMap ℕ → Bytes → Result (ℕ × HashMap ℕ)
  current db balances addr = elim (find addr balances) [
    | some v ↦ ok (v, balances)
    | none ↦ do v ← get_sats db addr; ok (v, assign addr v balances)
  ]

  -- The end of the loop over the spends: debit the coin's address and delete its key.
  pub debit : Db → Pending → Bytes → Coin → Result Pending
  debit db s key c = do
    (cur, balances) ← current db s.balances c.address
    ok (record s {
      balances = assign c.address (if ltb cur c.amount then 0 else cur - c.amount) balances;
      batch = s.batch ++ delete key ∷ [];
    })

  debit_known : Db → Pending → Bytes → Option Coin → Result Pending
  debit_known db s key none = ok s
  debit_known db s key (some c) = debit db s key c

  pub spend : Db → Pending → OutpointRef → Result Pending
  unfolding debit_known
  spend db s sp =
      let key = key_o sp.txid sp.vout in
      elim (find key s.created) [
        | some c ↦ debit db (record s { created = erase key s.created }) key c
        | none ↦ do c ← get_outpoint db sp.txid sp.vout; debit_known db s key c
      ]

  pub credit_unchecked : Db → Pending → Credit → Result Pending
  credit_unchecked db s c = do
    (cur, balances) ← current db s.balances c.address
    let coin : Coin = record { address = c.address; amount = c.amount }
    let key = key_o c.txid c.vout
    ok (record {
      balances = assign c.address ((cur + c.amount) % 2 ^ 64) balances;
      created = assign key coin s.created;
      batch = s.batch ++ put key (encode_out_value coin) ∷ [];
    })

  pub credit : Db → Pending → Credit → Result Pending
  credit db s c =
      if (length c.address == 0) || (c.amount == 0) then ok s else credit_unchecked db s c

  pub spend_all : Db → Pending → List OutpointRef → Result Pending
  spend_all db s [] = ok s
  spend_all db s (sp ∷ rest) = do s' ← spend db s sp; spend_all db s' rest

  pub credit_all : Db → Pending → List Credit → Result Pending
  credit_all db s [] = ok s
  credit_all db s (c ∷ rest) = do s' ← credit db s c; credit_all db s' rest

  pub apply_txs : Db → Pending → List TxEffects → Result Pending
  apply_txs db s [] = ok s
  apply_txs db s (te ∷ rest) = do
    s1 ← spend_all db s te.spends
    s2 ← credit_all db s1 te.credits
    apply_txs db s2 rest

-- The loop over `balances`, in the order of the entries given.
pub balance_updates : HashMap ℕ → WriteBatch
balance_updates [] = []
balance_updates ((addr, sats) ∷ rest) =
    (if sats == 0 then delete (key_a addr) else put (key_a addr) (write_le64 sats))
    ∷ balance_updates rest

pub metadata_updates : BlockEffects → WriteBatch
metadata_updates fx = put key_height (write_le32 fx.height) ∷ put key_tip (take 32 fx.hash) ∷ []

abbrev pub no_pending : Pending
no_pending = record { balances = []; created = []; batch = [] }

module _ (L : LevelDb) (o : Order ℕ) where
  open L use {Db, write}

  written : Option Db → Result (BalanceDb L)
  written none = err (btk_error "balance" "leveldb write failed")
  written (some db) = ok (record { db = db; writable = true })

  -- The batch that `apply` writes.
  pub full_batch : Pending → BlockEffects → WriteBatch
  full_batch s fx = s.batch ++ (balance_updates (o.arrange s.balances) ++ metadata_updates fx)

  pub apply : BalanceDb L → BlockEffects → Result (BalanceDb L)
  unfolding written
  apply b fx =
      if not b.writable
      then err (btk_error "balance" "internal: read-only database")
      else do s ← apply_txs L b.db no_pending fx.txs; written (write b.db (full_batch s fx))
