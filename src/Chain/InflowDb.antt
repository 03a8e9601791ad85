-- ===== src/Chain/InflowDb.antt =====
-- src/chain/inflow_db.hpp and inflow_db.cpp: what each address has received, in LevelDB.
pub mod Codec
pub mod Inflows
pub mod Loop
pub mod Refinement
mod Examples
use bitcoin_toolkit.Common.{
  ◌>>=◌, ltb, ◌||◌, drop, ◌^◌, ◌==◌, not, true, ◌%◌, none, length, take, ok, ◌+◌, err, false, some,
  if◌then◌else◌, ◌++◌, [], btk_error, ◌∷◌, Result, Bool, List, Option, Bytes, BtkError, ℕ,
}
use bitcoin_toolkit.LittleEndian.{write_le32, write_le64, read_le32, read_le64}
use bitcoin_toolkit.Chain.HashMap.{HashMap, Order, find, assign}
use bitcoin_toolkit.Chain.LevelDb.{LevelDb, WriteBatch, put, read_key}
use bitcoin_toolkit.Chain.BalanceDb.{Credit, TxEffects, BlockEffects}

pub record InflowRow : Type 0 where
  pub sats : ℕ
  pub count : ℕ
  pub last : ℕ

abbrev pub no_row : InflowRow
no_row = record { sats = 0; count = 0; last = 0 }

abbrev pub read_failed : BtkError
read_failed = btk_error "inflow" "leveldb read failed"

abbrev pub not_synced : BtkError
not_synced = btk_error "inflow" "inflow database not found (run btk inflow --sync)"

pub key_a : Bytes → Bytes
key_a addr = b'A' ∷ addr

-- "Mheight" and "Mtip"
abbrev pub key_height : Bytes
key_height = b'M' ∷ b'h' ∷ b'e' ∷ b'i' ∷ b'g' ∷ b'h' ∷ b't' ∷ []

abbrev pub key_tip : Bytes
key_tip = b'M' ∷ b't' ∷ b'i' ∷ b'p' ∷ []

pub encode_row : InflowRow → Bytes
encode_row row = write_le64 row.sats ++ (write_le64 row.count ++ write_le32 row.last)

pub decode_row : Bytes → Option InflowRow
decode_row raw =
    if length raw == 20
    then some (record {
      sats = read_le64 raw;
      count = read_le64 (drop 8 raw);
      last = read_le32 (drop 16 raw);
    })
    else none

pub row_or_default : Option InflowRow → InflowRow
row_or_default none = no_row
row_or_default (some row) = row

pub row_of : Option Bytes → InflowRow
unfolding row_or_default
row_of none = no_row
row_of (some raw) = row_or_default (decode_row raw)

pub has_size : ℕ → Option Bytes → Bool
has_size n none = false
has_size n (some raw) = length raw == n

pub value_of_size : ℕ → Option Bytes → Result Bytes
value_of_size n none = err not_synced
value_of_size n (some raw) = if length raw == n then ok raw else err not_synced

-- The value that `operator[]` refers to: a new entry is 0.
abbrev pub value_or_zero : Option ℕ → ℕ
value_or_zero none = 0
value_or_zero (some v) = v

-- `by_addr[c.address] += c.amount`, over the credits of a transaction.
add_amount : Credit → HashMap ℕ → HashMap ℕ
add_amount c m = assign c.address ((value_or_zero (find c.address m) + c.amount) % 2 ^ 64) m

by_addr : List Credit → HashMap ℕ → HashMap ℕ
by_addr [] m = m
by_addr (c ∷ rest) m =
    by_addr rest (if (length c.address == 0) || (c.amount == 0) then m else add_amount c m)

-- The row of an address that a transaction at `time` pays `v`.
pub received : ℕ → ℕ → InflowRow → InflowRow
received time v row = record {
  sats = (row.sats + v) % 2 ^ 64;
  count = (row.count + 1) % 2 ^ 64;
  last = if ltb row.last time then time else row.last;
}

module _ (L : LevelDb) where
  open L use {Db}

  -- `InflowDb::Impl`
  pub record InflowDb : Type 0 where
    pub db : Db
    pub writable : Bool

  pub get_row : Db → Bytes → Result InflowRow
  unfolding row_of
  get_row db addr = do raw ← read_key L read_failed db (key_a addr); ok (row_of raw)

  pub has_metadata : Db → Result Bool
  unfolding has_size
  has_metadata db = do
    h ← read_key L read_failed db key_height
    if has_size 4 h
        then (do t ← read_key L read_failed db key_tip; ok (has_size 32 t))
        else ok false

  pub height : Db → Result ℕ
  unfolding value_of_size
  height db = do
    h ← read_key L read_failed db key_height
    raw ← value_of_size 4 h
    ok (read_le32 raw)

  pub tip : Db → Result Bytes
  unfolding value_of_size
  tip db = do t ← read_key L read_failed db key_tip; value_of_size 32 t

  -- The lambda `current`: the row, and `rows` with the entry that it may add.
  pub current : Db → HashMap InflowRow → Bytes → Result (InflowRow × HashMap InflowRow)
  current db rows addr = elim (find addr rows) [
    | some row ↦ ok (row, rows)
    | none ↦ do row ← get_row db addr; ok (row, assign addr row rows)
  ]

  -- The loop over `by_addr`, in the order of the entries given.
  pub pay_all : Db → ℕ → HashMap InflowRow → HashMap ℕ → Result (HashMap InflowRow)
  pay_all db time rows [] = ok rows
  pay_all db time rows ((addr, v) ∷ rest) = do
    (row, rows1) ← current db rows addr
    pay_all db time (assign addr (received time v row) rows1) rest

  pub apply_txs : Order ℕ → Db → ℕ → HashMap InflowRow → List TxEffects → Result (HashMap InflowRow)
  apply_txs o db time rows [] = ok rows
  apply_txs o db time rows (te ∷ rest) = do
    rows1 ← pay_all db time rows (o.arrange (by_addr te.credits []))
    apply_txs o db time rows1 rest

pub row_updates : HashMap InflowRow → WriteBatch
row_updates [] = []
row_updates ((addr, row) ∷ rest) = put (key_a addr) (encode_row row) ∷ row_updates rest

pub metadata_updates : BlockEffects → WriteBatch
metadata_updates fx = put key_height (write_le32 fx.height) ∷ put key_tip (take 32 fx.hash) ∷ []

module _ (L : LevelDb) (o : Order ℕ) (p : Order InflowRow) where
  open L use {Db, write}

  written : Option Db → Result (InflowDb L)
  written none = err (btk_error "inflow" "leveldb write failed")
  written (some db) = ok (record { db = db; writable = true })

  -- The batch that `apply` writes.
  pub full_batch : HashMap InflowRow → BlockEffects → WriteBatch
  full_batch rows fx = row_updates (p.arrange rows) ++ metadata_updates fx

  pub apply : InflowDb L → BlockEffects → Result (InflowDb L)
  unfolding written
  apply b fx =
      if not b.writable
      then err (btk_error "inflow" "internal: read-only database")
      else do rows ← apply_txs L o b.db fx.time [] fx.txs; written (write b.db (full_batch rows fx))
