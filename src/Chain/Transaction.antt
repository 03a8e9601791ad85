-- ===== src/Chain/Transaction.antt =====
-- src/chain/transaction.hpp and transaction.cpp: transactions and blocks. `std::int32_t` and
-- `std::int64_t` fields are kept as their bit patterns, which is what the casts to and from the
-- unsigned words of the format leave unchanged.
pub mod Cursor
pub mod Reads
pub mod Valid
pub mod RoundTrip
mod Examples
use bitcoin_toolkit.Common.{
  ℕ, zero, suc, ◌+◌, ◌-◌, Bool, true, false, ◌&&◌, List, [], ◌∷◌, ◌++◌, Bytes, bit_and, get_or,
  length, take, drop, ltb, leb, ◌==◌, if◌then◌else◌, Result, ok, err, BtkError, btk_error,
}
use bitcoin_toolkit.Common
use bitcoin_toolkit.Reader.{Reader, pure, throw, times, continue, ◌>>=◌, ◌>>◌}
use bitcoin_toolkit.LittleEndian.{read_le32, write_le32, write_le64}
use bitcoin_toolkit.Chain.CompactSize.{write_compact_size, read_compact_size}
use Cursor.{fail_tx, need, u8, peek, le32, le64, compact, bytes, copy32, bound_count, check_len}

pub record TxIn : Type 0 where
  pub prev_txid : Bytes
  pub prev_vout : ℕ
  pub script_sig : Bytes
  pub sequence : ℕ
  pub witness : List Bytes

pub record TxOut : Type 0 where
  pub value : ℕ
  pub script_pubkey : Bytes

pub record Transaction : Type 0 where
  pub version : ℕ
  pub has_witness : Bool
  pub vin : List TxIn
  pub vout : List TxOut
  pub locktime : ℕ

pub record Block : Type 0 where
  pub version : ℕ
  pub prev : Bytes
  pub merkle : Bytes
  pub time : ℕ
  pub bits : ℕ
  pub nonce : ℕ
  pub txs : List Transaction

abbrev pub all_zero : Bytes → Bool
all_zero [] = true
all_zero (b ∷ bs) = (b == 0) && all_zero bs

unfoldable pub is_null_prevout : TxIn → Bool
is_null_prevout i = all_zero i.prev_txid

-- The marker and flag behind the version: `has_witness`.
flag_byte : ℕ → Reader Bool
flag_byte flag =
    if flag == 0 then throw fail_tx else if bit_and flag 1 == 0 then throw fail_tx else pure true

pub read_marker : Reader Bool
unfolding flag_byte
read_marker = do need 1; b ← peek; if b == 0 then (do u8; flag ← u8; flag_byte flag) else pure false

-- A script or a witness item: its length, checked against the whole input, and its bytes.
pub read_bytes : Reader Bytes
read_bytes = do slen ← compact; check_len slen; bytes slen

pub read_in : Reader TxIn
read_in = do
  txid ← copy32
  vout ← le32
  script ← read_bytes
  seq ← le32
  pure (record {
    prev_txid = txid;
    prev_vout = vout;
    script_sig = script;
    sequence = seq;
    witness = [];
  })

pub read_out : Reader TxOut
read_out = do v ← le64; script ← read_bytes; pure (record { value = v; script_pubkey = script })

-- A count, at most the bytes that remain, and as many items.
pub counted : {A : Type 0} → Reader A → Reader (List A)
counted p = do n ← compact; bound_count n; times n p

pub read_witnesses : List TxIn → Reader (List TxIn)
read_witnesses [] = pure []
read_witnesses (i ∷ rest) = do
  items ← counted read_bytes
  others ← read_witnesses rest
  pure (record i { witness = items } ∷ others)

read_witness_part : Bool → List TxIn → Reader (List TxIn)
read_witness_part true vin = read_witnesses vin
read_witness_part false vin = pure vin

pub read_tx : Reader Transaction
unfolding read_witness_part
read_tx = do
  v ← le32
  wit ← read_marker
  ins ← counted read_in
  outs ← counted read_out
  ins' ← read_witness_part wit ins
  lock ← le32
  pure (record { version = v; has_witness = wit; vin = ins'; vout = outs; locktime = lock })

-- `parse_tx(data, len, &consumed)`, with what it stores in `consumed`.
pub parse_tx_prefix : Bytes → Result (Transaction × ℕ)
parse_tx_prefix data' = if ltb (length data') 10 then err fail_tx else read_tx data' 0

whole : Bytes → Transaction × ℕ → Result Transaction
whole data' (tx, used) = if used == length data' then ok tx else err fail_tx

pub parse_tx : Bytes → Result Transaction
unfolding whole
parse_tx data' = Common.◌>>=◌ (parse_tx_prefix data') (whole data')

-- A length and the bytes.
unfoldable pub write_bytes : Bytes → Bytes
write_bytes bs = write_compact_size (length bs) ++ bs

unfoldable pub write_in : TxIn → Bytes
write_in i =
    i.prev_txid ++ (write_le32 i.prev_vout ++ (write_bytes i.script_sig ++ write_le32 i.sequence))

unfoldable pub write_out : TxOut → Bytes
write_out o = write_le64 o.value ++ write_bytes o.script_pubkey

-- `for (x : xs)` where each round appends to the output.
unfoldable pub write_each : {A : Type 0} → (A → Bytes) → List A → Bytes
write_each w [] = []
write_each w (x ∷ xs) = w x ++ write_each w xs

unfoldable pub write_counted : {A : Type 0} → (A → Bytes) → List A → Bytes
write_counted w xs = write_compact_size (length xs) ++ write_each w xs

unfoldable pub write_vin_vout : Transaction → Bytes
write_vin_vout tx = write_counted write_in tx.vin ++ write_counted write_out tx.vout

unfoldable pub write_witness : TxIn → Bytes
write_witness i = write_counted write_bytes i.witness

unfoldable pub serialize_tx : Transaction → Bool → Bytes
serialize_tx tx include_witness =
    let wit = include_witness && tx.has_witness in
    write_le32 tx.version
    ++ ((if wit then 0 ∷ 1 ∷ [] else [])
        ++ (write_vin_vout tx
            ++ ((if wit then write_each write_witness tx.vin else []) ++ write_le32 tx.locktime)))
