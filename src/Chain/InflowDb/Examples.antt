-- ===== src/Chain/InflowDb/Examples.antt =====
-- The theorems on inflows at a concrete database, block and row.
use bitcoin_toolkit.Common.{
  sym, ap, ok, bytes_eq, [], ◌∷◌, some, ℕ, replicate, arith, true, refl, Bytes, ◌≡◌,
}
use bitcoin_toolkit.Chain.HashMap.{Order}
use bitcoin_toolkit.Chain.LevelDb.{LevelDb, Status, WriteBatch, not_found, replay, read_key}
use bitcoin_toolkit.Chain.BalanceDb.{Credit, BlockEffects}
use bitcoin_toolkit.Chain.InflowDb.{
  InflowRow, InflowDb, no_row, encode_row, decode_row, get_row, height, tip, apply,
}
use bitcoin_toolkit.Chain.InflowDb.Codec.{decode_row-encode_row}
use bitcoin_toolkit.Chain.InflowDb.Inflows.{Inflows, Represents, apply_block, payment}
use bitcoin_toolkit.Chain.InflowDb.Refinement.{apply-inflows}
use mathlib.Core.Option.{some-injective}

abbrev row : InflowRow
row = record { sats = 5000; count = 2; last = 1700000000 }

decode_row-encode_row_example : decode_row (encode_row row) ≡ some row
decode_row-encode_row_example =
    decode_row-encode_row row
      (record { sats = omega arith; count = omega arith; last = omega arith })

memory_law :
    (db db' : Bytes → Status) (ops : WriteBatch) (k : Bytes)
    → some (λ j. replay ops j (db j)) ≡ some db'
    → db' k ≡ replay ops k (db k)
memory_law db db' ops k e = ap (λ (f : Bytes → Status). f k) (sym (some-injective _ _ e))

-- A database as what `Get` returns for each key.
abbrev memory : LevelDb
memory = record {
  Db = Bytes → Status;
  get = λ db k. db k;
  write = λ db ops. some (λ k. replay ops k (db k));
  get-write = memory_law;
}

abbrev in_order : (V : Type 0) → Order V
in_order V = record { arrange = λ m. m; same_entries = λ m k. refl; once = λ m u. u }

abbrev fresh : InflowDb memory
fresh = record { db = λ k. not_found; writable = true }

abbrev nothing : Inflows
nothing a = no_row

fresh-Represents : Represents memory fresh.db nothing
unfolding get_row read_key
fresh-Represents = record {
  rows = λ a. refl;
  valid = λ a. record { sats = omega arith; count = omega arith; last = omega arith };
}

abbrev pay_a : Credit
pay_a = record { txid = replicate 32 1; vout = 0; address = b'a' ∷ []; amount = 50 }

-- One transaction pays the address twice.
abbrev block : BlockEffects
block = record {
  height = 7;
  time = 1700000000;
  hash = replicate 32 9;
  txs = record { spends = []; credits = pay_a ∷ record pay_a { vout = 1; amount = 7 } ∷ [] } ∷ [];
}

-- It counts once.
counted_once :
    apply_block block.time nothing block.txs (b'a' ∷ [])
    ≡ record { sats = 57; count = 1; last = 1700000000 }
unfolding apply_block payment bytes_eq
counted_once = refl

apply-inflows_example :
    (b' : InflowDb memory) × (apply memory (in_order ℕ) (in_order InflowRow) fresh block ≡ ok b')
    × (b'.writable ≡ true)
    × Represents memory b'.db (apply_block block.time nothing block.txs)
    × (height memory b'.db ≡ ok 7)
    × (tip memory b'.db ≡ ok (replicate 32 9))
apply-inflows_example =
    apply-inflows memory (in_order ℕ) (in_order InflowRow) fresh block nothing refl fresh-Represents
      (omega arith) (omega arith) refl (λ ops e. cc)
