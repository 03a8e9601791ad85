-- ===== src/Chain/BalanceDb/Examples.antt =====
-- The theorems on the balance index at a concrete database, block and coin.
use bitcoin_toolkit.LittleEndian.{read_le64}
use bitcoin_toolkit.Chain.CompactSize.{read_body, read_with, read_compact_size}
use bitcoin_toolkit.Common.{
  ℕ, ◌≡◌, refl, ap, sym, true, none, some, [], ◌∷◌, Bytes, replicate, arith, ok,
}
use mathlib.Core.Option.{some-injective}
use bitcoin_toolkit.Chain.HashMap.{Order}
use bitcoin_toolkit.Chain.LevelDb.{LevelDb, Status, WriteBatch, not_found, replay, read_key}
use bitcoin_toolkit.Chain.BalanceDb.{
  decode_at, BlockEffects, BalanceDb, encode_out_value, decode_out_value, get_sats, get_outpoint,
  height, tip, apply,
}
use bitcoin_toolkit.Chain.BalanceDb.Codec.{decode_out_value-encode_out_value}
use bitcoin_toolkit.Chain.BalanceDb.Ledger.{Ledger, Represents, apply_block, block_spends}
use bitcoin_toolkit.Chain.BalanceDb.Refinement.{apply-Represents}

decode_out_value-encode_out_value_example :
    decode_out_value (encode_out_value (record { address = b'1' ∷ b'x' ∷ []; amount = 5000 }))
    ≡ some (record { address = b'1' ∷ b'x' ∷ []; amount = 5000 })
decode_out_value-encode_out_value_example =
    decode_out_value-encode_out_value (record { address = b'1' ∷ b'x' ∷ []; amount = 5000 })
      (omega arith) (omega arith)

memory_law :
    (db db' : Bytes → Status) (ops : WriteBatch) (k : Bytes)
    → some (λ j. replay ops j (db j)) ≡ some db'
    → db' k ≡ replay ops k (db k)
memory_law db db' ops k e = ap (λ (f : Bytes → Status). f k) (sym (some-injective _ _ e))

-- A database as what `Get` returns for each key.
abbrev memory : LevelDb
memory = record {
  Db = Bytes → Status;
  get = λ db k. db k;
  write = λ db ops. some (λ k. replay ops k (db k));
  get-write = memory_law;
}

abbrev in_order : Order ℕ
in_order = record { arrange = λ m. m; same_entries = λ m k. refl; once = λ m u. u }

abbrev fresh : BalanceDb memory
fresh = record { db = λ k. not_found; writable = true }

abbrev nothing : Ledger
nothing = record { sats = λ a. 0; coins = λ k. none }

fresh-Represents : Represents memory fresh.db nothing
unfolding get_sats get_outpoint read_key
fresh-Represents = record { sats = λ a. refl; coins = λ t v. refl; bounded = λ a. omega arith }

-- The second transaction spends what the first one creates.
abbrev block : BlockEffects
block = record {
  height = 7;
  time = 1700000000;
  hash = replicate 32 9;
  txs =
      record {
        spends = [];
        credits = record { txid = replicate 32 1; vout = 0; address = b'a' ∷ []; amount = 50 } ∷ [];
      }
      ∷ record {
        spends = record { txid = replicate 32 1; vout = 0 } ∷ [];
        credits = record { txid = replicate 32 2; vout = 0; address = b'b' ∷ []; amount = 49 } ∷ [];
      }
      ∷ [];
}

apply-Represents_example :
    (b' : BalanceDb memory) × (apply memory in_order fresh block ≡ ok b')
    × (b'.writable ≡ true)
    × Represents memory b'.db (apply_block nothing block.txs)
    × (height memory b'.db ≡ ok 7)
    × (tip memory b'.db ≡ ok (replicate 32 9))
unfolding block_spends
apply-Represents_example =
    apply-Represents memory in_order fresh block nothing refl fresh-Represents (omega arith)
      (omega arith) refl (λ ops e. cc)

-- A length field near 2 ^ 64 makes the sum of sizes wrap to the size of the value, which is read as a
-- coin with no address.
abbrev wrapping : Bytes
wrapping = 0xff ∷ 0xf8 ∷ replicate 7 0xff

wrapping_read :
    decode_out_value wrapping ≡ some (record { address = []; amount = 0xffff_ffff_ffff_fff8 })
unfolding decode_out_value decode_at read_compact_size read_with read_body read_le64
wrapping_read = refl
