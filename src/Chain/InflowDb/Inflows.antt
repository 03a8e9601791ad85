-- ===== src/Chain/InflowDb/Inflows.antt =====
-- The specification: what each address has received, changed by one transaction at a time, with no
-- cache, no batch and no encoding.
use Prim.Native.Nat.{max}
use bitcoin_toolkit.Common.{
  ap, ◌%◌, ◌+◌, bytes_eq, ◌||◌, ◌==◌, arith, [], length, ◌^◌, ok, if◌then◌else◌, none, ◌<◌, ◌≡◌,
  ◌∷◌, some, ℕ, List, Option, Bytes,
}
use bitcoin_toolkit.Chain.LevelDb.{LevelDb}
use bitcoin_toolkit.Chain.BalanceDb.{Credit, TxEffects}
use bitcoin_toolkit.Chain.InflowDb.{value_or_zero, InflowRow, received, get_row}
use bitcoin_toolkit.Chain.InflowDb.Codec.{IsValidRow}

abbrev pub Inflows : Type 0
Inflows = Bytes → InflowRow

-- What the credits pay an address, if any pays it: the sum of the amounts on top of `t`.
unfoldable pub payment : List Credit → Bytes → Option ℕ → Option ℕ
payment [] a t = t
payment (c ∷ rest) a t = payment rest a (
    if (length c.address == 0) || (c.amount == 0)
    then t
    else if bytes_eq c.address a
    then some ((value_or_zero t + c.amount) % 2 ^ 64)
    else t)

-- A transaction that pays an address counts once for it.
abbrev pub pay : ℕ → Option ℕ → InflowRow → InflowRow
pay time none row = row
pay time (some v) row = record {
  sats = (row.sats + v) % 2 ^ 64;
  count = (row.count + 1) % 2 ^ 64;
  last = max row.last time;
}

pub received-pay : (time v : ℕ) (row : InflowRow) → received time v row ≡ pay time (some v) row
unfolding received
received-pay time v row =
    ap
      (λ (t : ℕ). record {
        sats = (row.sats + v) % 2 ^ 64;
        count = (row.count + 1) % 2 ^ 64;
        last = t;
      })
      (ground arith)

unfoldable pub apply_block : ℕ → Inflows → List TxEffects → Inflows
apply_block time l [] = l
apply_block time l (te ∷ rest) =
    apply_block time (λ a. pay time (payment te.credits a none) (l a)) rest

-- Every query of the database answers, and answers with the inflows.
pub record Represents (L : LevelDb) (db : L.Db) (l : Inflows) : Type 0 where
  pub rows : (a : Bytes) → get_row L db a ≡ ok (l a)
  pub valid : (a : Bytes) → IsValidRow (l a)

pub received-IsValidRow :
    (time v : ℕ) (row : InflowRow)
    → time < 2 ^ 32
    → IsValidRow row
    → IsValidRow (received time v row)
unfolding received
received-IsValidRow time v row h r = record {
  sats = omega arith;
  count = omega arith;
  last = ground (arith, r.last);
}
