-- ===== src/Chain/InflowDb/Refinement.antt =====
-- One batch for a block gives the database of the specification.
use bitcoin_toolkit.Common.{
  bytes_eq_iff, if◌then◌else◌, ◌∷◌, inr, inl, Option-cases, take-append, ◌≢◌, append-nil, length,
  ◌^◌, ap, true, ◌<◌, ◌∙◌, refl, ok-injective, arith, err, none, [], ok, ◌≡◌, some, ℕ, Bytes,
  Result, bytes_eq, Option,
}
use bitcoin_toolkit.LittleEndian.{read_le32-write_le32, length-write_le32}
use bitcoin_toolkit.Chain.HashMap.{HashMap, Order, find, IsUnique}
use bitcoin_toolkit.Chain.LevelDb.{
  LevelDb, Status, WriteBatch, found, not_found, failed, replay, replay-append, read_key,
}
use bitcoin_toolkit.Chain.BalanceDb.{BlockEffects}
use bitcoin_toolkit.Chain.InflowDb.{
  written, InflowRow, InflowDb, no_row, read_failed, key_a, key_height, key_tip, encode_row, row_of,
  row_or_default, get_row, height, tip, apply, row_updates, metadata_updates, full_batch,
  value_of_size,
}
use bitcoin_toolkit.Chain.InflowDb.Codec.{IsValidRow, decode_row-encode_row}
use bitcoin_toolkit.Chain.InflowDb.Inflows.{Inflows, Represents, apply_block}
use bitcoin_toolkit.Chain.InflowDb.Loop.{Agrees, row_or, apply_txs_ok}

-- What the loop over `rows` writes for an address.
abbrev row_status : Option InflowRow → Status → Status
row_status none st = st
row_status (some row) st = found (encode_row row)

replay-row_updates :
    (m : HashMap InflowRow) (a : Bytes) (st : Status)
    → IsUnique m
    → replay (row_updates m) (key_a a) st ≡ row_status (find a m) st
unfolding replay row_updates find key_a bytes_eq
replay-row_updates [] a st u = refl
replay-row_updates ((j, row) ∷ m) a st (fresh, u) =
    let none_left = λ (e : j ≡ a). ap (λ (k : Bytes). find k m) e in
    replay-row_updates m a (if bytes_eq j a then found (encode_row row) else st) u
    ∙ ground (arith, bytes_eq_iff j a, fresh, none_left)

-- The row that a `Get` of an address's key shows.
row_in : Status → Result InflowRow
unfolding row_of row_or_default
row_in (found raw) = ok (row_of (some raw))
row_in not_found = ok no_row
row_in failed = err read_failed

get_row_in : (L : LevelDb) (db : L.Db) (a : Bytes) → get_row L db a ≡ row_in (L.get db (key_a a))
unfolding get_row read_key row_in row_of
get_row_in L db a = ground arith

stored :
    (b : Option InflowRow) (st : Status) (row : InflowRow)
    → IsValidRow row
    → row_or b (row_in st) ≡ ok row
    → row_in (row_status b st) ≡ ok row
unfolding row_in row_of row_or_default
stored none st row v e = e
stored (some r) st row v e =
    let same : r ≡ row = ok-injective e in rw (same, decode_row-encode_row row v) refl

replay-metadata_a :
    (fx : BlockEffects) (a : Bytes) (st : Status) → replay (metadata_updates fx) (key_a a) st ≡ st
unfolding replay metadata_updates key_a bytes_eq
replay-metadata_a fx a st = refl

module _ (L : LevelDb) (o : Order ℕ) (p : Order InflowRow) (db : L.Db) (fx : BlockEffects) where
  open L use {get}

  Agrees-start : (l : Inflows) → Represents L db l → Agrees L db [] l
  unfolding find
  Agrees-start l r = record { seen = r.rows; unique = tt; valid = r.valid }

  module _ (rows : HashMap InflowRow) (l : Inflows) (h : Agrees L db rows l) where
    replay-full :
        (a : Bytes)
        → replay (full_batch L o p rows fx) (key_a a) (get db (key_a a))
          ≡ row_status (find a rows) (get db (key_a a))
    unfolding full_batch
    replay-full a =
        rw (replay-append, replay-metadata_a fx a)
          (replay-row_updates (p.arrange rows) a (get db (key_a a)) (p.once rows h.unique)
            ∙ ap (λ r. row_status r (get db (key_a a))) (p.same_entries rows a))

    module _ (db' : L.Db) (w : L.write db (full_batch L o p rows fx) ≡ some db') where
      batch-Represents : Represents L db' l
      batch-Represents = record {
        rows = λ a.
            rw
              (
                get_row_in L db' a,
                L.get-write db db' (full_batch L o p rows fx) (key_a a) w,
                replay-full a,
              )
              (stored (find a rows) (get db (key_a a)) (l a) (h.valid a)
                (rw (← get_row_in L db a) (h.seen a)));
        valid = h.valid;
      }

      metadata_after :
          fx.height < 2 ^ 32
          → length fx.hash ≡ 32
          → (height L db' ≡ ok fx.height) × (tip L db' ≡ ok fx.hash)
      unfolding height tip full_batch read_key replay metadata_updates bytes_eq value_of_size
      metadata_after hh ht = (
        ground (
          arith,
          L.get-write db db' (full_batch L o p rows fx) key_height w,
          replay-append (row_updates (p.arrange rows)) (metadata_updates fx) key_height
              (get db key_height),
          length-write_le32 fx.height,
          rw append-nil at (read_le32-write_le32 fx.height [] hh),
        ),
        ground (
          arith,
          L.get-write db db' (full_batch L o p rows fx) key_tip w,
          replay-append (row_updates (p.arrange rows)) (metadata_updates fx) key_tip
              (get db key_tip),
          rw append-nil at (rw ht at (take-append fx.hash [])),
        ),
      )

-- On a writable database that stands for the inflows `l`, where the batch can be written, `apply` of
-- a block returns a writable database that stands for the inflows after the block, and whose height
-- and tip are the block's. The order in which the maps are visited does not matter; the block's
-- time and height are uint32.
pub apply-inflows :
    (L : LevelDb) (o : Order ℕ) (p : Order InflowRow) (b : InflowDb L) (fx : BlockEffects)
    (l : Inflows)
    → b.writable ≡ true
    → Represents L b.db l
    → fx.time < 2 ^ 32
    → fx.height < 2 ^ 32
    → length fx.hash ≡ 32
    → ((ops : WriteBatch) → L.write b.db ops ≢ none)
    → (b' : InflowDb L) × (apply L o p b fx ≡ ok b')
      × (b'.writable ≡ true)
      × Represents L b'.db (apply_block fx.time l fx.txs)
      × (height L b'.db ≡ ok fx.height)
      × (tip L b'.db ≡ ok fx.hash)
unfolding apply written
apply-inflows L o p b fx l wr r t hh ht writes =
    let (rows, e, agrees) =
      apply_txs_ok L b.db o [] l fx.time fx.txs t (Agrees-start L o p b.db fx l r) in
    elim (Option-cases (L.write b.db (full_batch L o p rows fx))) [
      | inl fails ↦ absurd (writes _ fails)
      | inr (db', w) ↦
          let (h', t') =
            metadata_after L o p b.db fx rows (apply_block fx.time l fx.txs) agrees db' w hh ht in
          (
            record { db = db'; writable = true },
            rw (wr, e, w) refl,
            refl,
            batch-Represents L o p b.db fx rows (apply_block fx.time l fx.txs) agrees db' w,
            h',
            t',
          )
    ]
