-- ===== src/Chain/BalanceDb/Refinement.antt =====
-- One batch for a block gives the database that the ledger describes.
use bitcoin_toolkit.Common.{
  ℕ, ◌^◌, ◌<◌, ◌≡◌, ◌≢◌, refl, sym, ap, ◌∙◌, true, Option, none, some, List, [], ◌∷◌, ◌++◌,
  append-nil, Bytes, length, bytes_eq, bytes_eq_iff, ◌==◌, if◌then◌else◌, Result, ok, err, arith,
  Option-cases, Bool-cases, inl, inr, take-append,
}
use bitcoin_toolkit.LittleEndian.{
  write_le64, read_le32-write_le32, read_le64-write_le64, length-write_le32, length-write_le64,
}
use bitcoin_toolkit.Chain.HashMap.{HashMap, Order, find, IsUnique}
use bitcoin_toolkit.Chain.LevelDb.{
  LevelDb, Status, WriteBatch, found, not_found, failed, replay, replay-append, read_key,
}
use bitcoin_toolkit.Chain.BalanceDb.{
  read_failed, OutpointRef, BlockEffects, Pending, BalanceDb, key_o, key_a, key_height, key_tip,
  get_sats, height, tip, apply, no_pending, balance_updates, metadata_updates, full_batch, sats_of,
}
use bitcoin_toolkit.Chain.BalanceDb.Loop.{balance_or, seen, Agrees, Ahead, get_outpoint_in}
use bitcoin_toolkit.Chain.BalanceDb.Credits.{apply_txs_ok}
use bitcoin_toolkit.Chain.BalanceDb.Ledger.{
  Ledger, apply_block, block_spends, IsValidBlock, Represents,
}

-- What the loop over `balances` writes for an address.
abbrev balance_status : Option ℕ → Status → Status
balance_status none st = st
balance_status (some v) st = if v == 0 then not_found else found (write_le64 v)

replay-balance_updates :
    (m : HashMap ℕ) (a : Bytes) (st : Status)
    → IsUnique m
    → replay (balance_updates m) (key_a a) st ≡ balance_status (find a m) st
unfolding replay balance_updates find key_a bytes_eq
replay-balance_updates [] a st u = refl
replay-balance_updates ((j, v) ∷ m) a st (fresh, u) =
    let none_left = λ (e : j ≡ a). ap (λ (k : Bytes). find k m) e in
    elim (Bool-cases (v == 0)) [
      | inl zero_sats ↦ rw zero_sats (
          replay-balance_updates m a (if bytes_eq j a then not_found else st) u
          ∙ ground (arith, bytes_eq_iff j a, fresh, none_left))
      | inr some_sats ↦ rw some_sats (
          replay-balance_updates m a (if bytes_eq j a then found (write_le64 v) else st) u
          ∙ ground (arith, bytes_eq_iff j a, fresh, none_left))
    ]

replay-balance_updates_o :
    (m : HashMap ℕ) (t : Bytes) (v : ℕ) (st : Status)
    → replay (balance_updates m) (key_o t v) st ≡ st
unfolding replay balance_updates key_a key_o bytes_eq
replay-balance_updates_o [] t v st = refl
replay-balance_updates_o ((j, w) ∷ m) t v st = elim (Bool-cases (w == 0)) [
  | inl z ↦ rw z (replay-balance_updates_o m t v st)
  | inr z ↦ rw z (replay-balance_updates_o m t v st)
]

replay-metadata_a :
    (fx : BlockEffects) (a : Bytes) (st : Status) → replay (metadata_updates fx) (key_a a) st ≡ st
unfolding replay metadata_updates key_a bytes_eq
replay-metadata_a fx a st = refl

replay-metadata_o :
    (fx : BlockEffects) (t : Bytes) (v : ℕ) (st : Status)
    → replay (metadata_updates fx) (key_o t v) st ≡ st
unfolding replay metadata_updates key_o bytes_eq
replay-metadata_o fx t v st = refl

-- The balance that a `Get` of an address's key shows.
sats_in : Status → Result ℕ
unfolding sats_of
sats_in (found raw) = ok (sats_of (some raw))
sats_in not_found = ok 0
sats_in failed = err read_failed

get_sats_in : (L : LevelDb) (db : L.Db) (a : Bytes) → get_sats L db a ≡ sats_in (L.get db (key_a a))
unfolding get_sats read_key sats_in
get_sats_in L db a = ground arith

-- What is written for a balance shows it.
stored :
    (b : Option ℕ) (st : Status) (n : ℕ)
    → n < 2 ^ 64
    → balance_or b (sats_in st) ≡ ok n
    → sats_in (balance_status b st) ≡ ok n
unfolding sats_in
stored none st n fits e = e
stored (some v) st n fits e =
    ground (arith, length-write_le64 v, rw append-nil at (read_le64-write_le64 v []))

module _ (L : LevelDb) (o : Order ℕ) (db : L.Db) (fx : BlockEffects) where
  open L use {get}

  Agrees-start : (l : Ledger) → Represents L db l → Agrees L db no_pending l
  unfolding seen find replay
  Agrees-start l r = record {
    sats = r.sats;
    unique = tt;
    bounded = r.bounded;
    created = λ k c e. cc;
    batch = λ t v. sym (get_outpoint_in L db t v) ∙ r.coins t v;
    untouched = λ a st. refl;
  }

  Ahead-start : (l : Ledger) (F : List OutpointRef) → Represents L db l → Ahead L db no_pending l F
  unfolding Ahead
  Ahead-start l [] r = tt
  Ahead-start l (q ∷ F) r = (λ _. r.coins q.txid q.vout, Ahead-start l F r)

  module _ (s : Pending) (l : Ledger) (h : Agrees L db s l) where
    -- What the whole batch does to the key of an address, and of an outpoint.
    replay-full_a :
        (a : Bytes)
        → replay (full_batch L o s fx) (key_a a) (get db (key_a a))
          ≡ balance_status (find a s.balances) (get db (key_a a))
    unfolding full_batch
    replay-full_a a =
        rw (replay-append, replay-append, replay-metadata_a fx a, h.untouched a)
          (replay-balance_updates (o.arrange s.balances) a (get db (key_a a))
              (o.once s.balances h.unique)
            ∙ ap (λ r. balance_status r (get db (key_a a))) (o.same_entries s.balances a))

    replay-full_o :
        (t : Bytes) (v : ℕ)
        → replay (full_batch L o s fx) (key_o t v) (get db (key_o t v))
          ≡ replay s.batch (key_o t v) (get db (key_o t v))
    unfolding full_batch
    replay-full_o t v =
        rw (replay-append, replay-append, replay-metadata_o fx t v)
          (replay-balance_updates_o (o.arrange s.balances) t v _)

    module _ (db' : L.Db) (w : L.write db (full_batch L o s fx) ≡ some db') where
      -- The database that the batch leaves answers with the ledger.
      batch-Represents : Represents L db' l
      batch-Represents = record {
        sats = sats_after;
        coins = λ t v.
            rw
              (
                get_outpoint_in L db' t v,
                L.get-write db db' (full_batch L o s fx) (key_o t v) w,
                replay-full_o t v,
              )
              (h.batch t v);
        bounded = h.bounded;
      }
        where
          sats_after : (a : Bytes) → get_sats L db' a ≡ ok (l.sats a)
          sats_after a =
              rw
                (
                  get_sats_in L db' a,
                  L.get-write db db' (full_batch L o s fx) (key_a a) w,
                  replay-full_a a,
                )
                (stored (find a s.balances) (get db (key_a a)) (l.sats a) (h.bounded a) (known a))
            where
              known :
                  (a : Bytes)
                  → balance_or (find a s.balances) (sats_in (get db (key_a a))) ≡ ok (l.sats a)
              known a = unfold seen in (rw (← get_sats_in L db a) (h.sats a))

      metadata_after :
          fx.height < 2 ^ 32
          → length fx.hash ≡ 32
          → (height L db' ≡ ok fx.height) × (tip L db' ≡ ok fx.hash)
      unfolding height tip full_batch read_key replay metadata_updates bytes_eq
      metadata_after hh ht = (
        ground (
          arith,
          L.get-write db db' (full_batch L o s fx) key_height w,
          replay-append s.batch (balance_updates (o.arrange s.balances) ++ metadata_updates fx)
              key_height (get db key_height),
          replay-append (balance_updates (o.arrange s.balances)) (metadata_updates fx) key_height
              (replay s.batch key_height (get db key_height)),
          length-write_le32 fx.height,
          rw append-nil at (read_le32-write_le32 fx.height [] hh),
        ),
        ground (
          arith,
          L.get-write db db' (full_batch L o s fx) key_tip w,
          replay-append s.batch (balance_updates (o.arrange s.balances) ++ metadata_updates fx)
              key_tip (get db key_tip),
          replay-append (balance_updates (o.arrange s.balances)) (metadata_updates fx) key_tip
              (replay s.batch key_tip (get db key_tip)),
          rw append-nil at (rw ht at (take-append fx.hash [])),
        ),
      )

-- On a writable database that stands for the ledger `l`, where the batch can be written, `apply` of
-- a block returns a writable database that stands for the ledger after the block, and whose height
-- and tip are the block's. The block's credits must fit their encodings and none of its outpoints
-- may be spent twice; outputs of the block itself may be spent in it, and outpoints that the index
-- does not know are passed over.
pub apply-Represents :
    (L : LevelDb) (o : Order ℕ) (b : BalanceDb L) (fx : BlockEffects) (l : Ledger)
    → b.writable ≡ true
    → Represents L b.db l
    → IsValidBlock fx.txs
    → fx.height < 2 ^ 32
    → length fx.hash ≡ 32
    → ((ops : WriteBatch) → L.write b.db ops ≢ none)
    → (b' : BalanceDb L) × (apply L o b fx ≡ ok b')
      × (b'.writable ≡ true)
      × Represents L b'.db (apply_block l fx.txs)
      × (height L b'.db ≡ ok fx.height)
      × (tip L b'.db ≡ ok fx.hash)
unfolding apply
apply-Represents L o b fx l wr r v hh ht writes =
    let (s, e, agrees) =
      apply_txs_ok L b.db no_pending l fx.txs (Agrees-start L o b.db fx l r)
        (Ahead-start L o b.db fx l (block_spends fx.txs) r) v in
    elim (Option-cases (L.write b.db (full_batch L o s fx))) [
      | inl fails ↦ absurd (writes _ fails)
      | inr (db', w) ↦
          let (h', t') = metadata_after L o b.db fx s (apply_block l fx.txs) agrees db' w hh ht in
          (
            record { db = db'; writable = true },
            rw (wr, e, w),
            refl,
            batch-Represents L o b.db fx s (apply_block l fx.txs) agrees db' w,
            h',
            t',
          )
    ]
