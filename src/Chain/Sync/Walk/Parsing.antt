-- ===== src/Chain/Sync/Walk/Parsing.antt =====
-- src/chain/sync.cpp: the parsing thread keeps the invariant.
use bitcoin_toolkit.Chain.Block.{parse_block, block_hash}
use bitcoin_toolkit.Chain.Sync.Display.{hash_to_display}
use bitcoin_toolkit.Chain.Indexer.Effects.{effects_from_block-Each}
use bitcoin_toolkit.Chain.Indexer.{effects_from_block}
use bitcoin_toolkit.Chain.Transaction.{Block}
use bitcoin_toolkit.Chain.BalanceDb.{BlockEffects}
use bitcoin_toolkit.Chain.Sync.Walk.Invariant.{InOrder, fx_height, Heights-snoc, Marks}
use bitcoin_toolkit.Chain.Sync.Walk.{
  parsed, closing_fx, refusing, Parse, sending, awaiting_raw, pop_again, push_again, parse_step,
  sent_fx, got_raw, interpreted, Walk, RawBlock, same_block, interpret,
}
use bitcoin_toolkit.Common.{
  false, bytes_eq, ◌>>=◌, err-ne-ok, btk_error, ◌&&◌, refl, if◌then◌else◌, err, suc, arith, ◌∷◌,
  true, none, Option, Result, List, ok, ◌≡◌, Bool, ℕ, Bytes,
}
use bitcoin_toolkit.Chain.Script.{AddressCodec}
use bitcoin_toolkit.Chain.Sync.Queue.{first_error, fail, enqueue, close, Queue, Attempt}
use bitcoin_toolkit.Chain.Sync.Queue.Cases.{
  push_wake-Pushes, pop_wake-Pops, Pushes, Pops, waited, threw, refused, halted, kept, dry, got,
}
use Prim.Native.String.{String}

module _ (command : String) (C : AddressCodec) (hash160 : Bytes → Bytes)
    (hash256 : Bytes → Bytes) where
  interpret-height :
      (rb : RawBlock) (fx : BlockEffects)
      → interpret command C hash160 hash256 rb ≡ ok fx
      → fx.height ≡ rb.height
  unfolding interpret same_block
  interpret-height rb fx e = from (parse_block rb.raw) e
    where
      same :
          (block : Block) (b : Bool)
          → (if b
              then effects_from_block C hash160 hash256 block rb.height
              else err (btk_error command "invalid rpc response"))
            ≡ ok fx
          → fx.height ≡ rb.height
      same block true e' = (effects_from_block-Each C hash160 hash256 block rb.height fx e').0
      same block false e' = absurd (err-ne-ok e')

      from :
          (r : Result Block)
          → (do block ← r; same_block command C hash160 hash256 rb block) ≡ ok fx
          → fx.height ≡ rb.height
      from (err x) e' = absurd (err-ne-ok e')
      from (ok block) e' =
          same block (bytes_eq (hash_to_display (block_hash hash256 block)) rb.hash_hex) e'

  module _ (first tip : ℕ) (calm : Bool) (k : Marks) (s : Walk)
      (v : InOrder first tip calm k s) where
    interpreted-InOrder :
        (w : Bool) (rb : RawBlock) (rest : List RawBlock) (r : Result BlockEffects)
        → s.parse ≡ awaiting_raw w
        → s.raw_q.error ≡ none
        → s.raw_q.q ≡ rb ∷ rest
        → ((fx : BlockEffects) → r ≡ ok fx → fx.height ≡ rb.height)
        → (k' : Marks) × InOrder first tip calm k' (record s {
          raw_q = record s.raw_q { q = rest };
          parse = interpreted command C hash160 hash256 r;
        })
    unfolding interpreted
    interpreted-InOrder w rb rest (ok fx) e n l good =
        (record k { raw_lo = suc k.raw_lo }, ground (arith, v, good fx refl))
    interpreted-InOrder w rb rest (err x) e n l good =
        (record k { raw_lo = suc k.raw_lo }, ground (arith, v))

    got_raw-InOrder :
        (w : Bool) {stop : Bool} {o : Attempt (Option RawBlock × Queue RawBlock)}
        → s.parse ≡ awaiting_raw w
        → (stop ≡ true → s.stop ≡ true)
        → Pops stop s.raw_q o
        → (k' : Marks) × InOrder first tip calm k' (got_raw command C hash160 hash256 o s)
    unfolding got_raw close
    got_raw-InOrder w e st (waited t c n l) = (k, ground (arith, v))
    got_raw-InOrder w e st (threw x) = (k, ground (arith, v))
    got_raw-InOrder w e st (dry c n l) = (k, ground (arith, v))
    got_raw-InOrder w e st (halted t l) = (k, ground (arith, v))
    got_raw-InOrder w e st (got rb rest n l) =
        interpreted-InOrder w rb rest (interpret command C hash160 hash256 rb) e n l
          (interpret-height rb)

    sent_fx-InOrder :
        (w : Bool) (fx : BlockEffects) {stop : Bool} {o : Attempt (Queue BlockEffects)}
        → s.parse ≡ sending w fx
        → (stop ≡ true → s.stop ≡ true)
        → Pushes stop s.fx_q fx o
        → (k' : Marks) × InOrder first tip calm k' (sent_fx command C hash160 hash256 fx o s)
    unfolding sent_fx close enqueue
    sent_fx-InOrder w fx e st (waited t c n l) = (k, ground (arith, v))
    sent_fx-InOrder w fx e st (threw x) = (k, ground (arith, v))
    sent_fx-InOrder w fx e st (refused c n) = (k, ground (arith, v))
    sent_fx-InOrder w fx e st (halted t) = (k, ground (arith, v))
    sent_fx-InOrder w fx e st (kept c n l) = (
      record k { mid = suc k.mid },
      ground (arith, v, Heights-snoc fx_height k.fx_lo s.fx_q.q k.mid fx),
    )

    pub parse_step-InOrder :
        (p : Parse)
        → s.parse ≡ p
        → (k' : Marks) × InOrder first tip calm k' (parse_step command C hash160 hash256 p s)
    unfolding parse_step push_again pop_again close fail first_error
    parse_step-InOrder (awaiting_raw w) e =
        got_raw-InOrder w e (λ z. ground arith) (pop_wake-Pops (w && s.stop) s.raw_q)
    parse_step-InOrder (sending w fx) e =
        sent_fx-InOrder w fx e (λ z. ground arith) (push_wake-Pushes (w && s.stop) s.fx_q fx)
    parse_step-InOrder closing_fx e = (k, ground (arith, v))
    parse_step-InOrder (refusing x) e = (k, ground (arith, v))
    parse_step-InOrder parsed e = (k, v)
