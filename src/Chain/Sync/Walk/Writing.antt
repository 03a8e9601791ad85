-- ===== src/Chain/Sync/Walk/Writing.antt =====
-- src/chain/sync.cpp: the writing thread keeps the invariant.
use bitcoin_toolkit.Chain.BalanceDb.{BlockEffects}
use bitcoin_toolkit.Chain.Sync.Walk.{
  done, spreading, failing_raw, Writer, applying, awaiting_fx, pop_again, write_step, applied_fx,
  got_fx, Walk,
}
use bitcoin_toolkit.Chain.Sync.Walk.Invariant.{InOrder, fx_height, Heights-snoc, Marks}
use bitcoin_toolkit.Common.{◌&&◌, err, suc, arith, ok, true, ◌≡◌, Result, Option, Bool, ℕ}
use bitcoin_toolkit.Chain.Sync.Queue.{first_error, fail, close, Queue, Attempt}
use bitcoin_toolkit.Chain.Sync.Queue.Cases.{pop_wake-Pops, Pops, waited, threw, halted, dry, got}
use Prim.Native.String.{String}

module _ (command : String) (first tip : ℕ) (calm : Bool) (k : Marks) (s : Walk)
    (v : InOrder first tip calm k s) where
  got_fx-InOrder :
      (w : Bool) {stop : Bool} {o : Attempt (Option BlockEffects × Queue BlockEffects)}
      → s.write ≡ awaiting_fx w
      → (stop ≡ true → s.stop ≡ true)
      → Pops stop s.fx_q o
      → (k' : Marks) × InOrder first tip calm k' (got_fx command o s)
  unfolding got_fx close
  got_fx-InOrder w e st (waited t c n l) = (k, ground (arith, v))
  got_fx-InOrder w e st (threw x) = (k, ground (arith, v))
  got_fx-InOrder w e st (dry c n l) = (k, ground (arith, v))
  got_fx-InOrder w e st (halted t l) = (k, ground (arith, v))
  got_fx-InOrder w e st (got fx rest n l) = (record k { fx_lo = suc k.fx_lo }, ground (arith, v))

  applied_fx-InOrder :
      (fx : BlockEffects) (r : Result (Unit {0}))
      → s.write ≡ applying fx
      → (k' : Marks) × InOrder first tip calm k' (applied_fx command fx r s)
  unfolding applied_fx
  applied_fx-InOrder fx (ok u) e = (
    record k { lo = suc k.lo },
    ground (arith, v, Heights-snoc fx_height first s.applied k.lo fx),
  )
  applied_fx-InOrder fx (err x) e = (k, ground (arith, v))

  pub write_step-InOrder :
      (r : Result (Unit {0})) (w : Writer)
      → s.write ≡ w
      → (k' : Marks) × InOrder first tip calm k' (write_step command r w s)
  unfolding write_step pop_again fail first_error
  write_step-InOrder r (awaiting_fx w) e =
      got_fx-InOrder w e (λ z. ground arith) (pop_wake-Pops (w && s.stop) s.fx_q)
  write_step-InOrder r (applying fx) e = applied_fx-InOrder fx r e
  write_step-InOrder r (failing_raw x) e = (k, ground (arith, v))
  write_step-InOrder r (spreading x) e = (k, ground (arith, v))
  write_step-InOrder r done e = (k, v)
