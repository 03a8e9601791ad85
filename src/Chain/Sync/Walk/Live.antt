-- ===== src/Chain/Sync/Walk/Live.antt =====
-- src/chain/sync.cpp: what holds of the ends of the threads, so that none waits for another that has
-- ended.
use bitcoin_toolkit.Chain.Sync.Walk.Fetching.{ask-height}
use bitcoin_toolkit.Chain.BalanceDb.{BlockEffects}
use bitcoin_toolkit.Chain.Script.{AddressCodec}
use bitcoin_toolkit.Chain.Sync.Walk.{
  closing_raw, done, refusing, caught, failing_fx, failing_raw, spreading, ask, interpret,
  at_height, Writer, awaiting_fx, Parse, awaiting_raw, Node, sending, closing_fx, applying,
  parse_step, sent_fx, got_raw, interpreted, RawBlock, parsed, storing, pop_again, push_again,
  fetched, write_step, applied_fx, got_fx, fetch_step, asked, stored_raw, asking, begin, Walk,
  Fetch,
}
use bitcoin_toolkit.Common.{
  refl, Option-cases, ◌&&◌, BtkError, ◌⊎◌, err, none, Option, List, ok, Bool, Bytes, Result, arith,
  ◌≤◌, true, ◌≡◌, ℕ,
}
use bitcoin_toolkit.Chain.Sync.Queue.{
  first_error, fail, enqueue, close, empty_queue, Queue, Attempt,
}
use bitcoin_toolkit.Chain.Sync.Queue.Cases.{
  push_wake-Pushes, pop_wake-Pops, Pushes, Pops, waited, threw, refused, halted, kept, dry, got,
}
use Prim.Native.String.{String}

abbrev pub InRange : ℕ → Fetch → Type 0
InRange tip (asking h) = h ≤ tip
InRange tip (storing w rb) = rb.height ≤ tip
InRange tip _ = Unit

pub record Live (tip : ℕ) (s : Walk) : Type 0 where
  pub raw_max : s.raw_q.max ≡ 8
  pub fx_max : s.fx_q.max ≡ 100
  pub in_range : InRange tip s.fetch
  pub fetch_ended : (s.fetch ≡ fetched) → s.raw_q.closed ≡ true
  pub parse_ended : (s.parse ≡ parsed) → s.fx_q.closed ≡ true
  pub last_raw : (s.parse ≡ closing_fx) → s.raw_q.closed ≡ true
  pub fx_good :
      s.fx_q.closed ≡ true → s.fx_q.error ≡ none → (s.raw_q.closed ≡ true) ⊎ (s.stop ≡ true)
  pub write_failed : (e : BtkError) → s.write ≡ spreading e → s.raw_q.closed ≡ true
  pub fetch_failed : (e : BtkError) → s.fetch ≡ failing_fx e → s.raw_q.closed ≡ true
  pub write_ended :
      (s.write ≡ done) → (s.fx_q.closed ≡ true) × ((s.raw_q.closed ≡ true) ⊎ (s.stop ≡ true))

module _ (tip : ℕ) where
  pub begin-Live : (first : ℕ) → Live tip (begin first)
  unfolding begin empty_queue
  begin-Live first = ground arith

  module _ (s : Walk) (v : Live tip s) where
    pub signal-Live : Live tip (record s { stop = true })
    signal-Live = ground (arith, v)

    stored-Live :
        (w : Bool) (rb : RawBlock) {stop : Bool} {o : Attempt (Queue RawBlock)}
        → s.fetch ≡ storing w rb
        → Pushes stop s.raw_q rb o
        → Live tip (stored_raw tip rb o s)
    unfolding stored_raw close enqueue
    stored-Live w rb e (waited t c n l) = ground (arith, v)
    stored-Live w rb e (threw x) = ground (arith, v)
    stored-Live w rb e (refused c n) = ground (arith, v)
    stored-Live w rb e (halted t) = ground (arith, v)
    stored-Live w rb e (kept c n l) = ground (arith, v)

    asked-Live :
        (h : ℕ) (r : Result RawBlock)
        → s.fetch ≡ asking h
        → ((rb : RawBlock) → r ≡ ok rb → rb.height ≡ h)
        → Live tip (asked r s)
    unfolding asked
    asked-Live h (ok rb) e good = ground (arith, v, good rb refl)
    asked-Live h (err x) e good = ground (arith, v)

    pub fetch_step-Live :
        (node : Node) (f : Fetch) → s.fetch ≡ f → Live tip (fetch_step tip node f s)
    unfolding fetch_step push_again close fail first_error
    fetch_step-Live node (at_height h) e = ground (arith, v)
    fetch_step-Live node (asking h) e = asked-Live h (ask node h) e (ask-height node h)
    fetch_step-Live node (storing w rb) e =
        stored-Live w rb e (push_wake-Pushes (w && s.stop) s.raw_q rb)
    fetch_step-Live node closing_raw e = ground (arith, v)
    fetch_step-Live node (caught x) e = ground (arith, v)
    fetch_step-Live node (failing_fx x) e =
        ground (arith, v, Option-cases s.fx_q.error, v.fetch_failed x)
    fetch_step-Live node fetched e = v

    module _ (command : String) where
      module _ (C : AddressCodec) (hash160 hash256 : Bytes → Bytes) where
        interpreted-Live :
            (w : Bool) (rb : RawBlock) (rest : List RawBlock) (r : Result BlockEffects)
            → s.parse ≡ awaiting_raw w
            → Live tip (record s {
              raw_q = record s.raw_q { q = rest };
              parse = interpreted command C hash160 hash256 r;
            })
        unfolding interpreted
        interpreted-Live w rb rest (ok fx) e = ground (arith, v)
        interpreted-Live w rb rest (err x) e = ground (arith, v)

        got_raw-Live :
            (w : Bool) {stop : Bool} {o : Attempt (Option RawBlock × Queue RawBlock)}
            → s.parse ≡ awaiting_raw w
            → Pops stop s.raw_q o
            → Live tip (got_raw command C hash160 hash256 o s)
        unfolding got_raw close
        got_raw-Live w e (waited t c n l) = ground (arith, v)
        got_raw-Live w e (threw x) = ground (arith, v)
        got_raw-Live w e (dry c n l) = ground (arith, v)
        got_raw-Live w e (halted t l) = ground (arith, v)
        got_raw-Live w e (got rb rest n l) =
            interpreted-Live w rb rest (interpret command C hash160 hash256 rb) e

        sent_fx-Live :
            (w : Bool) (fx : BlockEffects) {stop : Bool} {o : Attempt (Queue BlockEffects)}
            → s.parse ≡ sending w fx
            → (stop ≡ true → s.stop ≡ true)
            → Pushes stop s.fx_q fx o
            → Live tip (sent_fx command C hash160 hash256 fx o s)
        unfolding sent_fx close enqueue
        sent_fx-Live w fx e st (waited t c n l) = ground (arith, v)
        sent_fx-Live w fx e st (threw x) = ground (arith, v)
        sent_fx-Live w fx e st (refused c n) = ground (arith, v)
        sent_fx-Live w fx e st (halted t) = ground (arith, v)
        sent_fx-Live w fx e st (kept c n l) = ground (arith, v)

        pub parse_step-Live :
            (p : Parse) → s.parse ≡ p → Live tip (parse_step command C hash160 hash256 p s)
        unfolding parse_step push_again pop_again close fail first_error
        parse_step-Live (awaiting_raw w) e = got_raw-Live w e (pop_wake-Pops (w && s.stop) s.raw_q)
        parse_step-Live (sending w fx) e =
            sent_fx-Live w fx e (λ z. ground arith) (push_wake-Pushes (w && s.stop) s.fx_q fx)
        parse_step-Live closing_fx e = ground (arith, v)
        parse_step-Live (refusing x) e = ground (arith, v, Option-cases s.fx_q.error)
        parse_step-Live parsed e = v

      got_fx-Live :
          (w : Bool) {stop : Bool} {o : Attempt (Option BlockEffects × Queue BlockEffects)}
          → s.write ≡ awaiting_fx w
          → (stop ≡ true → s.stop ≡ true)
          → Pops stop s.fx_q o
          → Live tip (got_fx command o s)
      unfolding got_fx close
      got_fx-Live w e st (waited t c n l) = ground (arith, v)
      got_fx-Live w e st (threw x) = ground (arith, v)
      got_fx-Live w e st (dry c n l) = ground (arith, v)
      got_fx-Live w e st (halted t l) = ground (arith, v)
      got_fx-Live w e st (got fx rest n l) = ground (arith, v)

      applied_fx-Live :
          (fx : BlockEffects) (r : Result (Unit {0}))
          → s.write ≡ applying fx
          → Live tip (applied_fx command fx r s)
      unfolding applied_fx
      applied_fx-Live fx (ok u) e = ground (arith, v)
      applied_fx-Live fx (err x) e = ground (arith, v)

      pub write_step-Live :
          (r : Result (Unit {0})) (w : Writer) → s.write ≡ w → Live tip (write_step command r w s)
      unfolding write_step pop_again fail first_error
      write_step-Live r (awaiting_fx w) e =
          got_fx-Live w e (λ z. ground arith) (pop_wake-Pops (w && s.stop) s.fx_q)
      write_step-Live r (applying fx) e = applied_fx-Live fx r e
      write_step-Live r (failing_raw x) e = ground (arith, v)
      write_step-Live r (spreading x) e =
          ground (arith, v, Option-cases s.fx_q.error, v.write_failed x)
      write_step-Live r done e = v
