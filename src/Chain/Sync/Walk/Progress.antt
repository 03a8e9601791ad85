-- ===== src/Chain/Sync/Walk/Progress.antt =====
-- src/chain/sync.cpp: the three threads of `walk_rpc_blocks` come to an end.
use bitcoin_toolkit.Chain.Sync.Walk.Fetching.{ask-height}
use bitcoin_toolkit.Chain.BalanceDb.{BlockEffects}
use bitcoin_toolkit.Chain.Script.{AddressCodec}
use bitcoin_toolkit.Chain.Sync.Walk.Live.{Live}
use bitcoin_toolkit.Chain.Sync.Walk.{
  ask, interpreted, Node, parse_step, sent_fx, got_raw, RawBlock, pop_again, push_again, write_step,
  applied_fx, got_fx, fetch_step, asked, stored_raw, closing_raw, failing_fx, caught, asking,
  fetched, done, parsed, spreading, closing_fx, failing_raw, refusing, storing, applying, sending,
  at_height, awaiting_fx, awaiting_raw, Fetch, Walk, Writer, Parse,
}
use bitcoin_toolkit.Common.{
  refl, ◌∷◌, err, length-append, arith, inr, inl, ◌&&◌, ok, Option, Bytes, Result, ◌⊎◌, ◌<◌, ◌-◌,
  [], ◌≤◌, suc, none, ◌*◌, ◌≡◌, length, false, ◌+◌, true, ℕ, Bool,
}
use bitcoin_toolkit.Chain.Sync.Queue.{fail, enqueue, close, Queue, Attempt}
use bitcoin_toolkit.Chain.Sync.Queue.Cases.{
  push_wake-Pushes, pop_wake-Pops, Pushes, Pops, waited, threw, refused, halted, kept, dry, got,
}
use Prim.Native.String.{String}

flag : Bool → ℕ
flag true = 0
flag false = 1

-- How many moves a thread may still make, those that it causes in the others included.
unfoldable pub fetch_work : ℕ → Fetch → ℕ
unfolding flag
fetch_work tip (at_height h) = 13 * (suc tip - h) + 5
fetch_work tip (asking h) = 13 * (suc tip - h) + 4
fetch_work tip (storing w rb) = 13 * (suc tip - rb.height) + 2 + flag w
fetch_work tip closing_raw = 1
fetch_work tip (caught e) = 2
fetch_work tip (failing_fx e) = 1
fetch_work tip fetched = 0

unfoldable pub parse_work : Parse → ℕ
unfolding flag
parse_work (awaiting_raw w) = 2 + flag w
parse_work (sending w fx) = 7 + flag w
parse_work closing_fx = 1
parse_work (refusing e) = 1
parse_work parsed = 0

unfoldable pub write_work : Writer → ℕ
unfolding flag
write_work (awaiting_fx w) = 3 + flag w
write_work (applying fx) = 5
write_work (failing_raw e) = 2
write_work (spreading e) = 1
write_work done = 0

unfoldable pub work : ℕ → Walk → ℕ
unfolding fetch_work parse_work write_work
work tip s =
    fetch_work tip s.fetch
    + length s.raw_q.q * 7
    + parse_work s.parse
    + length s.fx_q.q * 3
    + write_work s.write

-- A fetcher, a parser or a writer that can do no more than wait again, or has ended.
unfoldable pub FetchIdle : Walk → Fetch → Type 0
FetchIdle s (storing true rb) =
    (s.stop ≡ false)
    × (s.raw_q.closed ≡ false)
    × (s.raw_q.error ≡ none)
    × (s.raw_q.max ≤ length s.raw_q.q)
FetchIdle s fetched = Unit
FetchIdle s _ = ⊥

unfoldable pub ParseIdle : Walk → Parse → Type 0
ParseIdle s (awaiting_raw true) =
    (s.stop ≡ false) × (s.raw_q.closed ≡ false) × (s.raw_q.error ≡ none) × (s.raw_q.q ≡ [])
ParseIdle s (sending true fx) =
    (s.stop ≡ false)
    × (s.fx_q.closed ≡ false)
    × (s.fx_q.error ≡ none)
    × (s.fx_q.max ≤ length s.fx_q.q)
ParseIdle s parsed = Unit
ParseIdle s _ = ⊥

unfoldable pub WriterIdle : Walk → Writer → Type 0
WriterIdle s (awaiting_fx true) =
    (s.stop ≡ false) × (s.fx_q.closed ≡ false) × (s.fx_q.error ≡ none) × (s.fx_q.q ≡ [])
WriterIdle s done = Unit
WriterIdle s _ = ⊥

module _ (tip : ℕ) (s : Walk) (v : Live tip s) where
  -- A move does some of the work, or it can do nothing and changes nothing.
  unfoldable pub Advances : Walk → Type 0 → Type 0
  Advances s' Idle = (work tip s' < work tip s) ⊎ (Idle × (s' ≡ s))

  stored-Advances :
      (w stop : Bool) (rb : RawBlock) {o : Attempt (Queue RawBlock)}
      → s.fetch ≡ storing w rb
      → stop ≡ (w && s.stop)
      → Pushes stop s.raw_q rb o
      → Advances (stored_raw tip rb o s) (FetchIdle s (storing w rb))
  unfolding Advances work stored_raw close enqueue FetchIdle
  stored-Advances true stop rb e st (waited t c n l) =
      inr ((ground arith, c, n, l), ground (arith, v))
  stored-Advances false stop rb e st (waited t c n l) = inl (ground (arith, v))
  stored-Advances w stop rb e st (threw x) = inl (ground (arith, v))
  stored-Advances w stop rb e st (refused c n) = inl (ground (arith, v))
  stored-Advances w stop rb e st (halted t) = inl (ground (arith, v))
  stored-Advances w stop rb e st (kept c n l) =
      inl (ground (arith, v, length-append s.raw_q.q (rb ∷ [])))

  asked-Advances :
      (h : ℕ) (r : Result RawBlock)
      → s.fetch ≡ asking h
      → ((rb : RawBlock) → r ≡ ok rb → rb.height ≡ h)
      → Advances (asked r s) ⊥
  unfolding Advances asked work
  asked-Advances h (ok rb) e good = inl (ground (arith, v, good rb refl))
  asked-Advances h (err x) e good = inl (ground (arith, v))

  pub fetch_step-Advances :
      (node : Node) (f : Fetch) → s.fetch ≡ f → Advances (fetch_step tip node f s) (FetchIdle s f)
  unfolding Advances fetch_step push_again close fail work FetchIdle
  fetch_step-Advances node (at_height h) e = inl (ground (arith, v))
  fetch_step-Advances node (asking h) e = asked-Advances h (ask node h) e (ask-height node h)
  fetch_step-Advances node (storing w rb) e =
      stored-Advances w (w && s.stop) rb e refl (push_wake-Pushes (w && s.stop) s.raw_q rb)
  fetch_step-Advances node closing_raw e = inl (ground (arith, v))
  fetch_step-Advances node (caught x) e = inl (ground (arith, v))
  fetch_step-Advances node (failing_fx x) e = inl (ground (arith, v))
  fetch_step-Advances node fetched e = inr (tt, refl)

  module _ (command : String) where
    module _ (C : AddressCodec) (hash160 hash256 : Bytes → Bytes) where
      got_raw-Advances :
          (w stop : Bool) {o : Attempt (Option RawBlock × Queue RawBlock)}
          → s.parse ≡ awaiting_raw w
          → stop ≡ (w && s.stop)
          → Pops stop s.raw_q o
          → Advances (got_raw command C hash160 hash256 o s) (ParseIdle s (awaiting_raw w))
      unfolding Advances work got_raw close interpreted ParseIdle
      got_raw-Advances true stop e st (waited t c n l) =
          inr ((ground arith, c, n, l), ground (arith, v))
      got_raw-Advances false stop e st (waited t c n l) = inl (ground (arith, v))
      got_raw-Advances w stop e st (threw x) = inl (ground (arith, v))
      got_raw-Advances w stop e st (dry c n l) = inl (ground (arith, v))
      got_raw-Advances w stop e st (halted t l) = inl (ground (arith, v))
      got_raw-Advances w stop e st (got rb rest n l) = inl (ground (arith, v))

      sent_fx-Advances :
          (w stop : Bool) (fx : BlockEffects) {o : Attempt (Queue BlockEffects)}
          → s.parse ≡ sending w fx
          → stop ≡ (w && s.stop)
          → Pushes stop s.fx_q fx o
          → Advances (sent_fx command C hash160 hash256 fx o s) (ParseIdle s (sending w fx))
      unfolding Advances work sent_fx close enqueue ParseIdle
      sent_fx-Advances true stop fx e st (waited t c n l) =
          inr ((ground arith, c, n, l), ground (arith, v))
      sent_fx-Advances false stop fx e st (waited t c n l) = inl (ground (arith, v))
      sent_fx-Advances w stop fx e st (threw x) = inl (ground (arith, v))
      sent_fx-Advances w stop fx e st (refused c n) = inl (ground (arith, v))
      sent_fx-Advances w stop fx e st (halted t) = inl (ground (arith, v))
      sent_fx-Advances w stop fx e st (kept c n l) =
          inl (ground (arith, v, length-append s.fx_q.q (fx ∷ [])))

      pub parse_step-Advances :
          (p : Parse)
          → s.parse ≡ p
          → Advances (parse_step command C hash160 hash256 p s) (ParseIdle s p)
      unfolding Advances work parse_step push_again pop_again close fail ParseIdle
      parse_step-Advances (awaiting_raw w) e =
          got_raw-Advances w (w && s.stop) e refl (pop_wake-Pops (w && s.stop) s.raw_q)
      parse_step-Advances (sending w fx) e =
          sent_fx-Advances w (w && s.stop) fx e refl (push_wake-Pushes (w && s.stop) s.fx_q fx)
      parse_step-Advances closing_fx e = inl (ground (arith, v))
      parse_step-Advances (refusing x) e = inl (ground (arith, v))
      parse_step-Advances parsed e = inr (tt, refl)

    got_fx-Advances :
        (w stop : Bool) {o : Attempt (Option BlockEffects × Queue BlockEffects)}
        → s.write ≡ awaiting_fx w
        → stop ≡ (w && s.stop)
        → Pops stop s.fx_q o
        → Advances (got_fx command o s) (WriterIdle s (awaiting_fx w))
    unfolding Advances work got_fx close WriterIdle
    got_fx-Advances true stop e st (waited t c n l) =
        inr ((ground arith, c, n, l), ground (arith, v))
    got_fx-Advances false stop e st (waited t c n l) = inl (ground (arith, v))
    got_fx-Advances w stop e st (threw x) = inl (ground (arith, v))
    got_fx-Advances w stop e st (dry c n l) = inl (ground (arith, v))
    got_fx-Advances w stop e st (halted t l) = inl (ground (arith, v))
    got_fx-Advances w stop e st (got fx rest n l) = inl (ground (arith, v))

    applied_fx-Advances :
        (fx : BlockEffects) (r : Result (Unit {0}))
        → s.write ≡ applying fx
        → Advances (applied_fx command fx r s) ⊥
    unfolding Advances work applied_fx
    applied_fx-Advances fx (ok u) e = inl (ground (arith, v))
    applied_fx-Advances fx (err x) e = inl (ground (arith, v))

    pub write_step-Advances :
        (r : Result (Unit {0})) (w : Writer)
        → s.write ≡ w
        → Advances (write_step command r w s) (WriterIdle s w)
    unfolding Advances work write_step pop_again fail WriterIdle
    write_step-Advances r (awaiting_fx w) e =
        got_fx-Advances w (w && s.stop) e refl (pop_wake-Pops (w && s.stop) s.fx_q)
    write_step-Advances r (applying fx) e = applied_fx-Advances fx r e
    write_step-Advances r (failing_raw x) e = inl (ground (arith, v))
    write_step-Advances r (spreading x) e = inl (ground (arith, v))
    write_step-Advances r done e = inr (tt, refl)
