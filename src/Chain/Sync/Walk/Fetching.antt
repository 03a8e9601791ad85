-- ===== src/Chain/Sync/Walk/Fetching.antt =====
-- src/chain/sync.cpp: the fetching thread keeps the invariant.

use bitcoin_toolkit.Chain.Sync.Walk.Invariant.{InOrder, raw_height, Heights-snoc, Marks}
use bitcoin_toolkit.Common.{
  ◌&&◌, refl, suc, Result, true, false, arith, ok, err, ◌≡◌, Bool, BtkError, ℕ,
}
use bitcoin_toolkit.Chain.Sync.Walk.{
  fetched, closing_raw, failing_fx, caught, at_height, Fetch, storing, asking, push_again,
  fetch_step, asked, stored_raw, is_interrupted, Walk, RawBlock, ask, Node,
}
use bitcoin_toolkit.Chain.Sync.Queue.{first_error, fail, enqueue, close, Queue, Attempt}
use bitcoin_toolkit.Chain.Sync.Queue.Cases.{
  push_wake-Pushes, Pushes, waited, threw, refused, halted, kept,
}

-- No request to the node is interrupted.
abbrev pub IsQuiet : Node → Type 0
IsQuiet node = (h : ℕ) (e : BtkError) → ask node h ≡ err e → is_interrupted e ≡ false

pub ask-height : (node : Node) (h : ℕ) (rb : RawBlock) → ask node h ≡ ok rb → rb.height ≡ h
unfolding ask
ask-height node h rb e = ground arith

module _ (first tip : ℕ) (calm : Bool) (k : Marks) (s : Walk) (v : InOrder first tip calm k s) where
  pub signal-InOrder : InOrder first tip calm k (record s { stop = true })
  signal-InOrder = ground (arith, v)

  stored-InOrder :
      (w : Bool) (rb : RawBlock) {stop : Bool} {o : Attempt (Queue RawBlock)}
      → s.fetch ≡ storing w rb
      → (stop ≡ true → s.stop ≡ true)
      → Pushes stop s.raw_q rb o
      → (k' : Marks) × InOrder first tip calm k' (stored_raw tip rb o s)
  unfolding stored_raw close enqueue
  stored-InOrder w rb e st (waited t c n l) = (k, ground (arith, v))
  stored-InOrder w rb e st (threw x) = (k, ground (arith, v))
  stored-InOrder w rb e st (refused c n) = (k, ground (arith, v))
  stored-InOrder w rb e st (halted t) = (k, ground (arith, v))
  stored-InOrder w rb e st (kept c n l) = (
    record k { nxt = suc k.nxt },
    ground (arith, v, Heights-snoc raw_height k.raw_lo s.raw_q.q k.nxt rb),
  )

  asked-InOrder :
      (h : ℕ) (r : Result RawBlock)
      → s.fetch ≡ asking h
      → ((rb : RawBlock) → r ≡ ok rb → rb.height ≡ h)
      → (calm ≡ true → (e : BtkError) → r ≡ err e → is_interrupted e ≡ false)
      → (k' : Marks) × InOrder first tip calm k' (asked r s)
  unfolding asked
  asked-InOrder h (ok rb) e good quiet = (k, ground (arith, v, good rb refl))
  asked-InOrder h (err x) e good quiet = (k, ground (arith, v, λ (c : calm ≡ true). quiet c x refl))

  pub fetch_step-InOrder :
      (node : Node) (f : Fetch)
      → s.fetch ≡ f
      → (calm ≡ true → IsQuiet node)
      → (k' : Marks) × InOrder first tip calm k' (fetch_step tip node f s)
  unfolding fetch_step push_again close fail first_error
  fetch_step-InOrder node (at_height h) e quiet = (k, ground (arith, v))
  fetch_step-InOrder node (asking h) e quiet =
      asked-InOrder h (ask node h) e (ask-height node h) (λ c. quiet c h)
  fetch_step-InOrder node (storing w rb) e quiet =
      stored-InOrder w rb e (λ z. ground arith) (push_wake-Pushes (w && s.stop) s.raw_q rb)
  fetch_step-InOrder node closing_raw e quiet = (k, ground (arith, v))
  fetch_step-InOrder node (caught x) e quiet = (k, ground (arith, v))
  fetch_step-InOrder node (failing_fx x) e quiet = (k, ground (arith, v))
  fetch_step-InOrder node fetched e quiet = (k, v)
