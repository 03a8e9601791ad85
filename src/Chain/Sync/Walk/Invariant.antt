-- ===== src/Chain/Sync/Walk/Invariant.antt =====
-- src/chain/sync.cpp: the invariant of the three threads. The blocks applied, with the writer, in the
-- queue of effects, with the parser, in the queue of raw blocks and with the fetcher have consecutive
-- heights, until a queue is closed.
use bitcoin_toolkit.Chain.BalanceDb.{BlockEffects}
use bitcoin_toolkit.Chain.Sync.Walk.{
  done, closing_fx, closing_raw, storing, is_interrupted, asking, spreading, caught, begin, Walk,
  at_height, sending, applying, Fetch, awaiting_raw, awaiting_fx, Parse, Writer, RawBlock,
}
use bitcoin_toolkit.Common.{
  ap, sym, arith, none, ◌∙◌, true, false, ◌≤◌, [], suc, ◌++◌, ◌∷◌, Bool, ◌≡◌, List, ℕ,
}
use bitcoin_toolkit.Chain.Sync.Queue.{empty_queue}

module _ {A : Type 0} (height_of : A → ℕ) where
  -- The heights are `a` and those that follow it, up to but not including `b`.
  abbrev pub Heights : ℕ → List A → ℕ → Type 0
  Heights a [] b = a ≡ b
  Heights a (x ∷ xs) b = (height_of x ≡ a) × Heights (suc a) xs b

  pub Heights-snoc :
      (a : ℕ) (xs : List A) (b : ℕ) (x : A)
      → Heights a xs b
      → height_of x ≡ b
      → Heights a (xs ++ x ∷ []) (suc b)
  Heights-snoc a [] b x h e = (e ∙ sym h, ap suc h)
  Heights-snoc a (y ∷ xs) b x h e = (h.0, Heights-snoc (suc a) xs b x h.1 e)

-- Where the pieces begin: behind the applied blocks, in the queue of effects, behind it, in the queue
-- of raw blocks, and behind it.
pub record Marks : Type 0 where
  pub lo : ℕ
  pub fx_lo : ℕ
  pub mid : ℕ
  pub raw_lo : ℕ
  pub nxt : ℕ

abbrev pub raw_height : RawBlock → ℕ
raw_height rb = rb.height

abbrev pub fx_height : BlockEffects → ℕ
fx_height fx = fx.height

abbrev pub WriterAt : Writer → ℕ → ℕ → Type 0
WriterAt (awaiting_fx w) lo fx_lo = fx_lo ≡ lo
WriterAt (applying fx) lo fx_lo = (fx.height ≡ lo) × (fx_lo ≡ suc lo)
WriterAt _ lo fx_lo = Unit

abbrev pub ParseAt : Parse → ℕ → ℕ → Type 0
ParseAt (awaiting_raw w) mid raw_lo = raw_lo ≡ mid
ParseAt (sending w fx) mid raw_lo = (fx.height ≡ mid) × (raw_lo ≡ suc mid)
ParseAt _ mid raw_lo = Unit

abbrev pub FetchAt : ℕ → Fetch → ℕ → Type 0
FetchAt tip (at_height h) nxt = (h ≡ nxt) × (nxt ≤ suc tip)
FetchAt tip (asking h) nxt = (h ≡ nxt) × (nxt ≤ tip)
FetchAt tip (storing w rb) nxt = (rb.height ≡ nxt) × (nxt ≤ tip)
FetchAt tip _ nxt = Unit

-- What holds of the threads that are about to close a queue, where no error is set.
abbrev pub Closing : ℕ → Fetch → ℕ → Type 0
Closing tip closing_raw nxt = nxt ≡ suc tip
Closing tip (caught e) nxt = is_interrupted e ≡ false
Closing tip _ nxt = Unit

abbrev pub Sent : ℕ → Parse → ℕ → Type 0
Sent tip closing_fx mid = mid ≡ suc tip
Sent tip _ mid = Unit

abbrev pub Written : ℕ → Writer → ℕ → Type 0
Written tip done lo = lo ≡ suc tip
Written tip (spreading e) lo = ⊥
Written tip _ lo = Unit

module _ (first tip : ℕ) (calm : Bool) where
  pub record InOrder (k : Marks) (s : Walk) : Type 0 where
    pub out : Heights fx_height first s.applied k.lo
    pub writer : WriterAt s.write k.lo k.fx_lo
    pub fxs : Heights fx_height k.fx_lo s.fx_q.q k.mid
    pub parser : s.fx_q.closed ≡ false → ParseAt s.parse k.mid k.raw_lo
    pub raws : Heights raw_height k.raw_lo s.raw_q.q k.nxt
    pub fetcher : s.raw_q.closed ≡ false → FetchAt tip s.fetch k.nxt
    pub raw_all :
        calm ≡ true
        → s.stop ≡ false
        → s.raw_q.closed ≡ true
        → s.raw_q.error ≡ none
        → k.nxt ≡ suc tip
    pub fx_all :
        calm ≡ true → s.stop ≡ false → s.fx_q.closed ≡ true → s.fx_q.error ≡ none → k.mid ≡ suc tip
    pub closing : calm ≡ true → s.stop ≡ false → s.raw_q.error ≡ none → Closing tip s.fetch k.nxt
    pub sent : calm ≡ true → s.stop ≡ false → s.fx_q.error ≡ none → Sent tip s.parse k.mid
    pub written : calm ≡ true → s.stop ≡ false → s.worker_err ≡ none → Written tip s.write k.lo

  pub begin-InOrder :
      first ≤ suc tip
      → InOrder
          (record { lo = first; fx_lo = first; mid = first; raw_lo = first; nxt = first })
          (begin first)
  unfolding begin empty_queue
  begin-InOrder h = ground arith

  pub Kept : Walk → Type 0
  Kept s = (k : Marks) × InOrder k s
