-- ===== src/Chain/Sync/Walk/Order.antt =====
-- src/chain/sync.cpp: in what order `walk_rpc_blocks` applies blocks, and which it has applied where it
-- returns.
use bitcoin_toolkit.Chain.Sync.Walk.Writing.{write_step-InOrder}
use bitcoin_toolkit.Chain.Sync.Walk.Parsing.{parse_step-InOrder}
use bitcoin_toolkit.Chain.Sync.Walk.Invariant.{begin-InOrder, InOrder, fx_height, Heights, Marks}
use bitcoin_toolkit.Chain.Sync.Walk.Fetching.{fetch_step-InOrder, signal-InOrder, IsQuiet}
use bitcoin_toolkit.Chain.Script.{AddressCodec}
use bitcoin_toolkit.Chain.Sync.Walk.{
  parse_moves, signal, write_moves, done, Walk, begin, outcome, moves, move, fetch_moves, Move,
}
use bitcoin_toolkit.Common.{
  none, err-ne-ok, some, BtkError, subst, Option, refl, ok, arith, false, true, ◌≡◌, [], suc, Bool,
  ◌≤◌, Bytes, ◌∷◌, ℕ, List,
}
use Prim.Native.String.{String}

-- No request to the node is interrupted, as where `stop_requested` holds at no time.
abbrev pub IsCalm : List Move → Type 0
IsCalm [] = Unit
IsCalm (fetch_moves node ∷ ms) = IsQuiet node × IsCalm ms
IsCalm (m ∷ ms) = IsCalm ms

module _ (command : String) (first tip : ℕ) (C : AddressCodec) (hash160 : Bytes → Bytes)
    (hash256 : Bytes → Bytes) where
  move-InOrder :
      (calm : Bool) (m : Move) (ms : List Move) (k : Marks) (s : Walk)
      → (calm ≡ true → IsCalm (m ∷ ms))
      → InOrder first tip calm k s
      → ((k' : Marks) × InOrder first tip calm k' (move command tip C hash160 hash256 m s))
        × (calm ≡ true → IsCalm ms)
  unfolding move
  move-InOrder calm signal ms k s c v = ((k, signal-InOrder first tip calm k s v), c)
  move-InOrder calm (fetch_moves node) ms k s c v =
      (fetch_step-InOrder first tip calm k s v node s.fetch refl (λ z. (c z).0), λ z. (c z).1)
  move-InOrder calm parse_moves ms k s c v =
      (parse_step-InOrder command C hash160 hash256 first tip calm k s v s.parse refl, c)
  move-InOrder calm (write_moves r) ms k s c v =
      (write_step-InOrder command first tip calm k s v r s.write refl, c)

  moves-InOrder :
      (calm : Bool) (ms : List Move) (k : Marks) (s : Walk)
      → (calm ≡ true → IsCalm ms)
      → InOrder first tip calm k s
      → (k' : Marks) × InOrder first tip calm k' (moves command tip C hash160 hash256 ms s)
  unfolding moves
  moves-InOrder calm [] k s c v = (k, v)
  moves-InOrder calm (m ∷ ms) k s c v =
      let (kept, later) = move-InOrder calm m ms k s c v in
      let (k', v') = kept in
      moves-InOrder calm ms k' (move command tip C hash160 hash256 m s) later v'

  -- In whatever order the threads move, and whatever fails, the blocks applied so far are those of
  -- consecutive heights from the first on, each once and in order.
  pub applied-Heights :
      (ms : List Move)
      → first ≤ suc tip
      → (next : ℕ) × Heights fx_height first
          (moves command tip C hash160 hash256 ms (begin first)).applied
          next
  applied-Heights ms h =
      let (k, v) =
        moves-InOrder false ms _ (begin first) (λ z. absurd (ground arith))
          (begin-InOrder first tip false h) in
      (k.lo, v.out)

  lo-eq-tip :
      (k : Marks) (s : Walk)
      → InOrder first tip true k s
      → s.write ≡ done
      → (w : Option BtkError) → s.worker_err ≡ w
      → outcome command s w ≡ ok tt
      → k.lo ≡ suc tip
  unfolding outcome
  lo-eq-tip k s v ended (some e) p returned = absurd (err-ne-ok returned)
  lo-eq-tip k s v ended none p returned = ground (arith, v)

  -- Where the writer has ended and the walk returns without an error, the blocks applied are those of
  -- all heights from the first to the tip, each once and in order; no request to the node reports an
  -- interrupt.
  pub outcome-Heights :
      (ms : List Move)
      → first ≤ suc tip
      → IsCalm ms
      → let s = moves command tip C hash160 hash256 ms (begin first) in
        s.write ≡ done
        → outcome command s s.worker_err ≡ ok tt
        → Heights fx_height first s.applied (suc tip)
  outcome-Heights ms h calm ended returned =
      let (k, v) =
        moves-InOrder true ms _ (begin first) (λ z. calm) (begin-InOrder first tip true h) in
      subst (Heights fx_height first (moves command tip C hash160 hash256 ms (begin first)).applied)
        (lo-eq-tip k _ v ended _ refl returned) v.out
