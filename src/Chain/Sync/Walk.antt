-- ===== src/Chain/Sync/Walk.antt =====
-- src/chain/sync.cpp: walk_rpc_blocks, as its three threads over two queues. A move is what a thread
-- does between two points at which another can see it: at most one operation of a queue, one round of
-- requests to the node or one call of `apply`. A flag with a blocked call says whether it has waited.
-- What the node answers and what `apply` does is told by each move. Only BtkErrors are thrown, and
-- the progress line is not printed.
pub mod Invariant
pub mod Fetching
pub mod Parsing
pub mod Writing
pub mod Order
pub mod Live
pub mod Progress
pub mod Rounds
mod Examples
use bitcoin_toolkit.Chain.Indexer.{effects_from_block}
use bitcoin_toolkit.Chain.Sync.Display.{hash_to_display}
use bitcoin_toolkit.Chain.Transaction.{Block}
use bitcoin_toolkit.Chain.Block.{block_hash, parse_block}
use bitcoin_toolkit.Chain.BalanceDb.{BlockEffects}
use bitcoin_toolkit.Chain.Sync.Queue.{
  returns, thrown, fail, close, empty_queue, pop_wake, push_wake, Queue, Attempt,
}
use bitcoin_toolkit.Chain.Script.{AddressCodec}
use bitcoin_toolkit.Common.{
  bytes_eq, ◌+◌, [], ◌∷◌, ◌||◌, none, ◌&&◌, ◌++◌, leb, true, err, ◌==◌, List, some, if◌then◌else◌,
  false, ok, btk_error, ◌>>=◌, Bytes, Option, BtkError, Result, Bool, ℕ,
}
use Prim.Native.String.{String}
use bitcoin_toolkit.Common.Texts.{text_eq}
use bitcoin_toolkit.Chain.Sync.Queue.{Queue, Attempt, waits, thrown, returns}

pub record RawBlock : Type 0 where
  pub height : ℕ
  pub hash_hex : Bytes
  pub raw : Bytes

-- The answers of the node at some moment: `rpc_getblockhash` and `rpc_getblock`.
pub record Node : Type 0 where
  pub block_hash_at : ℕ → Result Bytes
  pub get_block : Bytes → Result Bytes

pub ask : Node → ℕ → Result RawBlock
ask node h = do
  hash ← node.block_hash_at h
  raw ← node.get_block hash
  ok (record { height = h; hash_hex = hash; raw = raw })

pub data Fetch : Type 0 where
  at_height : ℕ → Fetch
  asking : ℕ → Fetch
  storing : Bool → RawBlock → Fetch
  closing_raw : Fetch
  caught : BtkError → Fetch
  failing_fx : BtkError → Fetch
  fetched : Fetch

pub data Parse : Type 0 where
  awaiting_raw : Bool → Parse
  sending : Bool → BlockEffects → Parse
  closing_fx : Parse
  refusing : BtkError → Parse
  parsed : Parse

pub data Writer : Type 0 where
  awaiting_fx : Bool → Writer
  applying : BlockEffects → Writer
  failing_raw : BtkError → Writer
  spreading : BtkError → Writer
  done : Writer

pub record Walk : Type 0 where
  pub stop : Bool
  pub fetch : Fetch
  pub raw_q : Queue RawBlock
  pub parse : Parse
  pub fx_q : Queue BlockEffects
  pub write : Writer
  pub worker_err : Option BtkError
  pub applied : List BlockEffects

pub data Move : Type 0 where
  signal : Move
  fetch_moves : Node → Move
  parse_moves : Move
  write_moves : Result (Unit {0}) → Move

-- `push` and `pop` at the entry of a call, or after a wait.
pub push_again : {A : Type 0} → Bool → Bool → Queue A → A → Attempt (Queue A)
push_again waited stop s x = push_wake (waited && stop) s x

pub pop_again : {A : Type 0} → Bool → Bool → Queue A → Attempt (Option A × Queue A)
pop_again waited stop s = pop_wake (waited && stop) s

pub is_interrupted : BtkError → Bool
is_interrupted (btk_error c what) = text_eq what "interrupted"

asked : Result RawBlock → Walk → Walk
asked (ok rb) s = record s { fetch = storing false rb }
asked (err e) s = record s { fetch = caught e }

-- The walk starts with a new queue for 8 raw blocks and one for the effects of 100.
pub begin : ℕ → Walk
begin first = record {
  stop = false;
  fetch = at_height first;
  raw_q = empty_queue 8;
  parse = awaiting_raw false;
  fx_q = empty_queue 100;
  write = awaiting_fx false;
  worker_err = none;
  applied = [];
}

module _ (tip : ℕ) where
  stored_raw : RawBlock → Attempt (Queue RawBlock) → Walk → Walk
  stored_raw rb waits s = record s { fetch = storing true rb }
  stored_raw rb (thrown e) s = record s { fetch = caught e }
  stored_raw rb (returns q) s = record s {
    raw_q = q;
    fetch = if rb.height == tip then closing_raw else at_height (rb.height + 1);
  }

  pub fetch_step : Node → Fetch → Walk → Walk
  unfolding asked stored_raw
  fetch_step node (at_height h) s = record s {
    fetch = if leb h tip then (if s.stop then closing_raw else asking h) else closing_raw;
  }
  fetch_step node (asking h) s = asked (ask node h) s
  fetch_step node (storing waited rb) s = stored_raw rb (push_again waited s.stop s.raw_q rb) s
  fetch_step node closing_raw s = record s { raw_q = close s.raw_q; fetch = fetched }
  fetch_step node (caught e) s =
      if s.stop || is_interrupted e
      then record s { raw_q = close s.raw_q; fetch = fetched }
      else record s { raw_q = fail s.raw_q e; fetch = failing_fx e }
  fetch_step node (failing_fx e) s = record s { fx_q = fail s.fx_q e; fetch = fetched }
  fetch_step node fetched s = s

module _ (command : String) where
  pub reprefix : BtkError → BtkError
  reprefix (btk_error c what) = btk_error command what

  module _ (C : AddressCodec) (hash160 : Bytes → Bytes) (hash256 : Bytes → Bytes) where
    -- What the parser makes of a block: it must have the hash that was asked for.
    same_block : RawBlock → Block → Result BlockEffects
    same_block rb block =
        if bytes_eq (hash_to_display (block_hash hash256 block)) rb.hash_hex
        then effects_from_block C hash160 hash256 block rb.height
        else err (btk_error command "invalid rpc response")

    pub interpret : RawBlock → Result BlockEffects
    unfolding same_block
    interpret rb = do block ← parse_block rb.raw; same_block rb block

    interpreted : Result BlockEffects → Parse
    interpreted (ok fx) = sending false fx
    interpreted (err e) = refusing (reprefix e)

    got_raw : Attempt (Option RawBlock × Queue RawBlock) → Walk → Walk
    unfolding interpreted
    got_raw waits s = record s { parse = awaiting_raw true }
    got_raw (thrown e) s = record s { parse = refusing (reprefix e) }
    got_raw (returns (none, q)) s = record s { raw_q = q; parse = closing_fx }
    got_raw (returns (some rb, q)) s = record s { raw_q = q; parse = interpreted (interpret rb) }

    sent_fx : BlockEffects → Attempt (Queue BlockEffects) → Walk → Walk
    sent_fx fx waits s = record s { parse = sending true fx }
    sent_fx fx (thrown e) s = record s { parse = refusing (reprefix e) }
    sent_fx fx (returns q) s = record s { fx_q = q; parse = awaiting_raw false }

    pub parse_step : Parse → Walk → Walk
    unfolding got_raw sent_fx
    parse_step (awaiting_raw waited) s = got_raw (pop_again waited s.stop s.raw_q) s
    parse_step (sending waited fx) s = sent_fx fx (push_again waited s.stop s.fx_q fx) s
    parse_step closing_fx s = record s { fx_q = close s.fx_q; parse = parsed }
    parse_step (refusing e) s = record s { fx_q = fail s.fx_q e; parse = parsed }
    parse_step parsed s = s

  got_fx : Attempt (Option BlockEffects × Queue BlockEffects) → Walk → Walk
  got_fx waits s = record s { write = awaiting_fx true }
  got_fx (thrown e) s = record s { write = failing_raw (reprefix e) }
  got_fx (returns (none, q)) s = record s { fx_q = q; write = done }
  got_fx (returns (some fx, q)) s = record s { fx_q = q; write = applying fx }

  applied_fx : BlockEffects → Result (Unit {0}) → Walk → Walk
  applied_fx fx (ok u) s = record s { applied = s.applied ++ fx ∷ []; write = awaiting_fx false }
  applied_fx fx (err e) s = record s { write = failing_raw (reprefix e) }

  pub write_step : Result (Unit {0}) → Writer → Walk → Walk
  unfolding got_fx applied_fx
  write_step r (awaiting_fx waited) s = got_fx (pop_again waited s.stop s.fx_q) s
  write_step r (applying fx) s = applied_fx fx r s
  write_step r (failing_raw e) s = record s {
    worker_err = some e;
    raw_q = fail s.raw_q e;
    write = spreading e;
  }
  write_step r (spreading e) s = record s { fx_q = fail s.fx_q e; write = done }
  write_step r done s = s

  -- What `walk_rpc_blocks` returns when the threads have ended.
  pub outcome : Walk → Option BtkError → Result (Unit {0})
  outcome s (some e) = err (reprefix e)
  outcome s none = if s.stop then err (btk_error command "interrupted") else ok tt

  module _ (tip : ℕ) (C : AddressCodec) (hash160 : Bytes → Bytes) (hash256 : Bytes → Bytes) where
    pub move : Move → Walk → Walk
    unfolding fetch_step parse_step write_step
    move signal s = record s { stop = true }
    move (fetch_moves node) s = fetch_step tip node s.fetch s
    move parse_moves s = parse_step C hash160 hash256 s.parse s
    move (write_moves r) s = write_step r s.write s

    unfoldable pub moves : List Move → Walk → Walk
    unfolding move
    moves [] s = s
    moves (m ∷ ms) s = moves ms (move m s)
