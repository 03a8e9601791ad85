-- ===== src/Chain/Sync/Walk/Examples.antt =====
-- A walk over one block without transactions, with a simple hash and no address encodings.
use bitcoin_toolkit.Chain.Sync.Walk.Rounds.{take_rounds-HasEnded, take_rounds, IsRound, HasEnded}
use bitcoin_toolkit.Chain.Sync.Walk.Invariant.{fx_height, Heights}
use bitcoin_toolkit.Chain.Sync.Walk.Order.{outcome-Heights, applied-Heights, IsCalm}
use bitcoin_toolkit.Chain.Sync.Walk.Fetching.{IsQuiet}
use bitcoin_toolkit.Chain.Sync.Queue.{
  pop_enter, push_enter, close, empty_queue, pop_wake, push_wake,
}
use bitcoin_toolkit.Chain.Indexer.{effects_from_block}
use bitcoin_toolkit.Reader.{times}
use bitcoin_toolkit.Chain.CompactSize.{read_compact_size, read_with, read_body}
use bitcoin_toolkit.LittleEndian.{write_le32, read_le32}
use bitcoin_toolkit.Common.{zero, suc, ap, arith, true, All, ℕ, false, ◌++◌, bytes_eq}
use bitcoin_toolkit.Chain.Block.{serialize_block_header}
use bitcoin_toolkit.Core.Hex.{hex_encode}
use bitcoin_toolkit.Chain.Sync.Display.{hash_to_display}
use bitcoin_toolkit.Chain.Block.{block_hash, parse_block}
use bitcoin_toolkit.Chain.BalanceDb.{BlockEffects}
use bitcoin_toolkit.Common.{refl, ◌≡◌, ◌∷◌, [], none, take, replicate, ok, Bytes, List}
use bitcoin_toolkit.Chain.Sync.Walk.{
  Walk, done, parsed, signal, fetched, outcome, pop_again, push_again, ask, begin, moves,
  write_moves, parse_moves, fetch_moves, Move, interpret, Node,
}
use bitcoin_toolkit.Chain.Script.{AddressCodec}

abbrev no_codec : AddressCodec
no_codec = record {
  base58check_encode = λ p. p;
  base58check_decode = λ p. ok p;
  segwit_encode = λ hrp w p. ok p;
  segwit_decode = λ p. none;
}

-- A block of zeros, and its hash as it is shown.
abbrev node : Node
node = record {
  block_hash_at = λ h. ok (replicate 64 b'0');
  get_block = λ hash. ok (replicate 81 0);
}

abbrev round : List Move
round = fetch_moves node ∷ parse_moves ∷ write_moves (ok tt) ∷ []

abbrev fx : BlockEffects
fx = record { height = 0; time = 0; hash = replicate 32 0; txs = [] }

abbrev hash_of : Bytes → Bytes
hash_of = take 32

interpret_zeros :
    interpret "balance" no_codec hash_of hash_of
      (record { height = 0; hash_hex = replicate 64 b'0'; raw = replicate 81 0 })
    ≡ ok fx
unfolding interpret parse_block hash_to_display hex_encode effects_from_block block_hash
    read_compact_size read_with read_body times bytes_eq serialize_block_header write_le32 read_le32
interpret_zeros = refl

abbrev rounds_of : ℕ → List Move
rounds_of zero = []
rounds_of (suc n) = round ++ rounds_of n

abbrev turns : List Move
turns = rounds_of 9

-- The block is fetched, parsed and applied, and the threads end.
walk_ends : moves "balance" 0 no_codec hash_of hash_of turns (begin 0) ≡ record {
  stop = false;
  fetch = fetched;
  raw_q = record { max = 8; q = []; closed = true; error = none };
  parse = parsed;
  fx_q = record { max = 100; q = []; closed = true; error = none };
  write = done;
  worker_err = none;
  applied = fx ∷ [];
}
unfolding moves begin interpret ask push_again pop_again push_wake pop_wake empty_queue close
    push_enter pop_enter parse_block hash_to_display hex_encode effects_from_block block_hash
    read_compact_size read_with read_body times bytes_eq serialize_block_header write_le32 read_le32
walk_ends = refl

applied-Heights_example :
    (next : ℕ) × Heights fx_height 0
      (moves "balance" 0 no_codec hash_of hash_of turns (begin 0)).applied
      next
applied-Heights_example = applied-Heights "balance" 0 0 no_codec hash_of hash_of turns (omega arith)

node-IsQuiet : IsQuiet node
unfolding ask
node-IsQuiet h e p = cc

rounds_of-IsCalm : (n : ℕ) → IsCalm (rounds_of n)
rounds_of-IsCalm zero = tt
rounds_of-IsCalm (suc n) = (node-IsQuiet, rounds_of-IsCalm n)

returned :
    let s = moves "balance" 0 no_codec hash_of hash_of turns (begin 0) in
    outcome "balance" s s.worker_err ≡ ok tt
unfolding outcome
returned = rw walk_ends

outcome-Heights_example :
    Heights fx_height 0 (moves "balance" 0 no_codec hash_of hash_of turns (begin 0)).applied 1
outcome-Heights_example =
    outcome-Heights "balance" 0 0 no_codec hash_of hash_of turns (omega arith) (rounds_of-IsCalm 9)
      (ap (λ (s : Walk). s.write) walk_ends) returned

enough : All (IsRound false false false) (replicate 26 round)
enough = ground arith

take_rounds-HasEnded_example : HasEnded (
    take_rounds "balance" 0 no_codec hash_of hash_of
      (replicate 26 round)
      (moves "balance" 0 no_codec hash_of hash_of (signal ∷ round) (begin 0)))
take_rounds-HasEnded_example =
    take_rounds-HasEnded "balance" 0 no_codec hash_of hash_of 0 (signal ∷ round)
      (replicate 26 round) enough (omega arith)
