-- ===== src/Chain/Sync/Queue.antt =====
-- src/chain/sync.cpp: BoundedQueue. A call holds the mutex except while it waits, so it is a sequence
-- of atomic attempts: the first at its entry, the others after each wait of its condition variable.
-- An attempt after a wait is told what `stop_requested` answered. Notifications change no state: a
-- wait ends by itself after 200 ms.
pub mod Cases
pub mod Runs
mod Examples
use bitcoin_toolkit.Common.{
  ◌||◌, length, none, ◌&&◌, not, ltb, some, false, ◌∷◌, [], Bool, if◌then◌else◌, ◌++◌, true, Option,
  List, BtkError, ℕ,
}

pub record Queue (A : Type 0) : Type 0 where
  pub max : ℕ
  pub q : List A
  pub closed : Bool
  pub error : Option BtkError

-- An attempt finds that it has to wait, rethrows `err_`, or returns.
pub data Attempt (B : Type 0) : Type 0 where
  waits : Attempt B
  thrown : BtkError → Attempt B
  returns : B → Attempt B

pub has_error : Option BtkError → Bool
has_error none = false
has_error (some e) = true

-- The first exception stays.
unfoldable pub first_error : Option BtkError → BtkError → Option BtkError
first_error none e = some e
first_error (some e') e = some e'

module _ {A : Type 0} where
  unfoldable pub empty_queue : ℕ → Queue A
  empty_queue max = record { max = max; q = []; closed = false; error = none }

  pub is_empty : List A → Bool
  is_empty [] = true
  is_empty (x ∷ xs) = false

  unfoldable pub close : Queue A → Queue A
  close s = record s { closed = true }

  unfoldable pub fail : Queue A → BtkError → Queue A
  unfolding first_error
  fail s e = record s { error = first_error s.error e; closed = true }

  unfoldable pub enqueue : Queue A → A → Queue A
  enqueue s x = record s { q = s.q ++ x ∷ [] }

  -- What follows the loop of `push`.
  pub push_ready : Queue A → Option BtkError → A → Attempt (Queue A)
  unfolding enqueue
  push_ready s (some e) x = thrown e
  push_ready s none x = if s.closed then returns s else returns (enqueue s x)

  unfoldable pub push_enter : Queue A → A → Attempt (Queue A)
  unfolding push_ready has_error
  push_enter s x =
      if ltb (length s.q) s.max || s.closed || has_error s.error
      then push_ready s s.error x
      else waits

  unfoldable pub push_wake : Bool → Queue A → A → Attempt (Queue A)
  unfolding push_enter close
  push_wake stop s x = if stop then returns (close s) else push_enter s x

  -- What follows the loop of `pop`: an item, or that there is none and will be none.
  pub pop_ready : Queue A → Option BtkError → List A → Attempt (Option A × Queue A)
  pop_ready s (some e) q = thrown e
  pop_ready s none [] = returns (none, s)
  pop_ready s none (x ∷ rest) = returns (some x, record s { q = rest })

  unfoldable pub pop_enter : Queue A → Attempt (Option A × Queue A)
  unfolding pop_ready has_error is_empty
  pop_enter s =
      if not (is_empty s.q) || s.closed || has_error s.error then pop_ready s s.error s.q else waits

  unfoldable pub pop_wake : Bool → Queue A → Attempt (Option A × Queue A)
  unfolding pop_enter close is_empty
  pop_wake stop s = if stop && is_empty s.q then returns (none, close s) else pop_enter s
