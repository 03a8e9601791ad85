-- ===== src/Chain/Sync/Queue/Runs.antt =====
-- src/chain/sync.cpp: what any number of threads may do with one BoundedQueue, as a list of their
-- atomic attempts in the order in which they get the mutex.
-- An attempt of some thread. `wakes` carries what `stop_requested` answered after the wait.
use bitcoin_toolkit.Chain.Sync.Queue.Cases.{
  got, kept, halted, dry, refused, pop_wake-Pops, threw, push_wake-Pushes, Pops, Pushes,
}
use bitcoin_toolkit.Chain.Sync.Queue.{
  is_empty, pop_ready, first_error, returns, thrown, pop_wake, has_error, pop_enter, enqueue,
  push_wake, fail, empty_queue, push_enter, close, Attempt, Queue,
}
use bitcoin_toolkit.Common.{
  ap, ◌∙◌, append-nil, replicate, refl, true, some, if◌then◌else◌, append_assoc, none,
  length-append, false, arith, ◌++◌, ◌≤◌, length, [], ◌≡◌, ◌∷◌, Option, BtkError, List, ℕ, Bool,
}
use bitcoin_toolkit.Chain.Sync.Queue.{Queue, Attempt, waits, thrown, returns}
use bitcoin_toolkit.Chain.Sync.Queue.Cases.{
  Pushes, Pops, waited, threw, refused, halted, kept, dry, got,
}

pub data Act (A : Type 0) : Type 0 where
  push_enters : A → Act A
  push_wakes : Bool → A → Act A
  pop_enters : Act A
  pop_wakes : Bool → Act A
  closes : Act A
  fails : BtkError → Act A

-- The queue, with what it took in and what it handed out, oldest first.
pub record History (A : Type 0) : Type 0 where
  pub queue : Queue A
  pub stored : List A
  pub taken : List A

module _ {A : Type 0} where
  unfoldable pub start : ℕ → History A
  start max = record { queue = empty_queue max; stored = []; taken = [] }

  -- A push that returns has stored its item, unless the queue was closed.
  pushed : History A → A → Attempt (Queue A) → History A
  pushed h x waits = h
  pushed h x (thrown e) = h
  pushed h x (returns s) = record h {
    queue = s;
    stored = if s.closed then h.stored else h.stored ++ x ∷ [];
  }

  popped : History A → Attempt (Option A × Queue A) → History A
  popped h waits = h
  popped h (thrown e) = h
  popped h (returns (none, s)) = record h { queue = s }
  popped h (returns (some x, s)) = record h { queue = s; taken = h.taken ++ x ∷ [] }

  act : Act A → History A → History A
  unfolding pushed popped close fail
  act (push_enters x) h = pushed h x (push_enter h.queue x)
  act (push_wakes stop x) h = pushed h x (push_wake stop h.queue x)
  act pop_enters h = popped h (pop_enter h.queue)
  act (pop_wakes stop) h = popped h (pop_wake stop h.queue)
  act closes h = record h { queue = close h.queue }
  act (fails e) h = record h { queue = fail h.queue e }

  unfoldable pub run : List (Act A) → History A → History A
  unfolding act
  run [] h = h
  run (a ∷ as') h = run as' (act a h)

  pub record Inv (max : ℕ) (h : History A) : Type 0 where
    pub same_max : h.queue.max ≡ max
    pub bounded : length h.queue.q ≤ max
    pub in_order : h.taken ++ h.queue.q ≡ h.stored
    pub failed : h.queue.closed ≡ false → h.queue.error ≡ none

  push-Inv :
      (max : ℕ) (h : History A) (x : A) {stop : Bool} {o : Attempt (Queue A)}
      → Pushes stop h.queue x o
      → Inv max h
      → Inv max (pushed h x o)
  unfolding pushed close enqueue
  push-Inv max h x (waited t c n l) v = v
  push-Inv max h x (threw e) v = v
  push-Inv max h x (refused c n) v = ground (arith, v)
  push-Inv max h x (halted s) v = ground (arith, v)
  push-Inv max h x (kept c n l) v =
      ground (arith, v, length-append h.queue.q (x ∷ []), append_assoc h.taken h.queue.q (x ∷ []))

  pop-Inv :
      (max : ℕ) (h : History A) {stop : Bool} {o : Attempt (Option A × Queue A)}
      → Pops stop h.queue o
      → Inv max h
      → Inv max (popped h o)
  unfolding popped close
  pop-Inv max h (waited t c n l) v = v
  pop-Inv max h (threw e) v = v
  pop-Inv max h (dry c n l) v = ground (arith, v)
  pop-Inv max h (halted s l) v = ground (arith, v)
  pop-Inv max h (got x rest n l) v = ground (arith, v, append_assoc h.taken (x ∷ []) rest)

  act-Inv : (max : ℕ) (a : Act A) (h : History A) → Inv max h → Inv max (act a h)
  unfolding act close fail push_enter push_wake pop_enter pop_wake
  act-Inv max (push_enters x) h v = push-Inv max h x (push_wake-Pushes false h.queue x) v
  act-Inv max (push_wakes stop x) h v = push-Inv max h x (push_wake-Pushes stop h.queue x) v
  act-Inv max pop_enters h v = pop-Inv max h (pop_wake-Pops false h.queue) v
  act-Inv max (pop_wakes stop) h v = pop-Inv max h (pop_wake-Pops stop h.queue) v
  act-Inv max closes h v = ground (arith, v)
  act-Inv max (fails e) h v = ground (arith, v)

  start-Inv : (max : ℕ) → Inv max (start max)
  unfolding start empty_queue
  start-Inv max = ground arith

  kept-Inv : (max : ℕ) (acts : List (Act A)) (h : History A) → Inv max h → Inv max (run acts h)
  unfolding run
  kept-Inv max [] h v = v
  kept-Inv max (a ∷ acts) h v = kept-Inv max acts (act a h) (act-Inv max a h v)

  -- Whatever the threads do with a new queue, in any order, it holds at most max items, the items
  -- handed out and those it holds are those it took in, in their order, and it is closed once an
  -- error is set.
  pub run-Inv : (max : ℕ) (acts : List (Act A)) → Inv max (run acts (start max))
  run-Inv max acts = kept-Inv max acts (start max) (start-Inv max)

  -- What a closed queue keeps.
  pub record IsSettled (h h' : History A) : Type 0 where
    pub shut : h'.queue.closed ≡ true
    pub same_items : h'.taken ++ h'.queue.q ≡ h.taken ++ h.queue.q
    pub same_error : (e : BtkError) → h.queue.error ≡ some e → h'.queue.error ≡ some e
    pub same_taken : (e : BtkError) → h.queue.error ≡ some e → h'.taken ≡ h.taken

  push-IsSettled :
      (h : History A) (x : A) {stop : Bool} {o : Attempt (Queue A)}
      → Pushes stop h.queue x o
      → h.queue.closed ≡ true
      → IsSettled h (pushed h x o)
  unfolding pushed close enqueue
  push-IsSettled h x (waited t o n l) c = ground arith
  push-IsSettled h x (threw e) c = ground arith
  push-IsSettled h x (refused z n) c = ground arith
  push-IsSettled h x (halted s) c = ground arith
  push-IsSettled h x (kept z n l) c = ground arith

  pop-IsSettled :
      (h : History A) {stop : Bool} {o : Attempt (Option A × Queue A)}
      → Pops stop h.queue o
      → h.queue.closed ≡ true
      → IsSettled h (popped h o)
  unfolding popped close
  pop-IsSettled h (waited t o n l) c = ground arith
  pop-IsSettled h (threw e) c = ground arith
  pop-IsSettled h (dry z n l) c = ground arith
  pop-IsSettled h (halted s l) c = ground arith
  pop-IsSettled h (got x rest n l) c = ground (arith, append_assoc h.taken (x ∷ []) rest)

  act-IsSettled : (a : Act A) (h : History A) → h.queue.closed ≡ true → IsSettled h (act a h)
  unfolding act close fail first_error push_enter push_wake pop_enter pop_wake
  act-IsSettled (push_enters x) h c = push-IsSettled h x (push_wake-Pushes false h.queue x) c
  act-IsSettled (push_wakes stop x) h c = push-IsSettled h x (push_wake-Pushes stop h.queue x) c
  act-IsSettled pop_enters h c = pop-IsSettled h (pop_wake-Pops false h.queue) c
  act-IsSettled (pop_wakes stop) h c = pop-IsSettled h (pop_wake-Pops stop h.queue) c
  act-IsSettled closes h c = ground arith
  act-IsSettled (fails e) h c = record {
    shut = refl;
    same_items = refl;
    same_error = λ e' p. rw p;
    same_taken = λ e' p. refl;
  }

  -- Once the queue is closed, it stays closed and takes no item in, whatever the threads do: the items
  -- handed out and those it holds stay the same, in the same order. With an error, it also keeps that
  -- error, the first one, and hands no item out.
  pub run-IsSettled :
      (acts : List (Act A)) (h : History A) → h.queue.closed ≡ true → IsSettled h (run acts h)
  unfolding run
  run-IsSettled [] h c = record {
    shut = c;
    same_items = refl;
    same_error = λ e p. p;
    same_taken = λ e p. refl;
  }
  run-IsSettled (a ∷ acts) h c =
      let one : IsSettled h (act a h) = act-IsSettled a h c in
      let rest : IsSettled (act a h) (run acts (act a h)) = run-IsSettled acts (act a h) one.shut in
      record {
        shut = rest.shut;
        same_items = rest.same_items ∙ one.same_items;
        same_error = λ e p. rest.same_error e (one.same_error e p);
        same_taken = λ e p. rest.same_taken e (one.same_error e p) ∙ one.same_taken e p;
      }

  pop_one :
      (x : A) (q : List A) (h : History A)
      → h.queue.q ≡ x ∷ q
      → h.queue.error ≡ none
      → act pop_enters h ≡ record h { queue = record h.queue { q = q }; taken = h.taken ++ x ∷ [] }
  unfolding act popped pop_enter pop_ready has_error is_empty
  pop_one x q h p n = ground arith

  -- A queue without an error hands out all that it holds: after as many pops as it holds items it is
  -- empty, and what was taken is what was taken before and the items held, in their order.
  pub drained :
      (q : List A) (h : History A)
      → h.queue.q ≡ q
      → h.queue.error ≡ none
      → run (replicate (length q) pop_enters) h
        ≡ record h { queue = record h.queue { q = [] }; taken = h.taken ++ q }
  unfolding run
  drained [] h p n = ground (arith, append-nil h.taken)
  drained (x ∷ q) h p n =
      let h' : History A = record h {
        queue = record h.queue { q = q };
        taken = h.taken ++ x ∷ [];
      } in
      ap (run (replicate (length q) pop_enters)) (pop_one x q h p n)
      ∙ drained q h' refl n
      ∙ ap (λ (t : List A). record h { queue = record h.queue { q = [] }; taken = t })
          (append_assoc h.taken (x ∷ []) q)
