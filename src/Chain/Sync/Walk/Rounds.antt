-- ===== src/Chain/Sync/Walk/Rounds.antt =====
-- src/chain/sync.cpp: however the threads are scheduled, as long as each gets its turns, they end.
use bitcoin_toolkit.Chain.Sync.Queue.{empty_queue}
use bitcoin_toolkit.Chain.Script.{AddressCodec}
use bitcoin_toolkit.Chain.Sync.Walk.Live.{
  begin-Live, write_step-Live, parse_step-Live, fetch_step-Live, signal-Live, Live,
}
use bitcoin_toolkit.Common.{
  ◌∙◌, ap, ◌+◌, ◌-◌, suc, ◌*◌, refl, inr, length, ◌⊎◌, inl, ◌<◌, ◌≤◌, false, All, Bytes, arith, [],
  ◌∷◌, true, ℕ, List, ◌≡◌, Bool,
}
use bitcoin_toolkit.Chain.Sync.Walk.Progress.{
  write_step-Advances, parse_step-Advances, fetch_step-Advances, work, Advances, WriterIdle,
  ParseIdle, FetchIdle,
}
use bitcoin_toolkit.Chain.Sync.Walk.{
  begin, write_step, parse_step, fetch_step, move, moves, parse_moves, signal, write_moves, Writer,
  fetch_moves, Parse, Fetch, done, parsed, Move, fetched, Walk,
}
use Prim.Native.String.{String}

abbrev pub HasEnded : Walk → Type 0
HasEnded s = (s.fetch ≡ fetched) × (s.parse ≡ parsed) × (s.write ≡ done)

-- Threads that can all do nothing have ended.
idle-HasEnded :
    (tip : ℕ) (s : Walk) (f : Fetch) (p : Parse) (w : Writer)
    → Live tip s
    → s.fetch ≡ f
    → s.parse ≡ p
    → s.write ≡ w
    → FetchIdle s f
    → ParseIdle s p
    → WriterIdle s w
    → HasEnded s
unfolding FetchIdle ParseIdle WriterIdle
idle-HasEnded tip s f p w v ef ep ew hf hp hw = ground (arith, v)

-- Moves of the threads, in which each thread moves at least once, or has moved before.
abbrev pub IsRound : Bool → Bool → Bool → List Move → Type 0
IsRound f p w [] = (f ≡ true) × (p ≡ true) × (w ≡ true)
IsRound f p w (signal ∷ ms) = ⊥
IsRound f p w (fetch_moves node ∷ ms) = IsRound true p w ms
IsRound f p w (parse_moves ∷ ms) = IsRound f true w ms
IsRound f p w (write_moves r ∷ ms) = IsRound f p true ms

module _ (command : String) (tip : ℕ) (C : AddressCodec) (hash160 hash256 : Bytes → Bytes) where
  after : List Move → Walk → Walk
  after = moves command tip C hash160 hash256

  pub take_rounds : List (List Move) → Walk → Walk
  unfolding after
  take_rounds [] s = s
  take_rounds (round ∷ rounds) s = take_rounds rounds (after round s)

  move-Live : (m : Move) (s : Walk) → Live tip s → Live tip (move command tip C hash160 hash256 m s)
  unfolding move
  move-Live signal s v = signal-Live tip s v
  move-Live (fetch_moves node) s v = fetch_step-Live tip s v node s.fetch refl
  move-Live parse_moves s v = parse_step-Live tip s v command C hash160 hash256 s.parse refl
  move-Live (write_moves r) s v = write_step-Live tip s v command r s.write refl

  moves-Live : (ms : List Move) (s : Walk) → Live tip s → Live tip (after ms s)
  unfolding after moves
  moves-Live [] s v = v
  moves-Live (m ∷ ms) s v = moves-Live ms (move command tip C hash160 hash256 m s) (move-Live m s v)

  le_of_Advances :
      (s s' : Walk) (v : Live tip s) (I : Type 0) → Advances tip s v s' I → work tip s' ≤ work tip s
  unfolding Advances
  le_of_Advances s s' v I (inl lt) = omega arith
  le_of_Advances s s' v I (inr (i, e)) = rw e (omega arith)

  work-signal : (s : Walk) → work tip (record s { stop = true }) ≤ work tip s
  unfolding work
  work-signal s = omega arith

  -- No move makes more work.
  move-work-le :
      (m : Move) (s : Walk)
      → Live tip s
      → work tip (move command tip C hash160 hash256 m s) ≤ work tip s
  unfolding move
  move-work-le signal s v = work-signal s
  move-work-le (fetch_moves node) s v =
      le_of_Advances s _ v _ (fetch_step-Advances tip s v node s.fetch refl)
  move-work-le parse_moves s v =
      le_of_Advances s _ v _ (parse_step-Advances tip s v command C hash160 hash256 s.parse refl)
  move-work-le (write_moves r) s v =
      le_of_Advances s _ v _ (write_step-Advances tip s v command r s.write refl)

  moves-work-le : (ms : List Move) (s : Walk) → Live tip s → work tip (after ms s) ≤ work tip s
  unfolding after moves
  moves-work-le [] s v = omega arith
  moves-work-le (m ∷ ms) s v =
      let s' : Walk = move command tip C hash160 hash256 m s in
      omega (arith, move-work-le m s v, moves-work-le ms s' (move-Live m s v))

  -- What the threads that have moved in a round and changed nothing can do.
  abbrev Idle : Walk → Bool → Bool → Bool → Type 0
  Idle s f p w =
      (f ≡ true → FetchIdle s s.fetch)
      × (p ≡ true → ParseIdle s s.parse)
      × (w ≡ true → WriterIdle s s.write)

  -- A round does some of the work, or all threads have ended and it changes nothing.
  round-Advances :
      (f p w : Bool) (ms : List Move) (s : Walk)
      → Live tip s
      → IsRound f p w ms
      → Idle s f p w
      → (work tip (after ms s) < work tip s) ⊎ (HasEnded s × (after ms s ≡ s))
  unfolding after moves move Advances
  round-Advances f p w [] s v (hf, hp, hw) (jf, jp, jw) =
      inr
        (idle-HasEnded tip s s.fetch s.parse s.write v refl refl refl (jf hf) (jp hp) (jw hw), refl)
  round-Advances f p w (signal ∷ ms) s v h j = elim h [ ]
  round-Advances f p w (fetch_moves node ∷ ms) s v h (jf, jp, jw) =
      elim (fetch_step-Advances tip s v node s.fetch refl) [
        | inl lt ↦ inl (
            omega (
              arith,
              moves-work-le ms (fetch_step tip node s.fetch s)
                  (fetch_step-Live tip s v node s.fetch refl),
            ))
        | inr (idle, same) ↦ rw same (round-Advances true p w ms s v h (λ z. idle, jp, jw))
      ]
  round-Advances f p w (parse_moves ∷ ms) s v h (jf, jp, jw) =
      elim (parse_step-Advances tip s v command C hash160 hash256 s.parse refl) [
        | inl lt ↦ inl (
            omega (
              arith,
              moves-work-le ms (parse_step command C hash160 hash256 s.parse s)
                  (parse_step-Live tip s v command C hash160 hash256 s.parse refl),
            ))
        | inr (idle, same) ↦ rw same (round-Advances f true w ms s v h (jf, λ z. idle, jw))
      ]
  round-Advances f p w (write_moves r ∷ ms) s v h (jf, jp, jw) =
      elim (write_step-Advances tip s v command r s.write refl) [
        | inl lt ↦ inl (
            omega (
              arith,
              moves-work-le ms (write_step command r s.write s)
                  (write_step-Live tip s v command r s.write refl),
            ))
        | inr (idle, same) ↦ rw same (round-Advances f p true ms s v h (jf, jp, λ z. idle))
      ]

  ended-same :
      (f p w : Bool) (ms : List Move) (s : Walk) → IsRound f p w ms → HasEnded s → after ms s ≡ s
  unfolding after moves move fetch_step parse_step write_step
  ended-same f p w [] s h e = refl
  ended-same f p w (signal ∷ ms) s h e = elim h [ ]
  ended-same f p w (fetch_moves node ∷ ms) s h e =
      ap (λ (g : Fetch). after ms (fetch_step tip node g s)) e.0 ∙ ended-same true p w ms s h e
  ended-same f p w (parse_moves ∷ ms) s h e =
      ap (λ (g : Parse). after ms (parse_step command C hash160 hash256 g s)) e.1
      ∙ ended-same f true w ms s h e
  ended-same f p w (write_moves r ∷ ms) s h e =
      ap (λ (g : Writer). after ms (write_step command r g s)) e.2 ∙ ended-same f p true ms s h e

  rounds-HasEnded :
      (rounds : List (List Move)) (s : Walk)
      → Live tip s
      → All (IsRound false false false) rounds
      → (work tip s < length rounds) ⊎ HasEnded s
      → HasEnded (take_rounds rounds s)
  unfolding take_rounds
  rounds-HasEnded [] s v h (inl lt) = absurd (omega arith)
  rounds-HasEnded [] s v h (inr e) = e
  rounds-HasEnded (ms ∷ rounds) s v h (inr e) =
      rounds-HasEnded rounds (after ms s) (moves-Live ms s v) h.1
        (inr (rw (ended-same false false false ms s h.0 e) e))
  rounds-HasEnded (ms ∷ rounds) s v h (inl lt) =
      elim (round-Advances false false false ms s v h.0
        (λ z. absurd (ground arith), λ z. absurd (ground arith), λ z. absurd (ground arith))) [
          | inl less ↦
              rounds-HasEnded rounds (after ms s) (moves-Live ms s v) h.1 (inl (omega arith))
          | inr (e, same) ↦
              rounds-HasEnded rounds (after ms s) (moves-Live ms s v) h.1 (inr (rw same e))
        ]

  work-begin : (first : ℕ) → work tip (begin first) < 13 * (suc tip - first) + 13
  unfolding work begin empty_queue
  work-begin first = omega arith

  -- Whatever moves were made before, a signal among them, and whatever the node and `apply` do, the
  -- three threads have ended after 13 rounds for each height and 13 more, where each thread moves at
  -- least once in a round and no further signal comes.
  pub take_rounds-HasEnded :
      (first : ℕ) (ms : List Move) (rounds : List (List Move))
      → All (IsRound false false false) rounds
      → 13 * (suc tip - first) + 13 ≤ length rounds
      → HasEnded (take_rounds rounds (moves command tip C hash160 hash256 ms (begin first)))
  unfolding after
  take_rounds-HasEnded first ms rounds h enough =
      let s : Walk = moves command tip C hash160 hash256 ms (begin first) in
      rounds-HasEnded rounds s (moves-Live ms (begin first) (begin-Live tip first)) h (
        inl
          (omega (arith, work-begin first, moves-work-le ms (begin first) (begin-Live tip first))))
