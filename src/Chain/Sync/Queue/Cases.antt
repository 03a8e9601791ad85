-- ===== src/Chain/Sync/Queue/Cases.antt =====
-- src/chain/sync.cpp: the ways in which an attempt of BoundedQueue can end.
use bitcoin_toolkit.Chain.Sync.Queue.{
  enqueue, close, returns, thrown, waits, Attempt, has_error, push_enter, Queue, pop_wake,
  pop_enter, is_empty, pop_ready, push_wake, push_ready,
}
use bitcoin_toolkit.Common.{
  ◌≢◌, Option-cases, ◌≤◌, if◌then◌else◌, refl, ◌<◌, ◌∷◌, arith, none, inr, ◌||◌, [], length, false,
  some, inl, not, true, ltb, BtkError, ◌≡◌, Bool-cases, Option, List, Bool,
}

module _ {A : Type 0} where
  pub data Pushes (stop : Bool) (s : Queue A) (x : A) : Attempt (Queue A) → Type 0 where
    waited :
        stop ≡ false
        → s.closed ≡ false
        → s.error ≡ none
        → s.max ≤ length s.q
        → Pushes stop s x waits
    threw : {e : BtkError} → s.error ≡ some e → Pushes stop s x (thrown e)
    refused : s.closed ≡ true → s.error ≡ none → Pushes stop s x (returns s)
    halted : stop ≡ true → Pushes stop s x (returns (close s))
    kept :
        s.closed ≡ false
        → s.error ≡ none
        → length s.q < s.max
        → Pushes stop s x (returns (enqueue s x))

  push_ready-Pushes :
      (stop : Bool) (s : Queue A) (x : A) (e : Option BtkError)
      → s.error ≡ e
      → (s.closed ≡ false → e ≡ none → length s.q < s.max)
      → Pushes stop s x (push_ready s e x)
  unfolding push_ready
  push_ready-Pushes stop s x (some e) p room = threw p
  push_ready-Pushes stop s x none p room = admitted s.closed refl
    where
      admitted :
          (b : Bool)
          → s.closed ≡ b
          → Pushes stop s x (if b then returns s else returns (enqueue s x))
      admitted true z = refused z p
      admitted false z = kept z p (room z refl)

  pub push_wake-Pushes : (stop : Bool) (s : Queue A) (x : A) → Pushes stop s x (push_wake stop s x)
  unfolding push_wake push_enter has_error
  push_wake-Pushes true s x = halted refl
  push_wake-Pushes false s x =
      elim (Bool-cases (ltb (length s.q) s.max || s.closed || has_error s.error)) [
        | inl z ↦ rw z (push_ready-Pushes false s x s.error refl (λ c n. ground arith))
        | inr z ↦
            rw z (waited refl (ground arith) (ground (arith, Option-cases s.error)) (ground arith))
      ]

  pub data Pops (stop : Bool) (s : Queue A) : Attempt (Option A × Queue A) → Type 0 where
    waited : stop ≡ false → s.closed ≡ false → s.error ≡ none → s.q ≡ [] → Pops stop s waits
    threw : {e : BtkError} → s.error ≡ some e → Pops stop s (thrown e)
    dry : s.closed ≡ true → s.error ≡ none → s.q ≡ [] → Pops stop s (returns (none, s))
    halted : stop ≡ true → s.q ≡ [] → Pops stop s (returns (none, close s))
    got :
        (x : A) (rest : List A)
        → s.error ≡ none
        → s.q ≡ x ∷ rest
        → Pops stop s (returns (some x, record s { q = rest }))

  pop_ready-Pops :
      (stop : Bool) (s : Queue A) (e : Option BtkError) (q : List A)
      → s.error ≡ e
      → s.q ≡ q
      → (q ≡ [] → e ≡ none → s.closed ≡ true)
      → Pops stop s (pop_ready s e q)
  unfolding pop_ready
  pop_ready-Pops stop s (some e) q p l c = threw p
  pop_ready-Pops stop s none [] p l c = dry (c refl refl) p l
  pop_ready-Pops stop s none (x ∷ rest) p l c = got x rest p l

  is_empty-eq : (q : List A) → is_empty q ≡ true → q ≡ []
  unfolding is_empty
  is_empty-eq [] h = refl
  is_empty-eq (x ∷ q) h = cc

  enter-Pops : (stop : Bool) (s : Queue A) → (stop ≡ true → s.q ≢ []) → Pops stop s (pop_enter s)
  unfolding pop_enter has_error is_empty
  enter-Pops stop s busy = elim (Bool-cases (not (is_empty s.q) || s.closed || has_error s.error)) [
    | inl z ↦ rw z (pop_ready-Pops stop s s.error s.q refl refl (λ c n. ground arith))
    | inr z ↦ rw z (
        waited (ground (arith, Option-cases s.error)) (ground arith)
          (ground (arith, Option-cases s.error)) (ground arith))
  ]

  pub pop_wake-Pops : (stop : Bool) (s : Queue A) → Pops stop s (pop_wake stop s)
  unfolding pop_wake
  pop_wake-Pops false s = enter-Pops false s (λ z. cc)
  pop_wake-Pops true s = checked (is_empty s.q) refl
    where
      checked :
          (b : Bool)
          → is_empty s.q ≡ b
          → Pops true s (if b then returns (none, close s) else pop_enter s)
      checked true z = halted refl (is_empty-eq s.q z)
      checked false z = enter-Pops true s (λ c e. ground arith)
