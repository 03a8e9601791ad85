-- ===== src/Chain/Sync/Start.antt =====
-- src/chain/sync.cpp: what `walk_rpc_blocks` does before its threads start.
mod Examples
use bitcoin_toolkit.Chain.Sync.Display.{
  hash_from_display-hash_to_display, hash_to_display, hash_from_display,
}
use bitcoin_toolkit.Chain.Sync.Walk.{Node}
use bitcoin_toolkit.Common.{
  refl, bytes_eq_iff, sym, ap, inr, false, Bool-cases, inl, ◌⊎◌, arith, ◌||◌, ◌<◌, ◌≢◌, none, ◌≤◌,
  ◌+◌, bytes_eq, ◌==◌, not, ◌≡◌, ok, some, length, ltb, err, true, IsBytes, ◌>>=◌, if◌then◌else◌,
  Bool, Result, Option, btk_error, Bytes, BtkError, ℕ,
}
use Prim.Native.String.{String}
use mathlib.Core.Option.{some-injective}

-- There is nothing to do, or there are blocks to walk from the first to the tip.
pub data Plan : Type 0 where
  up_to_date : ℕ → Plan
  from_to : ℕ → ℕ → Plan

module _ (command : String) where
  abbrev pub reorg_detected : BtkError
  reorg_detected = btk_error command "reorg detected; rebuild with --sync --force"

  -- `expected_tip == nullptr || at != *expected_tip`
  unfoldable pub differs : Bytes → Option Bytes → Bool
  differs at none = true
  differs at (some expected) = not (bytes_eq at expected)

  plan_from : ℕ → ℕ → Option Bytes → Bytes → Result Plan
  unfolding differs
  plan_from tip start expected at =
      if differs at expected
      then err reorg_detected
      else ok (if start == tip then up_to_date tip else from_to (start + 1) tip)

  pub resume : Node → ℕ → ℕ → Option Bytes → Result Plan
  unfolding plan_from
  resume node tip start expected = do
    hex ← node.block_hash_at start
    at ← hash_from_display command hex
    plan_from tip start expected at

  -- `count` is what the node answers for the height of its tip.
  pub plan : Node → Result ℕ → Bool → ℕ → Option Bytes → Result Plan
  unfolding resume
  plan node count incremental start expected = do
    tip ← count
    if incremental
        then (if ltb tip start then err reorg_detected else resume node tip start expected)
        else ok (from_to 0 tip)

  -- What a walk that resumes comes to: an error, nothing to do, or blocks to walk.
  pub data IsResumed (tip start : ℕ) (at : Bytes) (expected : Option Bytes)
      : Result Plan → Type 0 where
    below_start : tip < start → IsResumed tip start at expected (err reorg_detected)
    other_hash : expected ≢ some at → IsResumed tip start at expected (err reorg_detected)
    nothing_new :
        expected ≡ some at → start ≡ tip → IsResumed tip start at expected (ok (up_to_date tip))
    new_blocks :
        expected ≡ some at
        → start < tip
        → IsResumed tip start at expected (ok (from_to (start + 1) tip))

  differs-cases :
      (at : Bytes) (expected : Option Bytes)
      → ((differs at expected ≡ true) × (expected ≢ some at))
        ⊎ ((differs at expected ≡ false) × (expected ≡ some at))
  unfolding differs
  differs-cases at none = inl (refl, λ e. absurd (ground (arith, e)))
  differs-cases at (some e) = elim (Bool-cases (bytes_eq at e)) [
    | inl z ↦ inr (rw z refl, ap some (sym ((bytes_eq_iff at e).0 z)))
    | inr z ↦ inl (
      rw z refl,
      λ q.
          let same : bytes_eq at e ≡ true = (bytes_eq_iff at e).1 (sym (some-injective e at q)) in
          absurd (ground (arith, same, z)),
    )
  ]

  plan_from-IsResumed :
      (tip start : ℕ) (at : Bytes) (expected : Option Bytes)
      → start ≤ tip
      → IsResumed tip start at expected (plan_from tip start expected at)
  unfolding plan_from
  plan_from-IsResumed tip start at expected h = elim (differs-cases at expected) [
    | inl (z, n) ↦ rw z (other_hash n)
    | inr (z, e) ↦ rw z (elim (Bool-cases (start == tip)) [
      | inl y ↦ rw y (nothing_new e (ground arith))
      | inr y ↦ rw y (new_blocks e (ground arith))
    ])
  ]

  -- A walk that resumes at the height `start`, where the node's tip is at `tip` and its block at
  -- `start` has the hash `at`, of 32 bytes, is refused as a reorganisation only where the tip is below
  -- `start` or the expected hash is missing or another one. Else the expected hash is `at`, and there
  -- is nothing to do where `start` is the tip, or the walk goes from the height above `start` to the
  -- tip.
  pub plan-IsResumed :
      (node : Node) (tip start : ℕ) (at : Bytes) (expected : Option Bytes)
      → IsBytes at
      → length at ≡ 32
      → node.block_hash_at start ≡ ok (hash_to_display at)
      → IsResumed tip start at expected (plan node (ok tip) true start expected)
  unfolding plan resume
  plan-IsResumed node tip start at expected bytes size said = elim (Bool-cases (ltb tip start)) [
    | inl z ↦ rw z (below_start (ground arith))
    | inr z ↦
        rw (z, said, hash_from_display-hash_to_display command at bytes size)
          (plan_from-IsResumed tip start at expected (ground arith))
  ]
