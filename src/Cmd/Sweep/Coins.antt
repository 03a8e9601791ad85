-- ===== src/Cmd/Sweep/Coins.antt =====
-- src/cmd/sweep.cpp: which coins the loop of `sweep_one` takes.
-- The coins that are not immature, in their order.
use bitcoin_toolkit.Chain.Sign.Keeps.{Pairs}
use bitcoin_toolkit.Chain.Sign.{Utxo}
use bitcoin_toolkit.Cmd.Sweep.{utxo_from_rpc, collect, RpcUtxo, choose_coin, coinbase_mature}
use bitcoin_toolkit.Common.{
  ap, refl, ◌∙◌, append_assoc, bind_ok, append-nil, subst, sym, ok-injective, ◌%◌, err, ◌-◌, ltb,
  bytes_eq→eq, btk_error, bytes_eq, inr, not, inl, guard_ok, Bool-cases, ok, All, arith, ◌≤◌, ◌++◌,
  ◌^◌, true, ◌+◌, [], if◌then◌else◌, ◌<◌, ◌≡◌, ◌∷◌, Bytes, List, ℕ,
}

unfoldable pub mature_of : ℕ → List Utxo → List Utxo
mature_of tip [] = []
mature_of tip (u ∷ us) =
    let rest = mature_of tip us in if coinbase_mature u tip then u ∷ rest else rest

unfoldable pub total_of : List Utxo → ℕ
total_of [] = 0
total_of (u ∷ us) = u.amount + total_of us

-- An output that is not a coinbase's, or whose coinbase has 100 confirmations.
abbrev pub IsMature : ℕ → Utxo → Type 0
IsMature tip u = u.coinbase ≡ true → u.height + 99 ≤ tip

coinbase_mature-IsMature :
    (u : Utxo) (tip : ℕ) → tip < 2 ^ 32 → coinbase_mature u tip ≡ true → IsMature tip u
unfolding coinbase_mature
coinbase_mature-IsMature u tip h m c = ground arith

pub mature_of-IsMature :
    (tip : ℕ) (us : List Utxo) → tip < 2 ^ 32 → All (IsMature tip) (mature_of tip us)
unfolding mature_of
mature_of-IsMature tip [] h = tt
mature_of-IsMature tip (u ∷ us) h = elim (Bool-cases (coinbase_mature u tip)) [
  | inl z ↦ rw z (coinbase_mature-IsMature u tip h z, mature_of-IsMature tip us h)
  | inr z ↦ rw z (mature_of-IsMature tip us h)
]

-- A coin is added with its amount, or left out where it is immature.
abbrev added : ℕ → Utxo → List Utxo × ℕ → List Utxo × ℕ
added tip u (us, t) = if coinbase_mature u tip then (us ++ u ∷ [], t + u.amount) else (us, t)

-- `ground` decides each branch of the loop's body once the test of the scripts is out of the way.
mature_branch :
    (tip : ℕ) (us : List Utxo) (t : ℕ) (u : Utxo) (acc : List Utxo × ℕ)
    → t < 2 ^ 64
    → (if not (coinbase_mature u tip)
        then ok (us, t)
        else if ltb (2 ^ 64 - 1 - t) u.amount
        then err (btk_error "sweep" "insufficient funds")
        else ok (us ++ u ∷ [], (t + u.amount) % 2 ^ 64))
      ≡ ok acc
    → (acc ≡ added tip u (us, t)) × (acc.1 < 2 ^ 64)
mature_branch tip us t u acc h e = elim (Bool-cases (coinbase_mature u tip)) [
  | inr z ↦
      let same : (us, t) ≡ acc = ok-injective (rw z at e) in
      rw z (sym same, subst (λ (a : List Utxo × ℕ). a.1 < 2 ^ 64) same h)
  | inl z ↦
      let (fits, e1) =
        guard_ok (ltb (2 ^ 64 - 1 - t) u.amount) (btk_error "sweep" "insufficient funds") _
          (rw z at e) in
      let exact : (t + u.amount) % 2 ^ 64 ≡ t + u.amount = ground arith in
      let same : (us ++ u ∷ [], t + u.amount) ≡ acc = rw exact at (ok-injective e1) in
      rw z (sym same, subst (λ (a : List Utxo × ℕ). a.1 < 2 ^ 64) same (ground arith))
]

choose_coin-ok :
    (expect : Bytes) (tip : ℕ) (us : List Utxo) (t : ℕ) (u : Utxo) (acc : List Utxo × ℕ)
    → t < 2 ^ 64
    → choose_coin expect tip (us, t) u ≡ ok acc
    → (u.script_pubkey ≡ expect) × (acc ≡ added tip u (us, t)) × (acc.1 < 2 ^ 64)
unfolding choose_coin
choose_coin-ok expect tip us t u acc h e =
    let (same, e1) =
      guard_ok (not (bytes_eq u.script_pubkey expect)) (btk_error "sweep" "invalid rpc response") _
        e in
    let (chosen, small) = mature_branch tip us t u acc h e1 in
    (bytes_eq→eq u.script_pubkey expect (ground arith), chosen, small)

added-mature_of :
    (tip : ℕ) (u : Utxo) (us : List Utxo) (t : ℕ) (rest : List Utxo)
    → ((added tip u (us, t)).0 ++ mature_of tip rest ≡ us ++ mature_of tip (u ∷ rest))
      × ((added tip u (us, t)).1 + total_of (mature_of tip rest)
          ≡ t + total_of (mature_of tip (u ∷ rest)))
unfolding mature_of total_of
added-mature_of tip u us t rest = elim (Bool-cases (coinbase_mature u tip)) [
  | inl z ↦ rw z (append_assoc us (u ∷ []) (mature_of tip rest), omega arith)
  | inr z ↦ rw z (refl, refl)
]

-- The coins that the unspents of a scan stand for, and those that the loop took, behind the ones it
-- began with: the mature ones, with their total.
pub record IsCollected (expect : Bytes) (tip : ℕ) (begun : List Utxo × ℕ) (unspents : List RpcUtxo)
    (acc : List Utxo × ℕ) : Type 0 where
  pub coins : List Utxo
  pub read : Pairs (λ (ru : RpcUtxo) (u : Utxo). utxo_from_rpc ru ≡ ok u) unspents coins
  pub scripts : All (λ (u : Utxo). u.script_pubkey ≡ expect) coins
  pub taken : acc.0 ≡ begun.0 ++ mature_of tip coins
  pub total : acc.1 ≡ begun.1 + total_of (mature_of tip coins)
  pub fits : acc.1 < 2 ^ 64

pub collect-IsCollected :
    (expect : Bytes) (tip : ℕ) (begun : List Utxo × ℕ) (unspents : List RpcUtxo)
    (acc : List Utxo × ℕ)
    → begun.1 < 2 ^ 64
    → collect expect tip begun unspents ≡ ok acc
    → IsCollected expect tip begun unspents acc
unfolding collect mature_of total_of
collect-IsCollected expect tip begun [] acc h e =
    subst (IsCollected expect tip begun []) (ok-injective e) (record {
      coins = [];
      read = tt;
      scripts = tt;
      taken = sym (append-nil begun.0);
      total = omega arith;
      fits = h;
    })
collect-IsCollected expect tip begun (ru ∷ rest) acc h e =
    let (u, e1, r1) = bind_ok (utxo_from_rpc ru) _ e in
    let (mid, e2, r2) = bind_ok (choose_coin expect tip begun u) _ r1 in
    let (script, chosen, small) = choose_coin-ok expect tip begun.0 begun.1 u mid h e2 in
    let later : IsCollected expect tip mid rest acc =
      collect-IsCollected expect tip mid rest acc small r2 in
    record {
      coins = u ∷ later.coins;
      read = (e1, later.read);
      scripts = (script, later.scripts);
      taken =
          later.taken
          ∙ ap (λ (a : List Utxo × ℕ). a.0 ++ mature_of tip later.coins) chosen
          ∙ (added-mature_of tip u begun.0 begun.1 later.coins).0;
      total =
          later.total
          ∙ ap (λ (a : List Utxo × ℕ). a.1 + total_of (mature_of tip later.coins)) chosen
          ∙ (added-mature_of tip u begun.0 begun.1 later.coins).1;
      fits = later.fits;
    }
