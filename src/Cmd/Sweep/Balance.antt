-- ===== src/Cmd/Sweep/Balance.antt =====
-- src/cmd/sweep.cpp: what `sweep_one` spends, pays and sends.
use bitcoin_toolkit.Core.Pubkey.{Pubkey, pubkey_from_secret}
use bitcoin_toolkit.Chain.Sync.Display.{length-reverse_aux}
use bitcoin_toolkit.Chain.Sign.Keeps.{or_throw-ok, Spends, Pairs, SecpSizes}
use bitcoin_toolkit.Chain.Transaction.{serialize_tx, Transaction}
use bitcoin_toolkit.Core.Secp.{or_throw, Secp}
use bitcoin_toolkit.Cmd.Sweep.Coins.{
  mature_of-IsMature, collect-IsCollected, IsCollected, total_of, IsMature, mature_of,
}
use bitcoin_toolkit.Core.Hex.{hex_encode, hex_decode}
use bitcoin_toolkit.Chain.Script.{script_from_address, AddressCodec, dust_sats}
use bitcoin_toolkit.Chain.Sign.Estimate.{tx_vsize-sign_sweep, sign_sweep-Spends, HasTxid}
use bitcoin_toolkit.Chain.Sign.{sign_sweep, estimate_sweep_vsize, tx_vsize, Utxo}
use bitcoin_toolkit.Cmd.Sweep.{
  collect, ScanUtxoSet, sweep_one, coinbase_mature, pay_coins, fee_rate, Swept, tx_object, finish,
  Spend, SweepOptions, signed, rpc_bytes, rpc_txid, RpcUtxo, amounts, utxo_from_rpc,
}
use bitcoin_toolkit.Common.{
  refl, ◌>>=◌, Bool, All, inr, inl, Bool-cases, true, some, ◌∷◌, none, if◌then◌else◌, Option, [],
  List, err-ne-ok, ◌∙◌, err, ap, sym, Result, ◌==◌, not, ok-injective, leb, subst, ◌%◌, btk_error,
  zero, guard_ok, suc, bind_ok, ◌≤◌, arith, length, ◌<◌, ◌+◌, false, ◌*◌, ◌/◌, ok, ◌-◌, ◌≡◌, ◌^◌,
  Bytes, ◌&&◌, ltb, ℕ,
}
use native.Mathlib.Nat.{le-div_iff_mul-le, mul-le-mul_right}

-- No product wraps behind the guard.
vsize_fee :
    (vsize satvb : ℕ)
    → (ltb 0 satvb && ltb ((2 ^ 64 - 1) / satvb) vsize) ≡ false
    → vsize * satvb < 2 ^ 64
vsize_fee vsize zero h = omega arith
vsize_fee vsize (suc s) h =
    let within : vsize ≤ (2 ^ 64 - 1) / suc s = ground arith in
    let product : vsize * suc s ≤ 2 ^ 64 - 1 =
      (le-div_iff_mul-le {k = suc s} {x = vsize} {y = 2 ^ 64 - 1} (omega arith)).0 within in
    omega arith

amounts-ok :
    (dest : Bytes) (total vsize satvb : ℕ) (r : ℕ × ℕ)
    → amounts dest total vsize satvb ≡ ok r
    → (r.1 ≡ vsize * satvb) × (r.0 + r.1 ≡ total) × (dust_sats dest ≤ r.0) × (vsize ≤ 100000)
unfolding amounts
amounts-ok dest total vsize satvb r e =
    let (small, e1) = guard_ok (ltb 100000 vsize) (btk_error "sweep" "transaction too large") _ e in
    let (fits, e2) =
      guard_ok (ltb 0 satvb && ltb ((2 ^ 64 - 1) / satvb) vsize)
        (btk_error "sweep" "insufficient funds") _ e1 in
    let fee : ℕ = (vsize * satvb) % 2 ^ 64 in
    let exact : fee ≡ vsize * satvb = omega (arith, vsize_fee vsize satvb fits) in
    let (enough, e3) = guard_ok (leb total fee) (btk_error "sweep" "insufficient funds") _ e2 in
    let (dusty, e4) =
      guard_ok (ltb (total - fee) (dust_sats dest)) (btk_error "sweep" "insufficient funds") _ e3 in
    subst
      (λ (x : ℕ × ℕ).
        (x.1 ≡ vsize * satvb) × (x.0 + x.1 ≡ total) × (dust_sats dest ≤ x.0) × (vsize ≤ 100000))
      (ok-injective e4) (exact, ground arith, ground arith, ground arith)

rpc_txid-length : (raw txid : Bytes) → rpc_txid raw ≡ ok txid → length txid ≡ 32
unfolding rpc_txid
rpc_txid-length raw txid h =
    let (size, e) =
      guard_ok (not (length raw == 32)) (btk_error "sweep" "invalid rpc response") _ h in
    sym (ap length (ok-injective e)) ∙ ground (arith, length-reverse_aux raw [])

utxo_from_rpc-HasTxid : (ru : RpcUtxo) (u : Utxo) → utxo_from_rpc ru ≡ ok u → HasTxid u
unfolding utxo_from_rpc
utxo_from_rpc-HasTxid ru u e =
    let (raw, e1, r1) = bind_ok (rpc_bytes (hex_decode ru.txid)) _ e in
    let (txid, e2, r2) = bind_ok (rpc_txid raw) _ r1 in
    let (script, e3, r3) = bind_ok (rpc_bytes (hex_decode ru.script_hex)) _ r2 in
    subst HasTxid (ok-injective r3) (rpc_txid-length raw txid e2)

mature_of-HasTxid :
    (tip : ℕ) (rus : List RpcUtxo) (us : List Utxo)
    → Pairs (λ (ru : RpcUtxo) (u : Utxo). utxo_from_rpc ru ≡ ok u) rus us
    → All HasTxid (mature_of tip us)
unfolding mature_of
mature_of-HasTxid tip [] [] h = tt
mature_of-HasTxid tip [] (u ∷ us) h = elim h [ ]
mature_of-HasTxid tip (ru ∷ rus) [] h = elim h [ ]
mature_of-HasTxid tip (ru ∷ rus) (u ∷ us) h = elim (Bool-cases (coinbase_mature u tip)) [
  | inl z ↦ rw z (utxo_from_rpc-HasTxid ru u h.0, mature_of-HasTxid tip rus us h.1)
  | inr z ↦ rw z (mature_of-HasTxid tip rus us h.1)
]

signed-ok : (r : Result Transaction) (tx : Transaction) → signed r ≡ ok tx → r ≡ ok tx
unfolding signed
signed-ok (ok t) tx e = e
signed-ok (err (btk_error c what)) tx e = absurd (err-ne-ok e)

module _ (C : AddressCodec) (S : Secp) (sizes : SecpSizes S)
    (hash256 hash160 sha256 : Bytes → Bytes) (tagged_hash : Bytes → Bytes → Bytes)
    (opts : SweepOptions) (sp : Spend) (dest : Bytes) where
  -- The amounts that are shown and the transaction that goes with them, for the coins and their total.
  pub record IsPaid (utxos : List Utxo) (total : ℕ) (est : Option ℕ) (r : Swept) : Type 0 where
    pub spends : Pairs Spends utxos r.tx.vin
    pub pays : r.tx.vout ≡ record { value = r.shown.sats; script_pubkey = dest } ∷ []
    pub balance : r.shown.sats + r.shown.fee ≡ total
    pub not_dust : dust_sats dest ≤ r.shown.sats
    pub satvb : ℕ
    pub rate : fee_rate opts.fee_rate est ≡ ok satvb
    pub pays_rate : tx_vsize r.tx * satvb ≤ r.shown.fee
    pub not_large : tx_vsize r.tx ≤ 100000
    pub sent : r.sent ≡ (if opts.dry_run then none else some (hex_encode (serialize_tx r.tx true)))

  finish-shown :
      (reply : Result Bytes) (tx : Transaction) (amount : ℕ × ℕ) (r : Swept)
      → finish C S hash256 hash160 sha256 tagged_hash opts sp reply tx amount ≡ ok r
      → (r.tx ≡ tx)
        × (r.shown.sats ≡ amount.0)
        × (r.shown.fee ≡ amount.1)
        × (r.sent ≡ (if opts.dry_run then none else some (hex_encode (serialize_tx tx true))))
  unfolding finish tx_object
  finish-shown reply tx amount r e = from opts.dry_run refl e
    where
      hex : Option Bytes
      hex = some (hex_encode (serialize_tx tx true))

      Shown : Swept → Type 0
      Shown x =
          (x.tx ≡ tx)
          × (x.shown.sats ≡ amount.0)
          × (x.shown.fee ≡ amount.1)
          × (x.sent ≡ (if opts.dry_run then none else hex))

      from :
          (dry : Bool)
          → opts.dry_run ≡ dry
          → (if dry
              then ok (record {
                shown = tx_object C S hash256 hash160 sha256 tagged_hash opts sp tx amount false;
                tx = tx;
                sent = none;
              })
              else (do
                id ← reply
                ok (record {
                  shown = tx_object C S hash256 hash160 sha256 tagged_hash opts sp tx amount true;
                  tx = tx;
                  sent = hex;
                })))
            ≡ ok r
          → Shown r
      from true p q =
          subst Shown (ok-injective q)
            (refl, refl, refl, sym (ap (λ (b : Bool). if b then none else hex) p))
      from false p q =
          let (id, q1, q2) = bind_ok reply _ q in
          subst Shown (ok-injective q2)
            (refl, refl, refl, sym (ap (λ (b : Bool). if b then none else hex) p))

  paid :
      (utxos : List Utxo) (total height : ℕ) (est : Option ℕ) (reply : Result Bytes) (r : Swept)
      (satvb vsize : ℕ) (pk : Pubkey) (amount : ℕ × ℕ) (tx : Transaction)
      → All HasTxid utxos
      → fee_rate opts.fee_rate est ≡ ok satvb
      → pubkey_from_secret S sp.key.secret sp.key.compressed sp.key.network ≡ ok pk
      → estimate_sweep_vsize sp.style pk (length utxos) dest ≡ ok vsize
      → amounts dest total vsize satvb ≡ ok amount
      → sign_sweep S hash256 sha256 tagged_hash sp.key sp.style utxos dest amount.0 height ≡ ok tx
      → finish C S hash256 hash160 sha256 tagged_hash opts sp reply tx amount ≡ ok r
      → IsPaid utxos total est r
  paid utxos total height est reply r satvb vsize pk amount tx ids e1 e2 e3 e4 made e6 =
      let (same, sats, fee, sent) = finish-shown reply tx amount r e6 in
      let (spends, pays, version, lock, flags) =
        sign_sweep-Spends S sizes hash256 sha256 tagged_hash sp.key sp.style utxos dest amount.0
          height tx made in
      let (v, est_v, small) =
        tx_vsize-sign_sweep S sizes hash256 sha256 tagged_hash sp.key sp.style utxos dest amount.0
          height pk tx ids e2 made in
      let (fee_eq, sum, dust, limit) = amounts-ok dest total vsize satvb amount e4 in
      let v_eq : v ≡ vsize = ok-injective (sym est_v ∙ e3) in
      let bounded : tx_vsize r.tx ≤ vsize = omega (arith, ap tx_vsize same) in
      record {
        spends = subst (λ (t : Transaction). Pairs Spends utxos t.vin) (sym same) spends;
        pays =
            ap (λ (t : Transaction). t.vout) same
            ∙ pays
            ∙ ap (λ (n : ℕ). record { value = n; script_pubkey = dest } ∷ []) (sym sats);
        balance = omega arith;
        not_dust = omega arith;
        satvb = satvb;
        rate = e1;
        pays_rate = omega (arith, mul-le-mul_right {m = tx_vsize r.tx} {n = vsize} satvb bounded);
        not_large = omega arith;
        sent =
            sent
            ∙ ap
                (λ (t : Transaction).
                  if opts.dry_run then none else some (hex_encode (serialize_tx t true)))
                (sym same);
      }

  pay_coins-IsPaid :
      (utxos : List Utxo) (total height : ℕ) (est : Option ℕ) (reply : Result Bytes) (r : Swept)
      → All HasTxid utxos
      → pay_coins C S hash256 hash160 sha256 tagged_hash opts sp dest height est reply
          (utxos, total)
        ≡ ok r
      → IsPaid utxos total est r
  unfolding pay_coins
  pay_coins-IsPaid utxos total height est reply r ids e =
      let (coins, e0) = guard_ok (length utxos == 0) (btk_error "sweep" "no unspent outputs") _ e in
      let (satvb, e1, r1) = bind_ok (fee_rate opts.fee_rate est) _ e0 in
      let (pk, e2, r2) =
        bind_ok (pubkey_from_secret S sp.key.secret sp.key.compressed sp.key.network) _ r1 in
      let (vsize, e3, r3) = bind_ok (estimate_sweep_vsize sp.style pk (length utxos) dest) _ r2 in
      let (amount, e4, r4) = bind_ok (amounts dest total vsize satvb) _ r3 in
      let (tx, e5, r5) =
        bind_ok
          (signed
            (sign_sweep S hash256 sha256 tagged_hash sp.key sp.style utxos dest amount.0 height))
          _ r4 in
      paid utxos total height est reply r satvb vsize pk amount tx ids e1 e2 e3 e4
        (signed-ok _ tx e5) r5

  -- Where `sweep_one` returns: every unspent of the scan is an output of the address, and the coins
  -- spent are all the mature ones, in order; they are worth exactly the amount paid to the destination
  -- plus the fee, with no sum that wraps; the amount is not below the destination's dust limit, and
  -- the fee is at least the rate times the transaction's vsize, which is at most 100000; the node is
  -- sent the transaction with its witness data, or nothing in a dry run. The sizes of signatures and
  -- keys are those that libsecp256k1 promises, and the height is a uint32.
  pub sweep_one-IsPaid :
      (scan : ScanUtxoSet) (est : Option ℕ) (reply : Result Bytes) (r : Swept)
      → scan.height < 2 ^ 32
      → sweep_one C S hash256 hash160 sha256 tagged_hash opts sp dest scan est reply ≡ ok r
      → (expect : Bytes) × (coins : List Utxo) × (script_from_address C sp.from_address
          ≡ some expect)
        × Pairs (λ (ru : RpcUtxo) (u : Utxo). utxo_from_rpc ru ≡ ok u) scan.unspents coins
        × All (λ (u : Utxo). u.script_pubkey ≡ expect) coins
        × All (IsMature scan.height) (mature_of scan.height coins)
        × IsPaid (mature_of scan.height coins) (total_of (mature_of scan.height coins)) est r
  unfolding sweep_one
  sweep_one-IsPaid scan est reply r h e =
      let (expect, e1, r1) =
        bind_ok
          (or_throw (btk_error "sweep" "not a bitcoin address")
            (script_from_address C sp.from_address))
          _ e in
      let (success, e2) = guard_ok (not scan.success) (btk_error "sweep" "utxo scan failed") _ r1 in
      let (acc, e3, r3) = bind_ok (collect expect scan.height ([], 0) scan.unspents) _ e2 in
      let c : IsCollected expect scan.height ([], 0) scan.unspents acc =
        collect-IsCollected expect scan.height ([], 0) scan.unspents acc (omega arith) e3 in
      let total : acc.1 ≡ total_of (mature_of scan.height c.coins) = omega (arith, c.total) in
      (
        expect,
        c.coins,
        or_throw-ok _ _ expect e1,
        c.read,
        c.scripts,
        mature_of-IsMature scan.height c.coins h,
        pay_coins-IsPaid _ _ scan.height est reply r
            (mature_of-HasTxid scan.height scan.unspents c.coins c.read)
            (subst
              (λ (a : List Utxo × ℕ).
                pay_coins C S hash256 hash160 sha256 tagged_hash opts sp dest scan.height est reply
                  a
                ≡ ok r)
              (λ i. (c.taken i, total i)) r3),
      )
