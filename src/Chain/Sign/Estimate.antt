-- ===== src/Chain/Sign/Estimate.antt =====
-- src/chain/sign.cpp: what a signed sweep spends and pays, and that its size is at most the estimate.
use bitcoin_toolkit.LittleEndian.{length-write_le64}
use bitcoin_toolkit.Chain.Sign.Sizes.{
  length-serialize_tx_le, length-write_bytes_mono, length-write_in,
}
use bitcoin_toolkit.Chain.CompactSize.{write_compact_size}
use bitcoin_toolkit.Core.Privkey.{Privkey}
use bitcoin_toolkit.Chain.Transaction.{
  serialize_tx, write_out, write_bytes, write_in, write_each, write_counted, write_witness,
  Transaction, TxIn,
}
use bitcoin_toolkit.Chain.Sign.Keeps.{
  pubkey_from_secret-length, set_in-Pairs, sign_in-Fits, Pairs, Fits, Spends, SecpSizes,
}
use bitcoin_toolkit.Common.{
  length-append, Bool, All, ap, append-nil, true, sym, btk_error, guard_ok, ◌==◌, ◌<◌, ◌∙◌, ◌+◌,
  refl, zero, arith, bind_ok, false, get_or, ltb, ok-injective, suc, subst, ok, replicate, map, [],
  ℕ, ◌++◌, ◌∷◌, List, Bytes, ◌≤◌, ◌≡◌, length,
}
use bitcoin_toolkit.Core.Secp.{Secp}
use bitcoin_toolkit.Core.Pubkey.{pubkey_from_secret, Pubkey}
use bitcoin_toolkit.Chain.Sign.{
  tx_vsize, fill_dummy, estimate_sweep_vsize, is_witness_style, make_skeleton, set_in, sign_all,
  sign_sweep, sign_in, no_utxo, k_schnorr, sign_loop, spend_of, push_data, k_sequence_rbf,
  two_pushes, no_in, dummy_in, dummy_ins, dummy_sig, Utxo,
}
use bitcoin_toolkit.Core.Address.{AddressStyle, p2pkh, p2wpkh, p2tr}

-- An array of 32 bytes.
abbrev pub HasTxid : Utxo → Type 0
HasTxid u = length u.txid_internal ≡ 32

-- The input that stands for a signed one.
dummy_of : AddressStyle → Pubkey → TxIn
unfolding dummy_sig
dummy_of p2pkh pk = record no_in {
  sequence = k_sequence_rbf;
  script_sig = (73 ∷ dummy_sig) ++ (length pk.serialized ∷ pk.serialized);
}
dummy_of p2wpkh pk = record no_in {
  sequence = k_sequence_rbf;
  witness = dummy_sig ∷ pk.serialized ∷ [];
}
dummy_of p2tr pk = record no_in {
  sequence = k_sequence_rbf;
  witness = replicate k_schnorr 0x00 ∷ [];
}

abbrev FitsPush : AddressStyle → Pubkey → Type 0
FitsPush p2pkh pk = length pk.serialized ≤ 75
FitsPush _ pk = Unit

dummy_ins-replicate :
    (style : AddressStyle) (pk : Pubkey) (n : ℕ)
    → FitsPush style pk
    → dummy_ins style pk (map spend_of (replicate n no_utxo)) ≡ ok (replicate n (dummy_of style pk))
unfolding dummy_ins dummy_in two_pushes push_data dummy_of dummy_sig spend_of
dummy_ins-replicate style pk zero h = refl
dummy_ins-replicate p2pkh pk (suc n) h =
    let small : ltb 75 (length pk.serialized) ≡ false = ground arith in
    rw (small, dummy_ins-replicate p2pkh pk n h) refl
dummy_ins-replicate p2wpkh pk (suc n) h = rw (dummy_ins-replicate p2wpkh pk n h) refl
dummy_ins-replicate p2tr pk (suc n) h = rw (dummy_ins-replicate p2tr pk n h) refl

-- An input that spends the coin, signed or to be signed.
abbrev Goes : AddressStyle → Pubkey → Utxo → TxIn → Type 0
Goes style pk u x = Spends u x × Fits style pk x

blank-Fits : (style : AddressStyle) (pk : Pubkey) (u : Utxo) → Fits style pk (spend_of u)
unfolding Fits spend_of write_witness write_counted write_each write_compact_size
blank-Fits p2pkh pk u = omega arith
blank-Fits p2wpkh pk u = (refl, omega arith)
blank-Fits p2tr pk u = (refl, omega arith)

skeleton-Goes :
    (style : AddressStyle) (pk : Pubkey) (us : List Utxo)
    → Pairs (Goes style pk) us (map spend_of us)
unfolding spend_of
skeleton-Goes style pk [] = tt
skeleton-Goes style pk (u ∷ us) =
    (((refl, refl, refl), blank-Fits style pk u), skeleton-Goes style pk us)

-- An input that fits takes at most as many bytes as the dummy.
write_in-le-dummy :
    (style : AddressStyle) (pk : Pubkey) (x : TxIn)
    → length x.prev_txid ≡ 32
    → Fits style pk x
    → length (write_in x) ≤ length (write_in (dummy_of style pk))
unfolding Fits dummy_of dummy_sig
write_in-le-dummy p2pkh pk x h f = omega (
  arith,
  length-write_in x h,
  length-write_in (dummy_of p2pkh pk) refl,
  length-write_bytes_mono x.script_sig (dummy_of p2pkh pk).script_sig (omega arith),
)
write_in-le-dummy p2wpkh pk x h f =
    rw (length-write_in x h, length-write_in (dummy_of p2wpkh pk) refl, f.0) (omega arith)
write_in-le-dummy p2tr pk x h f =
    rw (length-write_in x h, length-write_in (dummy_of p2tr pk) refl, f.0) (omega arith)

write_witness-le-dummy :
    (style : AddressStyle) (pk : Pubkey) (x : TxIn)
    → is_witness_style style ≡ true
    → Fits style pk x
    → length (write_witness x) ≤ length (write_witness (dummy_of style pk))
unfolding Fits dummy_of dummy_sig is_witness_style write_witness write_counted write_each
    write_bytes write_compact_size
write_witness-le-dummy p2pkh pk x h f = absurd (ground arith)
write_witness-le-dummy p2wpkh pk x h f =
    omega (arith, f.1, ap length (append-nil (write_bytes pk.serialized)))
write_witness-le-dummy p2tr pk x h f = omega arith

module _ (S : Secp) (sizes : SecpSizes S) (hash256 sha256 : Bytes → Bytes)
    (tagged_hash : Bytes → Bytes → Bytes) where
  module _ (key : Privkey) (style : AddressStyle) (utxos : List Utxo) (pk : Pubkey) where
    sign_loop-Goes :
        (left i : ℕ) (tx tx' : Transaction)
        → sign_loop S hash256 sha256 tagged_hash key pk utxos style left i tx ≡ ok tx'
        → Pairs (Goes style pk) utxos tx.vin
        → Pairs (Goes style pk) utxos tx'.vin × (tx' ≡ record tx { vin = tx'.vin })
    unfolding sign_loop
    sign_loop-Goes zero i tx tx' e h =
        subst
          (λ (t : Transaction). Pairs (Goes style pk) utxos t.vin × (t ≡ record tx { vin = t.vin }))
          (ok-injective e) (h, refl)
    sign_loop-Goes (suc left) i tx tx' e h =
        let a : TxIn = get_or tx.vin i no_in in
        let (x, e1, e2) =
          bind_ok (sign_in S hash256 sha256 tagged_hash key pk utxos style tx i a) _ e in
        let (fits, same) =
          sign_in-Fits S sizes hash256 sha256 tagged_hash key pk utxos style tx i a x e1 in
        sign_loop-Goes left (i + 1) (record tx { vin = set_in tx.vin i x }) tx' e2
          (set_in-Pairs (Goes style pk) utxos tx.vin i x
            (λ u g. ((same.0 ∙ g.0.0, same.1 ∙ g.0.1, same.2 ∙ g.0.2), fits)) h)

    -- What sign_sweep returns: it spends the coins in order and pays the destination.
    sign_sweep-Goes :
        (dest : Bytes) (sats locktime : ℕ) (tx : Transaction)
        → pubkey_from_secret S key.secret key.compressed key.network ≡ ok pk
        → sign_sweep S hash256 sha256 tagged_hash key style utxos dest sats locktime ≡ ok tx
        → (0 < length utxos)
          × Pairs (Goes style pk) utxos tx.vin
          × (tx ≡ record (make_skeleton utxos dest sats locktime (is_witness_style style)) {
            vin = tx.vin;
          })
    unfolding sign_sweep sign_all make_skeleton
    sign_sweep-Goes dest sats locktime tx found e =
        let (some_coin, e1) =
          guard_ok (length utxos == 0) (btk_error "" "no unspent outputs") _ e in
        let (pk', e2, e3) =
          bind_ok (pubkey_from_secret S key.secret key.compressed key.network) _ e1 in
        let same : pk' ≡ pk = ok-injective (sym e2 ∙ found) in
        let (goes, rest) =
          sign_loop-Goes _ 0 _ tx
            (subst
              (λ (p : Pubkey).
                sign_all S hash256 sha256 tagged_hash key style utxos
                  (make_skeleton utxos dest sats locktime (is_witness_style style)) p
                ≡ ok tx)
              same e3)
            (skeleton-Goes style pk utxos) in
        (ground arith, goes, rest)

  each_fits :
      (style : AddressStyle) (pk : Pubkey) (us : List Utxo) (xs : List TxIn)
      → All HasTxid us
      → Pairs (Goes style pk) us xs
      → (length xs ≡ length us)
        × All (λ (x : TxIn). length (write_in x) ≤ length (write_in (dummy_of style pk))) xs
        × (is_witness_style style ≡ true
            → All
                (λ (x : TxIn).
                  length (write_witness x) ≤ length (write_witness (dummy_of style pk)))
                xs)
  each_fits style pk [] [] h g = (refl, tt, λ z. tt)
  each_fits style pk [] (x ∷ xs) h g = elim g [ ]
  each_fits style pk (u ∷ us) [] h g = elim g [ ]
  each_fits style pk (u ∷ us) (x ∷ xs) h g =
      let (size, ins, wits) = each_fits style pk us xs h.1 g.1 in
      let (spends, fits) = g.0 in
      (
        ap suc size,
        (write_in-le-dummy style pk x (ap length spends.0 ∙ h.0) fits, ins),
        λ z. (write_witness-le-dummy style pk x z fits, wits z),
      )

  pushes : (style : AddressStyle) (pk : Pubkey) → length pk.serialized ≤ 65 → FitsPush style pk
  pushes p2pkh pk h = omega arith
  pushes p2wpkh pk h = tt
  pushes p2tr pk h = tt

  out_length :
      (dest : Bytes) (a b : ℕ)
      → length (write_counted write_out (record { value = a; script_pubkey = dest } ∷ []))
        ≡ length (write_counted write_out (record { value = b; script_pubkey = dest } ∷ []))
  unfolding write_counted write_each write_out
  out_length dest a b = simp length-append (omega (arith, length-write_le64 a, length-write_le64 b))

  -- The transaction that the estimate is the size of.
  big : AddressStyle → Pubkey → ℕ → Bytes → Transaction
  unfolding make_skeleton
  big style pk n dest = record (make_skeleton [] dest 0 0 (is_witness_style style)) {
    vin = replicate n (dummy_of style pk);
  }

  estimate-big :
      (style : AddressStyle) (pk : Pubkey) (n : ℕ) (dest : Bytes)
      → 0 < n
      → FitsPush style pk
      → estimate_sweep_vsize style pk n dest ≡ ok (tx_vsize (big style pk n dest))
  unfolding estimate_sweep_vsize fill_dummy make_skeleton big
  estimate-big style pk n dest h f =
      let some_in : (n == 0) ≡ false = ground arith in
      rw (some_in, dummy_ins-replicate style pk n f) refl

  vsize_le :
      (tx t : Transaction)
      → tx.has_witness ≡ t.has_witness
      → ((wit : Bool) → length (serialize_tx tx wit) ≤ length (serialize_tx t wit))
      → tx_vsize tx ≤ tx_vsize t
  unfolding tx_vsize
  vsize_le tx t same le = ground (arith, le true, le false)

  -- The vsize of what `sign_sweep` returns is at most `estimate_sweep_vsize` of the style, the key, the
  -- number of coins and the destination, which returns it; a DER signature has at most 72 bytes, a
  -- Schnorr signature 64, and each coin has a txid of 32 bytes.
  pub tx_vsize-sign_sweep :
      (key : Privkey) (style : AddressStyle) (utxos : List Utxo) (dest : Bytes) (sats locktime : ℕ)
      (pk : Pubkey) (tx : Transaction)
      → All HasTxid utxos
      → pubkey_from_secret S key.secret key.compressed key.network ≡ ok pk
      → sign_sweep S hash256 sha256 tagged_hash key style utxos dest sats locktime ≡ ok tx
      → (v : ℕ) × (estimate_sweep_vsize style pk (length utxos) dest ≡ ok v) × (tx_vsize tx ≤ v)
  unfolding make_skeleton big
  tx_vsize-sign_sweep key style utxos dest sats locktime pk tx ids found e =
      let (coins, goes, same) = sign_sweep-Goes key style utxos pk dest sats locktime tx found e in
      let (size, ins, wits) = each_fits style pk utxos tx.vin ids goes in
      let n : ℕ = length utxos in
      let fit : FitsPush style pk =
        pushes style pk
          (pubkey_from_secret-length S sizes key.secret key.compressed key.network pk found) in
      let flags : tx.has_witness ≡ is_witness_style style =
        ap (λ (t : Transaction). t.has_witness) same in
      (
        tx_vsize (big style pk n dest),
        estimate-big style pk n dest coins fit,
        vsize_le tx (big style pk n dest) flags (λ wit.
            length-serialize_tx_le tx (big style pk n dest) (dummy_of style pk) wit flags
              (ap (λ (m : ℕ). replicate m (dummy_of style pk)) (sym size))
              (ap (λ (t : Transaction). length (write_counted write_out t.vout)) same
                ∙ out_length dest sats 0)
              ins (λ z. wits (sym flags ∙ z))),
      )

  spent :
      (style : AddressStyle) (pk : Pubkey) (us : List Utxo) (xs : List TxIn)
      → Pairs (Goes style pk) us xs
      → Pairs Spends us xs
  spent style pk [] [] g = tt
  spent style pk [] (x ∷ xs) g = elim g [ ]
  spent style pk (u ∷ us) [] g = elim g [ ]
  spent style pk (u ∷ us) (x ∷ xs) g = (g.0.0, spent style pk us xs g.1)

  -- What `sign_sweep` returns spends exactly the coins given, in their order, each with the sequence
  -- 0xfffffffd, and has one output, the amount to the destination's script; its version is 2, its
  -- lock time the one given, and it has witness data unless the style is p2pkh.
  pub sign_sweep-Spends :
      (key : Privkey) (style : AddressStyle) (utxos : List Utxo) (dest : Bytes) (sats locktime : ℕ)
      (tx : Transaction)
      → sign_sweep S hash256 sha256 tagged_hash key style utxos dest sats locktime ≡ ok tx
      → Pairs Spends utxos tx.vin
        × (tx.vout ≡ record { value = sats; script_pubkey = dest } ∷ [])
        × (tx.version ≡ 2)
        × (tx.locktime ≡ locktime)
        × (tx.has_witness ≡ is_witness_style style)
  unfolding sign_sweep make_skeleton
  sign_sweep-Spends key style utxos dest sats locktime tx e =
      let (z, e1) = guard_ok (length utxos == 0) (btk_error "" "no unspent outputs") _ e in
      let (pk, found, e2) =
        bind_ok (pubkey_from_secret S key.secret key.compressed key.network) _ e1 in
      let (coins, goes, same) = sign_sweep-Goes key style utxos pk dest sats locktime tx found e in
      (
        spent style pk utxos tx.vin goes,
        ap (λ (t : Transaction). t.vout) same,
        ap (λ (t : Transaction). t.version) same,
        ap (λ (t : Transaction). t.locktime) same,
        ap (λ (t : Transaction). t.has_witness) same,
      )
