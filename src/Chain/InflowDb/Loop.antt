-- ===== src/Chain/InflowDb/Loop.antt =====
-- The loops of `apply` follow the specification.
use bitcoin_toolkit.Common.{
  sym, subst, Bool-cases, bytes_eq, inl, ◌%◌, if◌then◌else◌, inr, none, ◌+◌, ◌^◌, Option-cases,
  some, bytes_eq_iff, ◌<◌, ok, Result, arith, refl, Option, ap, ◌∙◌, [], ◌≡◌, ◌∷◌, Bytes, ℕ, List,
}
use bitcoin_toolkit.Chain.HashMap.{
  HashMap, Order, find, assign, find-assign, IsUnique, assign-IsUnique,
}
use bitcoin_toolkit.Chain.LevelDb.{LevelDb}
use bitcoin_toolkit.Chain.BalanceDb.{Credit, TxEffects}
use bitcoin_toolkit.Chain.InflowDb.{
  value_or_zero, InflowRow, received, get_row, current, add_amount, by_addr, pay_all, apply_txs,
}
use bitcoin_toolkit.Chain.InflowDb.Codec.{IsValidRow}
use bitcoin_toolkit.Chain.InflowDb.Inflows.{
  received-pay, Inflows, payment, pay, apply_block, received-IsValidRow,
}

-- The map of sums holds the payments.
find-by_addr :
    (cs : List Credit) (m : HashMap ℕ) (a : Bytes) → find a (by_addr cs m) ≡ payment cs a (find a m)
unfolding by_addr payment add_amount
find-by_addr [] m a = refl
find-by_addr (c ∷ cs) m a =
    find-by_addr cs _ a
    ∙ ap (λ (t : Option ℕ). payment cs a t)
        (ground (
          arith,
          bytes_eq_iff c.address a,
          find-assign c.address a ((value_or_zero (find c.address m) + c.amount) % 2 ^ 64) m,
        ))

by_addr-IsUnique : (cs : List Credit) (m : HashMap ℕ) → IsUnique m → IsUnique (by_addr cs m)
unfolding by_addr add_amount
by_addr-IsUnique [] m u = u
by_addr-IsUnique (c ∷ cs) m u = by_addr-IsUnique cs _ (
    ground (
      arith,
      u,
      assign-IsUnique c.address ((value_or_zero (find c.address m) + c.amount) % 2 ^ 64) m u,
    ))

abbrev pub row_or : Option InflowRow → Result InflowRow → Result InflowRow
row_or (some row) r = ok row
row_or none r = r

module _ (L : LevelDb) (db : L.Db) where
  -- The pending rows over the database's.
  pub record Agrees (rows : HashMap InflowRow) (l : Inflows) : Type 0 where
    pub seen : (a : Bytes) → row_or (find a rows) (get_row L db a) ≡ ok (l a)
    pub unique : IsUnique rows
    pub valid : (a : Bytes) → IsValidRow (l a)

  current_ok :
      (rows : HashMap InflowRow) (l : Inflows) (a : Bytes)
      → Agrees rows l
      → (rows' : HashMap InflowRow) × (current L db rows a ≡ ok (l a, rows')) × Agrees rows' l
  unfolding current
  current_ok rows l a h = elim (Option-cases (find a rows)) [
    | inr (row, e) ↦ (rows, ground (arith, e, h.seen a), h)
    | inl e ↦ (
      assign a (l a) rows,
      ground (arith, e, h.seen a),
      record {
        seen = λ j.
            ground (arith, e, find-assign a j (l a) rows, bytes_eq_iff a j, h.seen a, h.seen j);
        unique = assign-IsUnique a (l a) rows h.unique;
        valid = h.valid;
      },
    )
  ]

  -- The inflows after the payments of `m`.
  abbrev paid : ℕ → HashMap ℕ → Inflows → Inflows
  paid time m l a = pay time (find a m) (l a)

  assign-Agrees :
      (rows : HashMap InflowRow) (l : Inflows) (time v : ℕ) (a : Bytes)
      → time < 2 ^ 32
      → Agrees rows l
      → Agrees
          (assign a (received time v (l a)) rows)
          (λ j. if bytes_eq a j then received time v (l j) else l j)
  assign-Agrees rows l time v a t h = record {
    seen = λ j.
        ground (arith, find-assign a j (received time v (l a)) rows, bytes_eq_iff a j, h.seen j);
    unique = assign-IsUnique a (received time v (l a)) rows h.unique;
    valid = λ j. elim (Bool-cases (bytes_eq a j)) [
      | inl e ↦ rw e (received-IsValidRow time v (l j) t (h.valid j))
      | inr e ↦ rw e (h.valid j)
    ];
  }

  first_paid :
      (l : Inflows) (time v : ℕ) (a : Bytes) (m : HashMap ℕ)
      → find a m ≡ none
      → (j : Bytes)
      → paid time m (λ j. if bytes_eq a j then received time v (l j) else l j) j
        ≡ paid time ((a, v) ∷ m) l j
  unfolding find
  first_paid l time v a m fresh j = elim (Bool-cases (bytes_eq a j)) [
    | inl e ↦
        rw (e, ap (λ (k : Bytes). find k m) (sym ((bytes_eq_iff a j).0 e)) ∙ fresh)
          (received-pay time v (l j))
    | inr e ↦ rw e refl
  ]

  pay_all_ok :
      (rows : HashMap InflowRow) (l : Inflows) (time : ℕ) (m : HashMap ℕ)
      → time < 2 ^ 32
      → IsUnique m
      → Agrees rows l
      → (rows' : HashMap InflowRow) × (pay_all L db time rows m ≡ ok rows')
        × Agrees rows' (paid time m l)
  unfolding pay_all find
  pay_all_ok rows l time [] t u h = (rows, refl, h)
  pay_all_ok rows l time ((a, v) ∷ m) t (fresh, u) h =
      let (rows1, e1, h1) = current_ok rows l a h in
      let l1 = λ (j : Bytes). if bytes_eq a j then received time v (l j) else l j in
      let (rows2, e2, h2) =
        pay_all_ok (assign a (received time v (l a)) rows1) l1 time m t u
          (assign-Agrees rows1 l time v a t h1) in
      (rows2, rw e1 e2, subst (Agrees rows2) (λ i j. first_paid l time v a m fresh j i) h2)

  -- The transactions of a block, over any order in which the map of sums is visited.
  pub apply_txs_ok :
      (o : Order ℕ) (rows : HashMap InflowRow) (l : Inflows) (time : ℕ) (txs : List TxEffects)
      → time < 2 ^ 32
      → Agrees rows l
      → (rows' : HashMap InflowRow) × (apply_txs L o db time rows txs ≡ ok rows')
        × Agrees rows' (apply_block time l txs)
  unfolding apply_txs apply_block find
  apply_txs_ok o rows l time [] t h = (rows, refl, h)
  apply_txs_ok o rows l time (te ∷ txs) t h =
      let sums = by_addr te.credits [] in
      let (rows1, e1, h1) =
        pay_all_ok rows l time (o.arrange sums) t (o.once sums (by_addr-IsUnique te.credits [] tt))
          h in
      let next = λ (a : Bytes). pay time (payment te.credits a none) (l a) in
      let same : (a : Bytes) → paid time (o.arrange sums) l a ≡ next a = λ a.
        ap (λ (r : Option ℕ). pay time r (l a))
          (o.same_entries sums a ∙ find-by_addr te.credits [] a) in
      let (rows2, e2, h2) =
        apply_txs_ok o rows1 next time txs t (subst (Agrees rows1) (λ i a. same a i) h1) in
      (rows2, rw e1 e2, h2)
