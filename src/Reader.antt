-- ===== src/Reader.antt =====
-- Readers: functions that take the bytes `data` and an offset by reference, advance the offset and
-- may throw. The length that the source passes beside `data` is always that of `data`.
use bitcoin_toolkit.Common.{
  ℕ, zero, suc, ◌+◌, ◌≤◌, ◌≡◌, sym, ap, ◌∙◌, List, [], ◌∷◌, ◌++◌, append_assoc, Bytes, length, drop,
  length-append, length-drop, drop-append, drop-drop, arith, Result, ok, err, BtkError,
}

abbrev pub Reader : Type 0 → Type 0
Reader A = Bytes → ℕ → Result (A × ℕ)

module _ {A : Type 0} where
  abbrev pub pure : A → Reader A
  pure a data' off = ok (a, off)

  abbrev pub throw : BtkError → Reader A
  throw e data' off = err e

module _ {A B : Type 0} where
  abbrev pub continue : Result (A × ℕ) → (A → Reader B) → Bytes → Result (B × ℕ)
  continue (ok (a, off)) f data' = f a data' off
  continue (err e) f data' = err e

  infixl 5 ◌>>=◌ ◌>>◌
  abbrev pub ◌>>=◌ : Reader A → (A → Reader B) → Reader B
  ◌>>=◌ p f data' off = continue (p data' off) f data'

  abbrev pub ◌>>◌ : Reader A → Reader B → Reader B
  ◌>>◌ p q data' off = continue (p data' off) (λ _. q) data'

-- Where the bytes `bs` stand at an offset within the data, `p` returns `a` and moves the offset past them,
-- whatever follows.
pub record Reads {A : Type 0} (p : Reader A) (bs : Bytes) (a : A) : Type 0 where
  pub at :
      (data' : Bytes) (off : ℕ) (rest : Bytes)
      → off ≤ length data'
      → drop off data' ≡ bs ++ rest
      → p data' off ≡ ok (a, off + length bs)

-- The bytes behind the first part, when two parts stand at the offset.
pub drop_past :
    (data' : Bytes) (off : ℕ) (bs rest : Bytes)
    → drop off data' ≡ bs ++ rest
    → drop (off + length bs) data' ≡ rest
drop_past data' off bs rest e =
    sym (drop-drop (length bs) off data') ∙ ap (drop (length bs)) e ∙ drop-append bs rest

-- They lie within the data.
pub fits_past :
    (data' : Bytes) (off : ℕ) (bs rest : Bytes)
    → off ≤ length data'
    → drop off data' ≡ bs ++ rest
    → off + length bs ≤ length data'
fits_past data' off bs rest h e =
    omega (arith, ap (length {A = ℕ}) e, length-drop {0} off data', length-append {0} bs rest)

module _ {A : Type 0} where
  pub Reads-pure : (a : A) → Reads (pure a) [] a
  Reads-pure a = record { at = λ data' off rest h e. ap (λ (n : ℕ). ok (a, n)) (omega arith) }

module _ {A B : Type 0} where
  pub Reads-bind :
      {p : Reader A} (f : A → Reader B) {bs cs : Bytes} {a : A} {b : B}
      → Reads p bs a
      → Reads (f a) cs b
      → Reads (p >>= f) (bs ++ cs) b
  Reads-bind {p} f {bs} {cs} {a} {b} hp hf = record {
    at = λ data' off rest h e.
        let e' : drop off data' ≡ bs ++ (cs ++ rest) = e ∙ append_assoc bs cs rest in
        ap (λ (t : Result (A × ℕ)). continue t f data') (hp.at data' off (cs ++ rest) h e')
        ∙ hf.at data' (off + length bs) rest (fits_past data' off bs (cs ++ rest) h e')
            (drop_past data' off bs (cs ++ rest) e')
        ∙ ap (λ (n : ℕ). ok (b, n)) (omega (arith, length-append {0} bs cs));
  }

  -- The last step of a block that only wraps what it reads.
  pub Reads-wrap :
      {p : Reader A} (g : A → B) {bs : Bytes} {a : A}
      → Reads p bs a
      → Reads (p >>= λ x. pure (g x)) bs (g a)
  Reads-wrap {p} g {bs} {a} hp = record {
    at = λ data' off rest h e.
        ap (λ (t : Result (A × ℕ)). continue t (λ x. pure (g x)) data') (hp.at data' off rest h e);
  }

  -- A step that looks at the data and does not move, before the reader of the bytes.
  pub Reads-look :
      (q : Reader A) (f : A → Reader B) {bs : Bytes} {a : A} {b : B}
      → ((data' : Bytes) (off : ℕ) (rest : Bytes)
          → off ≤ length data'
          → drop off data' ≡ bs ++ rest
          → q data' off ≡ ok (a, off))
      → Reads (f a) bs b
      → Reads (q >>= f) bs b
  Reads-look q f {bs} {a} {b} hq hp = record {
    at = λ data' off rest h e.
        ap (λ (t : Result (A × ℕ)). continue t f data') (hq data' off rest h e)
        ∙ hp.at data' off rest h e;
  }

  -- A check that passes wherever the bytes stand.
  pub Reads-check :
      (q : Reader A) {p : Reader B} {bs : Bytes} {a : A} {b : B}
      → ((data' : Bytes) (off : ℕ) (rest : Bytes)
          → off ≤ length data'
          → drop off data' ≡ bs ++ rest
          → q data' off ≡ ok (a, off))
      → Reads p bs b
      → Reads (q >> p) bs b
  Reads-check q {p} hq hp = Reads-look q (λ _. p) hq hp

-- `n` rounds of one reader, in order.
unfoldable pub times : {A : Type 0} → ℕ → Reader A → Reader (List A)
times zero p = pure []
times (suc n) p = do x ← p; xs ← times n p; pure (x ∷ xs)

-- What is read, without the offset.
unfoldable pub value_of : {A : Type 0} → Result (A × ℕ) → Result A
value_of (ok (a, off)) = ok a
value_of (err e) = err e

-- Where the bytes `bs` stand at an offset, `p` returns `a`, wherever it leaves the offset.
pub record Gives {A : Type 0} (p : Reader A) (bs : Bytes) (a : A) : Type 0 where
  pub at :
      (data' : Bytes) (off : ℕ) (rest : Bytes)
      → off ≤ length data'
      → drop off data' ≡ bs ++ rest
      → value_of (p data' off) ≡ ok a

module _ {A B : Type 0} where
  pub Gives-bind :
      {p : Reader A} (f : A → Reader B) {bs cs : Bytes} {a : A} {b : B}
      → Reads p bs a
      → Gives (f a) cs b
      → Gives (p >>= f) (bs ++ cs) b
  Gives-bind {p} f {bs} {cs} {a} hp hf = record {
    at = λ data' off rest h e.
        let e' : drop off data' ≡ bs ++ (cs ++ rest) = e ∙ append_assoc bs cs rest in
        ap (λ (t : Result (A × ℕ)). value_of (continue t f data'))
          (hp.at data' off (cs ++ rest) h e')
        ∙ hf.at data' (off + length bs) rest (fits_past data' off bs (cs ++ rest) h e')
            (drop_past data' off bs (cs ++ rest) e');
  }

  pub Gives-check :
      (q : Reader A) {p : Reader B} {bs : Bytes} {a : A} {b : B}
      → ((data' : Bytes) (off : ℕ) (rest : Bytes)
          → off ≤ length data'
          → drop off data' ≡ bs ++ rest
          → q data' off ≡ ok (a, off))
      → Gives p bs b
      → Gives (q >> p) bs b
  Gives-check q {p} hq hp = record {
    at = λ data' off rest h e.
        ap (λ (t : Result (A × ℕ)). value_of (continue t (λ _. p) data')) (hq data' off rest h e)
        ∙ hp.at data' off rest h e;
  }
