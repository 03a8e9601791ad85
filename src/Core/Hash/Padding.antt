-- ===== src/Core/Hash/Padding.antt =====
-- `hash_padded` is the loop over the padded message.
use bitcoin_toolkit.Common.{
  inr, take-all, append-nil, inl, drop-append_at, [], leb, take-append_at, sym, Bool-cases, ◌<◌,
  append_assoc, length-drop, drop-drop, false, drop_within, take, true, take_within, ◌/◌, ◌∙◌, refl,
  ap₂, length-append, arith, zero, drop, ◌^◌, ◌∷◌, ap, suc, ◌≤◌, ◌++◌, ◌%◌, ◌≡◌, ◌*◌, Bool, ◌-◌,
  ◌+◌, length, replicate, Bytes, ℕ,
}
use bitcoin_toolkit.LittleEndian.{write_le32, length-write_le32}
use bitcoin_toolkit.Core.Hash.Words.{store_be32}
use bitcoin_toolkit.Core.Hash.Padded.{absorb, length_bytes, last_block, hash_padded}

abbrev zeros : ℕ → Bytes
zeros n = replicate n 0

length-zeros : (n : ℕ) → length (zeros n) ≡ n
length-zeros zero = refl
length-zeros (suc n) = ap suc (length-zeros n)

zeros-add : (n m : ℕ) → zeros (n + m) ≡ zeros n ++ zeros m
zeros-add zero m = ap zeros {x = 0 + m} {y = m} (omega arith)
zeros-add (suc n) m =
    ap zeros {x = suc n + m} {y = suc (n + m)} (omega arith)
    ∙ ap (λ (t : Bytes). 0 ∷ t) (zeros-add n m)

-- The number of zeros that fills the last block.
abbrev pub fill : ℕ → ℕ
fill len = (119 - len % 64) % 64

module _ {S : Type 0} (compress : S → Bytes → S) where
  -- The padded message: a bit 1, zeros, and the length in 64 bits.
  abbrev pub pad : Bool → Bytes → Bytes
  pad length_be p =
      p ++ 0x80 ∷ (zeros (fill (length p)) ++ length_bytes compress length_be (length p))

  pub length-length_bytes : (be : Bool) (n : ℕ) → length (length_bytes compress be n) ≡ 8
  unfolding length_bytes store_be32
  length-length_bytes true n = refl
  length-length_bytes false n =
      let b = n * 8 % 2 ^ 64 in
      length-append (write_le32 (b % 2 ^ 32)) (write_le32 (b / 2 ^ 32))
      ∙ omega (arith, length-write_le32 (b % 2 ^ 32), length-write_le32 (b / 2 ^ 32))

  absorb-add :
      (n m : ℕ) (s : S) (p : Bytes)
      → absorb compress (n + m) s p ≡ absorb compress m (absorb compress n s p) (drop (64 * n) p)
  unfolding absorb
  absorb-add zero m s p = ap (λ (k : ℕ). absorb compress k s p) {x = 0 + m} {y = m} (omega arith)
  absorb-add (suc n) m s p =
      ap (λ (k : ℕ). absorb compress k s p) {x = suc n + m} {y = suc (n + m)} (omega arith)
      ∙ absorb-add n m (compress s (take 64 p)) (drop 64 p)
      ∙ ap (absorb compress m (absorb compress n (compress s (take 64 p)) (drop 64 p))) (
          drop-drop (64 * n) 64 p
          ∙ ap (λ (k : ℕ). drop k p) {x = 64 + 64 * n} {y = 64 * suc n} (omega arith))

  -- The first part alone, where its blocks are whole.
  absorb-append :
      (n : ℕ) (s : S) (p q : Bytes)
      → 64 * n ≤ length p
      → absorb compress n s (p ++ q) ≡ absorb compress n s p
  unfolding absorb
  absorb-append zero s p q h = refl
  absorb-append (suc n) s p q h =
      ap₂ (λ (t u : Bytes). absorb compress n (compress s t) u) (take_within 64 p q (omega arith))
        (drop_within 64 p q (omega arith))
      ∙ absorb-append n (compress s (take 64 p)) (drop 64 p) q (omega (arith, length-drop {0} 64 p))

  -- The bytes behind the whole blocks, with the padding: one block, or two.
  module _ (r size : Bytes) (size8 : length size ≡ 8) where
    mark : ℕ → Bytes
    mark n = r ++ 0x80 ∷ zeros n

    length-mark : (n : ℕ) → length (mark n) ≡ length r + 1 + n
    unfolding mark
    length-mark n = omega (arith, length-append {0} r (0x80 ∷ zeros n), length-zeros n)

    mark-add :
        (n m : ℕ) (rest : Bytes) → r ++ 0x80 ∷ (zeros (n + m) ++ rest) ≡ mark n ++ (zeros m ++ rest)
    unfolding mark
    mark-add n m rest =
        ap (λ (t : Bytes). r ++ 0x80 ∷ t)
          (ap (λ (t : Bytes). t ++ rest) (zeros-add n m) ∙ append_assoc (zeros n) (zeros m) rest)
        ∙ sym (append_assoc r (0x80 ∷ zeros n) (zeros m ++ rest))

    one_block :
        length r < 56
        → take 64 (r ++ 0x80 ∷ (zeros (55 - length r) ++ size))
          ≡ take 56 (last_block compress r) ++ size
    unfolding mark
    one_block h =
        let k = 55 - length r in
        let whole : r ++ 0x80 ∷ (zeros k ++ size) ≡ mark k ++ size =
          sym (append_assoc r (0x80 ∷ zeros k) size) in
        let padded : last_block compress r ≡ mark k ++ (zeros 8 ++ []) =
          ap (λ (t : ℕ). r ++ 0x80 ∷ zeros t) {x = 63 - length r} {y = k + 8} (omega arith)
          ∙ ap (λ (t : Bytes). r ++ 0x80 ∷ t) (sym (append-nil (zeros (k + 8))))
          ∙ mark-add k 8 [] in
        ap (take 64) whole
        ∙ ap (λ (n : ℕ). take n (mark k ++ size)) {x = 64} {y = length (mark k ++ size)}
            (omega (arith, length-append {0} (mark k) size, length-mark k, size8))
        ∙ take-all (mark k ++ size)
        ∙ ap (λ (t : Bytes). t ++ size)
            (sym (
              ap (take 56) padded
              ∙ take-append_at 56 (mark k) (zeros 8 ++ []) (length-mark k ∙ omega arith)))

    two_blocks :
        56 ≤ length r
        → length r < 64
        → (take 64 (r ++ 0x80 ∷ (zeros (119 - length r) ++ size)) ≡ last_block compress r)
          × (take 64 (drop 64 (r ++ 0x80 ∷ (zeros (119 - length r) ++ size))) ≡ zeros 56 ++ size)
    unfolding mark
    two_blocks lo hi =
        let k = 63 - length r in
        let whole : r ++ 0x80 ∷ (zeros (119 - length r) ++ size) ≡ mark k ++ (zeros 56 ++ size) =
          ap (λ (t : ℕ). r ++ 0x80 ∷ (zeros t ++ size)) {x = 119 - length r} {y = k + 56}
            (omega arith)
          ∙ mark-add k 56 size in
        let full : length (mark k) ≡ 64 = length-mark k ∙ omega arith in
        (
          ap (take 64) whole ∙ take-append_at 64 (mark k) (zeros 56 ++ size) full,
          ap (λ (t : Bytes). take 64 (drop 64 t)) whole
              ∙ ap (take 64) (drop-append_at 64 (mark k) (zeros 56 ++ size) full)
              ∙ ap (λ (n : ℕ). take n (zeros 56 ++ size)) {x = 64} {y = length (zeros 56 ++ size)}
                  (omega (arith, length-append {0} (zeros 56) size, length-zeros 56, size8))
              ∙ take-all (zeros 56 ++ size),
        )

  module _ (be : Bool) (s : S) (p : Bytes) where
    abbrev n : ℕ
    n = length p / 64

    abbrev r : Bytes
    r = drop (64 * n) p

    abbrev size : Bytes
    size = length_bytes compress be (length p)

    length-r : length r ≡ length p % 64
    length-r = omega (arith, length-drop {0} (64 * n) p)

    length-pad : length (pad be p) ≡ length p + 1 + fill (length p) + 8
    length-pad = omega (
      arith,
      length-append {0} p (0x80 ∷ (zeros (fill (length p)) ++ size)),
      length-append {0} (zeros (fill (length p))) size,
      length-zeros (fill (length p)),
      length-length_bytes be (length p),
    )

    -- Past the whole blocks of the message.
    absorb-pad :
        (b k : ℕ)
        → fill (length p) ≡ k
        → absorb compress (n + b) s (pad be p)
          ≡ absorb compress b (absorb compress n s p) (r ++ 0x80 ∷ (zeros k ++ size))
    absorb-pad b k e =
        let t = 0x80 ∷ (zeros (fill (length p)) ++ size) in
        absorb-add n b s (p ++ t)
        ∙ ap₂ (absorb compress b) (absorb-append n s p t (omega arith)) (
            drop_within (64 * n) p t (omega arith)
            ∙ ap (λ (z : ℕ). r ++ 0x80 ∷ (zeros z ++ size)) e)

    padded_once :
        leb 56 (length r) ≡ false
        → hash_padded compress be s p ≡ absorb compress (n + 1) s (pad be p)
    unfolding hash_padded absorb
    padded_once z =
        let short : length r < 56 = ground (arith, z) in
        rw z (
          sym (
            absorb-pad 1 (55 - length r) (omega (arith, length-r, short))
            ∙ ap (compress (absorb compress n s p))
                (one_block r size (length-length_bytes be (length p)) short)))

    padded_twice :
        leb 56 (length r) ≡ true
        → hash_padded compress be s p ≡ absorb compress (n + 2) s (pad be p)
    unfolding hash_padded absorb
    padded_twice z =
        let long : 56 ≤ length r = ground (arith, z) in
        let (e, f) =
          two_blocks r size (length-length_bytes be (length p)) long (omega (arith, length-r)) in
        rw z (
          sym (
            absorb-pad 2 (119 - length r) (omega (arith, length-r, long))
            ∙ ap₂ (λ (t u : Bytes). compress (compress (absorb compress n s p) t) u) e f))

  -- The number of blocks, and the loop over them.
  pub hash_padded-absorb :
      (be : Bool) (s : S) (p : Bytes)
      → (blocks : ℕ) × (length (pad be p) ≡ 64 * blocks)
        × (hash_padded compress be s p ≡ absorb compress blocks s (pad be p))
  hash_padded-absorb be s p = elim (Bool-cases (leb 56 (length (r be s p)))) [
    | inl z ↦
        let long : 56 ≤ length (r be s p) = ground (arith, z) in
        (
          n be s p + 2,
          omega (arith, length-pad be s p, length-r be s p, long),
          padded_twice be s p z,
        )
    | inr z ↦
        let short : length (r be s p) < 56 = ground (arith, z) in
        (
          n be s p + 1,
          omega (arith, length-pad be s p, length-r be s p, short),
          padded_once be s p z,
        )
  ]
