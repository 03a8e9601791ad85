-- ===== src/Core/Hash/Ripemd160.antt =====
-- src/core/hash.cpp: the compression function of RIPEMD-160, its start and its digest.
use bitcoin_toolkit.Core.Hash.Words.{not32, block_words, add32, rotl32}
use bitcoin_toolkit.Common.{
  zero, get_or, ◌+◌, ltb, [], bit_and, ◌++◌, suc, if◌then◌else◌, ◌∷◌, bit_or, bit_xor, Bytes, List,
  ℕ,
}
use bitcoin_toolkit.LittleEndian.{read_le32, write_le32}

f1 : ℕ → ℕ → ℕ → ℕ
f1 x y z = bit_xor (bit_xor x y) z

f2 : ℕ → ℕ → ℕ → ℕ
f2 x y z = bit_or (bit_and x y) (bit_and (not32 x) z)

f3 : ℕ → ℕ → ℕ → ℕ
f3 x y z = bit_xor (bit_or x (not32 y)) z

f4 : ℕ → ℕ → ℕ → ℕ
f4 x y z = bit_or (bit_and x z) (bit_and y (not32 z))

f5 : ℕ → ℕ → ℕ → ℕ
f5 x y z = bit_xor x (bit_or y (not32 z))

abbrev rmd_r : List ℕ
rmd_r =
    0 ∷ 1 ∷ 2 ∷ 3 ∷ 4 ∷ 5 ∷ 6 ∷ 7 ∷ 8 ∷ 9 ∷ 10 ∷ 11 ∷ 12 ∷ 13 ∷ 14 ∷ 15 ∷ 7 ∷ 4 ∷ 13 ∷ 1 ∷ 10 ∷ 6
    ∷ 15 ∷ 3 ∷ 12 ∷ 0 ∷ 9 ∷ 5 ∷ 2 ∷ 14 ∷ 11 ∷ 8 ∷ 3 ∷ 10 ∷ 14 ∷ 4 ∷ 9 ∷ 15 ∷ 8 ∷ 1 ∷ 2 ∷ 7 ∷ 0 ∷ 6
    ∷ 13 ∷ 11 ∷ 5 ∷ 12 ∷ 1 ∷ 9 ∷ 11 ∷ 10 ∷ 0 ∷ 8 ∷ 12 ∷ 4 ∷ 13 ∷ 3 ∷ 7 ∷ 15 ∷ 14 ∷ 5 ∷ 6 ∷ 2 ∷ 4 ∷ 0
    ∷ 5 ∷ 9 ∷ 7 ∷ 12 ∷ 2 ∷ 10 ∷ 14 ∷ 1 ∷ 3 ∷ 8 ∷ 11 ∷ 6 ∷ 15 ∷ 13 ∷ []

abbrev rmd_rr : List ℕ
rmd_rr =
    5 ∷ 14 ∷ 7 ∷ 0 ∷ 9 ∷ 2 ∷ 11 ∷ 4 ∷ 13 ∷ 6 ∷ 15 ∷ 8 ∷ 1 ∷ 10 ∷ 3 ∷ 12 ∷ 6 ∷ 11 ∷ 3 ∷ 7 ∷ 0 ∷ 13
    ∷ 5 ∷ 10 ∷ 14 ∷ 15 ∷ 8 ∷ 12 ∷ 4 ∷ 9 ∷ 1 ∷ 2 ∷ 15 ∷ 5 ∷ 1 ∷ 3 ∷ 7 ∷ 14 ∷ 6 ∷ 9 ∷ 11 ∷ 8 ∷ 12 ∷ 2
    ∷ 10 ∷ 0 ∷ 4 ∷ 13 ∷ 8 ∷ 6 ∷ 4 ∷ 1 ∷ 3 ∷ 11 ∷ 15 ∷ 0 ∷ 5 ∷ 12 ∷ 2 ∷ 13 ∷ 9 ∷ 7 ∷ 10 ∷ 14 ∷ 12
    ∷ 15 ∷ 10 ∷ 4 ∷ 1 ∷ 5 ∷ 8 ∷ 7 ∷ 6 ∷ 2 ∷ 13 ∷ 14 ∷ 0 ∷ 3 ∷ 9 ∷ 11 ∷ []

abbrev rmd_s : List ℕ
rmd_s =
    11 ∷ 14 ∷ 15 ∷ 12 ∷ 5 ∷ 8 ∷ 7 ∷ 9 ∷ 11 ∷ 13 ∷ 14 ∷ 15 ∷ 6 ∷ 7 ∷ 9 ∷ 8 ∷ 7 ∷ 6 ∷ 8 ∷ 13 ∷ 11 ∷ 9
    ∷ 7 ∷ 15 ∷ 7 ∷ 12 ∷ 15 ∷ 9 ∷ 11 ∷ 7 ∷ 13 ∷ 12 ∷ 11 ∷ 13 ∷ 6 ∷ 7 ∷ 14 ∷ 9 ∷ 13 ∷ 15 ∷ 14 ∷ 8 ∷ 13
    ∷ 6 ∷ 5 ∷ 12 ∷ 7 ∷ 5 ∷ 11 ∷ 12 ∷ 14 ∷ 15 ∷ 14 ∷ 15 ∷ 9 ∷ 8 ∷ 9 ∷ 14 ∷ 5 ∷ 6 ∷ 8 ∷ 6 ∷ 5 ∷ 12 ∷ 9
    ∷ 15 ∷ 5 ∷ 11 ∷ 6 ∷ 8 ∷ 13 ∷ 12 ∷ 5 ∷ 12 ∷ 13 ∷ 14 ∷ 11 ∷ 8 ∷ 5 ∷ 6 ∷ []

abbrev rmd_ss : List ℕ
rmd_ss =
    8 ∷ 9 ∷ 9 ∷ 11 ∷ 13 ∷ 15 ∷ 15 ∷ 5 ∷ 7 ∷ 7 ∷ 8 ∷ 11 ∷ 14 ∷ 14 ∷ 12 ∷ 6 ∷ 9 ∷ 13 ∷ 15 ∷ 7 ∷ 12 ∷ 8
    ∷ 9 ∷ 11 ∷ 7 ∷ 7 ∷ 12 ∷ 7 ∷ 6 ∷ 15 ∷ 13 ∷ 11 ∷ 9 ∷ 7 ∷ 15 ∷ 11 ∷ 8 ∷ 6 ∷ 6 ∷ 14 ∷ 12 ∷ 13 ∷ 5
    ∷ 14 ∷ 13 ∷ 13 ∷ 7 ∷ 5 ∷ 15 ∷ 5 ∷ 8 ∷ 11 ∷ 14 ∷ 14 ∷ 6 ∷ 14 ∷ 6 ∷ 9 ∷ 12 ∷ 9 ∷ 12 ∷ 5 ∷ 15 ∷ 8
    ∷ 8 ∷ 5 ∷ 12 ∷ 9 ∷ 12 ∷ 5 ∷ 14 ∷ 6 ∷ 8 ∷ 13 ∷ 6 ∷ 5 ∷ 15 ∷ 13 ∷ 11 ∷ 11 ∷ []

-- The state of RIPEMD-160, and of each of its lines.
pub record Rmd : Type 0 where
  pub a : ℕ
  pub b : ℕ
  pub c : ℕ
  pub d : ℕ
  pub e : ℕ

-- The function and the constant of a round, on the left and on the right.
left_step : ℕ → Rmd → ℕ × ℕ
unfolding f1 f2 f3 f4 f5
left_step i s =
    if ltb i 16
    then (f1 s.b s.c s.d, 0)
    else if ltb i 32
    then (f2 s.b s.c s.d, 0x5a82_7999)
    else if ltb i 48
    then (f3 s.b s.c s.d, 0x6ed9_eba1)
    else if ltb i 64
    then (f4 s.b s.c s.d, 0x8f1b_bcdc)
    else (f5 s.b s.c s.d, 0xa953_fd4e)

right_step : ℕ → Rmd → ℕ × ℕ
unfolding f1 f2 f3 f4 f5
right_step i s =
    if ltb i 16
    then (f5 s.b s.c s.d, 0x50a2_8be6)
    else if ltb i 32
    then (f4 s.b s.c s.d, 0x5c4d_d124)
    else if ltb i 48
    then (f3 s.b s.c s.d, 0x6d70_3ef3)
    else if ltb i 64
    then (f2 s.b s.c s.d, 0x7a6d_76e9)
    else (f1 s.b s.c s.d, 0)

rmd_round : ℕ × ℕ → ℕ → ℕ → Rmd → Rmd
unfolding rotl32
rmd_round (fv, k) x n s = record {
  a = s.e;
  b = add32 (rotl32 (add32 (add32 (add32 s.a fv) x) k) n) s.e;
  c = s.b;
  d = rotl32 s.c 10;
  e = s.d;
}

rmd_rounds : ℕ → ℕ → List ℕ → Rmd → Rmd → Rmd × Rmd
unfolding left_step right_step rmd_round
rmd_rounds zero i x l r = (l, r)
rmd_rounds (suc n) i x l r =
    rmd_rounds n (i + 1) x
      (rmd_round (left_step i l) (get_or x (get_or rmd_r i 0) 0) (get_or rmd_s i 0) l)
      (rmd_round (right_step i r) (get_or x (get_or rmd_rr i 0) 0) (get_or rmd_ss i 0) r)

rmd_sum : Rmd → Rmd × Rmd → Rmd
rmd_sum s (l, r) = record {
  a = add32 (add32 s.b l.c) r.d;
  b = add32 (add32 s.c l.d) r.e;
  c = add32 (add32 s.d l.e) r.a;
  d = add32 (add32 s.e l.a) r.b;
  e = add32 (add32 s.a l.b) r.c;
}

unfoldable pub rmd160_compress : Rmd → Bytes → Rmd
unfolding rmd_sum rmd_rounds block_words
rmd160_compress s block = rmd_sum s (rmd_rounds 80 0 (block_words read_le32 16 block) s s)

abbrev pub rmd_start : Rmd
rmd_start = record {
  a = 0x6745_2301;
  b = 0xefcd_ab89;
  c = 0x98ba_dcfe;
  d = 0x1032_5476;
  e = 0xc3d2_e1f0;
}

unfoldable pub rmd_digest : Rmd → Bytes
rmd_digest s =
    write_le32 s.a ++ (write_le32 s.b ++ (write_le32 s.c ++ (write_le32 s.d ++ write_le32 s.e)))
