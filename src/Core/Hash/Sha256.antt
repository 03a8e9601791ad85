-- ===== src/Core/Hash/Sha256.antt =====
-- src/core/hash.cpp: the compression function of SHA-256, its start and its digest.
use bitcoin_toolkit.Core.Hash.Words.{not32, add32, store_be32, load_be32, block_words, rotr32}
use bitcoin_toolkit.Common.{
  ◌^◌, ◌/◌, zero, ◌-◌, ◌++◌, ◌+◌, bit_and, get_or, [], bit_xor, suc, ◌∷◌, Bytes, ℕ, List,
}

abbrev k_sha256 : List ℕ
k_sha256 =
    0x428a2f98 ∷ 0x71374491 ∷ 0xb5c0fbcf ∷ 0xe9b5dba5 ∷ 0x3956c25b ∷ 0x59f111f1 ∷ 0x923f82a4
    ∷ 0xab1c5ed5 ∷ 0xd807aa98 ∷ 0x12835b01 ∷ 0x243185be ∷ 0x550c7dc3 ∷ 0x72be5d74 ∷ 0x80deb1fe
    ∷ 0x9bdc06a7 ∷ 0xc19bf174 ∷ 0xe49b69c1 ∷ 0xefbe4786 ∷ 0x0fc19dc6 ∷ 0x240ca1cc ∷ 0x2de92c6f
    ∷ 0x4a7484aa ∷ 0x5cb0a9dc ∷ 0x76f988da ∷ 0x983e5152 ∷ 0xa831c66d ∷ 0xb00327c8 ∷ 0xbf597fc7
    ∷ 0xc6e00bf3 ∷ 0xd5a79147 ∷ 0x06ca6351 ∷ 0x14292967 ∷ 0x27b70a85 ∷ 0x2e1b2138 ∷ 0x4d2c6dfc
    ∷ 0x53380d13 ∷ 0x650a7354 ∷ 0x766a0abb ∷ 0x81c2c92e ∷ 0x92722c85 ∷ 0xa2bfe8a1 ∷ 0xa81a664b
    ∷ 0xc24b8b70 ∷ 0xc76c51a3 ∷ 0xd192e819 ∷ 0xd6990624 ∷ 0xf40e3585 ∷ 0x106aa070 ∷ 0x19a4c116
    ∷ 0x1e376c08 ∷ 0x2748774c ∷ 0x34b0bcb5 ∷ 0x391c0cb3 ∷ 0x4ed8aa4a ∷ 0x5b9cca4f ∷ 0x682e6ff3
    ∷ 0x748f82ee ∷ 0x78a5636f ∷ 0x84c87814 ∷ 0x8cc70208 ∷ 0x90befffa ∷ 0xa4506ceb ∷ 0xbef9a3f7
    ∷ 0xc67178f2 ∷ []

-- `w[i]` for 16 <= i, with the rounds left.
schedule : ℕ → ℕ → List ℕ → List ℕ
unfolding rotr32
schedule zero i w = w
schedule (suc n) i w =
    let x = get_or w (i - 15) 0 in
    let y = get_or w (i - 2) 0 in
    let s0 = bit_xor (bit_xor (rotr32 x 7) (rotr32 x 18)) (x / 2 ^ 3) in
    let s1 = bit_xor (bit_xor (rotr32 y 17) (rotr32 y 19)) (y / 2 ^ 10) in
    schedule n (i + 1)
      (w ++ (add32 (add32 (add32 (get_or w (i - 16) 0) s0) (get_or w (i - 7) 0)) s1 ∷ []))

-- The state of SHA-256: `h[0]` to `h[7]`.
pub record Sha : Type 0 where
  pub a : ℕ
  pub b : ℕ
  pub c : ℕ
  pub d : ℕ
  pub e : ℕ
  pub f : ℕ
  pub g : ℕ
  pub h : ℕ

sha_round : Sha → ℕ → ℕ → Sha
unfolding rotr32
sha_round s k w =
    let s1 = bit_xor (bit_xor (rotr32 s.e 6) (rotr32 s.e 11)) (rotr32 s.e 25) in
    let ch = bit_xor (bit_and s.e s.f) (bit_and (not32 s.e) s.g) in
    let t1 = add32 (add32 (add32 (add32 s.h s1) ch) k) w in
    let s0 = bit_xor (bit_xor (rotr32 s.a 2) (rotr32 s.a 13)) (rotr32 s.a 22) in
    let maj = bit_xor (bit_xor (bit_and s.a s.b) (bit_and s.a s.c)) (bit_and s.b s.c) in
    let t2 = add32 s0 maj in
    record {
      a = add32 t1 t2;
      b = s.a;
      c = s.b;
      d = s.c;
      e = add32 s.d t1;
      f = s.e;
      g = s.f;
      h = s.g;
    }

sha_rounds : ℕ → ℕ → List ℕ → Sha → Sha
unfolding sha_round
sha_rounds zero i w s = s
sha_rounds (suc n) i w s = sha_rounds n (i + 1) w (sha_round s (get_or k_sha256 i 0) (get_or w i 0))

unfoldable pub sha256_compress : Sha → Bytes → Sha
unfolding sha_rounds schedule block_words load_be32
sha256_compress s block =
    let t = sha_rounds 64 0 (schedule 48 16 (block_words load_be32 16 block)) s in
    record {
      a = add32 s.a t.a;
      b = add32 s.b t.b;
      c = add32 s.c t.c;
      d = add32 s.d t.d;
      e = add32 s.e t.e;
      f = add32 s.f t.f;
      g = add32 s.g t.g;
      h = add32 s.h t.h;
    }

abbrev pub sha_start : Sha
sha_start = record {
  a = 0x6a09_e667;
  b = 0xbb67_ae85;
  c = 0x3c6e_f372;
  d = 0xa54f_f53a;
  e = 0x510e_527f;
  f = 0x9b05_688c;
  g = 0x1f83_d9ab;
  h = 0x5be0_cd19;
}

-- The loop over `store_word`.
unfoldable pub sha_digest : Sha → Bytes
sha_digest s =
    store_be32 s.a
    ++ (store_be32 s.b
        ++ (store_be32 s.c
            ++ (store_be32 s.d
                ++ (store_be32 s.e ++ (store_be32 s.f ++ (store_be32 s.g ++ store_be32 s.h))))))
