-- ===== src/Core/Hash/Blocks.antt =====
-- `hash_padded` is the compression of the padded message, block by block.
use bitcoin_toolkit.LittleEndian.{write_le32}
use bitcoin_toolkit.Core.Hash.Padding.{length-length_bytes, fill, pad, hash_padded-absorb}
use bitcoin_toolkit.Core.Hash.Words.{store_be32}
use bitcoin_toolkit.Core.Hash.Padded.{hash_padded, length_bytes, absorb}
use bitcoin_toolkit.Common.{
  take-append-drop, refl, ◌∙◌, ◌^◌, length-drop, zero, IsBytes, ◌%◌, drop, ◌<◌, false, length-take,
  ap, take, replicate, true, All, arith, suc, ◌+◌, ◌++◌, length, [], ◌≡◌, ◌*◌, ◌∷◌, Bytes, ℕ, Bool,
  List,
}
use mathlib.Core.List.{foldl, foldr}

-- The bytes of a list of blocks.
abbrev pub joined : List Bytes → Bytes
joined [] = []
joined (b ∷ bs) = b ++ joined bs

-- The number that bytes stand for, the first byte the highest where `be` holds.
abbrev pub number : Bool → Bytes → ℕ
number true size = foldl (λ (n b : ℕ). 256 * n + b) 0 size
number false size = foldr (λ (b n : ℕ). b + 256 * n) 0 size

-- The message, a byte 0x80, fewer than 64 zeros and the number of bits, modulo 2 ^ 64, in 8 bytes,
-- cut into blocks of 64 bytes.
pub record IsPadded (be : Bool) (p : Bytes) (blocks : List Bytes) : Type 0 where
  pub zeros : ℕ
  pub size : Bytes
  pub padded : joined blocks ≡ p ++ 0x80 ∷ (replicate zeros 0 ++ size)
  pub whole_blocks : All (λ (b : Bytes). length b ≡ 64) blocks
  pub few : zeros < 64
  pub eight : length size ≡ 8
  pub each_byte : IsBytes size
  pub bits : number be size ≡ 8 * length p % 2 ^ 64

chunks : ℕ → Bytes → List Bytes
chunks zero p = []
chunks (suc n) p = take 64 p ∷ chunks n (drop 64 p)

chunks-joined : (n : ℕ) (p : Bytes) → length p ≡ 64 * n → joined (chunks n p) ≡ p
unfolding chunks
chunks-joined zero [] h = refl
chunks-joined zero (b ∷ p) h = absurd (omega arith)
chunks-joined (suc n) p h =
    ap (λ (t : Bytes). take 64 p ++ t)
      (chunks-joined n (drop 64 p) (omega (arith, h, length-drop {0} 64 p)))
    ∙ take-append-drop 64 p

chunks-whole :
    (n : ℕ) (p : Bytes) → length p ≡ 64 * n → All (λ (b : Bytes). length b ≡ 64) (chunks n p)
unfolding chunks
chunks-whole zero p h = tt
chunks-whole (suc n) p h = (
  length-take 64 p (omega (arith, h)),
  chunks-whole n (drop 64 p) (omega (arith, h, length-drop {0} 64 p)),
)

absorb-chunks :
    {S : Type 0} (compress : S → Bytes → S) (n : ℕ) (s : S) (p : Bytes)
    → absorb compress n s p ≡ foldl compress s (chunks n p)
unfolding absorb chunks
absorb-chunks compress zero s p = refl
absorb-chunks compress (suc n) s p = absorb-chunks compress n (compress s (take 64 p)) (drop 64 p)

module _ {S : Type 0} (compress : S → Bytes → S) where
  length_bytes-number :
      (be : Bool) (n : ℕ)
      → (number be (length_bytes compress be n) ≡ 8 * n % 2 ^ 64)
        × IsBytes (length_bytes compress be n)
  unfolding length_bytes store_be32 write_le32
  length_bytes-number true n = (omega arith, omega arith)
  length_bytes-number false n = (omega arith, omega arith)

  -- `hash_padded` of a message, for any compression function, is its start compressed with the blocks
  -- of the padded message, in order. The padded message is cut into blocks of 64 bytes: the message, a
  -- byte 0x80, fewer than 64 zeros, and 8 bytes whose number, in the order of bytes asked for, is the
  -- number of the message's bits modulo 2 ^ 64.
  pub hash_padded-IsPadded :
      (be : Bool) (s : S) (p : Bytes)
      → (blocks : List Bytes) × IsPadded be p blocks
        × (hash_padded compress be s p ≡ foldl compress s blocks)
  hash_padded-IsPadded be s p =
      let (n, size, same) = hash_padded-absorb compress be s p in
      let (e, b) = length_bytes-number be (length p) in
      (
        chunks n (pad compress be p),
        record {
          zeros = fill (length p);
          size = length_bytes compress be (length p);
          padded = chunks-joined n (pad compress be p) size;
          whole_blocks = chunks-whole n (pad compress be p) size;
          few = omega arith;
          eight = length-length_bytes compress be (length p);
          each_byte = b;
          bits = e;
        },
        same ∙ absorb-chunks compress n s (pad compress be p),
      )
