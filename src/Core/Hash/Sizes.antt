-- ===== src/Core/Hash/Sizes.antt =====
-- Digests have a fixed size, and are bytes.
use bitcoin_toolkit.Common.{
  IsBytes-append, refl, length-append, IsBytes, ◌++◌, ◌≡◌, ◌+◌, arith, length, Bytes, ℕ,
}
use bitcoin_toolkit.LittleEndian.{write_le32, length-write_le32, write_le32-IsBytes}
use bitcoin_toolkit.Core.Hash.Words.{store_be32}
use bitcoin_toolkit.Core.Hash.Sha256.{Sha, sha_digest}
use bitcoin_toolkit.Core.Hash.Ripemd160.{Rmd, rmd_digest}
use bitcoin_toolkit.Core.Hash.{sha256, ripemd160, hash256, hash160, tagged_hash}

abbrev pub IsDigest : ℕ → Bytes → Type 0
IsDigest n bs = (length bs ≡ n) × IsBytes bs

store_be32-IsDigest : (v : ℕ) → IsDigest 4 (store_be32 v)
unfolding store_be32
store_be32-IsDigest v = (refl, omega arith)

write_le32-IsDigest : (v : ℕ) → IsDigest 4 (write_le32 v)
write_le32-IsDigest v = (length-write_le32 v, write_le32-IsBytes v)

append-IsDigest : (n m : ℕ) (a b : Bytes) → IsDigest n a → IsDigest m b → IsDigest (n + m) (a ++ b)
append-IsDigest n m a b (la, ba) (lb, bb) =
    (omega (arith, length-append {0} a b, la, lb), IsBytes-append a b ba bb)

sha_digest-IsDigest : (s : Sha) → IsDigest 32 (sha_digest s)
unfolding sha_digest
sha_digest-IsDigest s =
    let w = store_be32-IsDigest in
    append-IsDigest 4 28 _ _ (w s.a) (
      append-IsDigest 4 24 _ _ (w s.b) (
        append-IsDigest 4 20 _ _ (w s.c) (
          append-IsDigest 4 16 _ _ (w s.d) (
            append-IsDigest 4 12 _ _ (w s.e)
              (append-IsDigest 4 8 _ _ (w s.f) (append-IsDigest 4 4 _ _ (w s.g) (w s.h)))))))

rmd_digest-IsDigest : (s : Rmd) → IsDigest 20 (rmd_digest s)
unfolding rmd_digest
rmd_digest-IsDigest s =
    let w = write_le32-IsDigest in
    append-IsDigest 4 16 _ _ (w s.a) (
      append-IsDigest 4 12 _ _ (w s.b)
        (append-IsDigest 4 8 _ _ (w s.c) (append-IsDigest 4 4 _ _ (w s.d) (w s.e))))

-- For every message, `sha256`, `hash256` and `tagged_hash` give 32 bytes, and `ripemd160` and `hash160`
-- give 20.
pub digests-IsDigest :
    (tag p : Bytes)
    → IsDigest 32 (sha256 p)
      × IsDigest 32 (hash256 p)
      × IsDigest 32 (tagged_hash tag p)
      × IsDigest 20 (ripemd160 p)
      × IsDigest 20 (hash160 p)
unfolding sha256 hash256 tagged_hash ripemd160 hash160
digests-IsDigest tag p = (
  sha_digest-IsDigest _,
  sha_digest-IsDigest _,
  sha_digest-IsDigest _,
  rmd_digest-IsDigest _,
  rmd_digest-IsDigest _,
)
