-- ===== src/Core/Hash.antt =====
-- src/core/hash.cpp: SHA-256, RIPEMD-160 and what is made of them. A word is a number below 2 ^ 32.
pub mod Words
pub mod Sha256
pub mod Ripemd160
pub mod Padded
pub mod Padding
pub mod Blocks
pub mod Sizes
mod Examples
use bitcoin_toolkit.Common.{◌++◌, false, true, Bytes}
use Sha256.{sha256_compress, sha_start, sha_digest}
use Ripemd160.{rmd160_compress, rmd_start, rmd_digest}
use Padded.{hash_padded}

pub sha256 : Bytes → Bytes
sha256 p = sha_digest (hash_padded sha256_compress true sha_start p)

pub ripemd160 : Bytes → Bytes
ripemd160 p = rmd_digest (hash_padded rmd160_compress false rmd_start p)

pub hash256 : Bytes → Bytes
hash256 p = sha256 (sha256 p)

pub hash160 : Bytes → Bytes
hash160 p = ripemd160 (sha256 p)

pub tagged_hash : Bytes → Bytes → Bytes
tagged_hash tag msg = let th = sha256 tag in sha256 (th ++ (th ++ msg))
