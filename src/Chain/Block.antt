-- ===== src/Chain/Block.antt =====
-- src/chain/transaction.cpp: blocks, and the hashes of transactions and blocks. `hash256` is a
-- parameter: what is stated here holds for any function of the bytes.
pub mod RoundTrip
pub mod Identity
mod Examples
use bitcoin_toolkit.Common.{
  ℕ, ◌+◌, ◌-◌, true, false, ◌||◌, List, ◌++◌, Bytes, length, take, drop, ltb, ◌==◌, if◌then◌else◌,
  Result, ok, err, ◌>>=◌, BtkError, btk_error,
}
use bitcoin_toolkit.Reader.{Reader, times}
use bitcoin_toolkit.LittleEndian.{read_le32, write_le32}
use bitcoin_toolkit.Chain.CompactSize.{read_compact_size}
use bitcoin_toolkit.Chain.Transaction.{Transaction, Block, serialize_tx, parse_tx_prefix}

abbrev pub fail_block : BtkError
fail_block = btk_error "balance" "invalid block"

unfoldable pub serialize_block_header : Block → Bytes
serialize_block_header b =
    write_le32 b.version
    ++ (b.prev ++ (b.merkle ++ (write_le32 b.time ++ (write_le32 b.bits ++ write_le32 b.nonce))))

-- One round of the loop over the transactions: `parse_tx` on the bytes from the offset on. Its
-- errors become the block's.
advance : ℕ → Result (Transaction × ℕ) → Result (Transaction × ℕ)
advance off (ok (tx, used)) = if used == 0 then err fail_block else ok (tx, off + used)
advance off (err e) = err fail_block

pub read_block_tx : Reader Transaction
unfolding advance
read_block_tx data' off = advance off (parse_tx_prefix (drop off data'))

header_fields : Bytes → List Transaction → Block
header_fields d txs = record {
  version = read_le32 d;
  prev = take 32 (drop 4 d);
  merkle = take 32 (drop 36 d);
  time = read_le32 (drop 68 d);
  bits = read_le32 (drop 72 d);
  nonce = read_le32 (drop 76 d);
  txs = txs;
}

block_txs : Bytes → ℕ × ℕ → Result (List Transaction × ℕ)
block_txs d (n, off) =
    if ltb (length d) off || ltb (length d - off) n
    then err fail_block
    else times n read_block_tx d off

whole_block : Bytes → List Transaction × ℕ → Result Block
unfolding header_fields
whole_block d (txs, off) = if off == length d then ok (header_fields d txs) else err fail_block

unfoldable pub parse_block : Bytes → Result Block
unfolding block_txs whole_block
parse_block d =
    if ltb (length d) 81
    then err fail_block
    else read_compact_size d 80 >>= block_txs d >>= whole_block d

module _ (hash256 : Bytes → Bytes) where
  unfoldable pub txid : Transaction → Bytes
  txid tx = hash256 (serialize_tx tx false)

  pub wtxid : Transaction → Bytes
  wtxid tx = hash256 (serialize_tx tx true)

  unfoldable pub block_hash : Block → Bytes
  block_hash b = hash256 (serialize_block_header b)
