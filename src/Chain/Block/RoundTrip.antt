-- ===== src/Chain/Block/RoundTrip.antt =====
-- `parse_block` reads back a header, a count and that many transactions.
use bitcoin_toolkit.Common.{
  ℕ, ◌+◌, ◌-◌, ◌^◌, ◌≤◌, ◌<◌, ◌≡◌, refl, sym, ap, ◌∙◌, true, List, [], ◌∷◌, ◌++◌, append-nil,
  append_assoc, Bytes, All, length, take, drop, map, arith, length-append, take-append, drop-append,
  ok, ◌⊎◌, le→ltb, ==_refl,
}
use bitcoin_toolkit.Reader.{Reads, Reads-pure, Reads-bind, Reads-wrap, times, drop_past}
use bitcoin_toolkit.LittleEndian.{write_le32, read_le32, read_le32-write_le32, length-write_le32}
use bitcoin_toolkit.Chain.CompactSize.{write_compact_size, read_compact_size, invalid_compact_size}
use bitcoin_toolkit.Chain.CompactSize.RoundTrip.{
  read_with-write_compact_size, length-write_compact_size_pos,
}
use bitcoin_toolkit.Chain.Transaction.{
  Transaction, Block, serialize_tx, parse_tx_prefix, write_each, write_counted,
}
use bitcoin_toolkit.Chain.Transaction.Reads.{length-write_each}
use bitcoin_toolkit.Chain.Transaction.Valid.{IsValidTx}
use bitcoin_toolkit.Chain.Transaction.RoundTrip.{
  visible, parse_tx_prefix-serialize_tx, length-serialize_tx,
}
use bitcoin_toolkit.Chain.Block.{
  serialize_block_header, read_block_tx, header_fields, block_txs, whole_block, parse_block,
}

-- A transaction that can be told from its bytes in full form.
abbrev pub IsReadable : Transaction → Type 0
IsReadable tx = IsValidTx tx × ((tx.has_witness ≡ true) ⊎ (0 < length tx.vin))

pub record IsValidBlock (b : Block) : Type 0 where
  pub version : b.version < 2 ^ 32
  pub prev : length b.prev ≡ 32
  pub merkle : length b.merkle ≡ 32
  pub time : b.time < 2 ^ 32
  pub bits : b.bits < 2 ^ 32
  pub nonce : b.nonce < 2 ^ 32
  pub count : length b.txs < 2 ^ 64
  pub readable : All IsReadable b.txs

abbrev pub full : Transaction → Bytes
full tx = serialize_tx tx true

-- The bytes of a block: the header, and the transactions with their count.
abbrev pub block_bytes : Block → Bytes
block_bytes b = serialize_block_header b ++ write_counted full b.txs

abbrev pub seen : Transaction → Transaction
seen tx = visible tx true

Reads-read_block_tx : (tx : Transaction) → IsReadable tx → Reads read_block_tx (full tx) (seen tx)
unfolding read_block_tx
Reads-read_block_tx tx (v, r) = record {
  at = λ d off rest h e. ground (
    arith,
    ap parse_tx_prefix e,
    parse_tx_prefix-serialize_tx tx true rest v r,
    length-serialize_tx tx true,
  );
}

Reads-txs :
    (txs : List Transaction)
    → All IsReadable txs
    → Reads (times (length txs) read_block_tx) (write_each full txs) (map seen txs)
unfolding times write_each
Reads-txs [] h = Reads-pure []
Reads-txs (tx ∷ txs) (h, hs) =
    Reads-bind _ (Reads-read_block_tx tx h) (Reads-wrap (λ ys. seen tx ∷ ys) (Reads-txs txs hs))

-- The steps of `parse_block` where each succeeds.
parse_block_steps :
    (d : Bytes) (n off : ℕ) (txs : List Transaction)
    → 80 < length d
    → off ≤ length d
    → n ≤ length d - off
    → read_compact_size d 80 ≡ ok (n, off)
    → times n read_block_tx d off ≡ ok (txs, length d)
    → parse_block d ≡ ok (header_fields d txs)
unfolding parse_block block_txs whole_block
parse_block_steps d n off txs h1 h2 h3 e1 e2 =
    rw
      (
        le→ltb (length d) 81 (omega arith),
        e1,
        le→ltb (length d) off h2,
        le→ltb (length d - off) n h3,
        e2,
        ==_refl (length d),
      )
      refl

module _ (b : Block) (v : IsValidBlock b) where
  abbrev tail : Bytes
  tail = write_counted full b.txs

  length-header : length (serialize_block_header b) ≡ 80
  unfolding serialize_block_header
  length-header = simp length-append (
      omega (
        arith,
        v.prev,
        v.merkle,
        length-write_le32 b.version,
        length-write_le32 b.time,
        length-write_le32 b.bits,
        length-write_le32 b.nonce,
      ))

  -- The bytes from a field on.
  abbrev nonce_on : Bytes
  nonce_on = write_le32 b.nonce ++ tail

  abbrev bits_on : Bytes
  bits_on = write_le32 b.bits ++ nonce_on

  abbrev time_on : Bytes
  time_on = write_le32 b.time ++ bits_on

  abbrev merkle_on : Bytes
  merkle_on = b.merkle ++ time_on

  abbrev prev_on : Bytes
  prev_on = b.prev ++ merkle_on

  abbrev data' : Bytes
  data' = block_bytes b

  data_parts : data' ≡ write_le32 b.version ++ prev_on
  unfolding serialize_block_header
  data_parts = simp append_assoc

  drop-prev : drop 4 data' ≡ prev_on
  drop-prev =
      rw (data_parts, ← length-write_le32 b.version) (drop-append (write_le32 b.version) prev_on)

  drop-merkle : drop 36 data' ≡ merkle_on
  drop-merkle = rw v.prev at (drop_past data' 4 b.prev merkle_on drop-prev)

  drop-time : drop 68 data' ≡ time_on
  drop-time = rw v.merkle at (drop_past data' 36 b.merkle time_on drop-merkle)

  drop-bits : drop 72 data' ≡ bits_on
  drop-bits =
      rw (length-write_le32 b.time) at (drop_past data' 68 (write_le32 b.time) bits_on drop-time)

  drop-nonce : drop 76 data' ≡ nonce_on
  drop-nonce =
      rw (length-write_le32 b.bits) at (drop_past data' 72 (write_le32 b.bits) nonce_on drop-bits)

  drop-tail : drop 80 data' ≡ tail
  drop-tail =
      rw (length-write_le32 b.nonce) at (drop_past data' 76 (write_le32 b.nonce) tail drop-nonce)

  abbrev items : Bytes
  items = write_each full b.txs

  abbrev tag : Bytes
  tag = write_compact_size (length b.txs)

  length-data : length data' ≡ 80 + length tag + length items
  unfolding write_counted
  length-data = omega (
    arith,
    length-header,
    length-append {0} (serialize_block_header b) tail,
    length-append {0} tag items,
  )

  drop-tag : drop 80 data' ≡ tag ++ items
  unfolding write_counted
  drop-tag = drop-tail

  read_tag : read_compact_size data' 80 ≡ ok (length b.txs, 80 + length tag)
  unfolding read_compact_size
  read_tag =
      (read_with-write_compact_size invalid_compact_size (length b.txs) v.count).at data' 80 items
        (omega (arith, length-data)) drop-tag

  read_items :
      times (length b.txs) read_block_tx data' (80 + length tag) ≡ ok (map seen b.txs, length data')
  read_items =
      (Reads-txs b.txs v.readable).at data' (80 + length tag) [] (omega (arith, length-data))
        (drop_past data' 80 tag items drop-tag ∙ sym (append-nil items))
      ∙ ap (λ (n : ℕ). ok (map seen b.txs, n)) (omega (arith, length-data))

  fields : header_fields data' (map seen b.txs) ≡ record b { txs = map seen b.txs }
  unfolding header_fields
  fields = ground (
    arith,
    ap read_le32 data_parts,
    ap (take {A = ℕ} 32) drop-prev,
    ap (take {A = ℕ} 32) drop-merkle,
    ap read_le32 drop-time,
    ap read_le32 drop-bits,
    ap read_le32 drop-nonce,
    rw v.prev at (take-append b.prev merkle_on),
    rw v.merkle at (take-append b.merkle time_on),
    read_le32-write_le32 b.version prev_on v.version,
    read_le32-write_le32 b.time bits_on v.time,
    read_le32-write_le32 b.bits nonce_on v.bits,
    read_le32-write_le32 b.nonce tail v.nonce,
  )

  each_takes : length b.txs ≤ length items
  each_takes = length-write_each full b.txs (λ tx. omega (arith, length-serialize_tx tx true))

  -- `parse_block` of a valid block's header, transaction count and transactions in full form returns
  -- the block, where a transaction that says it has no witness data is without it. A transaction
  -- must say that it has witness data or have an input.
  pub parse_block-block_bytes : parse_block (block_bytes b) ≡ ok (record b { txs = map seen b.txs })
  unfolding parse_block block_txs whole_block
  parse_block-block_bytes =
      parse_block_steps data' (length b.txs) (80 + length tag) (map seen b.txs)
        (omega (arith, length-data, length-write_compact_size_pos (length b.txs)))
        (omega (arith, length-data)) (omega (arith, length-data, each_takes)) read_tag read_items
      ∙ ap ok fields
