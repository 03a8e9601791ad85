-- ===== src/Chain/Transaction/RoundTrip.antt =====
-- `parse_tx` reads back what `serialize_tx` wrote.
use bitcoin_toolkit.Common.{
  ℕ, ◌^◌, ◌≤◌, ◌<◌, ◌≡◌, ◌≢◌, refl, sym, ap, ◌∙◌, Bool, true, false, ◌&&◌, List, [], ◌∷◌, ◌++◌,
  append-nil, append_assoc, Bytes, All, length, map, arith, length-append, ok, Bool-cases, subst,
  ◌⊎◌, inl, inr, if◌then◌else◌,
}
use bitcoin_toolkit.Reader.{
  Reader, Reads, Reads-bind, Reads-wrap, Reads-check, Reads-look, Reads-pure, pure, ◌>>=◌,
}
use bitcoin_toolkit.LittleEndian.{write_le32, write_le64, length-write_le32, length-write_le64}
use bitcoin_toolkit.Chain.CompactSize.{write_compact_size}
use bitcoin_toolkit.Chain.CompactSize.RoundTrip.{
  write_compact_size_head, length-write_compact_size_pos,
}
use bitcoin_toolkit.Chain.Transaction.{
  TxIn, TxOut, Transaction, flag_byte, read_in, read_out, read_marker, read_bytes, read_witnesses,
  read_tx, counted, write_in, write_out, write_bytes, write_each, write_counted, write_witness,
  write_vin_vout, serialize_tx, parse_tx, parse_tx_prefix,
}
use bitcoin_toolkit.Chain.Transaction.Cursor.{need, peek, le32}
use bitcoin_toolkit.Chain.Transaction.Reads.{
  Reads-u8, Reads-le32, Reads-le64, Reads-copy32, Reads-read_bytes, Reads-counted, need_ok, peek_ok,
}
use bitcoin_toolkit.Chain.Transaction.Valid.{
  IsValidIn, IsValidOut, IsValidTx, without_witness, stripped, length-map, write_in-without_witness,
}

Reads-read_in : (i : TxIn) → IsValidIn i → Reads read_in (write_in i) (without_witness i)
unfolding read_in write_in without_witness
Reads-read_in i v = Reads-bind _ (Reads-copy32 i.prev_txid v.txid) (
    Reads-bind _ (Reads-le32 i.prev_vout v.vout) (
      Reads-bind _ (Reads-read_bytes i.script_sig v.script)
        (Reads-wrap _ (Reads-le32 i.sequence v.seq))))

Reads-read_out : (o : TxOut) → IsValidOut o → Reads read_out (write_out o) o
unfolding read_out write_out
Reads-read_out o v =
    Reads-bind _ (Reads-le64 o.value v.amount)
      (Reads-wrap _ (Reads-read_bytes o.script_pubkey v.script))

-- The marker of a transaction with witness data.
Reads-marker : Reads read_marker (0 ∷ 1 ∷ []) true
unfolding read_marker
Reads-marker =
    Reads-check (need 1) (λ d off rest h e. need_ok d off (0 ∷ 1 ∷ []) rest h e 1 (omega arith))
      (Reads-look peek _ (λ d off rest h e. peek_ok d off 0 (1 ∷ rest) e)
        (Reads-bind _ (Reads-u8 0) (Reads-bind flag_byte (Reads-u8 1) (Reads-pure true))))

-- Without one, the byte behind the version is the first of the input count, which is not 0.
Reads-no_marker :
    {B : Type 0} (f : Bool → Reader B) (b : ℕ) (bs : Bytes) {r : B}
    → b ≢ 0
    → Reads (f false) (b ∷ bs) r
    → Reads (read_marker >>= f) (b ∷ bs) r
unfolding read_marker
Reads-no_marker f b bs nonzero hf =
    Reads-look read_marker f
      (λ d off rest h e.
        ground
          (arith, need_ok d off (b ∷ bs) rest h e 1 (omega arith), peek_ok d off b (bs ++ rest) e))
      hf

length-write_bytes_pos : (bs : Bytes) → 0 < length (write_bytes bs)
unfolding write_bytes
length-write_bytes_pos bs = omega (
  arith,
  length-append {0} (write_compact_size (length bs)) bs,
  length-write_compact_size_pos (length bs),
)

length-write_in_pos : (i : TxIn) → 0 < length (write_in i)
unfolding write_in
length-write_in_pos i = omega (
  arith,
  length-append {0} i.prev_txid
      (write_le32 i.prev_vout ++ (write_bytes i.script_sig ++ write_le32 i.sequence)),
  length-append {0} (write_le32 i.prev_vout) (write_bytes i.script_sig ++ write_le32 i.sequence),
  length-write_le32 i.prev_vout,
)

length-write_out_pos : (o : TxOut) → 0 < length (write_out o)
unfolding write_out
length-write_out_pos o = omega (
  arith,
  length-append {0} (write_le64 o.value) (write_bytes o.script_pubkey),
  length-write_le64 o.value,
)

Reads-read_witnesses :
    (vin : List TxIn)
    → All IsValidIn vin
    → Reads (read_witnesses (map without_witness vin)) (write_each write_witness vin) vin
unfolding read_witnesses write_each write_witness without_witness
Reads-read_witnesses [] v = Reads-pure []
Reads-read_witnesses (i ∷ vin) (v, vs) =
    Reads-bind _
      (Reads-counted read_bytes write_bytes i.witness v.items length-write_bytes_pos
        (items i.witness v.item_sizes))
      (Reads-wrap (λ others. i ∷ others) (Reads-read_witnesses vin vs))
  where
    items :
        (bs : List Bytes)
        → All (λ (b : Bytes). length b < 2 ^ 64) bs
        → All (λ b. Reads read_bytes (write_bytes b) b) bs
    items [] h = tt
    items (b ∷ bs) h = (Reads-read_bytes b h.0, items bs h.1)

ins_read :
    (vin : List TxIn)
    → All IsValidIn vin
    → All (λ i. Reads read_in (write_in i) i) (map without_witness vin)
unfolding write_in without_witness
ins_read [] v = tt
ins_read (i ∷ vin) (v, vs) = (Reads-read_in i v, ins_read vin vs)

outs_read :
    (vout : List TxOut) → All IsValidOut vout → All (λ o. Reads read_out (write_out o) o) vout
outs_read [] v = tt
outs_read (o ∷ vout) (v, vs) = (Reads-read_out o v, outs_read vout vs)

Reads-ins :
    (vin : List TxIn)
    → length vin < 2 ^ 64
    → All IsValidIn vin
    → Reads (counted read_in) (write_counted write_in vin) (map without_witness vin)
unfolding write_counted
Reads-ins vin fits v =
    rw (← write_in-without_witness vin, ← length-map vin)
      (unfold write_counted in
        Reads-counted read_in write_in (map without_witness vin) (rw length-map fits)
          length-write_in_pos (ins_read vin v))

-- With witness data in the serialization.
read_full :
    (tx : Transaction) (include_witness : Bool)
    → IsValidTx tx
    → (include_witness && tx.has_witness) ≡ true
    → tx.has_witness ≡ true
    → Reads read_tx (serialize_tx tx include_witness) tx
unfolding read_tx serialize_tx write_vin_vout
read_full tx include_witness v wit has =
    rw
      (
        wit,
        has,
        append_assoc (write_counted write_in tx.vin) (write_counted write_out tx.vout)
            (write_each write_witness tx.vin ++ write_le32 tx.locktime),
      )
      (Reads-bind _ (Reads-le32 tx.version v.version) (
        Reads-bind _ Reads-marker (
          Reads-bind _ (Reads-ins tx.vin v.ins v.each_in) (
            Reads-bind _
              (Reads-counted read_out write_out tx.vout v.outs length-write_out_pos
                (outs_read tx.vout v.each_out))
              (Reads-bind _ (Reads-read_witnesses tx.vin v.each_in)
                (Reads-wrap _ (Reads-le32 tx.locktime v.locktime)))))))

-- Without witness data: `wit` is the test that `serialize_tx` makes.
read_stripped :
    (tx : Transaction) (include_witness : Bool)
    → IsValidTx tx
    → (include_witness && tx.has_witness) ≡ false
    → 0 < length tx.vin
    → Reads read_tx (serialize_tx tx include_witness) (stripped tx)
unfolding read_tx serialize_tx write_vin_vout stripped
read_stripped tx include_witness v wit some_in =
    let finish = λ (vin : List TxIn) (lock : ℕ). record tx {
      has_witness = false;
      vin = vin;
      locktime = lock;
    } in
    let (b, bs, e, nonzero) = write_compact_size_head (length tx.vin) some_in in
    let outs : Bytes = write_counted write_out tx.vout ++ write_le32 tx.locktime in
    let ins : Bytes = write_each write_in tx.vin ++ outs in
    let first : write_counted write_in tx.vin ++ outs ≡ b ∷ (bs ++ ins) =
      unfold write_counted in
      append_assoc (write_compact_size (length tx.vin)) (write_each write_in tx.vin) outs
      ∙ ap (λ (t : Bytes). t ++ ins) e in
    rw
      (
        wit,
        append_assoc (write_counted write_in tx.vin) (write_counted write_out tx.vout)
            (write_le32 tx.locktime),
      )
      (Reads-bind _ (Reads-le32 tx.version v.version) (
        rw first (
          Reads-no_marker _ b (bs ++ ins) nonzero (
            rw (← first) (
              Reads-bind _ (Reads-ins tx.vin v.ins v.each_in) (
                Reads-bind _
                  (Reads-counted read_out write_out tx.vout v.outs length-write_out_pos
                    (outs_read tx.vout v.each_out))
                  (Reads-bind (λ vin. le32 >>= λ lock. pure (finish vin lock))
                    (Reads-pure (map without_witness tx.vin))
                    (Reads-wrap (finish (map without_witness tx.vin))
                      (Reads-le32 tx.locktime v.locktime)))))))))

-- `serialize_tx` never writes fewer than the 10 bytes that `parse_tx` asks for.
pub length-serialize_tx :
    (tx : Transaction) (include_witness : Bool) → 10 ≤ length (serialize_tx tx include_witness)
unfolding serialize_tx write_vin_vout write_counted
length-serialize_tx tx include_witness = simp length-append (
    omega (
      arith,
      length-write_le32 tx.version,
      length-write_le32 tx.locktime,
      length-write_compact_size_pos (length tx.vin),
      length-write_compact_size_pos (length tx.vout),
    ))

-- What reading back a serialization gives: all of `tx`, or `tx` without its witness data.
abbrev pub visible : Transaction → Bool → Transaction
visible tx include_witness = if include_witness && tx.has_witness then tx else stripped tx

Reads-serialize_tx :
    (tx : Transaction) (include_witness : Bool)
    → IsValidTx tx
    → ((include_witness && tx.has_witness) ≡ true) ⊎ (0 < length tx.vin)
    → Reads read_tx (serialize_tx tx include_witness) (visible tx include_witness)
Reads-serialize_tx tx include_witness v readable =
    elim (Bool-cases (include_witness && tx.has_witness)) [
      | inl wit ↦
          let has : tx.has_witness ≡ true = ground (arith, wit) in
          subst
            (λ b. Reads read_tx (serialize_tx tx include_witness) (if b then tx else stripped tx))
            (sym wit) (read_full tx include_witness v wit has)
      | inr wit ↦
          let some_in : 0 < length tx.vin = ground (arith, wit, readable) in
          subst
            (λ b. Reads read_tx (serialize_tx tx include_witness) (if b then tx else stripped tx))
            (sym wit) (read_stripped tx include_witness v wit some_in)
    ]

-- `parse_tx` with `consumed`, on the bytes that `serialize_tx` writes for a valid transaction and
-- any bytes behind them, returns the transaction and the number of bytes written. Where witness
-- data was not asked for or is not there, the result is the transaction without it; then there
-- must be an input, since an input count of 0 is read as the marker.
pub parse_tx_prefix-serialize_tx :
    (tx : Transaction) (include_witness : Bool) (rest : Bytes)
    → IsValidTx tx
    → ((include_witness && tx.has_witness) ≡ true) ⊎ (0 < length tx.vin)
    → parse_tx_prefix (serialize_tx tx include_witness ++ rest)
      ≡ ok (visible tx include_witness, length (serialize_tx tx include_witness))
unfolding parse_tx_prefix
parse_tx_prefix-serialize_tx tx include_witness rest v readable = ground (
  arith,
  length-append {0} (serialize_tx tx include_witness) rest,
  length-serialize_tx tx include_witness,
  (Reads-serialize_tx tx include_witness v readable).at (serialize_tx tx include_witness ++ rest) 0
      rest (omega arith) refl,
)

-- `parse_tx` of exactly the bytes that `serialize_tx` writes for a valid transaction returns it, or
-- it without its witness data, under the same condition.
pub parse_tx-serialize_tx :
    (tx : Transaction) (include_witness : Bool)
    → IsValidTx tx
    → ((include_witness && tx.has_witness) ≡ true) ⊎ (0 < length tx.vin)
    → parse_tx (serialize_tx tx include_witness) ≡ ok (visible tx include_witness)
unfolding parse_tx
parse_tx-serialize_tx tx include_witness v readable =
    ground (arith, rw append-nil at (parse_tx_prefix-serialize_tx tx include_witness [] v readable))
