-- ===== src/Net/P2p/Message.antt =====
-- `parse_p2p_message` reads back what `serialize_p2p_message` wrote.
use bitcoin_toolkit.Common.{
  [], append_assoc, take-append, append-nil, bytes_eq_refl, take, drop, length-take, ◌^◌, refl, ◌<◌,
  le→ltb, length-append, ◌+◌, ok, arith, ◌-◌, ◌≡◌, ◌≤◌, replicate, length, ◌++◌, Bytes,
}
use bitcoin_toolkit.Reader.{drop_past}
use bitcoin_toolkit.LittleEndian.{write_le32, read_le32, read_le32-write_le32, length-write_le32}
use bitcoin_toolkit.Net.P2p.{
  k_mainnet_magic, pad_command, command_from_header, payload_checksum, serialize_p2p_message,
  parse_payload, parse_p2p_message,
}
use bitcoin_toolkit.Net.P2p.Command.{IsName, length-replicate, command_from_header-padded}

-- The command in its twelve bytes.
abbrev pub padded : Bytes → Bytes
padded c = c ++ replicate (12 - length c) 0

pub length-padded : (c : Bytes) → length c ≤ 12 → length (padded c) ≡ 12
length-padded c le =
    omega
      (arith, length-append {0} c (replicate (12 - length c) 0), length-replicate (12 - length c) 0)

module _ (hash256 : Bytes → Bytes) where
  -- The message on the wire.
  abbrev pub wire : Bytes → Bytes → Bytes
  wire c payload =
      k_mainnet_magic
      ++ (padded c
          ++ (write_le32 (length payload) ++ (payload_checksum hash256 payload ++ payload)))

  pub serialize_p2p_message-wire :
      (c payload : Bytes)
      → length c ≤ 12
      → serialize_p2p_message hash256 c payload ≡ ok (wire c payload)
  unfolding serialize_p2p_message pad_command
  serialize_p2p_message-wire c payload le = rw (le→ltb 12 (length c) le) refl

  module _ (hash_size : (bs : Bytes) → length (hash256 bs) ≡ 32) (c payload : Bytes)
      (named : IsName c) (short : length c ≤ 12) (fits : length payload + 24 < 2 ^ 32) where
    abbrev sum : Bytes
    sum = payload_checksum hash256 payload

    abbrev w : Bytes
    w = wire c payload

    length-sum : length sum ≡ 4
    unfolding payload_checksum
    length-sum = length-take 4 (hash256 payload) (omega (arith, hash_size payload))

    drop-cmd : drop 4 w ≡ padded c ++ (write_le32 (length payload) ++ (sum ++ payload))
    drop-cmd = refl

    drop-len : drop 16 w ≡ write_le32 (length payload) ++ (sum ++ payload)
    drop-len =
        rw (length-padded c short) at
          (drop_past w 4 (padded c) (write_le32 (length payload) ++ (sum ++ payload)) drop-cmd)

    drop-sum : drop 20 w ≡ sum ++ payload
    drop-sum =
        rw (length-write_le32 (length payload)) at
          (drop_past w 16 (write_le32 (length payload)) (sum ++ payload) drop-len)

    drop-body : drop 24 w ≡ payload
    drop-body = rw length-sum at (drop_past w 20 sum payload drop-sum)

    length-wire : length w ≡ 24 + length payload
    length-wire = simp length-append (
        omega (
          arith,
          length-replicate (12 - length c) 0,
          length-write_le32 (length payload),
          length-sum,
        ))

    read_len : read_le32 (drop 16 w) ≡ length payload
    read_len =
        rw drop-len (read_le32-write_le32 (length payload) (sum ++ payload) (omega (arith, fits)))

    body : take (read_le32 (drop 16 w)) (drop 24 w) ≡ payload
    body = rw (read_len, drop-body) (rw append-nil at (take-append payload []))

    sum_bytes : take 4 (drop 20 w) ≡ sum
    sum_bytes = rw drop-sum (rw length-sum at (take-append sum payload))

    command_read : command_from_header (drop 4 w) ≡ ok c
    command_read =
        rw
          (append_assoc c (replicate (12 - length c) 0)
            (write_le32 (length payload) ++ (sum ++ payload)))
          (command_from_header-padded c (write_le32 (length payload) ++ (sum ++ payload)) named
            short)

    payload_parsed : parse_payload hash256 w c ≡ ok (record { command = c; payload = payload })
    unfolding parse_payload
    payload_parsed = ground (arith, length-wire, read_len, body, sum_bytes, bytes_eq_refl sum)

    -- For a hash of 32 bytes, a command of at most 12 bytes, none zero, and a payload that fits the
    -- 32-bit sum of sizes, `serialize_p2p_message` succeeds and `parse_p2p_message` of its bytes
    -- returns the command and the payload.
    pub parse_p2p_message-serialize_p2p_message :
        (data' : Bytes) × (serialize_p2p_message hash256 c payload ≡ ok data')
        × (parse_p2p_message hash256 data' ≡ ok (record { command = c; payload = payload }))
    unfolding parse_p2p_message
    parse_p2p_message-serialize_p2p_message = (
      w,
      serialize_p2p_message-wire c payload short,
      rw
          (
            le→ltb (length w) 24 (omega (arith, length-wire)),
            bytes_eq_refl k_mainnet_magic,
            command_read,
          )
          payload_parsed,
    )
