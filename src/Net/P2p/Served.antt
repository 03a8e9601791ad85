-- ===== src/Net/P2p/Served.antt =====
-- The handshake with a peer that answers.
use bitcoin_toolkit.Net.P2p.Version.{
  parse_version_payload-serialize_version_payload, length-serialize_version_payload, IsValidVersion,
}
use bitcoin_toolkit.Net.P2p.Message.{serialize_p2p_message-wire, wire}
use bitcoin_toolkit.Common.{
  drop-append_at, take-append_at, ◌∙◌, length-append, ok, append-nil, some, [], ap, ◌++◌, refl,
  arith, List, ◌≤◌, ◌^◌, ◌≡◌, ◌<◌, length, ℕ, Bytes,
}
use bitcoin_toolkit.Net.P2p.Handshake.{
  receive_ok, length-header, header, wire_parts, receive, exchange, version_command,
  handshake_version, after, make_outbound_version,
}
use bitcoin_toolkit.Net.P2p.{serialize_version_payload, VersionPayload, ipv4_mapped}
use bitcoin_toolkit.Net.P2p.Socket.{
  read_exact_ok, write_exact_ok, read_exact, Event, IsQuiet, IsSending, moves,
}

make_outbound_version-IsValidVersion :
    (now : ℕ) → now < 2 ^ 64 → IsValidVersion (make_outbound_version now)
unfolding make_outbound_version ipv4_mapped
make_outbound_version-IsValidVersion now h = record {
  version = omega arith;
  services = omega arith;
  timestamp = h;
  recv = record { services = omega arith; ip = refl; port = omega arith };
  trans = record { services = omega arith; ip = refl; port = omega arith };
  nonce = omega arith;
  agent = omega arith;
  start = omega arith;
}

module _ (hash256 : Bytes → Bytes) (hash_size : (bs : Bytes) → length (hash256 bs) ≡ 32) where
  -- The message that opens the handshake, and its size.
  abbrev opening : ℕ → Bytes
  opening now = wire hash256 version_command (serialize_version_payload (make_outbound_version now))

  length-opening : (now : ℕ) → now < 2 ^ 64 → length (opening now) ≤ 374
  length-opening now h =
      let p = serialize_version_payload (make_outbound_version now) in
      let (lo, hi) =
        length-serialize_version_payload (make_outbound_version now)
          (make_outbound_version-IsValidVersion now h) in
      omega (
        arith,
        hi,
        ap (length {A = ℕ}) (append-nil (opening now)),
        ap (length {A = ℕ}) (wire_parts hash256 hash_size p lo (omega (arith, hi)) []),
        length-header hash256 hash_size p lo (omega (arith, hi)),
        ap (length {A = ℕ}) (append-nil p),
        length-append {0} (header hash256 hash_size p lo (omega (arith, hi))) (p ++ []),
      )

  -- The bytes that a peer answers with are read, however the socket cuts them.
  answer_read :
      (m : VersionPayload) (more : Bytes) (events : List Event)
      → IsValidVersion m
      → IsQuiet events
      → 374 ≤ moves events
      → after hash256
          (read_exact events
            (wire hash256 version_command (serialize_version_payload m) ++ more)
            24
            [])
          (receive hash256)
        ≡ some (ok m)
  unfolding after
  answer_read m more events v q enough =
      let p = serialize_version_payload m in
      let (lo, hi) = length-serialize_version_payload m v in
      let short : length p ≤ 1024 = omega (arith, hi) in
      let h = header hash256 hash_size p lo short in
      let size : length h ≡ 24 = length-header hash256 hash_size p lo short in
      let (left, e, q', m') =
        read_exact_ok events (h ++ (p ++ more)) 24 [] q (omega arith)
          (omega (arith, size, length-append {0} h (p ++ more))) in
      rw
        (
          wire_parts hash256 hash_size p lo short more,
          e,
          take-append_at 24 h (p ++ more) size,
          drop-append_at 24 h (p ++ more) size,
        )
        (receive_ok hash256 hash_size p lo short left more q' (omega (arith, hi))
          ∙ ap some (rw append-nil at (parse_version_payload-serialize_version_payload m [] v)))

  -- `handshake_version` on a connected socket, at any time below 2 ^ 64, returns the version message
  -- `m` of a peer that sends it, for any valid `m` and whatever the peer sends behind it. No socket
  -- call fails, each `send` takes a byte at least, and there are calls enough for the bytes; how they
  -- cut the streams does not matter. The hash has 32 bytes.
  pub handshake_version_served :
      (now : ℕ) (m : VersionPayload) (more : Bytes) (send_events recv_events : List Event)
      → now < 2 ^ 64
      → IsValidVersion m
      → IsSending send_events
      → 374 ≤ moves send_events
      → IsQuiet recv_events
      → 374 ≤ moves recv_events
      → handshake_version hash256 now send_events recv_events
          (wire hash256 version_command (serialize_version_payload m) ++ more)
        ≡ some (ok m)
  unfolding handshake_version after exchange
  handshake_version_served now m more send_events recv_events t v s enough q calls =
      let (left, sent) =
        write_exact_ok send_events (opening now) [] s (omega (arith, length-opening now t)) in
      rw
        (
          serialize_p2p_message-wire hash256 version_command
              (serialize_version_payload (make_outbound_version now)) (omega arith),
          sent,
        )
        (answer_read m more recv_events v q calls)
