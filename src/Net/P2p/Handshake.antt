-- ===== src/Net/P2p/Handshake.antt =====
-- src/net/p2p.cpp: `handshake_version` from the connected socket on: what is sent, and what is made of
-- the peer's answer.
use bitcoin_toolkit.Net.P2p.Command.{command_from_header-padded}
use bitcoin_toolkit.Net.P2p.Message.{wire, padded}
use bitcoin_toolkit.Common.{
  le→ltb, append_assoc, take-append, refl, arith, take-all, bytes_eq_refl, length-append,
  length-take, ◌++◌, ◌≤◌, ◌≡◌, length, btk_error, ◌||◌, ltb, not, none, drop, ok, take, err,
  bytes_eq, some, if◌then◌else◌, [], List, Option, Result, false, ◌∷◌, ℕ, Bytes,
}
use Prim.Native.String.{String}
use bitcoin_toolkit.Common
use bitcoin_toolkit.Reader.{drop_past}
use bitcoin_toolkit.LittleEndian.{read_le32, read_le32-write_le32, write_le32, length-write_le32}
use bitcoin_toolkit.Net.P2p.{
  invalid_version, VersionPayload, k_mainnet_magic, k_mainnet_port, k_protocol_version, NetAddr,
  ipv4_mapped, command_from_header, payload_checksum, parse_version_payload,
  serialize_version_payload, serialize_p2p_message,
}
use bitcoin_toolkit.Net.P2p.Socket.{
  read_exact_ok, Event, Read, read_exact, write_exact, IsQuiet, moves,
}

-- "/Bitcoin-Toolkit:4.2.0/"
abbrev pub default_user_agent : Bytes
default_user_agent =
    b'/' ∷ b'B' ∷ b'i' ∷ b't' ∷ b'c' ∷ b'o' ∷ b'i' ∷ b'n' ∷ b'-' ∷ b'T' ∷ b'o' ∷ b'o' ∷ b'l' ∷ b'k'
    ∷ b'i' ∷ b't' ∷ b':' ∷ b'4' ∷ b'.' ∷ b'2' ∷ b'.' ∷ b'0' ∷ b'/' ∷ []

abbrev pub local_addr : NetAddr
local_addr = record { services = 0; ip = ipv4_mapped 127 0 0 1; port = k_mainnet_port }

unfoldable pub make_outbound_version : ℕ → VersionPayload
make_outbound_version timestamp = record {
  version = k_protocol_version;
  services = 0;
  timestamp = timestamp;
  addr_recv = local_addr;
  addr_trans = local_addr;
  nonce = 0;
  user_agent = default_user_agent;
  start_height = 0;
  relay = false;
}

-- "version"
abbrev pub version_command : Bytes
version_command = b'v' ∷ b'e' ∷ b'r' ∷ b's' ∷ b'i' ∷ b'o' ∷ b'n' ∷ []

abbrev node_error : {A : Type 0} → String → Result A
node_error message = err (btk_error "node" message)

-- The checks on the 24 bytes of the header: the length of the payload.
check_header : Bytes → Result ℕ
check_header header =
    if bytes_eq (take 4 header) k_mainnet_magic
    then Common.◌>>=◌ (command_from_header (drop 4 header)) (λ command.
      let payload_len = read_le32 (drop 16 header) in
      if not (bytes_eq command version_command)
      then node_error "expected version message"
      else if ltb payload_len 85 || ltb 1024 payload_len
      then err invalid_version
      else ok payload_len)
    else node_error "invalid P2P magic"

module _ (hash256 : Bytes → Bytes) where
  check_payload : Bytes → Bytes → Result VersionPayload
  check_payload header payload =
      if bytes_eq (take 4 (drop 20 header)) (payload_checksum hash256 payload)
      then parse_version_payload payload
      else node_error "invalid version checksum"

  -- The sequence of the calls; `none` while the socket waits.
  unfoldable pub after :
      {A B : Type 0} → Option (Result A) → (A → Option (Result B)) → Option (Result B)
  after none f = none
  after (some (err e)) f = some (err e)
  after (some (ok a)) f = f a

  pub receive : Read → Option (Result VersionPayload)
  unfolding after check_header check_payload
  receive (header, (incoming, events)) = after (some (check_header header)) (λ payload_len.
      after (read_exact events incoming payload_len []) (λ r. some (check_payload header r.0)))

  unfoldable pub exchange : Bytes → List Event → List Event → Bytes → Option (Result VersionPayload)
  unfolding after receive
  exchange wire send_events recv_events incoming =
      after (write_exact send_events wire [])
        (λ _. after (read_exact recv_events incoming 24 []) receive)

  -- From the time to the peer's version message.
  unfoldable pub handshake_version :
      ℕ → List Event → List Event → Bytes → Option (Result VersionPayload)
  unfolding exchange
  handshake_version now send_events recv_events incoming =
      after
        (some (
          serialize_p2p_message hash256 version_command
            (serialize_version_payload (make_outbound_version now))))
        (λ wire. exchange wire send_events recv_events incoming)

-- The header of a message, and what the checks make of it.
module _ (hash256 : Bytes → Bytes) (hash_size : (bs : Bytes) → length (hash256 bs) ≡ 32)
    (payload : Bytes) (long : 85 ≤ length payload) (short : length payload ≤ 1024) where
  abbrev pub sum : Bytes
  sum = payload_checksum hash256 payload

  abbrev pub header : Bytes
  header = k_mainnet_magic ++ (padded version_command ++ (write_le32 (length payload) ++ sum))

  pub wire_parts :
      (more : Bytes) → wire hash256 version_command payload ++ more ≡ header ++ (payload ++ more)
  wire_parts more = simp append_assoc

  length-sum : length sum ≡ 4
  unfolding payload_checksum
  length-sum = length-take 4 (hash256 payload) (omega (arith, hash_size payload))

  pub length-header : length header ≡ 24
  length-header = simp length-append (omega (arith, length-write_le32 (length payload), length-sum))

  drop-len : drop 16 header ≡ write_le32 (length payload) ++ sum
  drop-len = refl

  drop-sum : drop 20 header ≡ sum
  drop-sum =
      rw (length-write_le32 (length payload)) at
        (drop_past header 16 (write_le32 (length payload)) sum drop-len)

  check_header_ok : check_header header ≡ ok (length payload)
  unfolding check_header
  check_header_ok =
      rw
        (
          bytes_eq_refl k_mainnet_magic,
          command_from_header-padded version_command (write_le32 (length payload) ++ sum)
              (omega arith) (omega arith),
          bytes_eq_refl version_command,
          drop-len,
          read_le32-write_le32 (length payload) sum (omega arith),
          le→ltb (length payload) 85 long,
          le→ltb 1024 (length payload) short,
        )
        refl

  check_payload_ok : check_payload hash256 header payload ≡ parse_version_payload payload
  unfolding check_payload
  check_payload_ok = rw (drop-sum, rw length-sum at (take-all sum), bytes_eq_refl sum) refl

  pub receive_ok :
      (events : List Event) (more : Bytes)
      → IsQuiet events
      → length payload ≤ moves events
      → receive hash256 (header, (payload ++ more, events)) ≡ some (parse_version_payload payload)
  unfolding receive after
  receive_ok events more q m =
      let (left, e, q', m') =
        read_exact_ok events (payload ++ more) (length payload) [] q m
          (omega (arith, length-append {0} payload more)) in
      rw (check_header_ok, e, take-append payload more, check_payload_ok) refl
