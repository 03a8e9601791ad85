-- ===== src/Net/P2p/Examples.antt =====
-- Messages and a handshake at concrete values.
use bitcoin_toolkit.LittleEndian.{read_le32}
use bitcoin_toolkit.Net.P2p.Served.{handshake_version_served}
use bitcoin_toolkit.Net.P2p.Canonical.{serialize_p2p_message-parse_p2p_message}
use bitcoin_toolkit.Net.P2p.Message.{parse_p2p_message-serialize_p2p_message, wire}
use bitcoin_toolkit.Net.P2p.Handshake.{version_command, handshake_version}
use bitcoin_toolkit.Net.P2p.Command.{IsName}
use bitcoin_toolkit.Net.P2p.Version.{
  parse_version_payload-serialize_version_payload, IsValidVersion,
}
use bitcoin_toolkit.Net.P2p.{
  payload_checksum, only_zeros, command_len, command_from_header, parse_payload,
  serialize_p2p_message, serialize_version_payload, parse_p2p_message, parse_version_payload,
  VersionPayload,
}
use bitcoin_toolkit.Common.{
  bytes_eq, ◌+◌, ◌*◌, some, zero, ok, suc, ◌≤◌, ◌≡◌, ◌++◌, refl, true, [], length, ◌∷◌, arith,
  replicate, List, ℕ, Bytes,
}
use bitcoin_toolkit.Net.P2p.Socket.{
  read_exact_ok, write_exact_ok, moves, IsSending, write_exact, read_exact, IsQuiet, Event, moved,
  interrupted,
}

abbrev no_hash : Bytes → Bytes
no_hash bs = replicate 32 0

abbrev peer : VersionPayload
peer = record {
  version = 70016;
  services = 9;
  timestamp = 1700000000;
  addr_recv = record { services = 0; ip = replicate 16 0; port = 0 };
  addr_trans = record { services = 9; ip = replicate 16 1; port = 8333 };
  nonce = 77;
  user_agent = b'/' ∷ b'x' ∷ b'/' ∷ [];
  start_height = 800000;
  relay = true;
}

peer-IsValidVersion : IsValidVersion peer
peer-IsValidVersion = record {
  version = omega arith;
  services = omega arith;
  timestamp = omega arith;
  recv = record { services = omega arith; ip = refl; port = omega arith };
  trans = record { services = omega arith; ip = refl; port = omega arith };
  nonce = omega arith;
  agent = omega arith;
  start = omega arith;
}

parse_version_payload-serialize_version_payload_example :
    parse_version_payload (serialize_version_payload peer ++ (5 ∷ [])) ≡ ok peer
parse_version_payload-serialize_version_payload_example =
    parse_version_payload-serialize_version_payload peer (5 ∷ []) peer-IsValidVersion

-- "ping"
abbrev ping : Bytes
ping = b'p' ∷ b'i' ∷ b'n' ∷ b'g' ∷ []

parse_p2p_message-serialize_p2p_message_example :
    (data' : Bytes) × (serialize_p2p_message no_hash ping (1 ∷ 2 ∷ []) ≡ ok data')
    × (parse_p2p_message no_hash data' ≡ ok (record { command = ping; payload = 1 ∷ 2 ∷ [] }))
parse_p2p_message-serialize_p2p_message_example =
    parse_p2p_message-serialize_p2p_message no_hash (λ bs. refl) ping (1 ∷ 2 ∷ []) (omega arith)
      (omega arith) (omega arith)

abbrev ping_bytes : Bytes
ping_bytes =
    0xf9 ∷ 0xbe ∷ 0xb4 ∷ 0xd9 ∷ b'p' ∷ b'i' ∷ b'n' ∷ b'g' ∷ 0 ∷ 0 ∷ 0 ∷ 0 ∷ 0 ∷ 0 ∷ 0 ∷ 0 ∷ 1 ∷ 0
    ∷ 0 ∷ 0 ∷ 0 ∷ 0 ∷ 0 ∷ 0 ∷ 7 ∷ []

ping_parsed :
    parse_p2p_message no_hash ping_bytes ≡ ok (record { command = ping; payload = 7 ∷ [] })
unfolding parse_p2p_message parse_payload command_from_header command_len only_zeros
    payload_checksum read_le32 bytes_eq
ping_parsed = refl

serialize_p2p_message-parse_p2p_message_example :
    IsName ping
    × (length ping ≤ 12)
    × (25 ≡ length ping_bytes)
    × (serialize_p2p_message no_hash ping (7 ∷ []) ≡ ok ping_bytes)
serialize_p2p_message-parse_p2p_message_example =
    serialize_p2p_message-parse_p2p_message no_hash ping_bytes
      (record { command = ping; payload = 7 ∷ [] }) (omega arith) ping_parsed

-- Chunks of one to six bytes, with interruptions between them.
abbrev calls : ℕ → List Event
calls zero = []
calls (suc n) = interrupted ∷ moved 1 ∷ moved 6 ∷ calls n

calls-IsQuiet : (n : ℕ) → IsQuiet (calls n)
calls-IsQuiet zero = tt
calls-IsQuiet (suc n) = calls-IsQuiet n

calls-IsSending : (n : ℕ) → IsSending (calls n)
calls-IsSending zero = tt
calls-IsSending (suc n) = (omega arith, (omega arith, calls-IsSending n))

moves-calls : (n : ℕ) → moves (calls n) ≡ n * 2
moves-calls zero = omega arith
moves-calls (suc n) = omega (arith, moves-calls n)

read_exact_ok_example :
    (left : List Event) × (read_exact (calls 2) (1 ∷ 2 ∷ 3 ∷ 4 ∷ []) 3 []
      ≡ some (ok (1 ∷ 2 ∷ 3 ∷ [], (4 ∷ [], left))))
    × IsQuiet left
    × (4 ≤ moves left + 3)
read_exact_ok_example =
    read_exact_ok (calls 2) (1 ∷ 2 ∷ 3 ∷ 4 ∷ []) 3 [] tt (omega arith) (omega arith)

write_exact_ok_example :
    (left : List Event) × (write_exact (calls 2) (1 ∷ 2 ∷ 3 ∷ []) []
      ≡ some (ok (1 ∷ 2 ∷ 3 ∷ [], left)))
write_exact_ok_example = write_exact_ok (calls 2) (1 ∷ 2 ∷ 3 ∷ []) [] (omega arith) (omega arith)

handshake_version_served_example :
    handshake_version no_hash 1700000000
      (calls 187)
      (calls 187)
      (wire no_hash version_command (serialize_version_payload peer) ++ (1 ∷ []))
    ≡ some (ok peer)
handshake_version_served_example =
    handshake_version_served no_hash (λ bs. refl) 1700000000 peer (1 ∷ []) (calls 187) (calls 187)
      (omega arith) peer-IsValidVersion (calls-IsSending 187) (omega (arith, moves-calls 187))
      (calls-IsQuiet 187) (omega (arith, moves-calls 187))
