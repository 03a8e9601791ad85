-- ===== src/Net/P2p.antt =====
-- src/net/p2p.hpp and p2p.cpp: the version message, and messages with their header. Strings are their
-- bytes. `hash256` is a parameter.
pub mod Words
pub mod Version
pub mod Command
pub mod Message
pub mod Canonical
pub mod Socket
pub mod Handshake
pub mod Served
mod Examples
use bitcoin_toolkit.Common.{
  zero, suc, bytes_eq, ◌^◌, false, ◌||◌, err, ◌*◌, not, ◌&&◌, ◌-◌, ◌==◌, length, ◌+◌, ltb, get_or,
  ◌%◌, [], drop, take, replicate, true, ◌++◌, ok, if◌then◌else◌, bit_or, ◌∷◌, btk_error, Result,
  Bool, Bytes, ℕ, BtkError,
}
use bitcoin_toolkit.Common
use bitcoin_toolkit.Reader.{value_of, Reader, continue, ◌>>=◌, ◌>>◌, pure}
use bitcoin_toolkit.LittleEndian.{byte_at, read_le32, read_le64, write_le32, write_le64}
use bitcoin_toolkit.Chain.CompactSize.{write_compact_size, read_with}

abbrev pub invalid_version : BtkError
invalid_version = btk_error "node" "invalid version message"

abbrev pub k_protocol_version : ℕ
k_protocol_version = 70015

abbrev pub k_mainnet_port : ℕ
k_mainnet_port = 8333

abbrev pub k_mainnet_magic : Bytes
k_mainnet_magic = 0xf9 ∷ 0xbe ∷ 0xb4 ∷ 0xd9 ∷ []

pub record NetAddr : Type 0 where
  pub services : ℕ
  pub ip : Bytes
  pub port : ℕ

pub record VersionPayload : Type 0 where
  pub version : ℕ
  pub services : ℕ
  pub timestamp : ℕ
  pub addr_recv : NetAddr
  pub addr_trans : NetAddr
  pub nonce : ℕ
  pub user_agent : Bytes
  pub start_height : ℕ
  pub relay : Bool

pub record P2pMessage : Type 0 where
  pub command : Bytes
  pub payload : Bytes

unfoldable pub put_be16 : ℕ → Bytes
put_be16 v = byte_at v 8 ∷ v % 256 ∷ []

unfoldable pub get_be16 : Bytes → ℕ
get_be16 p = bit_or (get_or p 0 0 * 2 ^ 8) (get_or p 1 0)

-- The same tests and forms as `write_compact_size` and `read_compact_size`, with another error.
unfoldable pub put_compact_size : ℕ → Bytes
put_compact_size = write_compact_size

unfoldable pub get_compact_size : Reader ℕ
get_compact_size = read_with invalid_version

-- `if (off + n > len) fail(...)`
pub need : ℕ → Reader Unit
need n data' off = if ltb (length data') (off + n) then err invalid_version else ok (tt, off)

-- Words and bytes at the offset, with no test.
pub next_le32 : Reader ℕ
next_le32 data' off = ok (read_le32 (drop off data'), off + 4)

pub next_le64 : Reader ℕ
next_le64 data' off = ok (read_le64 (drop off data'), off + 8)

pub next_be16 : Reader ℕ
next_be16 data' off = ok (get_be16 (drop off data'), off + 2)

pub next_bytes : ℕ → Reader Bytes
next_bytes n data' off = ok (take n (drop off data'), off + n)

pub put_net_addr : NetAddr → Bytes
put_net_addr a = write_le64 a.services ++ (a.ip ++ put_be16 a.port)

pub get_net_addr : Reader NetAddr
get_net_addr = do
  need 26
  s ← next_le64
  addr ← next_bytes 16
  p ← next_be16
  pure (record { services = s; ip = addr; port = p })

pub serialize_version_payload : VersionPayload → Bytes
serialize_version_payload msg =
    write_le32 msg.version
    ++ (write_le64 msg.services
        ++ (write_le64 msg.timestamp
            ++ (put_net_addr msg.addr_recv
                ++ (put_net_addr msg.addr_trans
                    ++ (write_le64 msg.nonce
                        ++ (put_compact_size (length msg.user_agent)
                            ++ (msg.user_agent
                                ++ (write_le32 msg.start_height
                                    ++ ((if msg.relay then 1 else 0) ∷ [])))))))))

-- `ua_len > 256 || off + ua_len > len`
pub check_agent : ℕ → Reader Unit
check_agent ua_len data' off =
    if ltb 256 ua_len || ltb (length data') (off + ua_len)
    then err invalid_version
    else ok (tt, off)

-- The last byte may be missing.
pub read_relay : Reader Bool
read_relay data' off =
    ok ((if ltb off (length data') then not (get_or data' off 0 == 0) else false), off)

pub read_version : Reader VersionPayload
read_version = do
  v ← next_le32
  s ← next_le64
  t ← next_le64
  recv ← get_net_addr
  trans ← get_net_addr
  need 8
  n ← next_le64
  ua_len ← get_compact_size
  check_agent ua_len
  agent ← next_bytes ua_len
  need 4
  h ← next_le32
  r ← read_relay
  pure (record {
    version = v;
    services = s;
    timestamp = t;
    addr_recv = recv;
    addr_trans = trans;
    nonce = n;
    user_agent = agent;
    start_height = h;
    relay = r;
  })

pub parse_version_payload : Bytes → Result VersionPayload
parse_version_payload data' =
    if ltb (length data') 85 then err invalid_version else value_of (read_version data' 0)

abbrev invalid_command : BtkError
invalid_command = btk_error "node" "invalid P2P command"

-- `while (n < 12 && cmd[n] != 0) ++n;`, with the rounds left.
pub command_len : ℕ → Bytes → ℕ
command_len zero cmd = 0
command_len (suc k) [] = 0
command_len (suc k) (b ∷ cmd) = let n = command_len k cmd in if b == 0 then 0 else suc n

pub only_zeros : Bytes → Bool
only_zeros [] = true
only_zeros (b ∷ bs) = (b == 0) && only_zeros bs

pub command_from_header : Bytes → Result Bytes
command_from_header cmd =
    let n = command_len 12 cmd in
    if only_zeros (take (12 - n) (drop n cmd)) then ok (take n cmd) else err invalid_command

pub pad_command : Bytes → Result Bytes
pad_command command =
    if ltb 12 (length command)
    then err invalid_command
    else ok (command ++ replicate (12 - length command) 0)

pub ipv4_mapped : ℕ → ℕ → ℕ → ℕ → Bytes
ipv4_mapped a b c d = replicate 10 0 ++ (0xff ∷ 0xff ∷ a ∷ b ∷ c ∷ d ∷ [])

pub is_v4_mapped : Bytes → Bool
is_v4_mapped ip = only_zeros (take 10 ip) && (get_or ip 10 0 == 0xff) && (get_or ip 11 0 == 0xff)

module _ (hash256 : Bytes → Bytes) where
  pub payload_checksum : Bytes → Bytes
  payload_checksum payload = take 4 (hash256 payload)

  pub serialize_p2p_message : Bytes → Bytes → Result Bytes
  serialize_p2p_message command payload = Common.◌>>=◌ (pad_command command) (λ cmd. ok (
      k_mainnet_magic
      ++ (cmd ++ (write_le32 (length payload) ++ (payload_checksum payload ++ payload)))))

  -- The checks behind the command. `24 + payload_len` is a sum of 32 bits.
  pub parse_payload : Bytes → Bytes → Result P2pMessage
  parse_payload data' cmd =
      let payload_len = read_le32 (drop 16 data') in
      let body = take payload_len (drop 24 data') in
      if not (length data' == (24 + payload_len) % 2 ^ 32)
      then err invalid_version
      else if bytes_eq (take 4 (drop 20 data')) (payload_checksum body)
      then ok (record { command = cmd; payload = body })
      else err (btk_error "node" "invalid version checksum")

  pub parse_p2p_message : Bytes → Result P2pMessage
  parse_p2p_message data' =
      if ltb (length data') 24
      then err invalid_version
      else if bytes_eq (take 4 data') k_mainnet_magic
      then Common.◌>>=◌ (command_from_header (drop 4 data')) (parse_payload data')
      else err (btk_error "node" "invalid P2P magic")
