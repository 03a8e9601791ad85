-- ===== src/Net/P2p/Version.antt =====
-- `parse_version_payload` reads back what `serialize_version_payload` wrote.
use bitcoin_toolkit.Common.{
  false, true, drop-eq-cons, [], ◌∷◌, if◌then◌else◌, le→ltb, refl, ◌++◌, drop, ok, ℕ, length-append,
  ◌≤◌, Bytes, ◌≡◌, ◌^◌, Bool, arith, length, ◌<◌,
}
use bitcoin_toolkit.Reader.{
  value_of, Gives, Gives-bind, Gives-check, fits_past, Reads, Reads-bind, Reads-wrap, Reads-check,
  pure, ◌>>=◌,
}
use bitcoin_toolkit.LittleEndian.{length-write_le32, length-write_le64}
use bitcoin_toolkit.Chain.CompactSize.RoundTrip.{
  length-write_compact_size_le, length-write_compact_size_pos,
}
use bitcoin_toolkit.Net.P2p.{
  NetAddr, VersionPayload, put_net_addr, get_net_addr, put_be16, put_compact_size, need,
  check_agent, read_relay, read_version, serialize_version_payload, parse_version_payload,
}
use bitcoin_toolkit.Net.P2p.Words.{
  Reads-next_le32, Reads-next_le64, Reads-next_be16, Reads-next_bytes, Reads-get_compact_size,
  need_ok,
}

pub record IsValidAddr (a : NetAddr) : Type 0 where
  pub services : a.services < 2 ^ 64
  pub ip : length a.ip ≡ 16
  pub port : a.port < 2 ^ 16

pub record IsValidVersion (m : VersionPayload) : Type 0 where
  pub version : m.version < 2 ^ 32
  pub services : m.services < 2 ^ 64
  pub timestamp : m.timestamp < 2 ^ 64
  pub recv : IsValidAddr m.addr_recv
  pub trans : IsValidAddr m.addr_trans
  pub nonce : m.nonce < 2 ^ 64
  pub agent : length m.user_agent ≤ 256
  pub start : m.start_height < 2 ^ 32

length-put_net_addr : (a : NetAddr) → IsValidAddr a → length (put_net_addr a) ≡ 26
unfolding put_net_addr put_be16
length-put_net_addr a v = simp length-append (omega (arith, length-write_le64 a.services, v.ip))

Reads-get_net_addr : (a : NetAddr) → IsValidAddr a → Reads get_net_addr (put_net_addr a) a
unfolding get_net_addr put_net_addr
Reads-get_net_addr a v =
    Reads-check (need 26)
      (λ d off rest h e.
        need_ok 26 d off (put_net_addr a) rest h e (omega (arith, length-put_net_addr a v)))
      (Reads-bind _ (Reads-next_le64 a.services v.services) (
        Reads-bind _ (Reads-next_bytes 16 a.ip v.ip)
          (Reads-wrap _ (Reads-next_be16 a.port v.port))))

-- The relay byte gives the flag back, and no step follows.
Gives-read_relay :
    {B : Type 0} (g : Bool → B) (r : Bool)
    → Gives (read_relay >>= λ x. pure (g x)) ((if r then 1 else 0) ∷ []) (g r)
unfolding read_relay value_of
Gives-read_relay g true = record {
  at = λ d off rest h e. let (first, len) = drop-eq-cons off d 0 e in ground (arith, first, len);
}
Gives-read_relay g false = record {
  at = λ d off rest h e. let (first, len) = drop-eq-cons off d 0 e in ground (arith, first, len);
}

check_agent_ok :
    (d : Bytes) (off : ℕ) (agent more rest : Bytes)
    → length agent ≤ 256
    → off ≤ length d
    → drop off d ≡ (agent ++ more) ++ rest
    → check_agent (length agent) d off ≡ ok (tt, off)
unfolding check_agent
check_agent_ok d off agent more rest le h e =
    ground (arith, fits_past d off (agent ++ more) rest h e, length-append {0} agent more)

Gives-read_version :
    (m : VersionPayload) → IsValidVersion m → Gives read_version (serialize_version_payload m) m
unfolding read_version serialize_version_payload
Gives-read_version m v = Gives-bind _ (Reads-next_le32 m.version v.version) (
    Gives-bind _ (Reads-next_le64 m.services v.services) (
      Gives-bind _ (Reads-next_le64 m.timestamp v.timestamp) (
        Gives-bind _ (Reads-get_net_addr m.addr_recv v.recv) (
          Gives-bind _ (Reads-get_net_addr m.addr_trans v.trans) (
            Gives-check (need 8)
              (λ d off rest h e.
                need_ok 8 d off _ rest h e
                  (simp length-append (omega (arith, length-write_le64 m.nonce))))
              (Gives-bind _ (Reads-next_le64 m.nonce v.nonce) (
                Gives-bind _ (Reads-get_compact_size (length m.user_agent) (omega (arith, v.agent)))
                  (Gives-check (check_agent (length m.user_agent))
                    (λ d off rest h e. check_agent_ok d off m.user_agent _ rest v.agent h e)
                    (Gives-bind _ (Reads-next_bytes (length m.user_agent) m.user_agent refl) (
                      Gives-check (need 4)
                        (λ d off rest h e.
                          need_ok 4 d off _ rest h e
                            (simp length-append (omega (arith, length-write_le32 m.start_height))))
                        (Gives-bind _ (Reads-next_le32 m.start_height v.start)
                          (Gives-read_relay _ m.relay))))))))))))

pub length-serialize_version_payload :
    (m : VersionPayload)
    → IsValidVersion m
    → (85 ≤ length (serialize_version_payload m)) × (length (serialize_version_payload m) ≤ 350)
unfolding serialize_version_payload put_compact_size
length-serialize_version_payload m v = simp length-append (
    omega (
      arith,
      length-write_le32 m.version,
      length-write_le32 m.start_height,
      length-write_le64 m.services,
      length-write_le64 m.timestamp,
      length-write_le64 m.nonce,
      length-put_net_addr m.addr_recv v.recv,
      length-put_net_addr m.addr_trans v.trans,
      length-write_compact_size_pos (length m.user_agent),
      length-write_compact_size_le (length m.user_agent),
      v.agent,
    ))

-- `parse_version_payload` of the bytes that `serialize_version_payload` writes for a valid message
-- returns the message, whatever follows. A message is valid where its fields have their widths and
-- its user agent is at most 256 bytes.
pub parse_version_payload-serialize_version_payload :
    (m : VersionPayload) (rest : Bytes)
    → IsValidVersion m
    → parse_version_payload (serialize_version_payload m ++ rest) ≡ ok m
unfolding parse_version_payload
parse_version_payload-serialize_version_payload m rest v =
    rw
      (le→ltb (length (serialize_version_payload m ++ rest)) 85 (
        omega (
          arith,
          length-append {0} (serialize_version_payload m) rest,
          length-serialize_version_payload m v,
        )))
      ((Gives-read_version m v).at (serialize_version_payload m ++ rest) 0 rest (omega arith) refl)
