-- ===== src/Net/P2p/Canonical.antt =====
-- What `parse_p2p_message` accepts.
use bitcoin_toolkit.Common.{
  ap₂, bytes_eq_iff, ==_iff, err, ok-injective, Result, inl, true, err-ne-ok, bytes_eq, inr,
  take-all, false, ◌==◌, length-drop, ltb, Bool-cases, refl, arith, take-append-drop, drop-drop,
  sym, ◌∙◌, ◌^◌, ap, ◌%◌, ℕ, drop, ◌++◌, ◌+◌, take, ok, length, ◌≡◌, ◌≤◌, IsBytes, Bytes,
}
use bitcoin_toolkit.Common
use bitcoin_toolkit.LittleEndian.{write_le32, read_le32}
use bitcoin_toolkit.LittleEndian.Inverse.{word32}
use bitcoin_toolkit.Net.P2p.{
  P2pMessage, k_mainnet_magic, command_from_header, payload_checksum, serialize_p2p_message,
  parse_payload, parse_p2p_message,
}
use bitcoin_toolkit.Net.P2p.Command.{IsName, command_from_header-canonical}
use bitcoin_toolkit.Net.P2p.Message.{serialize_p2p_message-wire}

-- Four parts of the header and the payload.
split_wire :
    (d : Bytes)
    → IsBytes d
    → 24 ≤ length d
    → d
      ≡ take 4 d
        ++ (take 12 (drop 4 d)
            ++ (write_le32 (read_le32 (drop 16 d)) ++ (take 4 (drop 20 d) ++ drop 24 d)))
split_wire d hb h = sym (
    ap (λ (t : Bytes). take 4 d ++ t)
      (ap (λ (t : Bytes). take 12 (drop 4 d) ++ t)
          (ap (λ (t : Bytes). write_le32 (read_le32 (drop 16 d)) ++ t) (cut 4 20 24 refl)
            ∙ sym (word32 d 16 hb (omega arith)).0)
        ∙ cut 12 4 16 refl)
    ∙ take-append-drop 4 d)
  where
    cut : (n o p : ℕ) → p ≡ o + n → take n (drop o d) ++ drop p d ≡ drop o d
    cut n o p e =
        ap (λ (t : Bytes). take n (drop o d) ++ t)
          (ap (λ (t : ℕ). drop t d) e ∙ sym (drop-drop n o d))
        ∙ take-append-drop n (drop o d)

abbrev join : Bytes → Bytes → Bytes
join a b = a ++ b

-- The facts that an accepted message rests on.
record Accepted (hash256 : Bytes → Bytes) (d : Bytes) (m : P2pMessage) : Type 0 where
  pub size : 24 ≤ length d
  pub magic : take 4 d ≡ k_mainnet_magic
  pub command : command_from_header (drop 4 d) ≡ ok m.command
  pub len : length d ≡ (24 + read_le32 (drop 16 d)) % 2 ^ 32
  pub body : take (read_le32 (drop 16 d)) (drop 24 d) ≡ m.payload
  pub sum : take 4 (drop 20 d) ≡ payload_checksum hash256 m.payload

module _ (hash256 : Bytes → Bytes) (d : Bytes) (m : P2pMessage) where
  accepted_payload :
      (c : Bytes)
      → parse_payload hash256 d c ≡ ok m
      → (c ≡ m.command)
        × (length d ≡ (24 + read_le32 (drop 16 d)) % 2 ^ 32)
        × (take (read_le32 (drop 16 d)) (drop 24 d) ≡ m.payload)
        × (take 4 (drop 20 d) ≡ payload_checksum hash256 m.payload)
  unfolding parse_payload
  accepted_payload c e =
      let n = read_le32 (drop 16 d) in
      let body = take n (drop 24 d) in
      elim (Bool-cases (length d == (24 + n) % 2 ^ 32)) [
        | inr z ↦ absurd (err-ne-ok (rw z at e))
        | inl z ↦
            elim (Bool-cases (bytes_eq (take 4 (drop 20 d)) (payload_checksum hash256 body))) [
              | inr y ↦ absurd (err-ne-ok (rw (z, y) at e))
              | inl y ↦
                  let p = ok-injective (rw (z, y) at e) in
                  (
                    ap (λ (x : P2pMessage). x.command) p,
                    (==_iff (length d) ((24 + n) % 2 ^ 32)).0 z,
                    ap (λ (x : P2pMessage). x.payload) p,
                    (bytes_eq_iff (take 4 (drop 20 d)) (payload_checksum hash256 body)).0 y
                        ∙ ap (λ (x : P2pMessage). payload_checksum hash256 x.payload) p,
                  )
            ]
      ]

  accepted : parse_p2p_message hash256 d ≡ ok m → Accepted hash256 d m
  unfolding parse_p2p_message
  accepted e = elim (Bool-cases (ltb (length d) 24)) [
    | inl z ↦ absurd (err-ne-ok (rw z at e))
    | inr z ↦ elim (Bool-cases (bytes_eq (take 4 d) k_mainnet_magic)) [
      | inr y ↦ absurd (err-ne-ok (rw (z, y) at e))
      | inl y ↦ with_command z y (command_from_header (drop 4 d)) refl (rw (z, y) at e)
    ]
  ]
    where
      with_command :
          ltb (length d) 24 ≡ false
          → bytes_eq (take 4 d) k_mainnet_magic ≡ true
          → (r : Result Bytes) → command_from_header (drop 4 d) ≡ r
          → Common.◌>>=◌ r (parse_payload hash256 d) ≡ ok m
          → Accepted hash256 d m
      with_command z y (err x) r e = absurd (err-ne-ok e)
      with_command z y (ok c) r e =
          let (ec, len, body, sum) = accepted_payload c e in
          record {
            size = ground (arith, z);
            magic = (bytes_eq_iff (take 4 d) k_mainnet_magic).0 y;
            command = r ∙ ap ok ec;
            len = len;
            body = body;
            sum = sum;
          }

  -- The message that `parse_p2p_message` returns for any bytes has a command of at most 12 bytes,
  -- none zero, its payload is all that stands behind the 24 bytes of the header, and
  -- `serialize_p2p_message` gives exactly the bytes that were parsed. A length field near 2 ^ 32,
  -- for which the sum of sizes wraps, is never accepted.
  pub serialize_p2p_message-parse_p2p_message :
      IsBytes d
      → parse_p2p_message hash256 d ≡ ok m
      → IsName m.command
        × (length m.command ≤ 12)
        × (24 + length m.payload ≡ length d)
        × (serialize_p2p_message hash256 m.command m.payload ≡ ok d)
  serialize_p2p_message-parse_p2p_message hb e =
      let a = accepted e in
      let (named, short, cmd) =
        command_from_header-canonical (drop 4 d) m.command
          (omega (arith, a.size, length-drop {0} 4 d)) a.command in
      let n = read_le32 (drop 16 d) in
      let (le, n_lt) = word32 d 16 hb (omega (arith, a.size)) in
      let exact : length d ≡ 24 + n = omega (arith, a.size, a.len, n_lt) in
      let rest_size : length (drop 24 d) ≡ n = omega (arith, exact, length-drop {0} 24 d) in
      let all : m.payload ≡ drop 24 d = sym a.body ∙ rw rest_size at (take-all (drop 24 d)) in
      let n_eq : length m.payload ≡ n = ap (length {A = ℕ}) all ∙ rest_size in
      (
        named,
        short,
        omega (arith, n_eq, exact),
        serialize_p2p_message-wire hash256 m.command m.payload short
            ∙ ap ok (
                ap₂ join (sym a.magic)
                  (ap₂ join (sym cmd) (ap₂ join (ap write_le32 n_eq) (ap₂ join (sym a.sum) all)))
                ∙ sym (split_wire d hb a.size)),
      )
