-- ===== src/Chain/Sync/Display.antt =====
-- src/chain/sync.cpp: hashes as an RPC server shows them, with the bytes in reverse.
use bitcoin_toolkit.Core.Hex.RoundTrip.{hex_decode-hex_encode}
use Prim.Native.String.{String}
use mathlib.Core.List.{reverse, reverse_aux, reverse-reverse}
use bitcoin_toolkit.Core.Hex.{hex_decode, hex_encode}
use bitcoin_toolkit.Common.{
  ap, [], arith, ◌+◌, ◌∷◌, ◌≡◌, IsBytes, btk_error, err, ◌==◌, length, if◌then◌else◌, ok, Result,
  Bytes,
}

checked_hash : String → Result Bytes → Result Bytes
checked_hash command (ok b) =
    if length b == 32 then ok (reverse b) else err (btk_error command "invalid rpc response")
checked_hash command (err e) = err (btk_error command "invalid rpc response")

pub hash_from_display : String → Bytes → Result Bytes
unfolding checked_hash
hash_from_display command hex = checked_hash command (hex_decode hex)

unfoldable pub hash_to_display : Bytes → Bytes
hash_to_display h = hex_encode (reverse h)

reverse_aux-IsBytes : (xs acc : Bytes) → IsBytes xs → IsBytes acc → IsBytes (reverse_aux xs acc)
reverse_aux-IsBytes [] acc h k = k
reverse_aux-IsBytes (x ∷ xs) acc h k = reverse_aux-IsBytes xs (x ∷ acc) h.1 (h.0, k)

pub length-reverse_aux : (xs acc : Bytes) → length (reverse_aux xs acc) ≡ length xs + length acc
length-reverse_aux [] acc = omega arith
length-reverse_aux (x ∷ xs) acc = omega (arith, length-reverse_aux xs (x ∷ acc))

-- `hash_from_display` reads back what `hash_to_display` shows for a hash of 32 bytes.
pub hash_from_display-hash_to_display :
    (command : String) (h : Bytes)
    → IsBytes h
    → length h ≡ 32
    → hash_from_display command (hash_to_display h) ≡ ok h
unfolding hash_from_display hash_to_display
hash_from_display-hash_to_display command h bytes size =
    let shown : length (reverse h) ≡ 32 = omega (arith, length-reverse_aux h []) in
    rw (hex_decode-hex_encode (reverse h) (reverse_aux-IsBytes h [] bytes tt), shown)
      (ap ok (reverse-reverse h))
