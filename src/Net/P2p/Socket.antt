-- ===== src/Net/P2p/Socket.antt =====
-- src/net/p2p.cpp: `write_exact` and `read_exact` over what the socket calls return, one event for each
-- call. A run of the events that is too short leaves the loop waiting: `none`.
use bitcoin_toolkit.Common.{
  take-append-drop, ap₂, drop-drop, take-split, ◌∙◌, ◌<◌, append_assoc, length-drop, arith,
  append-nil, sym, ap, ◌+◌, ◌-◌, zero, take, drop, ◌++◌, none, ◌∷◌, ◌≡◌, ok, err, [], length, some,
  ◌≤◌, suc, btk_error, Option, Bytes, List, BtkError, Result, ℕ,
}
use Prim.Native.Nat.{min}

pub data Event : Type 0 where
  -- A call that moves bytes, at most this many.
  moved : ℕ → Event
  -- `EINTR`
  interrupted : Event
  timed_out : Event
  failed : Event

abbrev pub fail_with : {A : Type 0} → BtkError → Option (Result A)
fail_with e = some (err e)

abbrev pub timed_out_error : BtkError
timed_out_error = btk_error "node" "timed out after 15s"

abbrev pub peer_closed : BtkError
peer_closed = btk_error "node" "peer closed connection"

-- The bytes that one `send` takes of those left.
pub write_exact : List Event → Bytes → Bytes → Option (Result (Bytes × List Event))
write_exact events [] sent = some (ok (sent, events))
write_exact [] (b ∷ left) sent = none
write_exact (interrupted ∷ events) (b ∷ left) sent = write_exact events (b ∷ left) sent
write_exact (timed_out ∷ events) (b ∷ left) sent = fail_with timed_out_error
write_exact (failed ∷ events) (b ∷ left) sent = fail_with (btk_error "node" "write failed")
write_exact (moved zero ∷ events) (b ∷ left) sent = fail_with peer_closed
write_exact (moved (suc k) ∷ events) (b ∷ left) sent =
    write_exact events (drop k left) (sent ++ b ∷ take k left)

-- What a `recv` of at most `n` bytes takes of those that the peer has sent: one byte at least.
chunk : ℕ → ℕ → Bytes → ℕ
chunk k n incoming = min (suc k) (min n (length incoming))

-- The bytes read, the ones still to arrive, and the events left.
abbrev pub Read : Type 0
Read = Bytes × (Bytes × List Event)

pub read_exact : List Event → Bytes → ℕ → Bytes → Option (Result Read)
unfolding chunk
read_exact events incoming zero acc = some (ok (acc, (incoming, events)))
read_exact [] incoming (suc n) acc = none
read_exact (interrupted ∷ events) incoming (suc n) acc = read_exact events incoming (suc n) acc
read_exact (timed_out ∷ events) incoming (suc n) acc = fail_with timed_out_error
read_exact (failed ∷ events) incoming (suc n) acc = fail_with (btk_error "node" "read failed")
read_exact (moved k ∷ events) [] (suc n) acc = fail_with peer_closed
read_exact (moved k ∷ events) (b ∷ incoming) (suc n) acc =
    let r = chunk k (suc n) (b ∷ incoming) in
    read_exact events (drop r (b ∷ incoming)) (suc n - r) (acc ++ take r (b ∷ incoming))

-- No call fails.
abbrev pub IsQuiet : List Event → Type 0
IsQuiet [] = Unit
IsQuiet (moved k ∷ es) = IsQuiet es
IsQuiet (interrupted ∷ es) = IsQuiet es
IsQuiet (timed_out ∷ es) = ⊥
IsQuiet (failed ∷ es) = ⊥

-- The calls that move bytes.
abbrev pub moves : List Event → ℕ
moves [] = 0
moves (moved k ∷ es) = suc (moves es)
moves (interrupted ∷ es) = moves es
moves (timed_out ∷ es) = moves es
moves (failed ∷ es) = moves es

-- `read_exact` returns the next `n` bytes of the stream, and leaves the rest, however the calls cut
-- them, where no call fails, the peer sends `n` bytes, and there are calls enough.
pub read_exact_ok :
    (events : List Event) (incoming : Bytes) (n : ℕ) (acc : Bytes)
    → IsQuiet events
    → n ≤ moves events
    → n ≤ length incoming
    → (left : List Event) × (read_exact events incoming n acc
        ≡ some (ok (acc ++ take n incoming, (drop n incoming, left))))
      × IsQuiet left
      × (moves events ≤ moves left + n)
unfolding read_exact
read_exact_ok events incoming zero acc q m h = (
  events,
  ap (λ (t : Bytes). some (ok (t, (incoming, events)))) (sym (append-nil acc)),
  q,
  omega arith,
)
read_exact_ok [] incoming (suc n) acc q m h = absurd (omega arith)
read_exact_ok (interrupted ∷ events) incoming (suc n) acc q m h =
    read_exact_ok events incoming (suc n) acc q m h
read_exact_ok (timed_out ∷ events) incoming (suc n) acc q m h = absurd q
read_exact_ok (failed ∷ events) incoming (suc n) acc q m h = absurd q
read_exact_ok (moved k ∷ events) [] (suc n) acc q m h = absurd (omega arith)
read_exact_ok (moved k ∷ events) (b ∷ incoming) (suc n) acc q m h =
    let r = chunk k (suc n) (b ∷ incoming) in
    let (left, e, q', m') =
      read_exact_ok events (drop r (b ∷ incoming)) (suc n - r) (acc ++ take r (b ∷ incoming)) q
        (omega arith) (omega (arith, length-drop {0} r (b ∷ incoming))) in
    let inc = b ∷ incoming in
    let taken : (acc ++ take r inc) ++ take (suc n - r) (drop r inc) ≡ acc ++ take (suc n) inc =
      append_assoc acc (take r inc) (take (suc n - r) (drop r inc))
      ∙ ap (λ (t : Bytes). acc ++ t) (sym (take-split r (suc n - r) (suc n) inc (omega arith))) in
    let past : drop (suc n - r) (drop r inc) ≡ drop (suc n) inc =
      drop-drop (suc n - r) r inc
      ∙ ap (λ (t : ℕ). drop t inc) {x = r + (suc n - r)} {y = suc n} (omega arith) in
    (left, e ∙ ap₂ (λ (t u : Bytes). some (ok (t, (u, left)))) taken past, q', omega arith)

-- `write_exact` sends all the bytes in order, where no call fails, each takes a byte at least, and
-- there are calls enough.
abbrev pub IsSending : List Event → Type 0
IsSending [] = Unit
IsSending (moved k ∷ es) = (0 < k) × IsSending es
IsSending (interrupted ∷ es) = IsSending es
IsSending (timed_out ∷ es) = ⊥
IsSending (failed ∷ es) = ⊥

pub write_exact_ok :
    (events : List Event) (bs sent : Bytes)
    → IsSending events
    → length bs ≤ moves events
    → (left : List Event) × (write_exact events bs sent ≡ some (ok (sent ++ bs, left)))
unfolding write_exact
write_exact_ok events [] sent q m =
    (events, ap (λ (t : Bytes). some (ok (t, events))) (sym (append-nil sent)))
write_exact_ok [] (b ∷ bs) sent q m = absurd (omega arith)
write_exact_ok (interrupted ∷ events) (b ∷ bs) sent q m = write_exact_ok events (b ∷ bs) sent q m
write_exact_ok (timed_out ∷ events) (b ∷ bs) sent q m = absurd q
write_exact_ok (failed ∷ events) (b ∷ bs) sent q m = absurd q
write_exact_ok (moved zero ∷ events) (b ∷ bs) sent q m = absurd (omega arith)
write_exact_ok (moved (suc k) ∷ events) (b ∷ bs) sent (pos, q) m =
    let (left, e) =
      write_exact_ok events (drop k bs) (sent ++ b ∷ take k bs) q
        (omega (arith, length-drop {0} k bs)) in
    (
      left,
      e
          ∙ ap (λ (t : Bytes). some (ok (t, left)))
              (append_assoc sent (b ∷ take k bs) (drop k bs)
                ∙ ap (λ (t : Bytes). sent ++ b ∷ t) (take-append-drop k bs)),
    )
