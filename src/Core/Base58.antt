-- ===== src/Core/Base58.antt =====
-- src/core/base58.cpp. The buffers b58 and b256 are kept with their last digit first, so that the loop
-- over k from the end of the buffer is recursion on the digits.
pub mod Digits
pub mod Convert
pub mod Canonical
pub mod Room
pub mod RoundTrip
pub mod Check
mod Examples
use bitcoin_toolkit.Common.{
  ◌%◌, drop, ◌||◌, bytes_eq, not, ltb, ◌/◌, none, ◌-◌, some, ◌*◌, suc, ◌&&◌, ◌>>=◌, ok, err, length,
  get_or, ◌+◌, ◌==◌, leb, [], ◌++◌, Result, replicate, take, if◌then◌else◌, ◌∷◌, btk_error, Option,
  List, ℕ, Bytes, BtkError,
}
use mathlib.Core.List.{reverse}

abbrev pub invalid_base58 : BtkError
invalid_base58 = btk_error "" "invalid base58"

abbrev pub invalid_checksum : BtkError
invalid_checksum = btk_error "" "invalid WIF checksum"

-- "123456789ABCDEFGHJKLMNPQRSTUVWXYZabcdefghijkmnopqrstuvwxyz"
abbrev pub alphabet : Bytes
alphabet =
    b'1' ∷ b'2' ∷ b'3' ∷ b'4' ∷ b'5' ∷ b'6' ∷ b'7' ∷ b'8' ∷ b'9' ∷ b'A' ∷ b'B' ∷ b'C' ∷ b'D' ∷ b'E'
    ∷ b'F' ∷ b'G' ∷ b'H' ∷ b'J' ∷ b'K' ∷ b'L' ∷ b'M' ∷ b'N' ∷ b'P' ∷ b'Q' ∷ b'R' ∷ b'S' ∷ b'T'
    ∷ b'U' ∷ b'V' ∷ b'W' ∷ b'X' ∷ b'Y' ∷ b'Z' ∷ b'a' ∷ b'b' ∷ b'c' ∷ b'd' ∷ b'e' ∷ b'f' ∷ b'g'
    ∷ b'h' ∷ b'i' ∷ b'j' ∷ b'k' ∷ b'm' ∷ b'n' ∷ b'o' ∷ b'p' ∷ b'q' ∷ b'r' ∷ b's' ∷ b't' ∷ b'u'
    ∷ b'v' ∷ b'w' ∷ b'x' ∷ b'y' ∷ b'z' ∷ []

-- `none` stands for -1.
pub alphabet_value : ℕ → Option ℕ
alphabet_value c =
    if leb b'1' c && leb c b'9'
    then some (c - b'1')
    else if leb b'A' c && leb c b'H'
    then some (c - b'A' + 9)
    else if leb b'J' c && leb c b'N'
    then some (c - b'J' + 17)
    else if leb b'P' c && leb c b'Z'
    then some (c - b'P' + 22)
    else if leb b'a' c && leb c b'k'
    then some (c - b'a' + 33)
    else if leb b'm' c && leb c b'z'
    then some (c - b'm' + 44)
    else none

-- How many items at the front are the given one, and what follows them.
pub count_front : ℕ → Bytes → ℕ
count_front z [] = 0
count_front z (x ∷ xs) = if x == z then suc (count_front z xs) else 0

pub skip_front : ℕ → Bytes → Bytes
skip_front z [] = []
skip_front z (x ∷ xs) = let rest = skip_front z xs in if x == z then rest else x ∷ xs

module _ (base mul : ℕ) where
  -- The loop over k: multiplies the digits by `mul` and adds the carry, from the digit at `j` on. It
  -- ends at the end of the buffer, or where there is no carry and `j` has reached `length`.
  pub carry_loop : ℕ → ℕ → ℕ → List ℕ → List ℕ × ℕ
  carry_loop len carry j [] = ([], j)
  carry_loop len carry j (d ∷ ds) =
      let (rest, j') = carry_loop len ((carry + mul * d) / base) (suc j) ds in
      if not (carry == 0) || ltb j len then ((carry + mul * d) % base ∷ rest, j') else (d ∷ ds, j)

  -- The loop over i.
  pub convert : List ℕ → List ℕ × ℕ → List ℕ × ℕ
  unfolding carry_loop
  convert [] (ds, len) = (ds, len)
  convert (v ∷ vs) (ds, len) = convert vs (carry_loop len v 0 ds)

-- The digits found, the first one first and without zeros at the front.
pub found_digits : List ℕ × ℕ → List ℕ
unfolding skip_front
found_digits (ds, len) = skip_front 0 (reverse (take len ds))

pub letters : List ℕ → Bytes
letters [] = []
letters (d ∷ ds) = get_or alphabet d 0 ∷ letters ds

pub base58_encode : Bytes → Bytes
unfolding count_front skip_front convert found_digits letters
base58_encode d =
    let rest = skip_front 0 d in
    replicate (count_front 0 d) b'1'
    ++ letters (found_digits (convert 58 256 rest (replicate (length rest * 138 / 100 + 2) 0, 0)))

pub value_before : Option ℕ → Result (List ℕ) → Result (List ℕ)
value_before none others = err invalid_base58
value_before (some v) others = do vs ← others; ok (v ∷ vs)

-- The values of the letters, in order.
pub values : Bytes → Result (List ℕ)
unfolding alphabet_value value_before
values [] = ok []
values (c ∷ cs) = value_before (alphabet_value c) (values cs)

-- The letters are read as the loop goes; an error leaves nothing behind.
pub base58_decode : Bytes → Result Bytes
unfolding count_front skip_front convert found_digits values
base58_decode s = do
  let rest = skip_front b'1' s
  vs ← values rest
  ok (
      replicate (count_front b'1' s) 0
      ++ found_digits (convert 256 58 vs (replicate (length rest * 733 / 1000 + 2) 0, 0)))

module _ (hash256 : Bytes → Bytes) where
  unfoldable pub base58check_encode : Bytes → Bytes
  base58check_encode payload = base58_encode (payload ++ take 4 (hash256 payload))

  -- The bytes but the last four, if these are the checksum of the others.
  pub checked_payload : Bytes → Result Bytes
  checked_payload raw =
      let payload = take (length raw - 4) raw in
      if ltb (length raw) 4
      then err invalid_checksum
      else if bytes_eq (take 4 (hash256 payload)) (drop (length raw - 4) raw)
      then ok payload
      else err invalid_checksum

  pub base58check_decode : Bytes → Result Bytes
  unfolding checked_payload
  base58check_decode s = do raw ← base58_decode s; checked_payload raw
