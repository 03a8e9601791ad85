-- ===== src/Core/Bech32.antt =====
-- src/core/bech32.cpp. A function that returns false gives `none`, and what it leaves in its reference
-- arguments is the result where it returns true. Shifts are products and quotients by powers of two.
pub mod Programs
pub mod Groups
pub mod Checksum
pub mod Letters
pub mod RoundTrip
pub mod Addresses
mod Examples
use bitcoin_toolkit.Common.Options.{◌>>=◌}
use Prim.Native.String.{String}
use bitcoin_toolkit.Common.{
  drop, take, zero, ok, ◌&&◌, ◌+◌, ◌-◌, err, ◌==◌, length, replicate, get_or, ◌||◌, leb, ◌*◌, not,
  suc, ◌%◌, ◌^◌, true, Result, bit_xor, ◌/◌, false, ltb, none, some, [], ◌++◌, if◌then◌else◌, ◌∷◌,
  btk_error, Option, Bool, ℕ, Bytes, BtkError,
}

pub data Bech32Variant : Type 0 where
  bech32 bech32m : Bech32Variant

abbrev bech32_error : String → BtkError
bech32_error what = btk_error "" what

abbrev program_error : BtkError
program_error = btk_error "address" "invalid witness program"

-- "qpzry9x8gf2tvdw0s3jn54khce6mua7l"
abbrev pub charset : Bytes
charset =
    b'q' ∷ b'p' ∷ b'z' ∷ b'r' ∷ b'y' ∷ b'9' ∷ b'x' ∷ b'8' ∷ b'g' ∷ b'f' ∷ b'2' ∷ b't' ∷ b'v' ∷ b'd'
    ∷ b'w' ∷ b'0' ∷ b's' ∷ b'3' ∷ b'j' ∷ b'n' ∷ b'5' ∷ b'4' ∷ b'k' ∷ b'h' ∷ b'c' ∷ b'e' ∷ b'6'
    ∷ b'm' ∷ b'u' ∷ b'a' ∷ b'7' ∷ b'l' ∷ []

abbrev pub bech32_const : ℕ
bech32_const = 1

abbrev pub bech32m_const : ℕ
bech32m_const = 0x2bc830a3

pub variant_const : Bech32Variant → ℕ
variant_const bech32 = bech32_const
variant_const bech32m = bech32m_const

-- One round of the inner loop: `(b >> i) & 1`.
pub xor_gen : ℕ → ℕ → ℕ → ℕ → ℕ
xor_gen b i gen chk = if b / 2 ^ i % 2 == 1 then bit_xor chk gen else chk

pub xor_gens : ℕ → ℕ → ℕ
unfolding xor_gen
xor_gens b chk = xor_gen b 4 0x2a1462b3 (
    xor_gen b 3 0x3d4233dd
      (xor_gen b 2 0x1ea119fa (xor_gen b 1 0x26508e6d (xor_gen b 0 0x3b6a57b2 chk))))

pub polymod_loop : ℕ → Bytes → ℕ
unfolding xor_gens
polymod_loop chk [] = chk
polymod_loop chk (v ∷ vs) =
    polymod_loop (xor_gens (chk / 2 ^ 25 % 256) (bit_xor (chk % 2 ^ 25 * 2 ^ 5) v)) vs

pub polymod : Bytes → ℕ
unfolding polymod_loop
polymod values = polymod_loop 1 values

pub high_bits : Bytes → Bytes
high_bits [] = []
high_bits (c ∷ cs) = c / 2 ^ 5 ∷ high_bits cs

pub low_bits : Bytes → Bytes
low_bits [] = []
low_bits (c ∷ cs) = c % 32 ∷ low_bits cs

pub hrp_expand : Bytes → Bytes
unfolding high_bits low_bits
hrp_expand hrp = high_bits hrp ++ 0 ∷ low_bits hrp

module _ (from to : ℕ) where
  -- The inner loop, which runs at most `bits` times: what it puts out, and the bits that stay.
  pub put_out : ℕ → ℕ → ℕ → Bytes × ℕ
  put_out acc zero bits = ([], bits)
  put_out acc (suc fuel) bits =
      let (rest, left) = put_out acc fuel (bits - to) in
      if leb to bits then (acc / 2 ^ (bits - to) % 2 ^ to ∷ rest, left) else ([], bits)

  -- What is put out behind the loop.
  pub last_group : Bool → ℕ → ℕ → Option Bytes
  last_group pad acc bits =
      if pad
      then some (if not (bits == 0) then acc * 2 ^ (to - bits) % 2 ^ to ∷ [] else [])
      else if leb from bits || not (acc * 2 ^ (to - bits) % 2 ^ to == 0)
      then none
      else some []

  pub groups_before : Bytes → Option Bytes → Option Bytes
  groups_before groups none = none
  groups_before groups (some others) = some (groups ++ others)

  pub convert_loop : Bool → ℕ → ℕ → Bytes → Option Bytes
  unfolding put_out last_group groups_before
  convert_loop pad acc bits [] = last_group pad acc bits
  convert_loop pad acc bits (v ∷ vs) =
      let acc' = (acc * 2 ^ from + v) % 2 ^ (from + to - 1) in
      let (groups, left) = put_out acc' (bits + from) (bits + from) in
      let others = convert_loop pad acc' left vs in
      if not (v / 2 ^ from == 0) then none else groups_before groups others

  pub convertbits : Bytes → Bool → Option Bytes
  unfolding convert_loop
  convertbits values pad = convert_loop pad 0 0 values

-- `std::tolower`, and the test of `charset_rev`.
pub lower : ℕ → ℕ
lower c = if leb b'A' c && leb c b'Z' then c - b'A' + b'a' else c

pub index_of : ℕ → ℕ → Bytes → Option ℕ
index_of c i [] = none
index_of c i (x ∷ xs) = let later = index_of c (suc i) xs in if x == c then some i else later

pub charset_rev : ℕ → Option ℕ
unfolding index_of lower
charset_rev c = index_of (lower c) 0 charset

pub bad_hrp_char : ℕ → Bool
bad_hrp_char c = ltb c 33 || ltb 126 c || (leb b'A' c && leb c b'Z')

pub some_bad_hrp_char : Bytes → Bool
unfolding bad_hrp_char
some_bad_hrp_char [] = false
some_bad_hrp_char (c ∷ cs) = bad_hrp_char c || some_bad_hrp_char cs

pub some_above_31 : Bytes → Bool
some_above_31 [] = false
some_above_31 (v ∷ vs) = ltb 31 v || some_above_31 vs

pub charset_letters : Bytes → Bytes
charset_letters [] = []
charset_letters (v ∷ vs) = get_or charset v 0 ∷ charset_letters vs

-- The six values of the checksum.
pub check_values : ℕ → Bytes
check_values chk =
    chk / 2 ^ 25 % 32
    ∷ chk / 2 ^ 20 % 32
    ∷ chk / 2 ^ 15 % 32
    ∷ chk / 2 ^ 10 % 32
    ∷ chk / 2 ^ 5 % 32
    ∷ chk % 32
    ∷ []

pub checksum_of : Bytes → Bytes → Bech32Variant → ℕ
unfolding hrp_expand polymod variant_const
checksum_of hrp values variant =
    bit_xor (polymod (hrp_expand hrp ++ (values ++ replicate 6 0))) (variant_const variant)

pub bech32_text : Bytes → Bytes → Bech32Variant → Bytes
unfolding charset_letters check_values checksum_of
bech32_text hrp values variant =
    hrp
    ++ b'1'
      ∷ (charset_letters values ++ charset_letters (check_values (checksum_of hrp values variant)))

pub bech32_encode : Bytes → Bytes → Bech32Variant → Result Bytes
unfolding bech32_text some_bad_hrp_char some_above_31
bech32_encode hrp values variant =
    let out = bech32_text hrp values variant in
    if length hrp == 0 || ltb 83 (length hrp)
    then err (bech32_error "invalid bech32 hrp")
    else if some_bad_hrp_char hrp
    then err (bech32_error "invalid bech32 hrp")
    else if some_above_31 values
    then err (bech32_error "invalid bech32 data")
    else if ltb 90 (length out)
    then err (bech32_error "invalid bech32 length")
    else ok out

-- The loop over the characters: whether there are lower and upper case letters.
pub case_flags : Bool → Bool → Bytes → Option (Bool × Bool)
case_flags is_lower is_upper [] = some (is_lower, is_upper)
case_flags is_lower is_upper (c ∷ cs) =
    let as_lower = case_flags true is_upper cs in
    let as_upper = case_flags is_lower true cs in
    let as_other = case_flags is_lower is_upper cs in
    if ltb c 33 || ltb 126 c
    then none
    else if leb b'a' c && leb c b'z'
    then as_lower
    else if leb b'A' c && leb c b'Z'
    then as_upper
    else as_other

-- `encoded.find_last_of('1')`
pub later_or : Option ℕ → Option ℕ → Option ℕ
later_or none here = here
later_or (some i) here = some i

pub last_one : ℕ → Bytes → Option ℕ
unfolding later_or
last_one i [] = none
last_one i (c ∷ cs) = later_or (last_one (suc i) cs) (if c == b'1' then some i else none)

pub lowered : Bytes → Bytes
unfolding lower
lowered [] = []
lowered (c ∷ cs) = lower c ∷ lowered cs

pub charset_values : Bytes → Option Bytes
unfolding charset_rev
charset_values [] = some []
charset_values (c ∷ cs) = do v ← charset_rev c; vs ← charset_values cs; some (v ∷ vs)

pub variant_of : ℕ → Option Bech32Variant
variant_of chk =
    if chk == bech32_const then some bech32 else if chk == bech32m_const then some bech32m else none

-- What follows the test of the case, with the position of the separator.
pub split_at : Bytes → ℕ → Option (Bytes × Bytes × Bech32Variant)
unfolding lowered charset_values hrp_expand polymod variant_of
split_at encoded sep = if sep == 0 || ltb (length encoded) (sep + 7) then none else (do
  let hrp = lowered (take sep encoded)
  values ← charset_values (drop (sep + 1) encoded)
  variant ← variant_of (polymod (hrp_expand hrp ++ values))
  some (hrp, take (length values - 6) values, variant))

pub bech32_decode : Bytes → Option (Bytes × Bytes × Bech32Variant)
unfolding case_flags last_one split_at
bech32_decode encoded = if ltb (length encoded) 8 || ltb 90 (length encoded) then none else (do
  (is_lower, is_upper) ← case_flags false false encoded
  sep ← if is_lower && is_upper then none else last_one 0 encoded
  split_at encoded sep)

pub segwit_variant : ℕ → Bech32Variant
segwit_variant witver = if witver == 0 then bech32 else bech32m

pub encode_converted : Bytes → ℕ → Option Bytes → Result Bytes
unfolding segwit_variant bech32_encode
encode_converted hrp witver none = err program_error
encode_converted hrp witver (some converted) =
    bech32_encode hrp (witver ∷ converted) (segwit_variant witver)

-- A version is not negative here.
pub segwit_encode : Bytes → ℕ → Bytes → Result Bytes
unfolding convertbits encode_converted
segwit_encode hrp witver program =
    if ltb 16 witver
    then err (btk_error "address" "invalid witness version")
    else if ltb (length program) 2 || ltb 40 (length program)
    then err program_error
    else if (witver == 0) && not (length program == 20) && not (length program == 32)
    then err program_error
    else encode_converted hrp witver (convertbits 8 5 program true)

pub same_variant : Bech32Variant → Bech32Variant → Bool
same_variant bech32 bech32 = true
same_variant bech32 bech32m = false
same_variant bech32m bech32 = false
same_variant bech32m bech32m = true

-- The tests behind `convertbits`, for a version and a variant.
pub program_ok : ℕ → Bech32Variant → Bytes → Bool
unfolding same_variant
program_ok witver variant program =
    if ltb (length program) 2 || ltb 40 (length program)
    then false
    else if witver == 0
    then same_variant variant bech32 && (length program == 20 || length program == 32)
    else same_variant variant bech32m

pub segwit_parts : Bytes × Bytes × Bech32Variant → Option (Bytes × ℕ × Bytes)
unfolding convertbits program_ok
segwit_parts (hrp, [], variant) = none
segwit_parts (hrp, witver ∷ prog5, variant) = do
  program ← if ltb 16 witver then none else convertbits 5 8 prog5 false
  if program_ok witver variant program then some (hrp, witver, program) else none

pub segwit_decode : Bytes → Option (Bytes × ℕ × Bytes)
unfolding bech32_decode segwit_parts
segwit_decode addr = do parts ← bech32_decode addr; segwit_parts parts
