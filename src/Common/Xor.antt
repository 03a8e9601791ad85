-- ===== src/Common/Xor.antt =====
-- `^` of words: its laws, digit by digit.
use Prim.Native.Nat.{
  ℕ, zero, suc, ◌+◌, ◌*◌, ◌/◌, ◌%◌, ◌^◌, ◌≤◌, ◌<◌, bit_xor, differ, bit_xor-bitwise,
}
use mathlib.Core.Path.{◌≡◌, refl, ap, ap₂, sym, ◌∙◌}
use native.Mathlib.Omega.{arith}
use native.Mathlib.Nat.{pow-suc}
use bitcoin_toolkit.Common.Bits.{IsDigitwise, bitwise-IsDigitwise}

xor-IsDigitwise : IsDigitwise bit_xor differ
xor-IsDigitwise =
    bitwise-IsDigitwise (λ b. b) differ bit_xor (λ x y. bit_xor-bitwise x y) (λ y. omega arith)

differ_sum : (a b : ℕ) → a < 2 → b < 2 → differ a b ≡ (a + b) % 2
differ_sum zero b h k = omega arith
differ_sum (suc zero) zero h k = refl
differ_sum (suc zero) (suc zero) h k = refl
differ_sum (suc zero) (suc (suc b)) h k = absurd (omega arith)
differ_sum (suc (suc a)) b h k = absurd (omega arith)

pub xor_step : (a b : ℕ) → bit_xor a b ≡ bit_xor (a / 2) (b / 2) * 2 + (a + b) % 2
xor_step a b =
    omega (arith, xor-IsDigitwise a b, differ_sum (a % 2) (b % 2) (omega arith) (omega arith))

pub xor_zero_left : (b : ℕ) → bit_xor 0 b ≡ b
xor_zero_left b = bit_xor-bitwise 0 b

xor_comm_upto : (n a b : ℕ) → a ≤ n → b ≤ n → bit_xor a b ≡ bit_xor b a
xor_comm_upto zero zero zero p q = refl
xor_comm_upto zero (suc a) b p q = absurd (omega arith)
xor_comm_upto zero zero (suc b) p q = absurd (omega arith)
xor_comm_upto (suc n) a b p q =
    omega (
      arith,
      xor_step a b,
      xor_step b a,
      xor_comm_upto n (a / 2) (b / 2) (omega arith) (omega arith),
    )

pub xor_comm : (a b : ℕ) → bit_xor a b ≡ bit_xor b a
xor_comm a b = xor_comm_upto (a + b) a b (omega arith) (omega arith)

xor_half : (a b : ℕ) → bit_xor a b / 2 ≡ bit_xor (a / 2) (b / 2)
xor_half a b = omega (arith, xor_step a b)

xor_assoc_upto :
    (n a b c : ℕ) → a ≤ n → b ≤ n → c ≤ n → bit_xor (bit_xor a b) c ≡ bit_xor a (bit_xor b c)
xor_assoc_upto zero zero b c p q r = rw (xor_zero_left b, xor_zero_left (bit_xor b c)) refl
xor_assoc_upto zero (suc a) b c p q r = absurd (omega arith)
xor_assoc_upto (suc n) a b c p q r = omega (
  arith,
  xor_step (bit_xor a b) c,
  xor_step a (bit_xor b c),
  xor_step a b,
  xor_step b c,
  ap (λ (t : ℕ). bit_xor t (c / 2)) (xor_half a b),
  ap (bit_xor (a / 2)) (xor_half b c),
  xor_assoc_upto n (a / 2) (b / 2) (c / 2) (omega arith) (omega arith) (omega arith),
)

pub xor_assoc : (a b c : ℕ) → bit_xor (bit_xor a b) c ≡ bit_xor a (bit_xor b c)
xor_assoc a b c = xor_assoc_upto (a + b + c) a b c (omega arith) (omega arith) (omega arith)

xor_self_upto : (n a : ℕ) → a ≤ n → bit_xor a a ≡ 0
xor_self_upto n zero p = xor_zero_left 0
xor_self_upto zero (suc a) p = absurd (omega arith)
xor_self_upto (suc n) (suc a) p =
    omega (arith, xor_step (suc a) (suc a), xor_self_upto n (suc a / 2) (omega arith))

pub xor_self : (a : ℕ) → bit_xor a a ≡ 0
xor_self a = xor_self_upto a a (omega arith)

pub xor_swap : (a b c : ℕ) → bit_xor (bit_xor a b) c ≡ bit_xor (bit_xor a c) b
xor_swap a b c = xor_assoc a b c ∙ ap (bit_xor a) (xor_comm b c) ∙ sym (xor_assoc a c b)

pub xor_twice : (a b : ℕ) → bit_xor a (bit_xor a b) ≡ b
xor_twice a b = sym (xor_assoc a a b) ∙ ap (λ (t : ℕ). bit_xor t b) (xor_self a) ∙ xor_zero_left b

pub xor-lt : (k a b : ℕ) → a < 2 ^ k → b < 2 ^ k → bit_xor a b < 2 ^ k
xor-lt zero zero zero p q = p
xor-lt zero (suc a) b p q = absurd (omega arith)
xor-lt zero zero (suc b) p q = absurd (omega arith)
xor-lt (suc k) a b p q = omega (
  arith,
  xor_step a b,
  pow-suc 2 k,
  xor-lt k (a / 2) (b / 2) (omega (arith, pow-suc 2 k)) (omega (arith, pow-suc 2 k)),
)

-- The part above bit `k` stays where the other number is below it.
pub xor_low :
    (k h l e : ℕ) → l < 2 ^ k → e < 2 ^ k → bit_xor (h * 2 ^ k + l) e ≡ h * 2 ^ k + bit_xor l e
xor_low zero h zero zero p q = omega (
  arith,
  xor_comm (h * 2 ^ 0) 0,
  xor_zero_left (h * 2 ^ 0),
  xor_zero_left 0,
  ap (λ (t : ℕ). bit_xor t 0) {x = h * 2 ^ 0 + 0} {y = h * 2 ^ 0} (omega arith),
)
xor_low zero h (suc l) e p q = absurd (omega arith)
xor_low zero h zero (suc e) p q = absurd (omega arith)
xor_low (suc k) h l e p q =
    let twice : h * 2 ^ suc k ≡ h * 2 ^ k * 2 =
      omega (arith, ap (λ (t : ℕ). h * t) (pow-suc 2 k)) in
    let half : (h * 2 ^ suc k + l) / 2 ≡ h * 2 ^ k + l / 2 = omega (arith, twice) in
    omega (
      arith,
      twice,
      xor_step (h * 2 ^ suc k + l) e,
      xor_step l e,
      ap (λ (t : ℕ). bit_xor t (e / 2)) half,
      xor_low k h (l / 2) (e / 2) (omega (arith, pow-suc 2 k)) (omega (arith, pow-suc 2 k)),
    )

pub xor_double : (a b : ℕ) → bit_xor (a * 2) (b * 2) ≡ bit_xor a b * 2
xor_double a b =
    let l : a * 2 / 2 ≡ a = omega arith in
    let r : b * 2 / 2 ≡ b = omega arith in omega (arith, xor_step (a * 2) (b * 2), ap₂ bit_xor l r)
