-- ===== src/Common/Bits.antt =====
-- Bit operations at variables: `|` of numbers with no bit in common is their sum.
use Prim.Native.Nat.{
  ℕ, zero, suc, ◌+◌, ◌*◌, ◌/◌, ◌%◌, ◌^◌, ◌≤◌, ◌<◌, max, min, bit_or, bit_and, digits, bitwise,
  bit_or-bitwise, bit_and-bitwise,
}
use mathlib.Core.Path.{◌≡◌, refl, ap}
use native.Mathlib.Omega.{arith}
use native.Mathlib.Nat.{pow-suc}

module _ (z : ℕ → ℕ) (f : ℕ → ℕ → ℕ) where
  -- A bound that is enough can be replaced by another.
  any_bound : (a b n m : ℕ) → a ≤ n → a ≤ m → digits z f n a b ≡ digits z f m a b
  any_bound zero b zero zero p q = refl
  any_bound zero b zero (suc m) p q = refl
  any_bound zero b (suc n) zero p q = refl
  any_bound zero b (suc n) (suc m) p q = refl
  any_bound (suc a) b zero m p q = elim p [ ]
  any_bound (suc a) b (suc n) zero p q = elim q [ ]
  any_bound (suc a) b (suc n) (suc m) p q =
      ap (λ (rest : ℕ). rest * 2 + f (suc a % 2) (b % 2))
        (any_bound (suc a / 2) (b / 2) n m (omega arith) (omega arith))

-- The lowest digit of the result is that of `f`, and the others are those of the operation.
abbrev pub IsDigitwise : (ℕ → ℕ → ℕ) → (ℕ → ℕ → ℕ) → Type 0
IsDigitwise op f = (x y : ℕ) → op x y ≡ op (x / 2) (y / 2) * 2 + f (x % 2) (y % 2)

module _ (z : ℕ → ℕ) (f op : ℕ → ℕ → ℕ) (meaning : (x y : ℕ) → op x y ≡ bitwise z f x y)
    (start : (y : ℕ) → z y ≡ z (y / 2) * 2 + f 0 (y % 2)) where
  pub bitwise-IsDigitwise : IsDigitwise op f
  bitwise-IsDigitwise zero y = omega (arith, meaning 0 y, meaning 0 (y / 2), start y)
  bitwise-IsDigitwise (suc x) y =
      rw (meaning (suc x) y, meaning (suc x / 2) (y / 2))
        (ap (λ (rest : ℕ). rest * 2 + f (suc x % 2) (y % 2))
          (any_bound z f (suc x / 2) (y / 2) x (suc x / 2) (omega arith) (omega arith)))

as_or : (x y : ℕ) → bit_or x y ≡ bitwise (λ b. b) max x y
as_or x y = bit_or-bitwise x y

as_and : (x y : ℕ) → bit_and x y ≡ bitwise (λ b. 0) min x y
as_and x y = bit_and-bitwise x y

pub zero-bit_or : (y : ℕ) → bit_or 0 y ≡ y
zero-bit_or y = as_or 0 y

pub or-IsDigitwise : IsDigitwise bit_or max
or-IsDigitwise = bitwise-IsDigitwise (λ b. b) max bit_or as_or (λ y. omega arith)

pub and-IsDigitwise : IsDigitwise bit_and min
and-IsDigitwise = bitwise-IsDigitwise (λ b. 0) min bit_and as_and (λ y. omega arith)

shifted_suc : (b k : ℕ) → b * 2 ^ suc k ≡ b * 2 ^ k * 2
shifted_suc b k = omega (arith, ap (λ (t : ℕ). b * t) (pow-suc 2 k))

-- `a` lies below bit `k`, and `b` is shifted up by `k` bits.
pub bit_or_disjoint : (k a b : ℕ) → a < 2 ^ k → bit_or a (b * 2 ^ k) ≡ a + b * 2 ^ k
bit_or_disjoint zero zero b h = omega (arith, zero-bit_or (b * 2 ^ 0))
bit_or_disjoint zero (suc a) b h = absurd (omega arith)
bit_or_disjoint (suc k) a b h = rw (shifted_suc b k) (
    omega (
      arith,
      or-IsDigitwise a (b * 2 ^ k * 2),
      ap (λ (t : ℕ). bit_or (a / 2) t) (halve (b * 2 ^ k)),
      bit_or_disjoint k (a / 2) b (omega (arith, pow-suc 2 k)),
    ))
  where
    halve : (t : ℕ) → t * 2 / 2 ≡ t
    halve t = omega arith

bit_or_comm_upto : (n a b : ℕ) → a ≤ n → b ≤ n → bit_or a b ≡ bit_or b a
bit_or_comm_upto zero zero zero p q = refl
bit_or_comm_upto zero (suc a) b p q = absurd (omega arith)
bit_or_comm_upto zero zero (suc b) p q = absurd (omega arith)
bit_or_comm_upto (suc n) a b p q = omega (
  arith,
  or-IsDigitwise a b,
  or-IsDigitwise b a,
  bit_or_comm_upto n (a / 2) (b / 2) (omega arith) (omega arith),
)

pub bit_or_comm : (a b : ℕ) → bit_or a b ≡ bit_or b a
bit_or_comm a b = bit_or_comm_upto (a + b) a b (omega arith) (omega arith)

-- No digit of 0 is left.
no_digits : (n a : ℕ) → a ≤ n → bit_and a 0 ≡ 0
no_digits n zero h = as_and 0 0
no_digits zero (suc a) h = elim h [ ]
no_digits (suc n) (suc a) h =
    omega (arith, no_digits n (suc a / 2) (omega arith), and-IsDigitwise (suc a) 0)

pub low_nibble : (b : ℕ) → bit_and b 15 ≡ b % 16
low_nibble b = omega (
  arith,
  and-IsDigitwise b 15,
  and-IsDigitwise (b / 2) 7,
  and-IsDigitwise (b / 2 / 2) 3,
  and-IsDigitwise (b / 2 / 2 / 2) 1,
  no_digits (b / 2 / 2 / 2 / 2) (b / 2 / 2 / 2 / 2) (omega arith),
)
