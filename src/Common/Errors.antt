-- ===== src/Common/Errors.antt =====
-- util/error.hpp: a function that may throw a `BtkError` returns a `Result`.
use mathlib.Core.Path.{◌≡◌, refl}
use mathlib.Core.Logic.{◌≢◌}
use Prim.Native.String.{String}
use mathlib.Core.Bool.{Bool, true, false}
use bitcoin_toolkit.Common.Tests.{if◌then◌else◌}

-- The command that reports the error, and the message.
pub data BtkError : Type 0 where
  btk_error : String → String → BtkError

pub data Result {ℓ} (A : Type ℓ) : Type ℓ where
  ok : A → Result A
  err : BtkError → Result A

infixl 5 ◌>>=◌
abbrev pub ◌>>=◌ {ℓ κ} : {A : Type ℓ} {B : Type κ} → Result A → (A → Result B) → Result B
ok a >>= f = f a
err e >>= f = err e

pub ok-injective : {A : Type 0} {a b : A} → ok a ≡ ok b → a ≡ b
ok-injective e = cc

pub err-ne-ok : {A : Type 0} {e : BtkError} {a : A} → err e ≢ ok a
err-ne-ok h = cc

-- What a chain of two steps returned came from both.
pub bind_ok :
    {A B : Type 0} (r : Result A) (f : A → Result B) {b : B}
    → (r >>= f) ≡ ok b
    → (a : A) × (r ≡ ok a) × (f a ≡ ok b)
bind_ok (ok a) f e = (a, refl, e)
bind_ok (err x) f e = absurd (err-ne-ok e)

-- What comes behind a guard that throws was reached with the guard false.
pub guard_ok :
    {A : Type 0} (b : Bool) (e : BtkError) (r : Result A) {a : A}
    → (if b then err e else r) ≡ ok a
    → (b ≡ false) × (r ≡ ok a)
guard_ok true e r h = absurd (err-ne-ok h)
guard_ok false e r h = (refl, h)
