-- ===== src/Base/Run.antt =====
-- Outcomes of code that may fail: a failed `assert`, `at` on a key that is missing, a null
-- pointer, an access outside of an allocation, which is undefined behaviour, an exception that is
-- thrown, a mutex that its own thread holds, a division by zero, or the use of a variable that has no value.
use lazyfs.Base.Tests.{if◌then◌else◌}
use mathlib.Core.Path.{◌≡◌, refl}
use mathlib.Core.Bool.{Bool}
use mathlib.Core.Option.{Option, none, some}

pub data Fault : Type 0 where
  assertion out_of_range null_pointer out_of_bounds runtime_error deadlock : Fault
  division_by_zero indeterminate : Fault

pub data Run {ℓ} (A : Type ℓ) : Type ℓ where
  ok : A → Run A
  fault : Fault → Run A

infixl 5 ◌>>=◌
abbrev pub ◌>>=◌ {ℓ κ} : {A : Type ℓ} {B : Type κ} → Run A → (A → Run B) → Run B
ok a >>= f = f a
fault e >>= f = fault e

-- A sequence succeeds only through a value of its first part.
pub >>=-ok {ℓ κ} :
    {A : Type ℓ} {B : Type κ} {b : B} (next : A → Run B) (first : Run A)
    → first >>= next ≡ ok b
    → (a : A) × (next a ≡ ok b) × (first ≡ ok a)
>>=-ok next (fault e) run = cc
>>=-ok next (ok a) run = (a, run, refl)

-- The value of an option, or the fault that its absence is.
abbrev pub or_fault {ℓ} : {A : Type ℓ} → Fault → Option A → Run A
or_fault e none = fault e
or_fault e (some a) = ok a

-- `a` if the test holds, and a fault otherwise.
abbrev pub guarded {ℓ} : {A : Type ℓ} → Fault → Bool → A → Run A
guarded e b a = if b then ok a else fault e
