-- ===== src/Base/Outcomes.antt =====
-- What a C++ member function that may throw gives back, and its signed arguments.
use Prim.Native.Nat.{ℕ}
use mathlib.Core.Option.{Option, none, some}

-- The standard library's exception types that the sources throw.
pub data Exception : Type 0 where
  invalid_argument runtime_error out_of_range length_error logic_error : Exception

pub data Outcome {ℓ} (A : Type ℓ) : Type ℓ where
  ok : A → Outcome A
  throw : Exception → Outcome A

-- A signed integer argument: `negsuc n` is -(n + 1).
pub data ℤ : Type 0 where
  pos : ℕ → ℤ
  negsuc : ℕ → ℤ

-- A missing value raises the exception.
abbrev pub or_throw {ℓ} : {A : Type ℓ} → Exception → Option A → Outcome A
or_throw e none = throw e
or_throw e (some a) = ok a

-- The rest of a member function after a step that may stop it.
infixl 5 ◌>>=◌
abbrev pub ◌>>=◌ {ℓ} : {A B : Type ℓ} → Option A → (A → Option B) → Option B
none >>= f = none
some a >>= f = f a
