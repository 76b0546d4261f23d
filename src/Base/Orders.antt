-- ===== src/Base/Orders.antt =====
-- `Compare` of the standard library's sorted sequences, and positions in them.
use Prim.Native.Nat.{ℕ, zero, suc, ◌≤◌, ◌<◌}
use mathlib.Core.Path.{◌≡◌, refl, ap}
use mathlib.Core.Bool.{Bool, true, false}
use mathlib.Core.List.{List, [], ◌∷◌}
use native.Mathlib.Omega.{arith}
use av_utils.Base.Lists.{length}
use av_utils.Base.Tests.{if◌then◌else◌, ltb}

-- What the standard library asks of a comparison: a strict weak order.
pub record IsStrictWeak {ℓ} {K : Type ℓ} (comp : K → K → Bool) : Type ℓ where
  pub irrefl : (a : K) → comp a a ≡ false
  pub trans : (a b c : K) → comp a b ≡ true → comp b c ≡ true → comp a c ≡ true
  pub co_trans : (a b c : K) → comp a b ≡ false → comp b c ≡ false → comp a c ≡ false

module _ {ℓ} {A : Type ℓ} where
  -- `std::partition_point`, which is what `std::lower_bound` and `std::upper_bound` give on a
  -- sorted range: how many elements come first.
  abbrev pub partition_point : (A → Bool) → List A → ℕ
  partition_point first [] = 0
  partition_point first (x ∷ xs) = if first x then suc (partition_point first xs) else 0

  -- `insert(begin() + i, x)`
  abbrev pub insert_at : List A → ℕ → A → List A
  insert_at xs zero x = x ∷ xs
  insert_at [] (suc i) x = x ∷ []
  insert_at (y ∷ ys) (suc i) x = y ∷ insert_at ys i x

  -- `erase(begin() + i)`
  abbrev pub erase_at : List A → ℕ → List A
  erase_at [] i = []
  erase_at (y ∷ ys) zero = ys
  erase_at (y ∷ ys) (suc i) = y ∷ erase_at ys i

  pub partition_point-le-length :
      (first : A → Bool) (xs : List A) → partition_point first xs ≤ length xs
  partition_point-le-length first [] = omega arith
  partition_point-le-length first (x ∷ xs) = ground (arith, partition_point-le-length first xs)

  pub length-insert_at : (xs : List A) (i : ℕ) (x : A) → length (insert_at xs i x) ≡ suc (length xs)
  length-insert_at xs zero x = refl
  length-insert_at [] (suc i) x = refl
  length-insert_at (y ∷ ys) (suc i) x = ap suc (length-insert_at ys i x)

  pub length-erase_at :
      (xs : List A) (i : ℕ) → i < length xs → suc (length (erase_at xs i)) ≡ length xs
  length-erase_at [] i h = absurd (omega arith)
  length-erase_at (y ∷ ys) zero h = refl
  length-erase_at (y ∷ ys) (suc i) h = ap suc (length-erase_at ys i (omega arith))

pub ltb-IsStrictWeak : IsStrictWeak ltb
ltb-IsStrictWeak = record {
  irrefl = λ a. ground arith;
  trans = λ a b c p q. ground arith;
  co_trans = λ a b c p q. ground arith;
}
