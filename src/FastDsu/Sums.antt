-- ===== src/FastDsu/Sums.antt =====
-- Sums over the elements of a union-find, and how a change at one element moves them.
use native.Mathlib.Decide.{ℕ_discrete}
use av_utils.Base.{ap, ap₂, arith, refl, suc, zero, ℕ, ◌+◌, ◌<◌, ◌≡◌, ◌≢◌, ◌≤◌}

abbrev pub sum_below : ℕ → (ℕ → ℕ) → ℕ
sum_below zero f = 0
sum_below (suc n) f = sum_below n f + f n

pub sum_below_ext :
    (n : ℕ) (f g : ℕ → ℕ) → ((i : ℕ) → i < n → f i ≡ g i) → sum_below n f ≡ sum_below n g
sum_below_ext zero f g h = refl
sum_below_ext (suc n) f g h =
    ap₂ ◌+◌ (sum_below_ext n f g (λ i k. h i (omega arith))) (h n (omega arith))

-- Functions that differ at `a` only.
pub sum_below_change :
    (n a : ℕ) (f g : ℕ → ℕ)
    → a < n
    → ((i : ℕ) → i < n → i ≢ a → f i ≡ g i)
    → sum_below n f + g a ≡ sum_below n g + f a
sum_below_change zero a f g h k = absurd (omega arith)
sum_below_change (suc n) a f g h k = elim (ℕ_discrete n a) [
  | yes q ↦ omega (
    arith,
    sum_below_ext n f g (λ i l. k i (omega arith) (λ z. omega (arith, z, q))),
    ap f q,
    ap g q,
  )
  | no q ↦ omega (
    arith,
    sum_below_change n a f g (omega (arith, q)) (λ i l m. k i (omega arith) m),
    k n (omega arith) q,
  )
]

pub sum_below_le : (n a : ℕ) (f : ℕ → ℕ) → a < n → f a ≤ sum_below n f
sum_below_le zero a f h = absurd (omega arith)
sum_below_le (suc n) a f h = elim (ℕ_discrete n a) [
  | yes q ↦ omega (arith, ap f q)
  | no q ↦ omega (arith, sum_below_le n a f (omega arith))
]

pub sum_below-const : (n : ℕ) → sum_below n (λ i. 1) ≡ n
sum_below-const zero = refl
sum_below-const (suc n) = omega (arith, sum_below-const n)
