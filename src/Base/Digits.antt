-- ===== src/Base/Digits.antt =====
-- The bitwise operations on numbers, digit by digit from the lowest on.
use Prim.Native.Nat.{
  ℕ, zero, suc, ◌+◌, ◌-◌, ◌*◌, ◌/◌, ◌%◌, ◌≤◌, min, max, bit_and, bit_or, bit_and-bitwise,
  bit_or-bitwise, bitwise, digits,
}
use mathlib.Core.Path.{◌≡◌, refl, sym, ap, ◌∙◌}
use native.Mathlib.Omega.{arith}

-- `rest` is what the second number gives when the first has no more digits, `digit` the operation
-- on two digits.
module _ (rest : ℕ → ℕ) (digit : ℕ → ℕ → ℕ) where
  digits-zero : (rounds y : ℕ) → digits rest digit rounds 0 y ≡ rest y
  digits-zero zero y = refl
  digits-zero (suc rounds) y = refl

  -- Rounds beyond the number's own change nothing.
  spare_rounds :
      (rounds more x y : ℕ)
      → x ≤ rounds
      → digits rest digit (rounds + more) x y ≡ digits rest digit rounds x y
  spare_rounds rounds more zero y h = digits-zero (rounds + more) y ∙ sym (digits-zero rounds y)
  spare_rounds zero more (suc x) y h = absurd (omega arith)
  spare_rounds (suc rounds) more (suc x) y h =
      let one_more : suc rounds + more ≡ suc (rounds + more) = omega arith in
      ap (λ n. digits rest digit n (suc x) y) one_more
      ∙ ap (λ r. r * 2 + digit (suc x % 2) (y % 2))
          (spare_rounds rounds more (suc x / 2) (y / 2) (omega arith))

  -- The lowest digit apart.
  bitwise_lowest :
      (x y : ℕ)
      → digit (suc x % 2) (y % 2) + 2 * bitwise rest digit (suc x / 2) (y / 2)
        ≡ bitwise rest digit (suc x) y
  bitwise_lowest x y =
      let half = suc x / 2 in
      let enough : x ≡ half + (x - half) = omega arith in
      let turned =
        ap (λ n. digits rest digit n half (y / 2)) enough
        ∙ spare_rounds half (x - half) half (y / 2) (omega arith) in
      omega (arith, turned)

pub bit_and_halves : (x y : ℕ) → 2 * bit_and (x / 2) (y / 2) + min (x % 2) (y % 2) ≡ bit_and x y
bit_and_halves zero y = omega (arith, bit_and-bitwise 0 (y / 2), bit_and-bitwise 0 y)
bit_and_halves (suc x) y =
    let lowest = bitwise_lowest (λ y. zero) min x y in
    omega (arith, lowest, bit_and-bitwise (suc x / 2) (y / 2), bit_and-bitwise (suc x) y)

pub bit_or_halves : (x y : ℕ) → 2 * bit_or (x / 2) (y / 2) + max (x % 2) (y % 2) ≡ bit_or x y
bit_or_halves zero y = omega (arith, bit_or-bitwise 0 (y / 2), bit_or-bitwise 0 y)
bit_or_halves (suc x) y =
    let lowest = bitwise_lowest (λ y. y) max x y in
    omega (arith, lowest, bit_or-bitwise (suc x / 2) (y / 2), bit_or-bitwise (suc x) y)
