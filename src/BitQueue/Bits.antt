-- ===== src/BitQueue/Bits.antt =====
-- include/bit_queue.h: bits set in a byte and read from it.
use Prim.Native.Nat.{ℕ, zero, suc, ◌+◌, ◌*◌, ◌/◌, ◌≤◌, ◌<◌, bit_or}
use av_utils.Base.{
  ap, ap₂, arith, bit_or_halves, if◌then◌else◌, refl, suc, zero, ℕ, ◌*◌, ◌+◌, ◌/◌, ◌<◌, ◌==◌, ◌∙◌,
  ◌≡◌, ◌≤◌,
}
use av_utils.BitQueue.{bit_of, one_shl, shr}

or_nothing : (rounds a : ℕ) → a ≤ rounds → bit_or a 0 ≡ a
or_nothing zero a h = let none_left : a ≡ 0 = omega arith in rw none_left refl
or_nothing (suc rounds) a h =
    omega (arith, bit_or_halves a 0, or_nothing rounds (a / 2) (omega arith))

pub bit_or-zero : (a : ℕ) → bit_or a 0 ≡ a
bit_or-zero a = or_nothing a a (omega arith)

-- `(value << 1) | bit`
pub bit_or_even : (v b : ℕ) → b < 2 → bit_or (v * 2) b ≡ v * 2 + b
bit_or_even v b h =
    let half : v * 2 / 2 ≡ v = omega arith in
    let none_left : b / 2 ≡ 0 = omega arith in
    omega (arith, bit_or_halves (v * 2) b, ap₂ bit_or half none_left, bit_or-zero v)

-- Setting a bit sets it and no other.
pub bit_of-bit_or :
    (x s t : ℕ) → bit_of (bit_or x (one_shl s)) t ≡ (if s == t then 1 else bit_of x t)
bit_of-bit_or x zero zero = ground (arith, bit_or_halves x 1)
bit_of-bit_or x zero (suc t) =
    let half : bit_or x 1 / 2 ≡ x / 2 = omega (arith, bit_or_halves x 1, bit_or-zero (x / 2)) in
    rw half (ground arith)
bit_of-bit_or x (suc s) zero = ground (arith, bit_or_halves x (2 * one_shl s))
bit_of-bit_or x (suc s) (suc t) =
    let double : 2 * one_shl s / 2 ≡ one_shl s = omega arith in
    let half : bit_or x (2 * one_shl s) / 2 ≡ bit_or (x / 2) (one_shl s) =
      omega (arith, bit_or_halves x (2 * one_shl s), ap (bit_or (x / 2)) double) in
    let same : (s == t) ≡ (suc s == suc t) = ground arith in
    rw half (bit_of-bit_or (x / 2) s t ∙ ap (λ b. if b then 1 else bit_of x (suc t)) same)

pub shr-half : (x s : ℕ) → shr x (suc s) ≡ shr x s / 2
shr-half x zero = refl
shr-half x (suc s) = shr-half (x / 2) s

pub shr-le : (x s : ℕ) → shr x s ≤ x
shr-le x zero = omega arith
shr-le x (suc s) = omega (arith, shr-le (x / 2) s)
