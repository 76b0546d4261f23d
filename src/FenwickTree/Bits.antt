-- ===== src/FenwickTree/Bits.antt =====
-- include/fenwick_tree.h: the lowest bit of an index, and which entries of the tree a walk by
-- lowest bits meets.
use Prim.Native.Nat.{ℕ, zero, suc, ◌+◌, ◌*◌, ◌/◌, ◌%◌, ◌≤◌, ◌<◌, bit_and, bit_and-bitwise}
use native.Mathlib.Nat.{mod-eq_of_lt}
use native.Mathlib.Decide.{dec_lt, ℕ_discrete}
use av_utils.Base.{
  Bool, ap, arith, bit_and_halves, leb, ltb, suc, zero, ℕ, ◌%◌, ◌&&◌, ◌*◌, ◌+◌, ◌-◌, ◌/◌, ◌<◌, ◌^◌,
  ◌≡◌, ◌≤◌,
}
use av_utils.FenwickTree.{lsb, lsb_at}

-- A word has no bit in common with its complement.
complement_disjoint : (w x : ℕ) → x < 2 ^ w → bit_and x (2 ^ w - 1 - x) ≡ 0
complement_disjoint zero x h = elim (dec_lt 0 x) [
  | yes p ↦ absurd (omega arith)
  | no p ↦ let none_left : x ≡ 0 = omega arith in rw none_left (bit_and-bitwise 0 0)
]
complement_disjoint (suc w) x h =
    let half : (2 ^ suc w - 1 - x) / 2 ≡ 2 ^ w - 1 - x / 2 = omega arith in
    omega (
      arith,
      bit_and_halves x (2 ^ suc w - 1 - x),
      complement_disjoint w (x / 2) (omega arith),
      ap (bit_and (x / 2)) half,
    )

-- The lowest bit of a word that is not 0, without the turn at `2 ^ w`.
lsb_within : (w x : ℕ) → 0 < x → x < 2 ^ w → lsb_at w x ≡ bit_and x (2 ^ w - x)
lsb_within w x p h = ap (bit_and x) (mod-eq_of_lt {n = 2 ^ w - x} {m = 2 ^ w} (omega arith))

lsb_at_odd : (w x : ℕ) → x < 2 ^ w → x % 2 ≡ 1 → lsb_at w x ≡ 1
lsb_at_odd zero x h o = absurd (omega arith)
lsb_at_odd (suc w) x h o =
    let half : (2 ^ suc w - x) / 2 ≡ 2 ^ w - 1 - x / 2 = omega arith in
    omega (
      arith,
      lsb_within (suc w) x (omega arith) h,
      bit_and_halves x (2 ^ suc w - x),
      complement_disjoint w (x / 2) (omega arith),
      ap (bit_and (x / 2)) half,
    )

lsb_at_even :
    (w x : ℕ) → 0 < x → x < 2 ^ suc w → x % 2 ≡ 0 → lsb_at (suc w) x ≡ 2 * lsb_at w (x / 2)
lsb_at_even w x p h e =
    let half : (2 ^ suc w - x) / 2 ≡ 2 ^ w - x / 2 = omega arith in
    omega (
      arith,
      lsb_within (suc w) x p h,
      lsb_within w (x / 2) (omega arith) (omega arith),
      bit_and_halves x (2 ^ suc w - x),
      ap (bit_and (x / 2)) half,
    )

lsb_at_bounds : (w x : ℕ) → 0 < x → x < 2 ^ w → (0 < lsb_at w x) × (lsb_at w x ≤ x)
lsb_at_bounds zero x p h = absurd (omega arith)
lsb_at_bounds (suc w) x p h = elim (ℕ_discrete (x % 2) 1) [
  | yes o ↦ (omega (arith, lsb_at_odd (suc w) x h o), omega (arith, lsb_at_odd (suc w) x h o))
  | no o ↦
      let e = lsb_at_even w x p h (omega arith) in
      let (positive, least) = lsb_at_bounds w (x / 2) (omega arith) (omega arith) in
      (omega arith, omega arith)
]

-- Entry `j` of the tree counts index `i`, both from 1 on.
abbrev covers_at : ℕ → ℕ → ℕ → Bool
covers_at w j i = ltb (j - lsb_at w j) i && leb i j

-- A step of `update` meets the same entries above it.
covers_at_step :
    (w i j : ℕ) → 0 < i → i < j → j < 2 ^ w → covers_at w j i ≡ covers_at w j (i + lsb_at w i)
covers_at_step zero i j p q h = absurd (omega arith)
covers_at_step (suc w) i j p q h = elim (ℕ_discrete (j % 2) 1) [
  | yes o ↦ elim (ℕ_discrete (i % 2) 1) [
    | yes o' ↦ ground (arith, lsb_at_odd (suc w) j h o, lsb_at_odd (suc w) i (omega arith) o')
    | no o' ↦
        ground (arith, lsb_at_odd (suc w) j h o, lsb_at_even w i p (omega arith) (omega arith))
  ]
  | no o ↦ elim (ℕ_discrete (i % 2) 1) [
    | yes o' ↦ ground (
      arith,
      lsb_at_even w j (omega arith) h (omega arith),
      lsb_at_odd (suc w) i (omega arith) o',
    )
    | no o' ↦ ground (
      arith,
      lsb_at_even w j (omega arith) h (omega arith),
      lsb_at_even w i p (omega arith) (omega arith),
      covers_at_step w (i / 2) (j / 2) (omega arith) (omega arith) (omega arith),
    )
  ]
]

abbrev pub covers : ℕ → ℕ → Bool
covers j i = ltb (j - lsb j) i && leb i j

pub lsb_bounds : (x : ℕ) → 0 < x → x < 2 ^ 32 → (0 < lsb x) × (lsb x ≤ x)
unfolding lsb
lsb_bounds = lsb_at_bounds 32

pub covers_step : (i j : ℕ) → 0 < i → i < j → j < 2 ^ 32 → covers j i ≡ covers j (i + lsb i)
unfolding lsb
covers_step = covers_at_step 32
