-- ===== src/Base/NatSet.antt =====
-- `std::set` and `std::priority_queue` of numbers as lists, and membership in them.
use av_utils.Base.Tests.{Bool-cases, if◌then◌else◌, leb, ◌==◌}
use Prim.Native.Nat.{ℕ}
use mathlib.Core.Logic.{inl, inr}
use mathlib.Core.Path.{◌≡◌, refl}
use mathlib.Core.Bool.{Bool, false, not, ◌&&◌, ◌||◌}
use mathlib.Core.List.{List, [], ◌∷◌}
use native.Mathlib.Omega.{arith}

-- `count` of a set; of a queue, whether a number waits in it.
abbrev pub mem : List ℕ → ℕ → Bool
mem [] i = false
mem (x ∷ xs) i = (x == i) || mem xs i

abbrev pub set_insert : ℕ → List ℕ → List ℕ
set_insert i xs = if mem xs i then xs else i ∷ xs

abbrev pub set_erase : ℕ → List ℕ → List ℕ
set_erase i [] = []
set_erase i (x ∷ xs) = if x == i then set_erase i xs else x ∷ set_erase i xs

-- `push` of a queue whose top is the least number.
abbrev pub push_ordered : ℕ → List ℕ → List ℕ
push_ordered i [] = i ∷ []
push_ordered i (x ∷ xs) = if leb i x then i ∷ x ∷ xs else x ∷ push_ordered i xs

pub mem-set_insert :
    (i : ℕ) (xs : List ℕ) (j : ℕ) → mem (set_insert i xs) j ≡ ((i == j) || mem xs j)
mem-set_insert i xs j = elim (Bool-cases (mem xs i)) [
  | inl h ↦ rw h ground (arith, h)
  | inr h ↦ rw h refl
]

pub mem-set_erase :
    (i : ℕ) (xs : List ℕ) (j : ℕ) → mem (set_erase i xs) j ≡ (not (i == j) && mem xs j)
mem-set_erase i [] j = ground arith
mem-set_erase i (x ∷ xs) j = ground (arith, mem-set_erase i xs j)

pub mem-push_ordered :
    (i : ℕ) (xs : List ℕ) (j : ℕ) → mem (push_ordered i xs) j ≡ ((i == j) || mem xs j)
mem-push_ordered i [] j = refl
mem-push_ordered i (x ∷ xs) j = ground (arith, mem-push_ordered i xs j)
