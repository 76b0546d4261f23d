-- ===== src/FenwickTree.antt =====
-- include/fenwick_tree.h: `FenwickTree`, sums of prefixes in a binary indexed tree. A failed
-- `assert` is `none`; a `long long` is its word of 64 bits, an `int` that is not negative its word
-- of 32 bits.
pub mod Bits
pub mod Sums
pub mod Updates
mod Tests
use Prim.Native.Nat.{bit_and}
use av_utils.Base.{
  List, Option, [], get_or, if◌then◌else◌, leb, length, ltb, negsuc, none, pos, replicate, set,
  some, suc, zero, ℕ, ℤ, ◌%◌, ◌&&◌, ◌+◌, ◌-◌, ◌>>=◌, ◌^◌, ◌∷◌,
}

pub record FenwickTree : Type 0 where
  pub tree : List ℕ
  pub n : ℕ

abbrev pub add_word : ℕ → ℕ → ℕ
add_word a b = (a + b) % 2 ^ 64

abbrev pub sub_word : ℕ → ℕ → ℕ
sub_word a b = (a + (2 ^ 64 - b)) % 2 ^ 64

-- `x & (-x)` in words of `w` bits
abbrev pub lsb_at : ℕ → ℕ → ℕ
lsb_at w x = bit_and x ((2 ^ w - x) % 2 ^ w)

unfoldable pub lsb : ℕ → ℕ
lsb x = lsb_at 32 x

-- The constructor from a size.
unfoldable pub of_size : ℕ → FenwickTree
of_size size = record { tree = replicate (size + 1) 0; n = size }

-- The loop of `update`: `i` grows with each round, so `n` rounds are enough.
unfoldable pub add_from : ℕ → ℕ → ℕ → ℕ → List ℕ → List ℕ
add_from zero n i delta tree = tree
add_from (suc fuel) n i delta tree =
    let rest =
      add_from fuel n ((i + lsb i) % 2 ^ 32) delta
        (set tree i (add_word (get_or tree i 0) delta)) in
    if leb i n then rest else tree

unfoldable pub update : FenwickTree → ℤ → ℕ → Option FenwickTree
update t (negsuc i) delta = none
update t (pos i) delta =
    if ltb i t.n then some (record t { tree = add_from t.n t.n (i + 1) delta t.tree }) else none

-- The loop of `prefixSum`: `i` shrinks with each round, so `i` rounds are enough.
unfoldable pub sum_from : ℕ → ℕ → List ℕ → ℕ → ℕ
sum_from zero i tree sum = sum
sum_from (suc fuel) i tree sum =
    let rest = sum_from fuel (i - lsb i) tree (add_word sum (get_or tree i 0)) in
    if ltb 0 i then rest else sum

unfoldable pub prefix_sum : FenwickTree → ℤ → Option ℕ
prefix_sum t (negsuc zero) = some 0
prefix_sum t (negsuc (suc i)) = none
prefix_sum t (pos i) = if ltb i t.n then some (sum_from (i + 1) (i + 1) t.tree 0) else none

-- `l - 1`
abbrev pub pred : ℕ → ℤ
pred zero = negsuc 0
pred (suc l) = pos l

unfoldable pub query : FenwickTree → ℤ → ℤ → Option ℕ
query t (negsuc l) r = none
query t (pos l) (negsuc r) = none
query t (pos l) (pos r) =
    if leb l r && ltb r t.n
    then (do
      upper ← prefix_sum t (pos r)
      lower ← prefix_sum t (pred l)
      some (sub_word upper lower))
    else none

-- `query(i, i)` after the assertion.
unfoldable pub get : FenwickTree → ℤ → Option ℕ
get t (negsuc i) = none
get t (pos i) = if ltb i t.n then query t (pos i) (pos i) else none

unfoldable pub set_at : FenwickTree → ℤ → ℕ → Option FenwickTree
set_at t (negsuc i) value = none
set_at t (pos i) value =
    if ltb i t.n
    then (do current ← query t (pos i) (pos i); update t (pos i) (sub_word value current))
    else none

-- The loop of the constructor from a vector, from index `i` on.
unfoldable pub update_all : ℕ → List ℕ → FenwickTree → Option FenwickTree
update_all i [] t = some t
update_all i (x ∷ xs) t = do t' ← update t (pos i) x; update_all (suc i) xs t'

-- The constructor from a vector.
unfoldable pub of_values : List ℕ → Option FenwickTree
of_values arr = update_all 0 arr (of_size (length arr))
