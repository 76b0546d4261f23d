-- ===== src/SegmentTree/Tests.antt =====
-- Runs of `SegmentTree`, and its theorems at concrete trees.
use native.Mathlib.Nat.{add_assoc, add_comm, zero-add}
use av_utils.Base.{
  [], get_or, if◌then◌else◌, ok, out_of_range, refl, throw, ℕ, ◌+◌, ◌<◌, ◌==◌, ◌∷◌, ◌≡◌, ◌≤◌, ◌⊎◌,
}
use av_utils.SegmentTree.{SegmentTree, build, fill, from_values, query, query_loop, size, update}
use av_utils.SegmentTree.Sums.{IsCommutativeMonoid, sum}
use av_utils.SegmentTree.Build.{IsValid}
use av_utils.SegmentTree.Shape.{from_values_lem, update_lem, value}
use av_utils.SegmentTree.Query.{query_lem}

abbrev sums : SegmentTree ℕ
sums = from_values ◌+◌ 0 (5 ∷ 1 ∷ 4 ∷ 2 ∷ 3 ∷ [])

plus_laws : IsCommutativeMonoid {T = ℕ} ◌+◌ 0
plus_laws = record { assoc = add_assoc; comm = add_comm; left_id = zero-add }

sums-IsValid : IsValid ◌+◌ 0 sums
sums-IsValid = (from_values_lem ◌+◌ 0 (5 ∷ 1 ∷ 4 ∷ 2 ∷ 3 ∷ [])).0

query_runs : query ◌+◌ 0 0 sums 1 4 ≡ ok 7
unfolding query query_loop from_values build fill
query_runs = refl

-- An associative operation alone does not do: the third value comes before the first two.
query_four {ℓ} :
    {T : Type ℓ} (op : T → T → T) (e d a b c f : T)
    → query op e d (from_values op d (a ∷ b ∷ c ∷ f ∷ [])) 0 3 ≡ ok (op (op e c) (op a b))
unfolding query query_loop from_values build fill
query_four op e d a b c f = refl

from_values_lem_example :
    IsValid ◌+◌ 0 sums
    × (size sums ≡ 5)
    × ((i : ℕ) → i < 5 → value 0 sums i ≡ get_or (5 ∷ 1 ∷ 4 ∷ 2 ∷ 3 ∷ []) i 0)
from_values_lem_example = from_values_lem ◌+◌ 0 (5 ∷ 1 ∷ 4 ∷ 2 ∷ 3 ∷ [])

update_lem_example :
    ((size sums ≤ 2) × (update ◌+◌ 0 sums 2 9 ≡ throw out_of_range))
    ⊎ ((2 < size sums)
        × (t' : SegmentTree ℕ) × (update ◌+◌ 0 sums 2 9 ≡ ok t')
        × IsValid ◌+◌ 0 t'
        × (t'.n ≡ sums.n)
        × ((j : ℕ) → j < sums.n → value 0 t' j ≡ (if 2 == j then 9 else value 0 sums j)))
update_lem_example = update_lem ◌+◌ 0 2 9 sums-IsValid

query_lem_example :
    (((4 < 1) ⊎ (size sums < 4)) × (query ◌+◌ 0 0 sums 1 4 ≡ throw out_of_range))
    ⊎ ((1 ≤ 4) × (4 ≤ size sums) × (query ◌+◌ 0 0 sums 1 4 ≡ ok (sum ◌+◌ 0 (value 0 sums) 1 3)))
query_lem_example = query_lem ◌+◌ 0 0 plus_laws 1 4 sums-IsValid
