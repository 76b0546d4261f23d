-- ===== src/OrderedSet/Tests.antt =====
-- include/ordered_set.h: the theorems at a concrete set, and runs of the members.
use av_utils.Base.{[], arith, ok, refl, some, true, ℕ, ◌==◌, ◌∷◌, ◌≡◌}
use av_utils.Linked.{find, itself, push_back}
use av_utils.Linked.Nodes.{==-IsEquivalence}
use av_utils.OrderedSet.{
  OrderedSet, as_vector, back, contains, copy, empty, equals, erase, front, insert, insert_all,
  merge, merge_from, size,
}
use av_utils.OrderedSet.Order.{IsValid, erase-as_vector, insert-as_vector, size-as_vector}
use av_utils.OrderedSet.Merge.{merge-newcomers}
use av_utils.OrderedSet.Copy.{copy-as_vector}

abbrev pair : OrderedSet ℕ
pair = record {
  links = record { nodes = (0, 7) ∷ (1, 3) ∷ []; index = (3, 1) ∷ (7, 0) ∷ []; next = 2 };
}

pair_filled : insert_all ◌==◌ empty (7 ∷ 3 ∷ 7 ∷ []) ≡ pair
unfolding insert_all insert push_back
pair_filled = refl

pair_merged : as_vector (merge_from ◌==◌ pair pair).0 ≡ 7 ∷ 3 ∷ []
unfolding merge_from insert_all insert
pair_merged = refl

pair-equals : equals ◌==◌ pair (copy ◌==◌ pair) ≡ true
unfolding equals copy
pair-equals = refl

pair-IsValid : IsValid ◌==◌ ==-IsEquivalence pair
pair-IsValid = record {
  indexed = λ k. ground arith;
  apart = refl;
  old = refl;
  keyed = refl;
  counted = refl;
}

size-as_vector_example :
    (contains ◌==◌ pair 3 ≡ true) × (size pair ≡ 2) × (front pair ≡ ok 7) × (back pair ≡ ok 3)
size-as_vector_example = size-as_vector ◌==◌ ==-IsEquivalence pair 3 pair-IsValid

insert-as_vector_example :
    (s' : OrderedSet ℕ) × (it : ℕ) × (insert ◌==◌ pair 5 ≡ (s', it, true))
    × IsValid ◌==◌ ==-IsEquivalence s'
    × (as_vector s' ≡ 7 ∷ 3 ∷ 5 ∷ [])
    × (find ◌==◌ itself s'.links 5 ≡ some it)
insert-as_vector_example = insert-as_vector ◌==◌ ==-IsEquivalence pair 5 pair-IsValid

erase-as_vector_example :
    (s' : OrderedSet ℕ) × (erase ◌==◌ pair 7 ≡ (s', 1))
    × IsValid ◌==◌ ==-IsEquivalence s'
    × (as_vector s' ≡ 3 ∷ [])
erase-as_vector_example = erase-as_vector ◌==◌ ==-IsEquivalence pair 7 pair-IsValid

merge-newcomers_example :
    IsValid ◌==◌ ==-IsEquivalence (merge ◌==◌ pair pair)
    × (as_vector (merge ◌==◌ pair pair) ≡ 7 ∷ 3 ∷ [])
merge-newcomers_example = merge-newcomers ◌==◌ ==-IsEquivalence pair pair pair-IsValid pair-IsValid

copy-as_vector_example :
    IsValid ◌==◌ ==-IsEquivalence (copy ◌==◌ pair) × (as_vector (copy ◌==◌ pair) ≡ 7 ∷ 3 ∷ [])
copy-as_vector_example = copy-as_vector ◌==◌ ==-IsEquivalence pair pair-IsValid
