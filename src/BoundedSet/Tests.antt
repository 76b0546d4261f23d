-- ===== src/BoundedSet/Tests.antt =====
-- include/bounded_set.h: the theorems at a concrete set, and runs of the members.
use av_utils.Base.{[], arith, invalid_argument, ok, refl, throw, true, ℕ, ◌==◌, ◌∷◌, ◌≡◌}
use av_utils.Linked.{pop_front, push_back}
use av_utils.Linked.Nodes.{==-IsEquivalence}
use av_utils.BoundedSet.{BoundedSet, as_vector, erase, insert, of_capacity, reserve}
use av_utils.BoundedSet.Eviction.{IsValid, erase-remove, insert-newest, reserve-newest}

-- A set of two, with 7 inserted before 9.
abbrev two : BoundedSet ℕ
two = record {
  links = record { nodes = (0, 7) ∷ (1, 9) ∷ []; index = (9, 1) ∷ (7, 0) ∷ []; next = 2 };
  max_size = 2;
}

two_filled :
    of_capacity {T = ℕ} 2
    ≡ ok (record { links = record { nodes = []; index = []; next = 0 }; max_size = 2 })
unfolding of_capacity
two_filled = refl

two_evicts : as_vector (insert ◌==◌ two 4).0 ≡ 9 ∷ 4 ∷ []
unfolding insert push_back pop_front
two_evicts = refl

two-IsValid : IsValid ◌==◌ ==-IsEquivalence two
two-IsValid = record {
  linked = record {
    indexed = λ k. ground arith;
    apart = refl;
    old = refl;
    keyed = refl;
    counted = refl;
  };
  bounded = omega arith;
  positive = omega arith;
}

insert-newest_example :
    (s' : BoundedSet ℕ) × (insert ◌==◌ two 4 ≡ (s', true))
    × IsValid ◌==◌ ==-IsEquivalence s'
    × (s'.max_size ≡ 2)
    × (as_vector s' ≡ 9 ∷ 4 ∷ [])
insert-newest_example = insert-newest ◌==◌ ==-IsEquivalence two 4 two-IsValid

erase-remove_example :
    (s' : BoundedSet ℕ) × (erase ◌==◌ two 7 ≡ (s', true))
    × IsValid ◌==◌ ==-IsEquivalence s'
    × (s'.max_size ≡ 2)
    × (as_vector s' ≡ 9 ∷ [])
erase-remove_example = erase-remove ◌==◌ ==-IsEquivalence two 7 two-IsValid

reserve-newest_example :
    (reserve ◌==◌ two 0 ≡ throw invalid_argument)
    × ((s' : BoundedSet ℕ) × (reserve ◌==◌ two 1 ≡ ok s')
        × IsValid ◌==◌ ==-IsEquivalence s'
        × (s'.max_size ≡ 1)
        × (as_vector s' ≡ 9 ∷ []))
reserve-newest_example = reserve-newest ◌==◌ ==-IsEquivalence two 0 two-IsValid
