-- ===== src/Dsu/Tests.antt =====
-- Runs of `DisjointSetUnion` on numbers as keys.
use av_utils.Base.{Bool, [], if◌then◌else◌, not, refl, true, ℕ, ◌&&◌, ◌+◌, ◌==◌, ◌||◌, ◌∷◌, ◌≡◌}
use av_utils.Dsu.{
  Dsu, by_size, connected, contains, count_sets, find, find_from, link, make_set, total_elements,
  union_sets,
}
use av_utils.Dsu.Elements.{make_set_lem}

abbrev same : ℕ → ℕ → Bool
same a b = a == b

abbrev one_set : Dsu ℕ
one_set = record {
  parents = (4, 4) ∷ [];
  ranks = (4, 0) ∷ [];
  sizes = (4, 1) ∷ [];
  sets = 1;
  union_strategy = by_size;
}

-- `unionSets` adds the element it has not met.
union_new : (union_sets same one_set 4 9).0.parents ≡ (4, 9) ∷ (9, 9) ∷ []
unfolding union_sets link find find_from make_set
union_new = refl

union_connects : (connected same (union_sets same one_set 4 9).0 9 4).1 ≡ true
unfolding connected union_sets link find find_from make_set
union_connects = refl

make_set_lem_example :
    (contains same (make_set same one_set 9) 9
      ≡ (contains same one_set 9 || (not (contains same one_set 9) && (9 == 9))))
    × (count_sets (make_set same one_set 9)
        ≡ count_sets one_set + (if contains same one_set 9 then 0 else 1))
    × (total_elements (make_set same one_set 9)
        ≡ total_elements one_set + (if contains same one_set 9 then 0 else 1))
make_set_lem_example = make_set_lem same one_set 9 9
