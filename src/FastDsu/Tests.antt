-- ===== src/FastDsu/Tests.antt =====
-- Runs of `FastDSU`, and its theorems at a structure of four elements with 0 and 1 in one set.
use av_utils.Base.{
  List, [], arith, if◌then◌else◌, length, not, refl, true, ℕ, ◌&&◌, ◌+◌, ◌<◌, ◌==◌, ◌||◌, ◌↔◌, ◌∷◌,
  ◌≡◌,
}
use av_utils.FastDsu.{
  FastDsu, by_rank, by_size, compress, connected, count_connected_components, count_sets, find,
  find_cycle, find_from, has_cycle, iota, link, new, size, union_all, union_sets,
}
use av_utils.FastDsu.Forest.{Leads, at_root, up}
use av_utils.FastDsu.Find.{IsValid, find_lem}
use av_utils.FastDsu.Sets.{connected-union_sets, size-union_sets, union_sets_lem}
use av_utils.FastDsu.Graph.{new-IsValid}
use av_utils.FastDsu.Runs.{Walk, Within, no_edges, one_more}
use av_utils.FastDsu.Components.{connected-union_all}
use av_utils.FastDsu.Cycles.{HasCycle, compress_lem, has_cycle-count, has_cycle_lem}

abbrev four : FastDsu
four = (union_sets (new 4 by_size) 0 1).0

four-IsValid : IsValid four
unfolding new
four-IsValid =
    (union_sets_lem (new 4 by_size) 0 1 (new-IsValid 4 by_size) (omega arith) (omega arith)).0

four-range : four.max_element ≡ 4
unfolding new
four-range =
    (union_sets_lem (new 4 by_size) 0 1 (new-IsValid 4 by_size) (omega arith) (omega arith)).3

below_four : (x : ℕ) → x < 4 → x < four.max_element
below_four x h = omega (arith, h, four-range)

abbrev triangle : List (ℕ × ℕ)
triangle = (0, 1) ∷ (1, 2) ∷ (2, 0) ∷ []

unfolded_parents : four.parent ≡ 1 ∷ 1 ∷ 2 ∷ 3 ∷ []
unfolding new iota union_sets link find find_from
unfolded_parents = refl

triangle_cycle : has_cycle 4 triangle ≡ true
unfolding has_cycle find_cycle new iota union_sets link find find_from
triangle_cycle = refl

triangle_components : count_connected_components 4 triangle ≡ 2
unfolding count_connected_components count_sets union_all new iota union_sets link find find_from
triangle_components = refl

triangle-Within : Within 4 triangle
triangle-Within =
    one_more (omega arith) (omega arith)
      (one_more (omega arith) (omega arith) (one_more (omega arith) (omega arith) no_edges))

zero-Leads : Leads four.parent 0 1
zero-Leads = rw unfolded_parents (up {y = 1} refl (omega arith) (at_root refl refl))

find_lem_example :
    Leads four.parent 0 (find four 0).1
    × Leads (find four 0).0.parent 0 1
    × IsValid (find four 0).0
    × ((find four 0).0.set_size ≡ four.set_size)
    × ((find four 0).0.rank ≡ four.rank)
    × ((find four 0).0.num_sets ≡ four.num_sets)
    × ((find four 0).0.max_element ≡ four.max_element)
    × ((find four 0).0.strategy ≡ four.strategy)
find_lem_example = find_lem four 0 0 1 four-IsValid (below_four 0 (omega arith)) zero-Leads

union_sets_lem_example :
    IsValid (union_sets four 1 2).0
    × ((union_sets four 1 2).1 ≡ not (connected four 1 2).1)
    × (count_sets (union_sets four 1 2).0 + (if (connected four 1 2).1 then 0 else 1)
        ≡ count_sets four)
    × ((union_sets four 1 2).0.max_element ≡ four.max_element)
union_sets_lem_example =
    union_sets_lem four 1 2 four-IsValid (below_four 1 (omega arith)) (below_four 2 (omega arith))

connected-union_sets_example : (connected (union_sets four 1 2).0 0 2).1 ≡ (
    (connected four 0 2).1
    || ((connected four 0 1).1 && (connected four 2 2).1)
    || ((connected four 0 2).1 && (connected four 1 2).1))
connected-union_sets_example =
    connected-union_sets four 1 2 0 2 four-IsValid (below_four 1 (omega arith))
      (below_four 2 (omega arith)) (below_four 0 (omega arith)) (below_four 2 (omega arith))

size-union_sets_example :
    ((size (union_sets four 1 2).0 1).1
      ≡ (if (connected four 1 2).1 then (size four 1).1 else (size four 1).1 + (size four 2).1))
    × ((size (union_sets four 1 2).0 2).1 ≡ (size (union_sets four 1 2).0 1).1)
size-union_sets_example =
    size-union_sets four 1 2 four-IsValid (below_four 1 (omega arith)) (below_four 2 (omega arith))

connected-union_all_example :
    ((connected (union_all (new 4 by_rank) triangle) 0 2).1 ≡ true) ↔ Walk triangle 0 2
connected-union_all_example =
    connected-union_all 4 by_rank triangle 0 2 triangle-Within (omega arith) (omega arith)

has_cycle-count_example :
    has_cycle 4 triangle ≡ not (count_connected_components 4 triangle + length triangle == 4)
has_cycle-count_example = has_cycle-count 4 triangle triangle-Within

has_cycle_lem_example : (has_cycle 4 triangle ≡ true) ↔ HasCycle triangle
has_cycle_lem_example = has_cycle_lem 4 triangle triangle-Within

compress_lem_example :
    IsValid (compress four)
    × ((connected (compress four) 0 2).1 ≡ (connected four 0 2).1)
    × (count_sets (compress four) ≡ count_sets four)
compress_lem_example =
    compress_lem four 0 2 four-IsValid (below_four 0 (omega arith)) (below_four 2 (omega arith))
