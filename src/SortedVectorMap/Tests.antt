-- ===== src/SortedVectorMap/Tests.antt =====
-- include/sorted_vector_map.h: the theorems at a concrete map, and runs of the members.
use mathlib.Core.List.{IsChain}
use av_utils.Base.{
  [], get_elem?, if◌then◌else◌, ltb, ltb-IsStrictWeak, ok, out_of_range, refl, some, throw, ℕ, ◌&&◌,
  ◌+◌, ◌==◌, ◌↔◌, ◌∷◌, ◌≡◌,
}
use av_utils.SortedVectorMap.{
  SortedVectorMap, at, clear, count, erase, find, held, insert, insert_all, lower_bound, of_range,
  size, subscript, upper_bound,
}
use av_utils.SortedVectorMap.Order.{IsAscending}
use av_utils.SortedVectorMap.Lookup.{same}
use av_utils.SortedVectorMap.Members.{
  at-count, equal_range-count, erase-at, insert-at, subscript-at, value_or,
}

abbrev three : SortedVectorMap ℕ ℕ
three = record { entries = (1, 10) ∷ (3, 30) ∷ (5, 50) ∷ [] }

three-IsAscending : IsAscending ltb three.entries
three-IsAscending = IsChain.cons-cons refl (IsChain.cons-cons refl (IsChain.singleton (5, 50)))

three_filled : insert_all ltb (clear three) ((3, 30) ∷ (1, 10) ∷ (5, 50) ∷ (3, 31) ∷ []) ≡ three
unfolding insert_all insert held
three_filled = refl

-- Keys twice in a range stay twice in the map, and erasing one leaves the other.
twice : SortedVectorMap ℕ ℕ
twice = of_range (λ l. l) ((1, 10) ∷ (1, 11) ∷ [])

twice_kept : (size twice ≡ 2) × (at ltb (erase ltb twice 1).0 1 ≡ ok 11)
unfolding twice erase find at held
twice_kept = (refl, refl)

at-count_example : (at ltb three 2 ≡ throw out_of_range) ↔ (count ltb three 2 ≡ 0)
at-count_example = at-count ltb three 2

insert-at_example :
    (m' : SortedVectorMap ℕ ℕ) × (insert ltb three (4, 40) ≡ (m', 2, count ltb three 4 == 0))
    × IsAscending ltb m'.entries
    × (size m' + count ltb three 4 ≡ 4)
    × (at ltb m' 4 ≡ (if same ltb 4 4 && (count ltb three 4 == 0) then ok 40 else at ltb three 4))
insert-at_example = insert-at ltb ltb-IsStrictWeak three 4 40 4 three-IsAscending

erase-at_example :
    (m' : SortedVectorMap ℕ ℕ) × (erase ltb three 3 ≡ (m', count ltb three 3))
    × IsAscending ltb m'.entries
    × (size m' + count ltb three 3 ≡ 3)
    × (at ltb m' 3 ≡ throw out_of_range)
erase-at_example = erase-at ltb ltb-IsStrictWeak three 3 3 three-IsAscending

subscript-at_example :
    (m' : SortedVectorMap ℕ ℕ) × (it : ℕ) × (e : ℕ × ℕ) × (subscript ltb 0 three 4 ≡ (m', it))
    × IsAscending ltb m'.entries
    × (get_elem? m'.entries it ≡ some e)
    × (at ltb m' 4 ≡ ok e.1)
    × (e.1 ≡ value_or 0 (at ltb three 4))
subscript-at_example = subscript-at ltb ltb-IsStrictWeak 0 three 4 three-IsAscending

equal_range-count_example : upper_bound ltb three 3 ≡ lower_bound ltb three 3 + count ltb three 3
equal_range-count_example = equal_range-count ltb ltb-IsStrictWeak three 3 three-IsAscending
