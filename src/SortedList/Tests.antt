-- ===== src/SortedList/Tests.antt =====
-- include/sorted_list_bisect.h: the theorems at a concrete list, and runs of the members.
use mathlib.Core.List.{IsChain}
use av_utils.Base.{
  [], if◌then◌else◌, logic_error, ltb, ltb-IsStrictWeak, not, ok, refl, runtime_error, throw, ℕ,
  ◌+◌, ◌-◌, ◌∷◌, ◌≡◌,
}
use av_utils.SortedList.{
  SortedList, back, clear, contains, count, erase, find, index_of, insert, insert_all, lower_bound,
  pop_front, range, size, upper_bound,
}
use av_utils.SortedList.Order.{IsOrdered, between, tied}
use av_utils.SortedList.Counts.{count-erase, count-insert, range-between}
use av_utils.SortedList.Bounds.{bounds-elements, index_of-count}

abbrev four : SortedList ℕ
four = record { items = 1 ∷ 3 ∷ 3 ∷ 7 ∷ [] }

four-IsOrdered : IsOrdered ltb four.items
four-IsOrdered =
    IsChain.cons-cons refl (IsChain.cons-cons refl (IsChain.cons-cons refl (IsChain.singleton 7)))

four_filled : insert_all ltb (clear four) (3 ∷ 7 ∷ 1 ∷ 3 ∷ []) ≡ four
unfolding insert_all
four_filled = refl

four_ends : (pop_front (clear four) ≡ throw logic_error) × (back four ≡ ok 7)
unfolding pop_front
four_ends = (refl, refl)

count-insert_example :
    IsOrdered ltb (insert ltb four 3).items
    × (count ltb (insert ltb four 3) 3 ≡ count ltb four 3 + (if tied ltb 3 3 then 1 else 0))
count-insert_example = count-insert ltb ltb-IsStrictWeak four 3 3 four-IsOrdered

count-erase_example :
    (l' : SortedList ℕ) × (erase ltb four 3 ≡ (l', ltb 0 (count ltb four 3)))
    × IsOrdered ltb l'.items
    × (count ltb l' 3 ≡ (if tied ltb 3 3 then count ltb four 3 - 1 else count ltb four 3))
count-erase_example = count-erase ltb ltb-IsStrictWeak four 3 3 four-IsOrdered

range-between_example : range ltb four 2 7 ≡ between ltb 2 7 four.items
range-between_example = range-between ltb ltb-IsStrictWeak four 2 7 refl four-IsOrdered

bounds-elements_example :
    (ltb 3 3 ≡ ltb 1 (lower_bound ltb four 3)) × (not (ltb 3 3) ≡ ltb 1 (upper_bound ltb four 3))
bounds-elements_example = bounds-elements ltb ltb-IsStrictWeak four 3 1 3 four-IsOrdered refl

index_of-count_example :
    (contains ltb four 3 ≡ ltb 0 (count ltb four 3))
    × (index_of ltb four 3
        ≡ (if ltb 0 (count ltb four 3) then ok (lower_bound ltb four 3) else throw runtime_error))
    × (find ltb four 3 ≡ (if ltb 0 (count ltb four 3) then lower_bound ltb four 3 else size four))
index_of-count_example = index_of-count ltb ltb-IsStrictWeak four 3 four-IsOrdered
