-- ===== src/CountingBloomFilter/Tests.antt =====
-- include/counting_bloom_filter.h: the theorems at a concrete filter, and runs of the members.
use av_utils.Base.{[], arith, false, inl, refl, replicate, true, ℕ, ◌*◌, ◌+◌, ◌∷◌, ◌≡◌, ◌≤◌}
use av_utils.CountingBloomFilter.{
  CountingBloomFilter, add, add_from, contains, contains_from, of_sizes, remove, remove_from,
}
use av_utils.CountingBloomFilter.Counts.{
  IsCount, add-IsCount, contains-held, of_sizes-IsCount, remove-held, total,
}
use av_utils.CountingBloomFilter.Adds.{contains-add}

-- Two hash functions on numbers.
abbrev mixed : ℕ → ℕ → ℕ
mixed item i = item + 2 * i

abbrev blank : CountingBloomFilter
blank = record { counters = replicate 5 0; num_counters = 5; num_hash_functions = 2 }

-- With 3 in it, at the counters 3 and 0.
abbrev three : CountingBloomFilter
three = record { counters = 1 ∷ 0 ∷ 0 ∷ 1 ∷ 0 ∷ []; num_counters = 5; num_hash_functions = 2 }

three_filled : (of_sizes 5 2 ≡ blank) × (add mixed 255 blank 3 ≡ three)
unfolding of_sizes add_from
three_filled = (refl, refl)

three_misses : (contains mixed three 4 ≡ false) × (remove mixed three 4 ≡ (three, false))
unfolding remove contains_from
three_misses = (refl, refl)

-- A full counter forgets: with a largest value of 1, one removal of an item added twice leaves
-- a filter that misses it.
full_forgets : contains mixed (remove mixed (add mixed 1 (add mixed 1 blank 3) 3) 3).0 3 ≡ false
unfolding remove contains_from add_from remove_from
full_forgets = refl

blank-IsCount : IsCount mixed blank []
unfolding of_sizes
blank-IsCount = of_sizes-IsCount mixed 5 2 (omega arith)

fits : (j : ℕ) → total mixed 5 2 (3 ∷ []) j ≤ 255
fits j = ground arith

three-IsCount : IsCount mixed three (3 ∷ [])
unfolding add_from
three-IsCount = add-IsCount mixed 255 blank [] 3 blank-IsCount fits

contains-held_example : contains mixed three 3 ≡ true
contains-held_example = contains-held mixed three [] [] 3 three-IsCount

remove-held_example :
    (f' : CountingBloomFilter) × (remove mixed three 3 ≡ (f', true)) × IsCount mixed f' []
remove-held_example = remove-held mixed three [] [] 3 three-IsCount

add-IsCount_example : IsCount mixed (add mixed 255 blank 3) (3 ∷ [])
add-IsCount_example = add-IsCount mixed 255 blank [] 3 blank-IsCount fits

contains-add_example : contains mixed (add mixed 1 three 8) 3 ≡ true
contains-add_example =
    contains-add mixed 1 three 3 8 (omega arith) (omega arith) refl
      (inl (contains-held mixed three [] [] 3 three-IsCount))
