-- ===== src/RoundRobinQueue/Tests.antt =====
-- Runs of `RoundRobinQueue`, and its theorems at a concrete queue.
use av_utils.Base.{
  Bool, List, [], arith, false, get_elem?, inl, length, negsuc, ok, refl, runtime_error, some, take,
  throw, true, ℕ, ◌++◌, ◌+◌, ◌==◌, ◌∷◌, ◌≡◌, ◌⊎◌,
}
use av_utils.Base.Mod.{}
use av_utils.RoundRobinQueue.{
  RoundRobinQueue, contains, enqueue, find_index, for_each, insert_front, next, peek, remove,
  rotate, size, skip,
}
use av_utils.RoundRobinQueue.Order.{IsValid, enqueue_lem, next_lem, order, skip_lem}
use av_utils.RoundRobinQueue.Fair.{Serves, next-Serves}
use av_utils.RoundRobinQueue.Turn.{for_each_lem, rotate_lem}
use av_utils.RoundRobinQueue.Remove.{order_without, remove_lem}

-- 7 is current, then 8, 9, 5 and 6.
abbrev five : RoundRobinQueue ℕ
five = record { queue = 5 ∷ 6 ∷ 7 ∷ 8 ∷ 9 ∷ []; current = 2 }

abbrev same : ℕ → ℕ → Bool
same a b = a == b

five-IsValid : IsValid five
five-IsValid = inl (omega arith)

rotate_back_three : order (rotate five (negsuc 2)) ≡ 9 ∷ 5 ∷ 6 ∷ 7 ∷ 8 ∷ []
unfolding rotate
rotate_back_three = refl

remove_before : order (remove same five 5).0 ≡ 7 ∷ 8 ∷ 9 ∷ 6 ∷ []
unfolding remove find_index
remove_before = refl

next_lem_example :
    ((order five ≡ []) × (next five ≡ throw runtime_error) × (peek five ≡ throw runtime_error))
    ⊎ ((x : ℕ) × (rest : List ℕ) × (q' : RoundRobinQueue ℕ) × (next five ≡ ok (some x, q'))
        × (peek five ≡ ok (some x))
        × (order five ≡ x ∷ rest)
        × (order q' ≡ rest ++ x ∷ [])
        × IsValid q')
next_lem_example = next_lem five five-IsValid

enqueue_lem_example :
    (order (enqueue five 1) ≡ 7 ∷ 8 ∷ 9 ∷ 1 ∷ 5 ∷ 6 ∷ [])
    × (order (insert_front five 1) ≡ order (enqueue five 1))
    × IsValid (enqueue five 1)
    × IsValid (insert_front five 1)
enqueue_lem_example = enqueue_lem five 1 five-IsValid

skip_lem_example :
    ((order five ≡ []) × (skip five ≡ throw runtime_error))
    ⊎ ((q' : RoundRobinQueue ℕ) × (skip five ≡ ok q')
        × (order q' ≡ 8 ∷ 9 ∷ 5 ∷ 6 ∷ [])
        × (size q' + 1 ≡ size five)
        × IsValid q')
skip_lem_example = skip_lem five five-IsValid

for_each_lem_example :
    (length (for_each five) ≡ size five) × (get_elem? (for_each five) 3 ≡ some (some 5))
unfolding size
for_each_lem_example = for_each_lem five 3 five-IsValid (omega arith)

rotate_lem_example :
    IsValid (rotate five (negsuc 2)) × (get_elem? (order (rotate five (negsuc 2))) 0 ≡ some 9)
unfolding size
rotate_lem_example = rotate_lem five (negsuc 2) 0 five-IsValid (omega arith)

remove_lem_example :
    ((contains same five 6 ≡ false) × (remove same five 6 ≡ (five, false)))
    ⊎ ((i : ℕ) × (y : ℕ) × (get_elem? five.queue i ≡ some y)
        × (same y 6 ≡ true)
        × (contains same (record five { queue = take i five.queue }) 6 ≡ false)
        × (contains same five 6 ≡ true)
        × ((remove same five 6).1 ≡ true)
        × (order (remove same five 6).0 ≡ order_without i five)
        × IsValid (remove same five 6).0)
remove_lem_example = remove_lem same five 6 five-IsValid

next-Serves_example :
    (q' : RoundRobinQueue ℕ) × Serves five (order five) q' × (order q' ≡ order five) × IsValid q'
next-Serves_example = next-Serves five five-IsValid
