-- ===== src/SlidingWindow/Tests.antt =====
-- Runs of the sliding windows, and their theorems at the window 3 1 2 with the minimum as its extreme.
use av_utils.Base.{
  Bool, List, [], arith, drop, eq→==, false, get_elem?, if◌then◌else◌, inr, leb, ltb, none, ok,
  refl, runtime_error, some, throw, true, ℕ, ◌++◌, ◌==◌, ◌∷◌, ◌≡◌, ◌⊎◌,
}
use av_utils.SlidingWindow.{
  SlidingWindow, append, drop_front, extreme, full, keep, pop, popped, push, push_after, trim,
}
use av_utils.SlidingWindow.Stairs.{IsStrictWeakOrder, exists_in}
use av_utils.SlidingWindow.Window.{IsValid, extreme_lem, pop_lem, push_lem}
use av_utils.SlidingWindow.Duplicate.{extreme-duplicate}
use av_utils.SlidingWindow.Min as Min
use av_utils.SlidingWindow.Max as Max

abbrev same : ℕ → ℕ → Bool
same a b = a == b

abbrev three : SlidingWindow ℕ
three = record { window_capacity = 3; window_data = 3 ∷ 1 ∷ 2 ∷ []; mono = 1 ∷ 2 ∷ [] }

ltb-order : IsStrictWeakOrder ltb
ltb-order = record {
  asym = λ a b h. ground (arith, h);
  irrefl = λ a. ground arith;
  ntrans = λ a b c h k. ground (arith, h, k);
}

same_refl : (x : ℕ) → same x x ≡ true
same_refl x = eq→== x x refl

three-IsValid : IsValid ltb same three
three-IsValid = record { stepped = refl; some_capacity = omega arith; within = omega arith }

push_min :
    Min.push (λ a b. leb b a) same three 0
    ≡ ok (record { window_capacity = 3; window_data = 1 ∷ 2 ∷ 0 ∷ []; mono = 0 ∷ [] })
unfolding push push_after append trim keep pop popped drop_front
push_min = refl

push_max :
    Max.push leb same three 0
    ≡ ok (record { window_capacity = 3; window_data = 1 ∷ 2 ∷ 0 ∷ []; mono = 1 ∷ 2 ∷ 0 ∷ [] })
unfolding push push_after append trim keep pop popped drop_front
push_max = refl

pop_lem_example :
    ((three.window_data ≡ []) × (pop same three ≡ throw runtime_error))
    ⊎ ((x : ℕ) × (rest : List ℕ) × (w' : SlidingWindow ℕ) × (three.window_data ≡ x ∷ rest)
        × (pop same three ≡ ok w')
        × (w'.window_data ≡ rest)
        × (w'.window_capacity ≡ three.window_capacity)
        × IsValid ltb same w')
pop_lem_example = pop_lem ltb same ltb-order same_refl three three-IsValid refl

push_lem_example :
    (w' : SlidingWindow ℕ) × (push ltb same three 0 ≡ ok w')
    × (w'.window_data
        ≡ (if full three then drop 1 three.window_data else three.window_data) ++ 0 ∷ [])
    × IsValid ltb same w'
push_lem_example = push_lem ltb same ltb-order same_refl three 0 three-IsValid (inr refl)

extreme_lem_example :
    ((three.window_data ≡ []) × (extreme three ≡ throw runtime_error))
    ⊎ ((e : ℕ) × (extreme three ≡ ok (some e))
        × (exists_in (λ y. ltb y e) three.window_data ≡ false)
        × (i : ℕ) × (get_elem? three.window_data i ≡ some e))
extreme_lem_example = extreme_lem ltb same ltb-order three three-IsValid

extreme-duplicate_example :
    (once : SlidingWindow ℕ) × (twice : SlidingWindow ℕ) × (left : SlidingWindow ℕ) × (push ltb same
        (record { window_capacity = 2; window_data = []; mono = [] })
        5
      ≡ ok once)
    × (push ltb same once 5 ≡ ok twice)
    × (pop same twice ≡ ok left)
    × (left.window_data ≡ 5 ∷ [])
    × (extreme left ≡ ok none)
extreme-duplicate_example = extreme-duplicate ltb same 2 5 (omega arith) refl refl
