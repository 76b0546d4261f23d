-- ===== src/SortedList/Bounds.antt =====
-- include/sorted_list_bisect.h: what the positions given by the searches mean.
use mathlib.Core.List.{IsChain}
use av_utils.Base.{
  Bool, IsStrictWeak, List, [], arith, get_elem?, if◌then◌else◌, ltb, not, ok, partition_point,
  refl, runtime_error, some, suc, throw, true, zero, ℕ, ◌∷◌, ◌≡◌,
}
use av_utils.SortedList.{
  SortedList, contains, count, find, index_of, lower_bound, size, upper_bound,
}
use av_utils.SortedList.Order.{IsOrdered, tail_ordered}
use av_utils.SortedList.Counts.{lower_zero, matches-count}

module _ {ℓ} {T : Type ℓ} (comp : T → T → Bool) (order : IsStrictWeak comp) where
  open order use {irrefl, trans, co_trans}

  upper_zero :
      (x : T) (xs : List T) (v : T)
      → comp v x ≡ true
      → IsOrdered comp (x ∷ xs)
      → partition_point (λ y. not (comp v y)) xs ≡ 0
  upper_zero x [] v h s = refl
  upper_zero x (y ∷ ys) v h (IsChain.cons-cons p s) = ground (arith, co_trans v y x)

  lower-ltb :
      (xs : List T) (v : T) (i : ℕ) (y : T)
      → IsOrdered comp xs
      → get_elem? xs i ≡ some y
      → comp y v ≡ ltb i (partition_point (λ x. comp x v) xs)
  lower-ltb [] v i y s h = cc
  lower-ltb (x ∷ xs) v zero y s h = ground arith
  lower-ltb (x ∷ xs) v (suc i) y s h =
      ground
        (arith, lower-ltb xs v i y (tail_ordered comp order x xs s), lower_zero comp order x xs v)

  upper-ltb :
      (xs : List T) (v : T) (i : ℕ) (y : T)
      → IsOrdered comp xs
      → get_elem? xs i ≡ some y
      → not (comp v y) ≡ ltb i (partition_point (λ x. not (comp v x)) xs)
  upper-ltb [] v i y s h = cc
  upper-ltb (x ∷ xs) v zero y s h = ground arith
  upper-ltb (x ∷ xs) v (suc i) y s h =
      ground (arith, upper-ltb xs v i y (tail_ordered comp order x xs s), upper_zero x xs v)

  -- For a strict weak order and elements in order: the elements left of `lower_bound` are those
  -- before the value, the elements from `upper_bound` on those after it.
  pub bounds-elements :
      (l : SortedList T) (v : T) (i : ℕ) (y : T)
      → IsOrdered comp l.items
      → get_elem? l.items i ≡ some y
      → (comp y v ≡ ltb i (lower_bound comp l v)) × (not (comp v y) ≡ ltb i (upper_bound comp l v))
  bounds-elements l v i y s h = (lower-ltb l.items v i y s h, upper-ltb l.items v i y s h)

  -- For a strict weak order and elements in order: `contains`, `index_of` and `find` succeed
  -- exactly for a value with a positive count, and give its `lower_bound`; else `index_of` raises
  -- and `find` gives the end.
  pub index_of-count :
      (l : SortedList T) (v : T)
      → IsOrdered comp l.items
      → (contains comp l v ≡ ltb 0 (count comp l v))
        × (index_of comp l v
            ≡ (if ltb 0 (count comp l v) then ok (lower_bound comp l v) else throw runtime_error))
        × (find comp l v ≡ (if ltb 0 (count comp l v) then lower_bound comp l v else size l))
  unfolding contains index_of find
  index_of-count l v s =
      let test = matches-count comp order l v s in
      (rw (contains, test) refl, rw (index_of, test) refl, rw (find, test) refl)
