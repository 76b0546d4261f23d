-- ===== src/SortedList/Counts.antt =====
-- include/sorted_list_bisect.h: what the searches give after each change.
use mathlib.Core.List.{IsChain}
use av_utils.Base.{
  Bool, Bool-cases, IsStrictWeak, List, [], ap, arith, drop, false, get_elem?, if◌then◌else◌, inl,
  inr, ltb, not, partition_point, refl, suc, sym, take, true, ℕ, ◌+◌, ◌-◌, ◌∙◌, ◌∷◌, ◌≡◌,
}
use av_utils.SortedList.{SortedList, count, erase, insert, lower_bound, matches, range}
use av_utils.SortedList.Order.{
  IsOrdered, between, erase_at-removed, insert_at-inserted, inserted, inserted-IsOrdered,
  no_ties_before, removed, removed-IsOrdered, tail_ordered, tied, ties,
}

module _ {ℓ} {T : Type ℓ} (comp : T → T → Bool) (order : IsStrictWeak comp) where
  open order use {irrefl, trans, co_trans}

  pub lower_zero :
      (x : T) (xs : List T) (v : T)
      → comp x v ≡ false
      → IsOrdered comp (x ∷ xs)
      → partition_point (λ y. comp y v) xs ≡ 0
  lower_zero x [] v h s = refl
  lower_zero x (y ∷ ys) v h (IsChain.cons-cons p s) = ground (arith, co_trans y x v)

  bounds-ties :
      (xs : List T) (v : T)
      → IsOrdered comp xs
      → partition_point (λ x. not (comp v x)) xs
        ≡ partition_point (λ x. comp x v) xs + ties comp xs v
  bounds-ties [] v s = refl
  bounds-ties (x ∷ xs) v s = ground (
    arith,
    bounds-ties xs v (tail_ordered comp order x xs s),
    lower_zero x xs v,
    no_ties_before comp order x xs v,
    trans x v x,
    irrefl x,
  )

  ties-inserted :
      (xs : List T) (v q : T)
      → ties comp (inserted comp xs v) q ≡ ties comp xs q + (if tied comp v q then 1 else 0)
  ties-inserted [] v q = ground arith
  ties-inserted (x ∷ xs) v q = ground (arith, ties-inserted xs v q)

  ties-removed :
      (xs : List T) (v q : T)
      → IsOrdered comp xs
      → ties comp (removed comp xs v) q
        ≡ (if tied comp v q then ties comp xs q - 1 else ties comp xs q)
  ties-removed [] v q s = ground arith
  ties-removed (x ∷ xs) v q s = ground (
    arith,
    ties-removed xs v q (tail_ordered comp order x xs s),
    no_ties_before comp order x xs q,
    co_trans x q v,
    co_trans x v q,
    co_trans v q x,
    co_trans q v x,
    co_trans q x v,
    co_trans v x q,
  )

  matches-ties :
      (xs : List T) (v : T)
      → IsOrdered comp xs
      → matches comp v (get_elem? xs (partition_point (λ x. comp x v) xs)) ≡ ltb 0 (ties comp xs v)
  matches-ties [] v s = refl
  matches-ties (x ∷ xs) v s =
      ground (
        arith,
        matches-ties xs v (tail_ordered comp order x xs s),
        no_ties_before comp order x xs v,
      )

  count-ties :
      (l : SortedList T) (v : T) → IsOrdered comp l.items → count comp l v ≡ ties comp l.items v
  count-ties l v s = omega (arith, bounds-ties l.items v s)

  pub matches-count :
      (l : SortedList T) (v : T)
      → IsOrdered comp l.items
      → matches comp v (get_elem? l.items (lower_bound comp l v)) ≡ ltb 0 (count comp l v)
  matches-count l v s = matches-ties l.items v s ∙ ap (ltb 0) (sym (count-ties l v s))

  -- For a strict weak order and elements in order: `insert` keeps them in order, and raises the
  -- count of the values tied with the new one by one and of no other.
  pub count-insert :
      (l : SortedList T) (v q : T)
      → IsOrdered comp l.items
      → IsOrdered comp (insert comp l v).items
        × (count comp (insert comp l v) q ≡ count comp l q + (if tied comp v q then 1 else 0))
  count-insert l v q s =
      let s' = inserted-IsOrdered comp order l.items v s in
      rw (insert_at-inserted comp l.items v) (
        s',
        omega (
          arith,
          bounds-ties (inserted comp l.items v) q s',
          bounds-ties l.items q s,
          ties-inserted l.items v q,
        ),
      )

  erase-removed :
      (l : SortedList T) (v : T)
      → IsOrdered comp l.items
      → erase comp l v ≡ (record { items = removed comp l.items v }, ltb 0 (count comp l v))
  unfolding erase
  erase-removed l v s =
      elim (Bool-cases (matches comp v (get_elem? l.items (lower_bound comp l v)))) [
        | inl h ↦
            rw
              (
                erase,
                count-ties l v s,
                ← matches-ties l.items v s,
                ← erase_at-removed comp l.items v,
                h,
              )
              refl
        | inr h ↦
            rw
              (
                erase,
                count-ties l v s,
                ← matches-ties l.items v s,
                ← erase_at-removed comp l.items v,
                h,
              )
              refl
      ]

  -- For a strict weak order and elements in order: `erase` keeps them in order, says whether the
  -- count of the value was positive, and lowers the count of the values tied with it by one, where
  -- it is not 0, and of no other.
  pub count-erase :
      (l : SortedList T) (v q : T)
      → IsOrdered comp l.items
      → (l' : SortedList T) × (erase comp l v ≡ (l', ltb 0 (count comp l v)))
        × IsOrdered comp l'.items
        × (count comp l' q ≡ (if tied comp v q then count comp l q - 1 else count comp l q))
  count-erase l v q s = (
    record { items = removed comp l.items v },
    erase-removed l v s,
    removed-IsOrdered comp order l.items v s,
    ground (
      arith,
      bounds-ties (removed comp l.items v) q (removed-IsOrdered comp order l.items v s),
      bounds-ties l.items q s,
      ties-removed l.items v q s,
    ),
  )

  between_none :
      (x : T) (xs : List T) (low high : T)
      → comp x high ≡ false
      → IsOrdered comp (x ∷ xs)
      → between comp low high (x ∷ xs) ≡ []
  between_none x [] low high h s = ground arith
  between_none x (y ∷ ys) low high h (IsChain.cons-cons p s) =
      let later : comp y high ≡ false = ground (arith, co_trans y x high) in
      ground (arith, between_none y ys low high later s)

  less_one : (a b : ℕ) → suc a - suc b ≡ a - b
  less_one a b = omega arith

  one_more : (a : ℕ) → suc a - 0 ≡ suc (a - 0)
  one_more a = omega arith

  cut-between :
      (xs : List T) (low high : T)
      → comp high low ≡ false
      → IsOrdered comp xs
      → take
          (partition_point (λ x. comp x high) xs - partition_point (λ x. comp x low) xs)
          (drop (partition_point (λ x. comp x low) xs) xs)
        ≡ between comp low high xs
  cut-between [] low high h s = refl
  cut-between (x ∷ xs) low high h s =
      let rest = cut-between xs low high h (tail_ordered comp order x xs s) in
      elim (Bool-cases (comp x low)) [
        | inl l ↦
            let below : comp x high ≡ true = ground (arith, co_trans x high low) in
            rw
              (
                l,
                below,
                less_one (partition_point (λ y. comp y high) xs)
                    (partition_point (λ y. comp y low) xs),
              )
              rest
        | inr l ↦ elim (Bool-cases (comp x high)) [
          | inl g ↦
              let first = lower_zero x xs low l s in
              rw (l, g, one_more (partition_point (λ y. comp y high) xs))
                (ap (◌∷◌ x) (rw first at rest))
          | inr g ↦
              let none_left = between_none x xs low high g s in
              rw (l, g) (sym (rw (l, g) at none_left))
        ]
      ]

  -- For a strict weak order, elements in order and `high` not before `low`: `range(low, high)` is
  -- the list of the elements that are not before `low` and are before `high`.
  pub range-between :
      (l : SortedList T) (low high : T)
      → comp high low ≡ false
      → IsOrdered comp l.items
      → range comp l low high ≡ between comp low high l.items
  range-between l low high h s = cut-between l.items low high h s
