-- ===== src/SortedList/Order.antt =====
-- include/sorted_list_bisect.h: insertion and removal in one pass, and the order of the elements.
use mathlib.Core.List.{IsChain}
use av_utils.Base.{
  Bool, Bool-cases, IsStrictWeak, List, [], arith, erase_at, false, get_elem?, if◌then◌else◌, inl,
  inr, insert_at, not, partition_point, refl, suc, true, ℕ, ◌&&◌, ◌∷◌, ◌≡◌,
}
use av_utils.SortedList.{matches}

module _ {ℓ} {T : Type ℓ} (comp : T → T → Bool) where
  -- Neither element is before the other.
  abbrev pub tied : T → T → Bool
  tied a b = not (comp a b) && not (comp b a)

  abbrev pub inserted : List T → T → List T
  inserted [] v = v ∷ []
  inserted (x ∷ xs) v = if comp x v then x ∷ inserted xs v else v ∷ x ∷ xs

  abbrev pub removed : List T → T → List T
  removed [] v = []
  removed (x ∷ xs) v = if comp x v then x ∷ removed xs v else (if comp v x then x ∷ xs else xs)

  -- No element is before the one to its left.
  abbrev pub IsOrdered : List T → Type ℓ
  IsOrdered = IsChain λ a b. comp b a ≡ false

  -- How many elements are tied with a value.
  abbrev pub ties : List T → T → ℕ
  ties [] v = 0
  ties (x ∷ xs) v = if tied x v then suc (ties xs v) else ties xs v

  -- The elements from `low` on and before `high`.
  abbrev pub between : T → T → List T → List T
  between low high [] = []
  between low high (x ∷ xs) =
      if not (comp x low) && comp x high then x ∷ between low high xs else between low high xs

  pub insert_at-inserted :
      (xs : List T) (v : T) → insert_at xs (partition_point (λ x. comp x v) xs) v ≡ inserted xs v
  insert_at-inserted [] v = refl
  insert_at-inserted (x ∷ xs) v = ground (arith, insert_at-inserted xs v)

  pub erase_at-removed :
      (xs : List T) (v : T)
      → (if matches comp v (get_elem? xs (partition_point (λ x. comp x v) xs))
          then erase_at xs (partition_point (λ x. comp x v) xs)
          else xs)
        ≡ removed xs v
  erase_at-removed [] v = refl
  erase_at-removed (x ∷ xs) v = ground (arith, erase_at-removed xs v)

  module _ (order : IsStrictWeak comp) where
    open order use {irrefl, trans, co_trans}

    inserted_after :
        (x : T) (xs : List T) (v : T)
        → comp v x ≡ false
        → IsOrdered (x ∷ xs)
        → IsOrdered (x ∷ inserted xs v)
    inserted_after x [] v h s = IsChain.cons-cons h (IsChain.singleton v)
    inserted_after x (y ∷ ys) v h (IsChain.cons-cons p s) = elim (Bool-cases (comp y v)) [
      | inl l ↦
          rw l
            (IsChain.cons-cons p (inserted_after y ys v (ground (arith, trans y v y, irrefl y)) s))
      | inr l ↦ rw l (IsChain.cons-cons h (IsChain.cons-cons l s))
    ]

    pub inserted-IsOrdered : (xs : List T) (v : T) → IsOrdered xs → IsOrdered (inserted xs v)
    inserted-IsOrdered [] v s = IsChain.singleton v
    inserted-IsOrdered (x ∷ xs) v s = elim (Bool-cases (comp x v)) [
      | inl l ↦ rw l (inserted_after x xs v (ground (arith, trans x v x, irrefl x)) s)
      | inr l ↦ rw l (IsChain.cons-cons l s)
    ]

    pub tail_ordered : (x : T) (xs : List T) → IsOrdered (x ∷ xs) → IsOrdered xs
    tail_ordered x [] s = IsChain.nil
    tail_ordered x (y ∷ ys) (IsChain.cons-cons p s) = s

    skip : (x y : T) (ys : List T) → comp y x ≡ false → IsOrdered (y ∷ ys) → IsOrdered (x ∷ ys)
    skip x y [] p s = IsChain.singleton x
    skip x y (z ∷ zs) p (IsChain.cons-cons q s) = IsChain.cons-cons (co_trans z y x q p) s

    removed_after :
        (x : T) (xs : List T) (v : T) → IsOrdered (x ∷ xs) → IsOrdered (x ∷ removed xs v)
    removed_after x [] v s = s
    removed_after x (y ∷ ys) v (IsChain.cons-cons p s) = elim (Bool-cases (comp y v)) [
      | inl l ↦ rw l (IsChain.cons-cons p (removed_after y ys v s))
      | inr l ↦ elim (Bool-cases (comp v y)) [
        | inl g ↦ rw (l, g) (IsChain.cons-cons p s)
        | inr g ↦ rw (l, g) (skip x y ys p s)
      ]
    ]

    pub removed-IsOrdered : (xs : List T) (v : T) → IsOrdered xs → IsOrdered (removed xs v)
    removed-IsOrdered [] v s = s
    removed-IsOrdered (x ∷ xs) v s = elim (Bool-cases (comp x v)) [
      | inl l ↦ rw l (removed_after x xs v s)
      | inr l ↦ elim (Bool-cases (comp v x)) [
        | inl g ↦ rw (l, g) s
        | inr g ↦ rw (l, g) (tail_ordered x xs s)
      ]
    ]

    -- Nothing from the first element on is tied with a value before it.
    pub no_ties_before :
        (x : T) (xs : List T) (v : T) → comp v x ≡ true → IsOrdered (x ∷ xs) → ties (x ∷ xs) v ≡ 0
    no_ties_before x [] v h s = ground arith
    no_ties_before x (y ∷ ys) v h (IsChain.cons-cons p s) =
        let later : comp v y ≡ true = ground (arith, co_trans v y x) in
        ground (arith, no_ties_before y ys v later s)
