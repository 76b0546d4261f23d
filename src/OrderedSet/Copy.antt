-- ===== src/OrderedSet/Copy.antt =====
-- include/ordered_set.h: the copy constructor rebuilds the map for the copied nodes.
use av_utils.Base.{
  Bool, List, Option, [], ap, arith, length, none, not, refl, some, suc, true, ℕ, ◌&&◌, ◌+◌, ◌<◌,
  ◌∷◌, ◌≡◌, ◌≤◌,
}
use av_utils.Linked.{element_at, elements, itself, map_erase, map_find}
use av_utils.Linked.Nodes.{
  IsEquivalence, address_of, address_of-lookup, below, distinct, is_some, lookup, unique,
}
use av_utils.Linked.Laws.{address_of-same, map_erase_absent, map_find-map_erase, unique-map_erase}
use av_utils.OrderedSet.{OrderedSet, as_vector, copied_nodes, copy, index_all}
use av_utils.OrderedSet.Order.{IsValid}
use av_utils.OrderedSet.Merge.{once, once-elements}

module _ {ℓ} {T : Type ℓ} (eq : T → T → Bool) (law : IsEquivalence eq) where
  open law use {same_self, swap, through}

  elements-copied : (a : ℕ) (xs : List T) → elements (copied_nodes a xs) ≡ xs
  elements-copied a [] = refl
  elements-copied a (x ∷ xs) = ap (◌∷◌ x) (elements-copied (suc a) xs)

  element_at-copied :
      (a : ℕ) (xs : List T) (b : ℕ) → b < a → element_at (copied_nodes a xs) b ≡ none
  element_at-copied a [] b h = refl
  element_at-copied a (x ∷ xs) b h = ground (arith, element_at-copied (suc a) xs b)

  below-copied :
      (a : ℕ) (xs : List T) (n : ℕ) → a + length xs ≤ n → below n (copied_nodes a xs) ≡ true
  below-copied a [] n h = refl
  below-copied a (x ∷ xs) n h = ground (arith, below-copied (suc a) xs n)

  distinct-copied :
      (a : ℕ) (xs : List T) → once eq law xs ≡ true → distinct eq itself (copied_nodes a xs) ≡ true
  distinct-copied a [] d = refl
  distinct-copied a (x ∷ xs) d = ground (
    arith,
    distinct-copied (suc a) xs,
    element_at-copied (suc a) xs a,
    address_of-lookup eq itself (copied_nodes (suc a) xs) x,
    ap (λ es. is_some (lookup eq itself es x)) (elements-copied (suc a) xs),
  )

  map_find-index_all :
      (l : List (ℕ × T)) (m : List (T × ℕ)) (k : T)
      → distinct eq itself l ≡ true
      → map_find eq (index_all eq l m) k ≡ elim (address_of eq itself l k) as (λ _. Option ℕ) [
        | some a ↦ some a
        | none ↦ map_find eq m k
      ]
  map_find-index_all [] m k d = refl
  map_find-index_all (n ∷ l) m k d = ground (
    arith,
    map_find-index_all l ((n.1, n.0) ∷ map_erase eq m n.1) k,
    map_find-map_erase eq law m n.1 k,
    address_of-same eq itself law l n.1 k,
  )

  unique-index_all :
      (l : List (ℕ × T)) (m : List (T × ℕ))
      → unique eq m ≡ true
      → unique eq (index_all eq l m) ≡ true
  unique-index_all [] m u = u
  unique-index_all (n ∷ l) m u = unique-index_all l ((n.1, n.0) ∷ map_erase eq m n.1) (
      ground (
        arith,
        unique-map_erase eq law m n.1 u,
        map_find-map_erase eq law m n.1 n.1,
        same_self n.1,
      ))

  -- No element of the list is a key of the map.
  abbrev unindexed : List (T × ℕ) → List (ℕ × T) → Bool
  unindexed m [] = true
  unindexed m (n ∷ l) = not (is_some (map_find eq m n.1)) && unindexed m l

  unindexed_cons :
      (m : List (T × ℕ)) (k : T) (a : ℕ) (l : List (ℕ × T))
      → unindexed m l ≡ true
      → address_of eq itself l k ≡ none
      → unindexed ((k, a) ∷ m) l ≡ true
  unindexed_cons m k a [] u h = refl
  unindexed_cons m k a (n ∷ l) u h = ground (arith, unindexed_cons m k a l, swap n.1 k)

  unindexed_nil : (l : List (ℕ × T)) → unindexed [] l ≡ true
  unindexed_nil [] = refl
  unindexed_nil (n ∷ l) = unindexed_nil l

  length-index_all :
      (l : List (ℕ × T)) (m : List (T × ℕ))
      → distinct eq itself l ≡ true
      → unindexed m l ≡ true
      → length (index_all eq l m) ≡ length m + length l
  length-index_all [] m d u = omega arith
  length-index_all (n ∷ l) m d u =
      let same : map_erase eq m n.1 ≡ m = map_erase_absent eq law m n.1 (ground arith) in
      rw same (
        omega (
          arith,
          length-index_all l ((n.1, n.0) ∷ m) (ground arith)
              (unindexed_cons m n.1 n.0 l (ground arith) (ground arith)),
        ))

  -- On a set whose list and map agree, the copy constructor gives a set whose list and map agree,
  -- with the same elements in the same order.
  pub copy-as_vector :
      (other : OrderedSet T)
      → IsValid eq law other
      → IsValid eq law (copy eq other) × (as_vector (copy eq other) ≡ as_vector other)
  unfolding copy
  copy-as_vector other w =
      let xs = as_vector other in
      let d = distinct-copied 0 xs (once-elements eq law other.links.nodes w.apart) in
      (
        record {
          indexed = λ k. ground (arith, map_find-index_all (copied_nodes 0 xs) [] k d);
          apart = d;
          old = below-copied 0 xs (length xs) (omega arith);
          keyed = unique-index_all (copied_nodes 0 xs) [] refl;
          counted = omega (
            arith,
            length-index_all (copied_nodes 0 xs) [] d (unindexed_nil (copied_nodes 0 xs)),
          );
        },
        elements-copied 0 xs,
      )
