-- ===== src/OrderedSet.antt =====
-- include/ordered_set.h: `OrderedSet<T>`, a set in the order of insertion.
pub mod Order
pub mod Merge
pub mod Copy
mod Tests
use av_utils.Base.{
  Bool, List, Outcome, [], false, get_elem?, if◌then◌else◌, length, none, or_throw, out_of_range,
  some, suc, throw, true, ℕ, ◌&&◌, ◌==◌, ◌∷◌,
}
use av_utils.Linked.{Linked, elements, erase_node, find, itself, last, map_erase, push_back}

-- `ordered_elements_` and `element_index_`
pub record OrderedSet {ℓ} (T : Type ℓ) : Type ℓ where
  pub links : Linked T T

module _ {ℓ} {T : Type ℓ} where
  abbrev pub as_vector : OrderedSet T → List T
  as_vector s = elements s.links.nodes

  abbrev pub size : OrderedSet T → ℕ
  size s = length s.links.index

  abbrev pub is_empty : OrderedSet T → Bool
  is_empty s = length s.links.index == 0

  abbrev pub empty : OrderedSet T
  empty = record { links = record { nodes = []; index = []; next = 0 } }

  abbrev pub clear : OrderedSet T → OrderedSet T
  clear s = record { links = record s.links { nodes = []; index = [] } }

  unfoldable pub front : OrderedSet T → Outcome T
  front s =
      if is_empty s then throw out_of_range else or_throw out_of_range (get_elem? (as_vector s) 0)

  unfoldable pub back : OrderedSet T → Outcome T
  back s = if is_empty s then throw out_of_range else or_throw out_of_range (last (as_vector s))

  -- The nodes of a copied list, from address `a` on.
  abbrev pub copied_nodes : ℕ → List T → List (ℕ × T)
  copied_nodes a [] = []
  copied_nodes a (x ∷ xs) = (a, x) ∷ copied_nodes (suc a) xs

-- `eq` is `KeyEqual`.
module _ {ℓ} {T : Type ℓ} (eq : T → T → Bool) where
  abbrev pub contains : OrderedSet T → T → Bool
  contains s value = elim (find eq itself s.links value) [ none ↦ false | some it ↦ true ]

  -- The iterator and whether the element was added.
  unfoldable pub insert : OrderedSet T → T → OrderedSet T × ℕ × Bool
  insert s value = elim (find eq itself s.links value) [
    | some it ↦ (s, it, false)
    | none ↦ (record { links = push_back eq itself s.links value }, s.links.next, true)
  ]

  unfoldable pub erase : OrderedSet T → T → OrderedSet T × ℕ
  erase s key = elim (find eq itself s.links key) [
    | none ↦ (s, 0)
    | some it ↦ (record { links = erase_node eq itself s.links key it }, 1)
  ]

  -- The loop of `merge`, and of the constructor from an initializer list.
  unfoldable pub insert_all : OrderedSet T → List T → OrderedSet T
  insert_all s [] = s
  insert_all s (x ∷ xs) = insert_all (insert s x).0 xs

  unfoldable pub merge : OrderedSet T → OrderedSet T → OrderedSet T
  merge s other = insert_all s (as_vector other)

  -- `merge(OrderedSet&&)` empties the other set.
  unfoldable pub merge_from : OrderedSet T → OrderedSet T → OrderedSet T × OrderedSet T
  merge_from s other = (insert_all s (as_vector other), clear other)

  -- The loop of the copy constructor: `element_index_[*it] = it`.
  abbrev pub index_all : List (ℕ × T) → List (T × ℕ) → List (T × ℕ)
  index_all [] m = m
  index_all (n ∷ l) m = index_all l ((n.1, n.0) ∷ map_erase eq m n.1)

  unfoldable pub copy : OrderedSet T → OrderedSet T
  copy other = record {
    links = record {
      nodes = copied_nodes 0 (as_vector other);
      index = index_all (copied_nodes 0 (as_vector other)) [];
      next = length (as_vector other);
    };
  }

-- `equal` is `operator==` of the elements.
module _ {ℓ} {T : Type ℓ} (equal : T → T → Bool) where
  -- `std::equal` of two ranges of one length.
  abbrev pub equal_from : List T → List T → Bool
  equal_from [] ys = true
  equal_from (x ∷ xs) [] = true
  equal_from (x ∷ xs) (y ∷ ys) = equal x y && equal_from xs ys

  unfoldable pub equals : OrderedSet T → OrderedSet T → Bool
  equals s other = (size s == size other) && equal_from (as_vector s) (as_vector other)
