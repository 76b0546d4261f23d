-- ===== src/Linked.antt =====
-- A `std::list` whose nodes an `std::unordered_map` finds by key: what bounded_set.h,
-- ordered_set.h, InsertionOrderedMap.h and lru_cache.h of include/ are built on. An iterator is the
-- address of a node, which no change of the list alters; `end()` is `none`.
pub mod Nodes
pub mod Laws
pub mod Ends
pub mod Moves
pub mod Writes
pub mod Hints
use av_utils.Base.{
  Bool, List, Option, [], drop, drop_last, false, get_elem?, if◌then◌else◌, none, some, suc, ℕ,
  ◌++◌, ◌==◌, ◌∷◌,
}

pub record Linked {ℓ} (K E : Type ℓ) : Type ℓ where
  pub nodes : List (ℕ × E)
  pub index : List (K × ℕ)
  -- The address of the next node.
  pub next : ℕ

-- The element of a set is its own key.
abbrev pub itself {ℓ} : {T : Type ℓ} → T → T
itself x = x

-- The key and the value of an entry of a map.
abbrev pub key_of {ℓ} : {K V : Type ℓ} → K × V → K
key_of e = e.0

abbrev pub value_of {ℓ} : {K V : Type ℓ} → Option (K × V) → Option V
value_of none = none
value_of (some e) = some e.1

-- The list alone.
module _ {ℓ} {E : Type ℓ} where
  abbrev pub elements : List (ℕ × E) → List E
  elements [] = []
  elements (n ∷ l) = n.1 ∷ elements l

  -- `*it`
  abbrev pub element_at : List (ℕ × E) → ℕ → Option E
  element_at [] a = none
  element_at (n ∷ l) a = if n.0 == a then some n.1 else element_at l a

  -- `list.erase(it)`
  abbrev pub unlink : List (ℕ × E) → ℕ → List (ℕ × E)
  unlink [] a = []
  unlink (n ∷ l) a = if n.0 == a then l else n ∷ unlink l a

  -- An assignment through `it`.
  abbrev pub assign : (E → E) → List (ℕ × E) → ℕ → List (ℕ × E)
  assign f [] a = []
  assign f (n ∷ l) a = if n.0 == a then (n.0, f n.1) ∷ l else n ∷ assign f l a

  -- `list.splice(list.begin(), list, it)`
  abbrev pub splice_front : List (ℕ × E) → ℕ → List (ℕ × E)
  splice_front l a = elim (element_at l a) [ none ↦ l | some e ↦ (a, e) ∷ unlink l a ]

  -- `list.splice(list.end(), list, it)`
  abbrev pub splice_back : List (ℕ × E) → ℕ → List (ℕ × E)
  splice_back l a = elim (element_at l a) [ none ↦ l | some e ↦ unlink l a ++ (a, e) ∷ [] ]

  -- The last element, of a list that is not empty.
  abbrev pub last : List E → Option E
  last [] = none
  last (e ∷ []) = some e
  last (e ∷ f ∷ es) = last (f ∷ es)

  -- `it == list.begin()`
  abbrev pub is_first : List (ℕ × E) → ℕ → Bool
  is_first [] it = false
  is_first (n ∷ l) it = n.0 == it

  -- `it == std::prev(list.end())`
  abbrev pub is_last : List (ℕ × E) → ℕ → Bool
  is_last [] it = false
  is_last (n ∷ []) it = n.0 == it
  is_last (n ∷ m ∷ l) it = is_last (m ∷ l) it

  unfoldable pub move_to_front : List (ℕ × E) → ℕ → List (ℕ × E)
  move_to_front l it = if is_first l it then l else splice_front l it

  unfoldable pub move_to_back : List (ℕ × E) → ℕ → List (ℕ × E)
  move_to_back l it = if is_last l it then l else splice_back l it

  -- `list.insert(hint, e)` of a new node before that of an address.
  abbrev pub insert_before : List (ℕ × E) → ℕ → ℕ × E → List (ℕ × E)
  insert_before [] hint n = n ∷ []
  insert_before (m ∷ l) hint n = if m.0 == hint then n ∷ m ∷ l else m ∷ insert_before l hint n

  -- Before `end()` when there is no address.
  abbrev pub link_before : List (ℕ × E) → Option ℕ → ℕ × E → List (ℕ × E)
  link_before l none n = l ++ n ∷ []
  link_before l (some hint) n = insert_before l hint n

  -- The iterator after one: `++it`.
  abbrev pub next_of : List (ℕ × E) → ℕ → Option ℕ
  next_of [] it = none
  next_of (n ∷ []) it = none
  next_of (n ∷ m ∷ l) it = if n.0 == it then some m.0 else next_of (m ∷ l) it

-- The map alone; `eq` is its `KeyEqual`.
module _ {ℓ} {K : Type ℓ} (eq : K → K → Bool) where
  abbrev pub map_find : List (K × ℕ) → K → Option ℕ
  map_find [] k = none
  map_find (p ∷ m) k = if eq p.0 k then some p.1 else map_find m k

  abbrev pub map_erase : List (K × ℕ) → K → List (K × ℕ)
  map_erase [] k = []
  map_erase (p ∷ m) k = if eq p.0 k then map_erase m k else p ∷ map_erase m k

-- Both; `key` is the key of an element.
module _ {ℓ} {K E : Type ℓ} (eq : K → K → Bool) (key : E → K) where
  -- `find` by key: an iterator.
  abbrev pub find : Linked K E → K → Option ℕ
  find l k = map_find eq l.index k

  -- `list.push_back(e)`, and the map learns of the node.
  unfoldable pub push_back : Linked K E → E → Linked K E
  push_back l e = record {
    nodes = l.nodes ++ (l.next, e) ∷ [];
    index = (key e, l.next) ∷ map_erase eq l.index (key e);
    next = suc l.next;
  }

  -- A new node before a hint.
  unfoldable pub push_at : Linked K E → Option ℕ → E → Linked K E
  push_at l hint e = record {
    nodes = link_before l.nodes hint (l.next, e);
    index = (key e, l.next) ∷ map_erase eq l.index (key e);
    next = suc l.next;
  }

  unfoldable pub push_front : Linked K E → E → Linked K E
  push_front l e = record {
    nodes = (l.next, e) ∷ l.nodes;
    index = (key e, l.next) ∷ map_erase eq l.index (key e);
    next = suc l.next;
  }

  -- `list.erase(map_it->second); map.erase(map_it);`
  unfoldable pub erase_node : Linked K E → K → ℕ → Linked K E
  erase_node l k a = record l { nodes = unlink l.nodes a; index = map_erase eq l.index k }

  -- `map.erase(key of list.front()); list.pop_front();`
  unfoldable pub pop_front : Linked K E → Linked K E
  pop_front l = elim (get_elem? (elements l.nodes) 0) [
    | none ↦ l
    | some e ↦ record l { nodes = drop 1 l.nodes; index = map_erase eq l.index (key e) }
  ]

  unfoldable pub pop_back : Linked K E → Linked K E
  pop_back l = elim (last (elements l.nodes)) [
    | none ↦ l
    | some e ↦ record l { nodes = drop_last l.nodes; index = map_erase eq l.index (key e) }
  ]
