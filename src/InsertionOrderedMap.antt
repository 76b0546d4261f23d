-- ===== src/InsertionOrderedMap.antt =====
-- include/InsertionOrderedMap.h: `InsertionOrderedMap<Key, Value>`, a map that keeps its entries
-- in the order of insertion.
pub mod Entries
pub mod Changes
pub mod Hints
mod Tests
use av_utils.Base.{
  Bool, List, Option, Outcome, [], false, get_elem?, length, none, or_throw, out_of_range, some,
  suc, throw, true, ℕ, ◌==◌, ◌∷◌,
}
use av_utils.Linked.{
  Linked, assign, element_at, elements, erase_node, find, key_of, last, link_before, move_to_back,
  move_to_front, next_of, pop_back, pop_front, push_at, push_back, unlink, value_of,
}

-- `list_` and `map_`
pub record InsertionOrderedMap {ℓ} (K V : Type ℓ) : Type ℓ where
  pub links : Linked K (K × V)

module _ {ℓ} {K V : Type ℓ} where
  abbrev pub entries : InsertionOrderedMap K V → List (K × V)
  entries m = elements m.links.nodes

  abbrev pub size : InsertionOrderedMap K V → ℕ
  size m = length m.links.nodes

  abbrev pub is_empty : InsertionOrderedMap K V → Bool
  is_empty m = length m.links.nodes == 0

  abbrev pub empty : InsertionOrderedMap K V
  empty = record { links = record { nodes = []; index = []; next = 0 } }

  abbrev pub clear : InsertionOrderedMap K V → InsertionOrderedMap K V
  clear m = record { links = record m.links { nodes = []; index = [] } }

-- `eq` is `KeyEqual`.
module _ {ℓ} {K V : Type ℓ} (eq : K → K → Bool) where
  abbrev pub contains : InsertionOrderedMap K V → K → Bool
  contains m key = elim (find eq key_of m.links key) [ none ↦ false | some it ↦ true ]

  -- The iterator and whether the entry was added.
  unfoldable pub insert : InsertionOrderedMap K V → K × V → InsertionOrderedMap K V × ℕ × Bool
  insert m value = elim (find eq key_of m.links value.0) [
    | some it ↦ (m, it, false)
    | none ↦ (record { links = push_back eq key_of m.links value }, m.links.next, true)
  ]

  unfoldable pub insert_all : InsertionOrderedMap K V → List (K × V) → InsertionOrderedMap K V
  insert_all m [] = m
  insert_all m (value ∷ values) = insert_all (insert m value).0 values

  -- `insert(hint, value)`
  unfoldable pub insert_hint :
      InsertionOrderedMap K V → Option ℕ → K × V → InsertionOrderedMap K V × ℕ
  insert_hint m hint value = elim (find eq key_of m.links value.0) [
    | some it ↦ (m, it)
    | none ↦ (record { links = push_at eq key_of m.links hint value }, m.links.next)
  ]

  -- The node comes first, and goes again when the map has the key.
  unfoldable pub emplace_hint :
      InsertionOrderedMap K V → Option ℕ → K × V → InsertionOrderedMap K V × ℕ × Bool
  emplace_hint m hint value =
      let added = link_before m.links.nodes hint (m.links.next, value) in
      elim (find eq key_of m.links value.0) [
        | none ↦ (
          record {
            links = record {
              nodes = added;
              index = (value.0, m.links.next) ∷ m.links.index;
              next = suc m.links.next;
            };
          },
          m.links.next,
          true,
        )
        | some it ↦ (
          record {
            links = record {
              nodes = unlink added m.links.next;
              index = m.links.index;
              next = suc m.links.next;
            };
          },
          it,
          false,
        )
      ]

  abbrev pub emplace : InsertionOrderedMap K V → K × V → InsertionOrderedMap K V × ℕ × Bool
  emplace m value = emplace_hint m none value

  unfoldable pub insert_or_assign :
      InsertionOrderedMap K V → K → V → InsertionOrderedMap K V × ℕ × Bool
  insert_or_assign m k obj = elim (find eq key_of m.links k) [
    | some it ↦
        let written = assign (λ e. (e.0, obj)) m.links.nodes it in
        (record { links = record m.links { nodes = written } }, it, false)
    | none ↦ (record { links = push_back eq key_of m.links (k, obj) }, m.links.next, true)
  ]

  unfoldable pub erase : InsertionOrderedMap K V → K → InsertionOrderedMap K V × ℕ
  erase m key = elim (find eq key_of m.links key) [
    | none ↦ (m, 0)
    | some it ↦ (record { links = erase_node eq key_of m.links key it }, 1)
  ]

  -- `erase(pos)`; `none` is `end()`.
  unfoldable pub erase_at_iterator :
      InsertionOrderedMap K V → Option ℕ → InsertionOrderedMap K V × Option ℕ
  erase_at_iterator m none = (m, none)
  erase_at_iterator m (some it) = elim (element_at m.links.nodes it) [
    | none ↦ (m, none)
    | some e ↦ (record { links = erase_node eq key_of m.links e.0 it }, next_of m.links.nodes it)
  ]

  unfoldable pub at : InsertionOrderedMap K V → K → Outcome V
  at m key = elim (find eq key_of m.links key) [
    | none ↦ throw out_of_range
    | some it ↦ or_throw out_of_range (value_of (element_at m.links.nodes it))
  ]

  -- `operator[]`: the node whose value the reference denotes; `d` is `mapped_type{}`.
  unfoldable pub subscript : V → InsertionOrderedMap K V → K → InsertionOrderedMap K V × ℕ
  subscript d m key = elim (find eq key_of m.links key) [
    | some it ↦ (m, it)
    | none ↦ (record { links = push_back eq key_of m.links (key, d) }, m.links.next)
  ]

  unfoldable pub to_front : InsertionOrderedMap K V → K → InsertionOrderedMap K V
  to_front m key = elim (find eq key_of m.links key) [
    | none ↦ m
    | some it ↦ record { links = record m.links { nodes = move_to_front m.links.nodes it } }
  ]

  unfoldable pub to_back : InsertionOrderedMap K V → K → InsertionOrderedMap K V
  to_back m key = elim (find eq key_of m.links key) [
    | none ↦ m
    | some it ↦ record { links = record m.links { nodes = move_to_back m.links.nodes it } }
  ]

  unfoldable pub pop_first : InsertionOrderedMap K V → InsertionOrderedMap K V × Option (K × V)
  pop_first m = elim (get_elem? (entries m) 0) [
    | none ↦ (m, none)
    | some val ↦ (record { links = pop_front eq key_of m.links }, some val)
  ]

  unfoldable pub pop_last : InsertionOrderedMap K V → InsertionOrderedMap K V × Option (K × V)
  pop_last m = elim (last (entries m)) [
    | none ↦ (m, none)
    | some val ↦ (record { links = pop_back eq key_of m.links }, some val)
  ]
