-- ===== src/SortedVectorMap.antt =====
-- include/sorted_vector_map.h: `sorted_vector_map<Key, Value, Compare>`, a vector of entries in
-- the order of their keys. An iterator is an index, `end()` the size.
pub mod Order
pub mod Lookup
pub mod Members
mod Tests
use av_utils.Base.{
  Bool, List, Option, Outcome, [], erase_at, false, get_elem?, if◌then◌else◌, insert_at, length,
  none, not, ok, out_of_range, partition_point, some, throw, true, ℕ, ◌==◌, ◌∷◌,
}

pub record SortedVectorMap {ℓ} (K V : Type ℓ) : Type ℓ where
  pub entries : List (K × V)

-- `comp` is `comp_`, `d` is `Value{}`.
module _ {ℓ} {K V : Type ℓ} (comp : K → K → Bool) where
  abbrev pub lower_bound : SortedVectorMap K V → K → ℕ
  lower_bound m key = partition_point (λ e. comp e.0 key) m.entries

  abbrev pub upper_bound : SortedVectorMap K V → K → ℕ
  upper_bound m key = partition_point (λ e. not (comp key e.0)) m.entries

  abbrev pub equal_range : SortedVectorMap K V → K → ℕ × ℕ
  equal_range m key = (lower_bound m key, upper_bound m key)

  abbrev pub matching : K → Option (K × V) → Option (K × V)
  matching key none = none
  matching key (some e) = if comp key e.0 then none else some e

  -- `lower_bound` and the test `it == end() || comp_(key, it->first)`: the entry at `it`.
  unfoldable pub held : SortedVectorMap K V → K → Option (K × V)
  held m key = matching key (get_elem? m.entries (lower_bound m key))

  unfoldable pub find : SortedVectorMap K V → K → ℕ
  find m key = elim (held m key) [ none ↦ length m.entries | some e ↦ lower_bound m key ]

  unfoldable pub count : SortedVectorMap K V → K → ℕ
  count m key = if find m key == length m.entries then 0 else 1

  unfoldable pub at : SortedVectorMap K V → K → Outcome V
  at m key = elim (held m key) [ none ↦ throw out_of_range | some e ↦ ok e.1 ]

  -- The iterator and whether an entry was added.
  unfoldable pub insert : SortedVectorMap K V → K × V → SortedVectorMap K V × ℕ × Bool
  insert m value = elim (held m value.0) [
    | some e ↦ (m, lower_bound m value.0, false)
    | none ↦ (
      record { entries = insert_at m.entries (lower_bound m value.0) value },
      lower_bound m value.0,
      true,
    )
  ]

  -- `insert(first, last)`
  unfoldable pub insert_all : SortedVectorMap K V → List (K × V) → SortedVectorMap K V
  insert_all m [] = m
  insert_all m (value ∷ values) = insert_all (insert m value).0 values

  -- `operator[]`: the position of the value that the reference denotes.
  unfoldable pub subscript : V → SortedVectorMap K V → K → SortedVectorMap K V × ℕ
  subscript d m key = elim (held m key) [
    | none ↦ let (m', it, added) = insert m (key, d) in (m', it)
    | some e ↦ (m, lower_bound m key)
  ]

  -- `erase(pos)` drops the entry there.
  unfoldable pub erase : SortedVectorMap K V → K → SortedVectorMap K V × ℕ
  erase m key =
      let it = find m key in
      if it == length m.entries then (m, 0) else (record { entries = erase_at m.entries it }, 1)

module _ {ℓ} {K V : Type ℓ} where
  abbrev pub size : SortedVectorMap K V → ℕ
  size m = length m.entries

  abbrev pub is_empty : SortedVectorMap K V → Bool
  is_empty m = length m.entries == 0

  abbrev pub clear : SortedVectorMap K V → SortedVectorMap K V
  clear m = record { entries = [] }

  -- The constructor from a range; `sort` is `std::sort` by `comp_` on the keys.
  abbrev pub of_range : (List (K × V) → List (K × V)) → List (K × V) → SortedVectorMap K V
  of_range sort values = record { entries = sort values }
