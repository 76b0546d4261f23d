-- ===== src/SortedList.antt =====
-- include/sorted_list_bisect.h: `SortedList<T, Compare>`, a vector in ascending order in which
-- equal elements may repeat. An iterator is an index, `end()` the size.
pub mod Order
pub mod Counts
pub mod Bounds
mod Tests
use av_utils.Base.{
  Bool, List, Option, Outcome, [], drop, drop_last, erase_at, false, get_elem?, if◌then◌else◌,
  insert_at, leb, length, logic_error, none, not, ok, or_throw, out_of_range, partition_point,
  runtime_error, some, take, throw, true, ℕ, ◌++◌, ◌-◌, ◌==◌, ◌∷◌,
}

pub record SortedList {ℓ} (T : Type ℓ) : Type ℓ where
  pub items : List T

module _ {ℓ} {T : Type ℓ} where
  abbrev pub size : SortedList T → ℕ
  size l = length l.items

  abbrev pub is_empty : SortedList T → Bool
  is_empty l = length l.items == 0

  abbrev pub clear : SortedList T → SortedList T
  clear l = record { items = [] }

  abbrev pub at : SortedList T → ℕ → Outcome T
  at l index = or_throw out_of_range (get_elem? l.items index)

  unfoldable pub erase_position : SortedList T → ℕ → Outcome (SortedList T)
  erase_position l index =
      if leb (size l) index
      then throw out_of_range
      else ok (record { items = erase_at l.items index })

  -- `erase(first, last)`
  abbrev pub erase_range : SortedList T → ℕ → ℕ → SortedList T
  erase_range l first last = record { items = take first l.items ++ drop last l.items }

  unfoldable pub pop_front : SortedList T → Outcome (SortedList T)
  pop_front l = if is_empty l then throw logic_error else ok (record { items = erase_at l.items 0 })

  unfoldable pub pop_back : SortedList T → Outcome (SortedList T)
  pop_back l = if is_empty l then throw logic_error else ok (record { items = drop_last l.items })

  abbrev pub front : SortedList T → Outcome T
  front l = or_throw runtime_error (get_elem? l.items 0)

  abbrev pub back : SortedList T → Outcome T
  back l = or_throw runtime_error (get_elem? l.items (size l - 1))

module _ {ℓ} {T : Type ℓ} (comp : T → T → Bool) where
  abbrev pub lower_bound : SortedList T → T → ℕ
  lower_bound l value = partition_point (λ x. comp x value) l.items

  abbrev pub upper_bound : SortedList T → T → ℕ
  upper_bound l value = partition_point (λ x. not (comp value x)) l.items

  -- `it != data_.end() && !comp_(value, *it)`
  abbrev pub matches : T → Option T → Bool
  matches value none = false
  matches value (some x) = not (comp value x)

  unfoldable pub contains : SortedList T → T → Bool
  contains l value = matches value (get_elem? l.items (lower_bound l value))

  unfoldable pub index_of : SortedList T → T → Outcome ℕ
  index_of l value =
      if matches value (get_elem? l.items (lower_bound l value))
      then ok (lower_bound l value)
      else throw runtime_error

  unfoldable pub find : SortedList T → T → ℕ
  find l value =
      if matches value (get_elem? l.items (lower_bound l value))
      then lower_bound l value
      else size l

  abbrev pub insert : SortedList T → T → SortedList T
  insert l value = record { items = insert_at l.items (lower_bound l value) value }

  -- The position of the new element besides.
  abbrev pub emplace : SortedList T → T → SortedList T × ℕ
  emplace l value = (insert l value, lower_bound l value)

  -- The constructor from an initializer list.
  unfoldable pub insert_all : SortedList T → List T → SortedList T
  insert_all l [] = l
  insert_all l (x ∷ xs) = insert_all (insert l x) xs

  unfoldable pub erase : SortedList T → T → SortedList T × Bool
  erase l value =
      if matches value (get_elem? l.items (lower_bound l value))
      then (record { items = erase_at l.items (lower_bound l value) }, true)
      else (l, false)

  abbrev pub count : SortedList T → T → ℕ
  count l value = upper_bound l value - lower_bound l value

  abbrev pub range : SortedList T → T → T → List T
  range l low high =
      take (lower_bound l high - lower_bound l low) (drop (lower_bound l low) l.items)

  abbrev pub range_indices : SortedList T → T → T → ℕ × ℕ
  range_indices l low high = (lower_bound l low, lower_bound l high)
