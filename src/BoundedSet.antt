-- ===== src/BoundedSet.antt =====
-- include/bounded_set.h: `BoundedSet<T>`, a set of a fixed capacity in the order of insertion that
-- evicts its oldest element.
pub mod Eviction
mod Tests
use av_utils.Base.{
  Bool, List, Outcome, [], false, get_elem?, if◌then◌else◌, invalid_argument, length, ltb, none, ok,
  or_throw, runtime_error, some, suc, throw, true, zero, ℕ, ◌==◌,
}
use av_utils.Linked.{Linked, elements, erase_node, find, itself, last, pop_front, push_back}

pub record BoundedSet {ℓ} (T : Type ℓ) : Type ℓ where
  -- `order_` and `index_`
  pub links : Linked T T
  pub max_size : ℕ

module _ {ℓ} {T : Type ℓ} where
  abbrev pub as_vector : BoundedSet T → List T
  as_vector s = elements s.links.nodes

  abbrev pub size : BoundedSet T → ℕ
  size s = length s.links.nodes

  abbrev pub is_empty : BoundedSet T → Bool
  is_empty s = size s == 0

  -- The constructor from a capacity.
  unfoldable pub of_capacity : ℕ → Outcome (BoundedSet T)
  of_capacity capacity =
      if capacity == 0
      then throw invalid_argument
      else ok (record { links = record { nodes = []; index = []; next = 0 }; max_size = capacity })

  unfoldable pub clear : BoundedSet T → BoundedSet T
  clear s = record s { links = record s.links { nodes = []; index = [] } }

  abbrev pub front : BoundedSet T → Outcome T
  front s = or_throw runtime_error (get_elem? (as_vector s) 0)

  abbrev pub back : BoundedSet T → Outcome T
  back s = or_throw runtime_error (last (as_vector s))

-- `eq` is `operator==` of the elements.
module _ {ℓ} {T : Type ℓ} (eq : T → T → Bool) where
  abbrev pub contains : BoundedSet T → T → Bool
  contains s value = elim (find eq itself s.links value) [ none ↦ false | some it ↦ true ]

  -- The oldest element goes.
  abbrev pub evict : BoundedSet T → BoundedSet T
  evict s = record s { links = pop_front eq itself s.links }

  unfoldable pub insert : BoundedSet T → T → BoundedSet T × Bool
  insert s value = elim (find eq itself s.links value) [
    | some it ↦ (s, false)
    | none ↦
        let pushed = record s { links = push_back eq itself s.links value } in
        (if ltb pushed.max_size (size pushed) then evict pushed else pushed, true)
  ]

  unfoldable pub erase : BoundedSet T → T → BoundedSet T × Bool
  erase s value = elim (find eq itself s.links value) [
    | none ↦ (s, false)
    | some it ↦ (record s { links = erase_node eq itself s.links value it }, true)
  ]

  -- The loop of `reserve` and `shrink_to_fit`: each round drops an element, so the size is fuel
  -- enough.
  unfoldable pub evict_from : ℕ → BoundedSet T → BoundedSet T
  evict_from zero s = s
  evict_from (suc fuel) s =
      let rest = evict_from fuel (evict s) in if ltb s.max_size (size s) then rest else s

  unfoldable pub shrink_to_fit : BoundedSet T → BoundedSet T
  shrink_to_fit s = evict_from (size s) s

  unfoldable pub reserve : BoundedSet T → ℕ → Outcome (BoundedSet T)
  reserve s new_capacity =
      if new_capacity == 0
      then throw invalid_argument
      else ok (shrink_to_fit (record s { max_size = new_capacity }))
