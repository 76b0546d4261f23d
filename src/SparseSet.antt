-- ===== src/SparseSet.antt =====
-- include/sparse_set.h: `SparseSet<uint32_t, uint32_t>`, a dense vector of values and a sparse vector
-- of their positions. An iterator is a position of the dense vector, and `end` is `count_`.
pub mod Equality
pub mod Invariant
mod Tests
pub mod Membership
use av_utils.Base.{
  Bool, List, [], drop_last, false, get_or, if◌then◌else◌, leb, length, ltb, not, replicate, set,
  suc, true, zero, ℕ, ◌%◌, ◌&&◌, ◌++◌, ◌+◌, ◌-◌, ◌==◌, ◌^◌, ◌∷◌,
}

pub record SparseSet : Type 0 where
  pub dense : List ℕ
  pub sparse : List ℕ
  pub count : ℕ

-- `static_cast<size_type>(value)`, and arithmetic on a `size_type`.
abbrev pub to_index : ℕ → ℕ
to_index v = v % 2 ^ 32

-- The constructor: `sparse_` holds `max_val_cap` zeros. A capacity to reserve has no effect here.
pub new : ℕ → SparseSet
new max_val_cap = record { dense = []; sparse = replicate max_val_cap 0; count = 0 }

-- `index < count_ && dense_[index] == value`
abbrev pub holds : SparseSet → ℕ → ℕ → Bool
holds s index value = ltb index s.count && get_or s.dense index 0 == value

-- The new set, the iterator and whether the value was inserted.
pub insert : SparseSet → ℕ → SparseSet × ℕ × Bool
insert s value =
    if leb (length s.sparse) (to_index value)
    then (s, s.count, false)
    else (if holds s (get_or s.sparse (to_index value) 0) value
        then (s, get_or s.sparse (to_index value) 0, false)
        else (
          record {
            dense = s.dense ++ value ∷ [];
            sparse = set s.sparse (to_index value) s.count;
            count = to_index (s.count + 1);
          },
          s.count,
          true,
        ))

-- The last element takes the place of the one that goes.
abbrev pub swap_out : SparseSet → ℕ → SparseSet
swap_out s index =
    let last = get_or s.dense (length s.dense - 1) 0 in
    record {
      dense = drop_last (set s.dense index last);
      sparse = set s.sparse (to_index last) index;
      count = s.count - 1;
    }

-- `count_--` runs only at a positive count.
pub erase : SparseSet → ℕ → SparseSet × Bool
erase s value =
    if leb (length s.sparse) (to_index value)
    then (s, false)
    else (if not (holds s (get_or s.sparse (to_index value) 0) value)
        then (s, false)
        else (swap_out s (get_or s.sparse (to_index value) 0), true))

pub clear : SparseSet → SparseSet
clear s = record s { dense = []; count = 0 }

pub contains : SparseSet → ℕ → Bool
contains s value =
    if leb (length s.sparse) (to_index value)
    then false
    else holds s (get_or s.sparse (to_index value) 0) value

pub find : SparseSet → ℕ → ℕ
find s value =
    if ltb (to_index value) (length s.sparse) && holds s (get_or s.sparse (to_index value) 0) value
    then get_or s.sparse (to_index value) 0
    else s.count

pub empty : SparseSet → Bool
empty s = s.count == 0

pub size : SparseSet → ℕ
size s = s.count

pub max_value_capacity : SparseSet → ℕ
max_value_capacity s = to_index (length s.sparse)

pub swap : SparseSet → SparseSet → SparseSet × SparseSet
swap s t = (
  record { dense = t.dense; sparse = t.sparse; count = t.count },
  record { dense = s.dense; sparse = s.sparse; count = s.count },
)

-- The loop of `operator==` from the iterator `it` on, with `n` rounds to go.
pub all_in : SparseSet → SparseSet → ℕ → ℕ → Bool
all_in s other it zero = true
all_in s other it (suc n) =
    let rest = all_in s other (it + 1) n in
    if not (contains other (get_or s.dense it 0)) then false else rest

pub equal : SparseSet → SparseSet → Bool
equal s other = if not (s.count == other.count) then false else all_in s other 0 s.count

pub not_equal : SparseSet → SparseSet → Bool
not_equal s other = not (equal s other)
