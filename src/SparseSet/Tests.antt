-- ===== src/SparseSet/Tests.antt =====
-- Runs of `SparseSet`, and its theorems at concrete sets.
use av_utils.Base.{[], arith, false, get_or, length, refl, true, ℕ, ◌<◌, ◌^◌, ◌↔◌, ◌∷◌, ◌≡◌, ◌≤◌}
use av_utils.SparseSet.{SparseSet, all_in, contains, equal, erase, find, insert, new, size}
use av_utils.SparseSet.Invariant.{
  Holds, IsValid, count-le-sparse, erase-IsValid, insert-IsValid, new-IsValid,
}
use av_utils.SparseSet.Membership.{contains-erase, contains-find, contains-insert}
use av_utils.SparseSet.Equality.{equal_iff}

abbrev two_values : SparseSet
two_values = (insert (insert (new 8) 5).0 2).0

abbrev other_order : SparseSet
other_order = (insert (insert (new 8) 2).0 5).0

two_values-IsValid : IsValid two_values
two_values-IsValid =
    insert-IsValid 2 (omega arith) (insert-IsValid 5 (omega arith) (new-IsValid 8 (omega arith)))

other_order-IsValid : IsValid other_order
other_order-IsValid =
    insert-IsValid 5 (omega arith) (insert-IsValid 2 (omega arith) (new-IsValid 8 (omega arith)))

erase_moves_last : (erase (insert two_values 7).0 5).0.dense ≡ 7 ∷ 2 ∷ []
unfolding insert erase new
erase_moves_last = refl

same_values : equal two_values other_order ≡ true
unfolding insert new equal all_in contains
same_values = refl

insert-IsValid_example : IsValid (insert two_values 7).0
insert-IsValid_example = insert-IsValid 7 (omega arith) two_values-IsValid

erase-IsValid_example : IsValid (erase two_values 5).0
erase-IsValid_example = erase-IsValid 5 (omega arith) two_values-IsValid

count-le-sparse_example : two_values.count ≤ length two_values.sparse
count-le-sparse_example = count-le-sparse two_values-IsValid

contains-find_example :
    ((contains two_values 5 ≡ true) ↔ Holds two_values 5)
    × ((contains two_values 5 ≡ true) ↔ (find two_values 5 < two_values.count))
    × (contains two_values 5 ≡ true → get_or two_values.dense (find two_values 5) 0 ≡ 5)
    × (contains two_values 5 ≡ false → find two_values 5 ≡ two_values.count)
contains-find_example = contains-find 5 (omega arith) two_values-IsValid

contains-insert_example :
    (contains (insert two_values 7).0 2 ≡ true)
    × ((insert two_values 7).2 ≡ true)
    × ((insert two_values 7).1 ≡ find (insert two_values 7).0 7)
    × (size (insert two_values 7).0 ≡ 3)
unfolding insert new contains size
contains-insert_example = contains-insert 7 2 (omega arith) (omega arith) two_values-IsValid

contains-erase_example :
    (contains (erase two_values 5).0 2 ≡ true)
    × ((erase two_values 5).1 ≡ true)
    × (size (erase two_values 5).0 ≡ 1)
unfolding insert new contains size
contains-erase_example = contains-erase 5 2 (omega arith) (omega arith) two_values-IsValid

equal_iff_example :
    (equal two_values other_order ≡ true)
    ↔ ((x : ℕ) → x < 2 ^ 32 → contains two_values x ≡ contains other_order x)
equal_iff_example = equal_iff two_values-IsValid other_order-IsValid
