-- ===== src/SparseSet/Membership.antt =====
-- What the operations of `SparseSet` do to the set of values that it holds.
use av_utils.Base.{
  ap, arith, false, get_or, get_or-push, get_or-set, if◌then◌else◌, length, length-set, ltb, not,
  true, ℕ, ◌&&◌, ◌+◌, ◌-◌, ◌<◌, ◌==◌, ◌^◌, ◌↔◌, ◌≡◌,
}
use av_utils.SparseSet.{SparseSet, contains, erase, find, insert, size}
use av_utils.SparseSet.Invariant.{Holds, IsValid, count-lt-sparse, get_or-swap_out, to_index_lem}

-- `contains` answers `true` exactly for the values of the dense vector, and `find` returns the
-- position of such a value and `end` for any other.
pub contains-find :
    {s : SparseSet} (x : ℕ)
    → x < 2 ^ 32
    → IsValid s
    → ((contains s x ≡ true) ↔ Holds s x)
      × ((contains s x ≡ true) ↔ (find s x < s.count))
      × (contains s x ≡ true → get_or s.dense (find s x) 0 ≡ x)
      × (contains s x ≡ false → find s x ≡ s.count)
unfolding contains find
contains-find {s} x u v = (
  (
    λ h. (get_or s.sparse x 0, ground (arith, to_index_lem x u), ground (arith, to_index_lem x u)),
    λ p. there p.0 p.1 p.2,
  ),
  (λ h. ground arith, λ h. ground arith),
  ground arith,
  ground arith,
)
  where
    there : (i : ℕ) → i < s.count → get_or s.dense i 0 ≡ x → contains s x ≡ true
    there i h e =
        ground (
          arith,
          to_index_lem x u,
          v.in_range i,
          v.indexed i,
          ap (λ (y : ℕ). get_or s.sparse y 0) e,
        )

-- `insert` adds exactly its argument, if that is in range: it reports whether it was new, the
-- iterator points to it, and every other value stays as it was. Out of range nothing changes.
pub contains-insert :
    {s : SparseSet} (x w : ℕ)
    → x < 2 ^ 32
    → w < 2 ^ 32
    → IsValid s
    → (contains (insert s x).0 w
        ≡ (if x == w && ltb x (length s.sparse) then true else contains s w))
      × ((insert s x).2 ≡ (ltb x (length s.sparse) && not (contains s x)))
      × ((insert s x).1 ≡ find (insert s x).0 x)
      × (size (insert s x).0 ≡ (if (insert s x).2 then size s + 1 else size s))
unfolding contains insert find size
contains-insert {s} x w u k v =
    rw (to_index_lem x u, to_index_lem w k)
      (ground (
        arith,
        v.room,
        v.counted,
        to_index_lem x u,
        count-lt-sparse x v,
        length-set s.sparse x s.count,
        get_or-set s.sparse x w s.count 0,
        get_or-set s.sparse x x s.count 0,
        get_or-push s.dense x (get_or s.sparse w 0) 0,
        get_or-push s.dense x s.count 0,
      ))

-- `erase` takes away exactly its argument and reports whether it was there.
pub contains-erase :
    {s : SparseSet} (x w : ℕ)
    → x < 2 ^ 32
    → w < 2 ^ 32
    → IsValid s
    → (contains (erase s x).0 w ≡ (if x == w then false else contains s w))
      × ((erase s x).1 ≡ contains s x)
      × (size (erase s x).0 ≡ (if contains s x then size s - 1 else size s))
unfolding contains erase size
contains-erase {s} x w u k v =
    rw (to_index_lem x u, to_index_lem w k)
      (ground (
        arith,
        v.counted,
        to_index_lem x u,
        v.in_range (s.count - 1),
        v.indexed (s.count - 1),
        to_index_lem (get_or s.dense (s.count - 1) 0),
        v.room,
        length-set s.sparse (get_or s.dense (s.count - 1) 0) (get_or s.sparse x 0),
        get_or-set s.sparse (get_or s.dense (s.count - 1) 0) w (get_or s.sparse x 0) 0,
        get_or-swap_out (get_or s.sparse x 0) (get_or s.sparse x 0) v,
        get_or-swap_out (get_or s.sparse x 0) (get_or s.sparse w 0) v,
      ))
