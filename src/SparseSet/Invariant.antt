-- ===== src/SparseSet/Invariant.antt =====
-- The representation invariant of `SparseSet`, and what keeps it.
use av_utils.Base.{
  Bool-cases, [], ap, arith, false, get_or, get_or-drop_last, get_or-push, get_or-set,
  if◌then◌else◌, inl, inr, leb, length, length-append, length-drop_last, length-replicate,
  length-set, refl, set, suc, zero, ℕ, ◌++◌, ◌+◌, ◌-◌, ◌<◌, ◌==◌, ◌^◌, ◌∷◌, ◌≡◌, ◌≤◌,
}
use av_utils.SparseSet.{SparseSet, clear, erase, holds, insert, new, swap_out, to_index}

-- Each value of the dense vector lies in range, and its sparse slot gives its position.
pub record IsValid (s : SparseSet) : Type 0 where
  pub counted : s.count ≡ length s.dense
  pub room : length s.sparse < 2 ^ 32
  pub in_range : (i : ℕ) → i < s.count → get_or s.dense i 0 < length s.sparse
  pub indexed : (i : ℕ) → i < s.count → get_or s.sparse (get_or s.dense i 0) 0 ≡ i

-- An injection of `n` numbers into `m` numbers.
pub pigeonhole :
    (m n : ℕ) (f : ℕ → ℕ)
    → ((i : ℕ) → i < n → f i < m)
    → ((i j : ℕ) → i < n → j < n → f i ≡ f j → i ≡ j)
    → n ≤ m
pigeonhole m zero f below inj = omega arith
pigeonhole zero (suc n) f below inj = absurd (omega (arith, below 0 (omega arith)))
pigeonhole (suc m) (suc n) f below inj = omega (arith, pigeonhole m n g g-below g-inj)
  where
    g : ℕ → ℕ
    g i = if f i == m then f n else f i

    g-below : (i : ℕ) → i < n → g i < m
    g-below i h = ground (arith, below i, below n, inj i n)

    g-inj : (i j : ℕ) → i < n → j < n → g i ≡ g j → i ≡ j
    g-inj i j h k e = ground (arith, inj i j, inj i n, inj j n, inj n i, inj n j)

-- The dense vector never outgrows the range, so `count_` does not wrap.
pub count-le-sparse : {s : SparseSet} → IsValid s → s.count ≤ length s.sparse
count-le-sparse {s} v =
    pigeonhole (length s.sparse) s.count (λ i. get_or s.dense i 0) v.in_range
      λ i j h k e. omega (arith, v.indexed i h, v.indexed j k, ap (λ x. get_or s.sparse x 0) e)

-- What the code's test says: the slot is that of a value which the dense vector holds.
abbrev pub Holds : SparseSet → ℕ → Type 0
Holds s x = (i : ℕ) × (i < s.count) × (get_or s.dense i 0 ≡ x)

-- A fresh set is valid.
pub new-IsValid : (n : ℕ) → n < 2 ^ 32 → IsValid (new n)
unfolding new
new-IsValid n h = record {
  counted = refl;
  room = omega (arith, length-replicate {A = ℕ} n 0);
  in_range = λ i k. absurd (omega arith);
  indexed = λ i k. absurd (omega arith);
}

-- If a value of the range is not there, the dense vector is smaller than the range.
pub count-lt-sparse :
    {s : SparseSet} (x : ℕ)
    → IsValid s
    → x < length s.sparse
    → holds s (get_or s.sparse x 0) x ≡ false
    → s.count < length s.sparse
count-lt-sparse {s} x v below fresh =
    pigeonhole (length s.sparse) (suc s.count) f (λ i h. ground (arith, v.in_range i))
      λ i j h k e.
        ground (arith, v.indexed i, v.indexed j, fresh, ap (λ (y : ℕ). get_or s.sparse y 0) e)
  where
    f : ℕ → ℕ
    f i = if i == s.count then x else get_or s.dense i 0

-- A value that is not there goes to the end, and its slot gives that position.
push-IsValid :
    {s : SparseSet} (x : ℕ)
    → IsValid s
    → x < length s.sparse
    → holds s (get_or s.sparse x 0) x ≡ false
    → IsValid (record {
      dense = s.dense ++ x ∷ [];
      sparse = set s.sparse x s.count;
      count = to_index (s.count + 1);
    })
push-IsValid {s} x v below fresh = record {
  counted = omega (arith, v.counted, count, length-append s.dense (x ∷ []));
  room = omega (arith, length-set s.sparse x s.count, v.room);
  in_range = λ i h. ground (
    arith,
    v.counted,
    count,
    v.in_range i,
    get_or-push s.dense x i 0,
    length-set s.sparse x s.count,
  );
  indexed = λ i h. ground (
    arith,
    v.counted,
    count,
    v.in_range i,
    v.indexed i,
    get_or-push s.dense x i 0,
    get_or-set s.sparse x (get_or s.dense i 0) s.count 0,
    get_or-set s.sparse x x s.count 0,
    fresh,
  );
}
  where
    count : to_index (s.count + 1) ≡ s.count + 1
    count = omega (arith, v.room, count-lt-sparse x v below fresh)

-- The dense vector after the last element took the place `index`.
pub get_or-swap_out :
    {s : SparseSet} (index i : ℕ)
    → IsValid s
    → index < s.count
    → suc i < s.count
    → get_or (swap_out s index).dense i 0
      ≡ (if index == i then get_or s.dense (s.count - 1) 0 else get_or s.dense i 0)
get_or-swap_out {s} index i v h k = ground (
  arith,
  v.counted,
  get_or-drop_last (set s.dense index last) i 0,
  length-set s.dense index last,
  get_or-set s.dense index i last 0,
)
  where
    last : ℕ
    last = get_or s.dense (length s.dense - 1) 0

pub swap_out-IsValid :
    {s : SparseSet} (index : ℕ) → IsValid s → index < s.count → IsValid (swap_out s index)
swap_out-IsValid {s} index v h = record {
  counted =
      omega (
        arith,
        v.counted,
        length-set s.dense index last,
        length-drop_last (set s.dense index last),
      );
  room = omega (arith, length-set s.sparse (to_index last) index, v.room);
  in_range = λ i k. ground (
    arith,
    v.in_range i,
    v.in_range (s.count - 1),
    get_or-swap_out index i v h,
    length-set s.sparse (to_index last) index,
  );
  indexed = λ i k. ground (
    arith,
    v.counted,
    v.room,
    v.indexed i,
    v.indexed (s.count - 1),
    v.in_range i,
    v.in_range (s.count - 1),
    get_or-swap_out index i v h,
    get_or-set s.sparse last last index 0,
    get_or-set s.sparse last (get_or s.dense i 0) index 0,
  );
}
  where
    last : ℕ
    last = get_or s.dense (length s.dense - 1) 0

pub to_index_lem : (x : ℕ) → x < 2 ^ 32 → to_index x ≡ x
to_index_lem x h = omega arith

-- `insert` keeps the invariant, whether or not the value is there or in range.
pub insert-IsValid : {s : SparseSet} (x : ℕ) → x < 2 ^ 32 → IsValid s → IsValid (insert s x).0
unfolding insert
insert-IsValid {s} x u v = rw (to_index_lem x u) (elim (Bool-cases (leb (length s.sparse) x)) [
  | inl out ↦ rw out v
  | inr inside ↦ elim (Bool-cases (holds s (get_or s.sparse x 0) x)) [
    | inl there ↦ rw (inside, there) v
    | inr fresh ↦ rw (inside, fresh) (push-IsValid x v (ground arith) fresh)
  ]
])

-- `erase` keeps the invariant.
pub erase-IsValid : {s : SparseSet} (x : ℕ) → x < 2 ^ 32 → IsValid s → IsValid (erase s x).0
unfolding erase
erase-IsValid {s} x u v = rw (to_index_lem x u) (elim (Bool-cases (leb (length s.sparse) x)) [
  | inl out ↦ rw out v
  | inr inside ↦ elim (Bool-cases (holds s (get_or s.sparse x 0) x)) [
    | inl there ↦ rw (inside, there) (swap_out-IsValid (get_or s.sparse x 0) v (ground arith))
    | inr fresh ↦ rw (inside, fresh) v
  ]
])

-- `clear` keeps the invariant, though it leaves the sparse vector as it is.
pub clear-IsValid : {s : SparseSet} → IsValid s → IsValid (clear s)
unfolding clear
clear-IsValid v = record {
  counted = refl;
  room = v.room;
  in_range = λ i k. absurd (omega arith);
  indexed = λ i k. absurd (omega arith);
}
