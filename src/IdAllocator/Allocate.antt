-- ===== src/IdAllocator/Allocate.antt =====
-- The invariant of `IDAllocator`, and `allocate`.
use native.Mathlib.Decide.{ℕ_discrete, dec_le}
use native.Mathlib.Nat.{mod-eq_of_lt}
use av_utils.Base.{
  List, Option, [], arith, false, inl, inr, mem, mem-set_insert, none, refl, set_insert, some,
  subst, sym, true, ℕ, ◌%◌, ◌+◌, ◌<◌, ◌==◌, ◌^◌, ◌||◌, ◌≡◌, ◌≤◌, ◌⊎◌,
}
use av_utils.IdAllocator.{
  IdAllocator, allocate, allocate_within, finish, is_allocated, scan, take_candidate, take_freed,
}
use av_utils.IdAllocator.Scan.{
  FromFreed, FromFreed-none, FromFreed-some, from_freed-FromFreed, scan_lem,
}

-- Ids in use and freed ids lie in the range, and below the next id each id is in use or freed.
pub record IsValid (a : IdAllocator) : Type 0 where
  pub ordered : a.min_id ≤ a.max_id
  pub next_low : a.min_id ≤ a.next_available_id
  pub next_high : a.next_available_id ≤ a.max_id + 1
  pub used_in_range : (i : ℕ) → is_allocated a i ≡ true → (a.min_id ≤ i) × (i ≤ a.max_id)
  pub freed_in_range : (i : ℕ) → mem a.freed_ids i ≡ true → (a.min_id ≤ i) × (i ≤ a.max_id)
  pub accounted :
      (i : ℕ)
      → a.min_id ≤ i
      → i < a.next_available_id
      → (is_allocated a i ≡ true) ⊎ (mem a.freed_ids i ≡ true)

-- Membership after one more id is in use.
pub mem-used :
    (id : ℕ) (xs : List ℕ) (i : ℕ) → mem (set_insert id xs) i ≡ true → (i ≡ id) ⊎ (mem xs i ≡ true)
mem-used id xs i h = elim (ℕ_discrete id i) [
  | yes q ↦ inl (sym q)
  | no q ↦ inr (ground (arith, mem-set_insert id xs i, h, q))
]

pub used-mem : (id : ℕ) (xs : List ℕ) (i : ℕ) → mem xs i ≡ true → mem (set_insert id xs) i ≡ true
used-mem id xs i h = ground (arith, mem-set_insert id xs i, h)

pub used-new : (id : ℕ) (xs : List ℕ) (i : ℕ) → i ≡ id → mem (set_insert id xs) i ≡ true
used-new id xs i h = ground (arith, mem-set_insert id xs i, h)

take_freed-IsValid :
    (a : IdAllocator) (rest : List ℕ) (id : ℕ)
    → IsValid a
    → FromFreed a.used_ids a.freed_ids (some id) rest
    → IsValid (take_freed a rest id)
unfolding is_allocated
take_freed-IsValid a rest id v f =
    let (x, y, z, t) = FromFreed-some f in
    record {
      ordered = v.ordered;
      next_low = v.next_low;
      next_high = v.next_high;
      used_in_range = λ i m. elim (mem-used id a.used_ids i m) [
        | inl q ↦ subst (λ j. (a.min_id ≤ j) × (j ≤ a.max_id)) (sym q) (v.freed_in_range id y)
        | inr q ↦ v.used_in_range i q
      ];
      freed_in_range = λ i m. v.freed_in_range i (z i m);
      accounted = λ i l h. elim (v.accounted i l h) [
        | inl q ↦ inl (used-mem id a.used_ids i q)
        | inr q ↦ elim (t i q) [
          | inl m ↦ inl (used-mem id a.used_ids i m)
          | inr (inl e) ↦ inl (used-new id a.used_ids i e)
          | inr (inr m) ↦ inr m
        ]
      ];
    }

take_candidate-IsValid :
    (w : ℕ) (a : IdAllocator) (rest : List ℕ) (id : ℕ)
    → IsValid a
    → a.max_id + 1 < 2 ^ w
    → FromFreed a.used_ids a.freed_ids none rest
    → a.next_available_id ≤ id
    → id ≤ a.max_id
    → ((i : ℕ) → a.next_available_id ≤ i → i < id → mem a.used_ids i ≡ true)
    → IsValid (take_candidate w a id)
unfolding is_allocated
take_candidate-IsValid w a rest id v room f low high passed = record {
  ordered = v.ordered;
  next_low = omega (arith, next, v.next_low);
  next_high = omega (arith, next);
  used_in_range = λ i m. elim (mem-used id a.used_ids i m) [
    | inl q ↦ (omega (arith, v.next_low, q), omega (arith, q))
    | inr q ↦ v.used_in_range i q
  ];
  freed_in_range = λ i m. absurd cc;
  accounted = λ i l h. inl (earlier i l (omega (arith, h, next)));
}
  where
    next : (id + 1) % 2 ^ w ≡ id + 1
    next = mod-eq_of_lt (omega arith)

    earlier : (i : ℕ) → a.min_id ≤ i → i ≤ id → mem (set_insert id a.used_ids) i ≡ true
    earlier i l h = elim (ℕ_discrete i id) [
      | yes q ↦ used-new id a.used_ids i q
      | no q ↦ used-mem id a.used_ids i (elim (dec_le a.next_available_id i) [
        | yes k ↦ passed i k (omega (arith, h, q))
        | no k ↦ elim (v.accounted i l (omega arith)) [ inl m ↦ m | inr m ↦ FromFreed-none i f m ]
      ])
    ]

-- What `allocate` may do, with its result: a new id in use, or all ids in use already.
abbrev pub Allocates : IdAllocator → ℕ → IdAllocator → Option ℕ → Type 0
Allocates a i a' (some id) =
    (a.min_id ≤ id)
    × (id ≤ a.max_id)
    × (is_allocated a id ≡ false)
    × (is_allocated a' i ≡ ((id == i) || is_allocated a i))
Allocates a i a' none = (is_allocated a i ≡ true) × (a'.used_ids ≡ a.used_ids)

finish-Allocates :
    (w : ℕ) (a : IdAllocator) (i : ℕ) (o : Option ℕ) (rest : List ℕ)
    → IsValid a
    → a.max_id + 1 < 2 ^ w
    → a.min_id ≤ i
    → i ≤ a.max_id
    → FromFreed a.used_ids a.freed_ids o rest
    → (a' : IdAllocator) × (r : Option ℕ) × (finish w a o rest
          (scan w (2 ^ w + 1) a.used_ids a.max_id a.next_available_id)
        ≡ some (a', r))
      × IsValid a'
      × Allocates a i a' r
unfolding is_allocated
finish-Allocates w a i (some id) rest v room low high f =
    let (x, y, z, t) = FromFreed-some f in
    let (l, h) = v.freed_in_range id y in
    (
      take_freed a rest id,
      some id,
      refl,
      take_freed-IsValid a rest id v f,
      (l, h, x, mem-set_insert id a.used_ids i),
    )
finish-Allocates w a i none rest v room low high f =
    elim (scan_lem w (2 ^ w + 1) a.used_ids a.max_id a.next_available_id room v.next_high
      (omega (arith, room))) [
        | inl (e, full) ↦
            rw e (record a { freed_ids = [] }, none, refl, dropped_all full, (all full, refl))
        | inr (id, e, l, h, m, passed) ↦ rw e (
          take_candidate w a id,
          some id,
          refl,
          take_candidate-IsValid w a rest id v room f l h passed,
          (omega (arith, l, v.next_low), h, m, mem-set_insert id a.used_ids i),
        )
      ]
  where
    below : (j : ℕ) → a.min_id ≤ j → j < a.next_available_id → mem a.used_ids j ≡ true
    below j l h = elim (v.accounted j l h) [ inl m ↦ m | inr m ↦ FromFreed-none j f m ]

    dropped_all :
        ((j : ℕ) → a.next_available_id ≤ j → j ≤ a.max_id → mem a.used_ids j ≡ true)
        → IsValid (record a { freed_ids = [] })
    dropped_all full = record {
      ordered = v.ordered;
      next_low = v.next_low;
      next_high = v.next_high;
      used_in_range = v.used_in_range;
      freed_in_range = λ j m. absurd cc;
      accounted = λ j l h. inl (below j l h);
    }

    all :
        ((j : ℕ) → a.next_available_id ≤ j → j ≤ a.max_id → mem a.used_ids j ≡ true)
        → mem a.used_ids i ≡ true
    all full = elim (dec_le a.next_available_id i) [
      | yes k ↦ full i k high
      | no k ↦ below i low (omega arith)
    ]

-- In a valid allocator whose highest id is not the highest value of the id type, `allocate` returns,
-- and the allocator stays valid. It hands out an id of the range that was not in use; that id is in
-- use then, and any other `i` of the range as before. When it hands out none, `i` was in use, and the
-- ids in use are the same.
pub allocate_lem :
    (w : ℕ) (a : IdAllocator) (i : ℕ)
    → IsValid a
    → a.max_id + 1 < 2 ^ w
    → a.min_id ≤ i
    → i ≤ a.max_id
    → (a' : IdAllocator) × (r : Option ℕ) × (allocate w a ≡ some (a', r))
      × IsValid a'
      × Allocates a i a' r
unfolding allocate_within
allocate_lem w a i v room low high =
    finish-Allocates w a i _ _ v room low high (from_freed-FromFreed a.used_ids a.freed_ids)
