-- ===== src/IdAllocator/Ranges.antt =====
-- `allocate_range` of `IDAllocator`, and the next id that wraps round.
use native.Mathlib.Decide.{ℕ_discrete, dec_le}
use native.Mathlib.Nat.{mod-eq_of_lt}
use av_utils.Base.{
  Bool, Bool-cases, List, Option, ap, arith, eq→==, false, if◌then◌else◌, inl, inr, leb, ltb,
  ltb→le, ltb→lt, mem, mem-set_insert, ne→==, none, refl, set_insert, some, subst, suc, true, zero,
  ℕ, ◌%◌, ◌&&◌, ◌+◌, ◌-◌, ◌<◌, ◌==◌, ◌^◌, ◌||◌, ◌∙◌, ◌≡◌, ◌≤◌, ◌⊎◌,
}
use av_utils.IdAllocator.{
  IdAllocator, all_free, allocate_block, allocate_range, is_allocated, mark, take_block,
}
use av_utils.IdAllocator.Allocate.{IsValid}

-- Whether an id lies in the block of `n` from `start` on.
abbrev pub in_block : ℕ → ℕ → ℕ → Bool
in_block start n i = leb start i && ltb i (start + n)

-- What `allocate_block` may do: the whole block was free and is in use then, or it does not fit or
-- one of its ids is in use.
abbrev pub Blocks : IdAllocator → ℕ → ℕ → IdAllocator × Option ℕ → Type 0
Blocks a n i (a', some start) =
    (start ≡ a.next_available_id)
    × (start + n ≤ a.max_id + 1)
    × IsValid a'
    × ((in_block start n i && is_allocated a i) ≡ false)
    × (is_allocated a' i ≡ (in_block start n i || is_allocated a i))
Blocks a n i (a', none) =
    (a' ≡ a)
    × ((a.max_id + 1 < a.next_available_id + n)
        ⊎ ((j : ℕ) × (in_block a.next_available_id n j ≡ true) × (is_allocated a j ≡ true)))

module _ (w : ℕ) where
  all_free_lem :
      (k : ℕ) (xs : List ℕ) (last current : ℕ)
      → last ≡ current + k
      → last < 2 ^ w
      → ((all_free w k xs last current ≡ true)
          × ((i : ℕ) → current ≤ i → i ≤ last → mem xs i ≡ false))
        ⊎ ((all_free w k xs last current ≡ false)
            × (i : ℕ) × (current ≤ i)
            × (i ≤ last)
            × (mem xs i ≡ true))
  unfolding all_free
  all_free_lem zero xs last current e h = elim (Bool-cases (mem xs current)) [
    | inl m ↦ rw m (inr (refl, current, omega arith, omega arith, m))
    | inr m ↦ rw m (
        inl (
          eq→== current last (omega arith),
          λ i a b. subst (λ j. mem xs j ≡ false) {x = current} {y = i} (omega arith) m,
        ))
  ]
  all_free_lem (suc k) xs last current e h = elim (Bool-cases (mem xs current)) [
    | inl m ↦ rw m (inr (refl, current, omega arith, omega arith, m))
    | inr m ↦
        rw
          (
            m,
            ne→== current last (omega arith),
            above,
            mod-eq_of_lt {n = current + 1} {m = 2 ^ w} (omega arith),
          )
          elim (all_free_lem k xs last (current + 1) (omega arith) h) [
            | inl (f, g) ↦ inl (
              f,
              λ i a b. elim (ℕ_discrete current i) [
                | yes q ↦ subst (λ j. mem xs j ≡ false) q m
                | no q ↦ g i (omega arith) b
              ],
            )
            | inr (f, i, a, b, c) ↦ inr (f, i, omega arith, b, c)
          ]
  ]
    where
      above : ltb last current ≡ false
      above = ground arith

  mem-mark :
      (k : ℕ) (xs : List ℕ) (last current i : ℕ)
      → last ≡ current + k
      → last < 2 ^ w
      → mem (mark w k xs last current) i ≡ (in_block current (suc k) i || mem xs i)
  unfolding mark
  mem-mark zero xs last current i e h = mem-set_insert current xs i ∙ ground arith
  mem-mark (suc k) xs last current i e h =
      rw
        (ne→== current last (omega arith), mod-eq_of_lt {n = current + 1} {m = 2 ^ w} (omega arith))
        (mem-mark k (set_insert current xs) last (current + 1) i (omega arith) h
          ∙ ground (arith, mem-set_insert current xs i))

  -- The allocator after a block that fits.
  with_block : IdAllocator → ℕ → ℕ → IdAllocator
  with_block a n next = record a {
    used_ids = mark w (n - 1) a.used_ids (a.next_available_id + (n - 1)) a.next_available_id;
    next_available_id = next;
  }

  with_block-IsValid :
      (a : IdAllocator) (n next : ℕ)
      → IsValid a
      → a.max_id + 1 < 2 ^ w
      → 1 < n
      → a.next_available_id + n ≤ a.max_id + 1
      → next ≡ a.next_available_id + n
      → IsValid (with_block a n next)
  unfolding is_allocated with_block
  with_block-IsValid a n next v room two fits e = record {
    ordered = v.ordered;
    next_low = omega (arith, e, v.next_low);
    next_high = omega (arith, e);
    used_in_range = λ i m. elim (Bool-cases (mem a.used_ids i)) [
      | inl q ↦ v.used_in_range i q
      | inr q ↦ (ground (arith, m, q, marked i, v.next_low), ground (arith, m, q, marked i))
    ];
    freed_in_range = v.freed_in_range;
    accounted = λ i l h. elim (dec_le a.next_available_id i) [
      | yes q ↦ inl (ground (arith, marked i, e))
      | no q ↦ elim (v.accounted i l (omega arith)) [
        | inl m ↦ inl (ground (arith, marked i, m))
        | inr m ↦ inr m
      ]
    ];
  }
    where
      marked :
          (i : ℕ)
          → mem (mark w (n - 1) a.used_ids (a.next_available_id + (n - 1)) a.next_available_id) i
            ≡ (in_block a.next_available_id (suc (n - 1)) i || mem a.used_ids i)
      marked i = mem-mark (n - 1) a.used_ids _ a.next_available_id i refl (omega arith)

  take_block_lem :
      (a : IdAllocator) (n i last : ℕ)
      → IsValid a
      → a.max_id + 1 < 2 ^ w
      → 1 < n
      → a.next_available_id + n ≤ a.max_id + 1
      → last ≡ a.next_available_id + (n - 1)
      → Blocks a n i (take_block w a a.next_available_id last)
  unfolding take_block is_allocated with_block
  take_block_lem a n i last v room two fits e =
      rw (e, distance)
        elim (all_free_lem (n - 1) a.used_ids (a.next_available_id + (n - 1)) a.next_available_id
          refl (omega arith)) [
            | inl (f, g) ↦ rw f (
              refl,
              fits,
              with_block-IsValid a n _ v room two fits next,
              unused g,
              mem-mark (n - 1) a.used_ids _ a.next_available_id i refl (omega arith)
                  ∙ ap (λ m. in_block a.next_available_id m i || mem a.used_ids i) (omega arith),
            )
            | inr (f, j, l, h, m) ↦ rw f (refl, inr (j, ground arith, m))
          ]
    where
      distance : a.next_available_id + (n - 1) - a.next_available_id ≡ n - 1
      distance = omega arith

      next :
          (if a.next_available_id + (n - 1) == a.max_id
            then (a.max_id + 1) % 2 ^ w
            else (a.next_available_id + (n - 1) + 1) % 2 ^ w)
          ≡ a.next_available_id + n
      next = ground (
        arith,
        mod-eq_of_lt {n = a.max_id + 1} {m = 2 ^ w},
        mod-eq_of_lt {n = a.next_available_id + (n - 1) + 1} {m = 2 ^ w},
      )

      unused :
          ((i : ℕ)
            → a.next_available_id ≤ i
            → i ≤ a.next_available_id + (n - 1)
            → mem a.used_ids i ≡ false)
          → (in_block a.next_available_id n i && mem a.used_ids i) ≡ false
      unused g = ground (arith, g i)

  block_lem :
      (a : IdAllocator) (n i : ℕ)
      → IsValid a
      → a.max_id + 1 < 2 ^ w
      → 1 < n
      → n < 2 ^ w
      → Blocks a n i (allocate_block w a n)
  unfolding allocate_block
  block_lem a n i v room two small = elim (Bool-cases (ltb a.max_id a.next_available_id)) [
    | inl o ↦ rw o (refl, inl (omega (arith, ltb→lt a.max_id a.next_available_id o)))
    | inr o ↦
        let inside = ltb→le a.max_id a.next_available_id o in
        rw
          (
            o,
            mod-eq_of_lt {n = a.max_id - a.next_available_id + 1} {m = 2 ^ w} (omega arith),
            mod-eq_of_lt {n = n} {m = 2 ^ w} small,
          )
          elim (Bool-cases (ltb (a.max_id - a.next_available_id + 1) n)) [
            | inl s ↦
                rw s (refl, inl (omega (arith, ltb→lt (a.max_id - a.next_available_id + 1) n s)))
            | inr s ↦ rw s (
                take_block_lem a n i _ v room two
                  (omega (arith, inside, ltb→le (a.max_id - a.next_available_id + 1) n s))
                  (mod-eq_of_lt
                    (omega (arith, inside, ltb→le (a.max_id - a.next_available_id + 1) n s))))
          ]
  ]

  -- In a valid allocator whose highest id is not the highest value of the id type, `allocate_range`
  -- of two or more ids, but fewer than 2^w, takes the block from the next id on when it fits and all of its ids are free:
  -- these are in use then, and any other id `i` as before. Otherwise nothing changes.
  pub allocate_range_lem :
      (a : IdAllocator) (n i : ℕ)
      → IsValid a
      → a.max_id + 1 < 2 ^ w
      → 1 < n
      → n < 2 ^ w
      → (r : IdAllocator × Option ℕ) × (allocate_range w a n ≡ some r) × Blocks a n i r
  unfolding allocate_range
  allocate_range_lem a n i v room two small =
      rw (ne→== n 0 (omega arith), ne→== n 1 (omega arith))
        (allocate_block w a n, refl, block_lem a n i v room two small)
