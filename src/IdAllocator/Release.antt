-- ===== src/IdAllocator/Release.antt =====
-- `release_range` of `IDAllocator`.
use native.Mathlib.Decide.{ℕ_discrete, dec_le}
use native.Mathlib.Nat.{mod-eq_of_lt}
use av_utils.Base.Mod.{wrap_once}
use av_utils.Base.{
  Bool, Bool-cases, List, ap, arith, eq→==, false, inl, inr, ltb, ltb→le, ltb→lt, mem,
  mem-set_erase, ne→==, not, refl, subst, suc, true, zero, ℕ, ◌%◌, ◌&&◌, ◌+◌, ◌-◌, ◌<◌, ◌^◌, ◌||◌,
  ◌∙◌, ◌≡◌, ◌≤◌, ◌⊎◌,
}
use av_utils.IdAllocator.{
  IdAllocator, all_used, is_allocated, release, release_block, release_range,
}
use av_utils.IdAllocator.Allocate.{IsValid}
use av_utils.IdAllocator.Single.{free-IsValid}
use av_utils.IdAllocator.Ranges.{in_block}

-- What `release_range` may do: the whole block was in use and is free then, or it is not within the
-- bounds or one of its ids is not in use.
abbrev pub Releases : IdAllocator → ℕ → ℕ → ℕ → IdAllocator × Bool → Type 0
Releases a start n i (a', true) =
    (a.min_id ≤ start)
    × (start + n ≤ a.max_id + 1)
    × IsValid a'
    × ((in_block start n i && not (is_allocated a i)) ≡ false)
    × (is_allocated a' i ≡ (not (in_block start n i) && is_allocated a i))
Releases a start n i (a', false) =
    (a' ≡ a)
    × ((start < a.min_id)
        ⊎ (a.max_id + 1 < start + n)
        ⊎ ((j : ℕ) × (in_block start n j ≡ true) × (is_allocated a j ≡ false)))

module _ (w : ℕ) where
  all_used_lem :
      (k : ℕ) (xs : List ℕ) (last current : ℕ)
      → last ≡ current + k
      → last < 2 ^ w
      → ((all_used w k xs last current ≡ true)
          × ((i : ℕ) → current ≤ i → i ≤ last → mem xs i ≡ true))
        ⊎ ((all_used w k xs last current ≡ false)
            × (i : ℕ) × (current ≤ i)
            × (i ≤ last)
            × (mem xs i ≡ false))
  unfolding all_used
  all_used_lem zero xs last current e h = elim (Bool-cases (mem xs current)) [
    | inr m ↦ rw m (inr (refl, current, omega arith, omega arith, m))
    | inl m ↦ rw m (
        inl (
          eq→== current last (omega arith),
          λ i a b. subst (λ j. mem xs j ≡ true) {x = current} {y = i} (omega arith) m,
        ))
  ]
  all_used_lem (suc k) xs last current e h = elim (Bool-cases (mem xs current)) [
    | inr m ↦ rw m (inr (refl, current, omega arith, omega arith, m))
    | inl m ↦
        rw
          (
            m,
            ne→== current last (omega arith),
            above,
            mod-eq_of_lt {n = current + 1} {m = 2 ^ w} (omega arith),
          )
          elim (all_used_lem k xs last (current + 1) (omega arith) h) [
            | inl (f, g) ↦ inl (
              f,
              λ i a b. elim (ℕ_discrete current i) [
                | yes q ↦ subst (λ j. mem xs j ≡ true) q m
                | no q ↦ g i (omega arith) b
              ],
            )
            | inr (f, i, a, b, c) ↦ inr (f, i, omega arith, b, c)
          ]
  ]
    where
      above : ltb last current ≡ false
      above = ground arith

  -- Ids that are in use are released one by one, each as `free` would.
  release_lem :
      (k : ℕ) (a : IdAllocator) (last current i : ℕ)
      → IsValid a
      → last ≡ current + k
      → last < 2 ^ w
      → ((j : ℕ) → current ≤ j → j ≤ last → is_allocated a j ≡ true)
      → IsValid (release w k a last current)
        × (is_allocated (release w k a last current) i
            ≡ (not (in_block current (suc k) i) && is_allocated a i))
  unfolding release is_allocated
  release_lem zero a last current i v e h g = (
    free-IsValid a current v (g current (omega arith) (omega arith)),
    mem-set_erase current a.used_ids i ∙ ground arith,
  )
  release_lem (suc k) a last current i v e h g =
      rw
        (ne→== current last (omega arith), mod-eq_of_lt {n = current + 1} {m = 2 ^ w} (omega arith))
        (let (v', f) =
            release_lem k _ last (current + 1) i
              (free-IsValid a current v (g current (omega arith) (omega arith))) (omega arith) h
              (λ j l m. ground (arith, mem-set_erase current a.used_ids j, g j)) in
          (v', f ∙ ground (arith, mem-set_erase current a.used_ids i)))

  release_block_lem :
      (a : IdAllocator) (start n i last : ℕ)
      → IsValid a
      → a.max_id < 2 ^ w
      → 0 < n
      → (last ≡ start + (n - 1)) ⊎ ((a.max_id + 1 < start + n) × (last < start))
      → Releases a start n i (release_block w a start last)
  unfolding release_block is_allocated
  release_block_lem a start n i last v room more (inr (past, wrapped)) =
      rw outside (refl, inr (inl past))
    where
      outside : (ltb start a.min_id || ltb a.max_id last || ltb last start) ≡ true
      outside = ground arith
  release_block_lem a start n i last v room more (inl e) =
      elim (Bool-cases (ltb start a.min_id || ltb a.max_id last || ltb last start)) [
        | inl o ↦ rw o (refl, beyond o)
        | inr o ↦
            rw (o, distance)
              elim (all_used_lem (n - 1) a.used_ids last start e (high o)) [
                | inr (f, j, l, h, m) ↦ rw f (refl, inr (inr (j, ground arith, m)))
                | inl (f, g) ↦
                    let (v', r) = release_lem (n - 1) a last start i v e (high o) g in
                    rw f (
                      ground (arith, o),
                      ground (arith, o),
                      v',
                      ground (arith, g i),
                      r ∙ ap (λ m. not (in_block start m i) && mem a.used_ids i) (omega arith),
                    )
              ]
      ]
    where
      distance : last - start ≡ n - 1
      distance = omega arith

      high : (ltb start a.min_id || ltb a.max_id last || ltb last start) ≡ false → last < 2 ^ w
      high o = ground (arith, o)

      beyond :
          (ltb start a.min_id || ltb a.max_id last || ltb last start) ≡ true
          → (start < a.min_id)
            ⊎ (a.max_id + 1 < start + n)
            ⊎ ((j : ℕ) × (in_block start n j ≡ true) × (mem a.used_ids j ≡ false))
      beyond o = elim (dec_le a.min_id start) [
        | no q ↦ inl (omega arith)
        | yes q ↦ inr (inl (ground (arith, o)))
      ]

  -- In a valid allocator `release_range` of `n` ids, at least one, from `start` on, with `n`, `start` and
  -- the highest id below 2^w, frees them all when they lie in the
  -- range and are all in use, and any other id `i` is as before; otherwise nothing changes.
  pub release_range_lem :
      (a : IdAllocator) (start n i : ℕ)
      → IsValid a
      → a.max_id < 2 ^ w
      → 0 < n
      → n < 2 ^ w
      → start < 2 ^ w
      → Releases a start n i (release_range w a start n)
  unfolding release_range
  release_range_lem a start n i v room more small low =
      rw (ne→== n 0 (omega arith), mod-eq_of_lt {n = n - 1} {m = 2 ^ w} (omega arith))
        elim (Bool-cases (ltb ((a.max_id + (2 ^ w - (n - 1))) % 2 ^ w) start)) [
          | inl o ↦ rw o (refl, inr (inl (past (ltb→lt _ start o))))
          | inr o ↦ rw o (release_block_lem a start n i _ v room more (ends (ltb→le _ start o)))
        ]
    where
      past : (a.max_id + (2 ^ w - (n - 1))) % 2 ^ w < start → a.max_id + 1 < start + n
      past h = ground (arith, h, wrap_once (2 ^ w) (a.max_id + (2 ^ w - (n - 1))))

      ends :
          start ≤ (a.max_id + (2 ^ w - (n - 1))) % 2 ^ w
          → ((start + (n - 1)) % 2 ^ w ≡ start + (n - 1))
            ⊎ ((a.max_id + 1 < start + n) × ((start + (n - 1)) % 2 ^ w < start))
      ends h = elim (dec_le (2 ^ w) (start + (n - 1))) [
        | no q ↦ inl (mod-eq_of_lt (omega arith))
        | yes q ↦ inr (omega arith, ground (arith, wrap_once (2 ^ w) (start + (n - 1))))
      ]
