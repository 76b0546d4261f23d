-- ===== src/CountingBloomFilter/Adds.antt =====
-- include/counting_bloom_filter.h: no item that was added is missed, full counters or not.
use native.Mathlib.Nat.{mod-lt}
use native.Mathlib.Decide.{ℕ_discrete}
use av_utils.Base.{
  Bool-cases, List, ap, arith, eq→==, false, get_or, get_or-set_at, get_or-set_off, inl, inr,
  length, ltb, ltb→lt, ne→==, refl, subst, suc, true, zero, ℕ, ◌%◌, ◌+◌, ◌<◌, ◌==◌, ◌∙◌, ◌≡◌, ◌≤◌,
  ◌⊎◌,
}
use av_utils.CountingBloomFilter.{
  CountingBloomFilter, add, add_from, contains, contains_from, raised,
}
use av_utils.CountingBloomFilter.Counts.{SameSizes, found, hits, length-raised, raised_value}

raised_grows :
    (limit : ℕ) (counters : List ℕ) (index j : ℕ)
    → index < length counters
    → 0 < limit
    → (get_or counters j 0 ≤ get_or (raised limit counters index) j 0)
      × (0 < get_or (raised limit counters index) index 0)
raised_grows limit counters index j h p = elim (Bool-cases (ltb (get_or counters index 0) limit)) [
  | inr full ↦ rw full (omega arith, ground arith)
  | inl room ↦
      let value = raised_value limit counters index (ltb→lt (get_or counters index 0) limit room) in
      let next = get_or counters index 0 + 1 in
      rw (room, value)
        (
          elim (ℕ_discrete index j) [
            | yes e ↦
                omega (
                  arith,
                  get_or-set_at counters index j next 0 h e,
                  ap (λ k. get_or counters k 0) e,
                )
            | no d ↦ omega (arith, get_or-set_off counters index j next 0 h d)
          ],
          omega (arith, get_or-set_at counters index index next 0 h refl),
        )
]

module _ {ℓ} {T : Type ℓ} (hasher : T → ℕ → ℕ) (limit : ℕ) where
  grown :
      (rounds i : ℕ) (f : CountingBloomFilter) (item : T)
      → 0 < limit
      → 0 < f.num_counters
      → length f.counters ≡ f.num_counters
      → SameSizes hasher (add_from hasher limit rounds i f item) f
        × ((j : ℕ)
            → get_or f.counters j 0 ≤ get_or (add_from hasher limit rounds i f item).counters j 0)
        × ((j : ℕ)
            → 0 < hits hasher f.num_counters rounds i item j
            → 0 < get_or (add_from hasher limit rounds i f item).counters j 0)
  unfolding add_from
  grown zero i f item l p s = ((refl, refl, refl), (λ j. omega arith), λ j h. absurd (omega arith))
  grown (suc rounds) i f item l p s =
      let index = hasher item i % f.num_counters in
      let inside : index < length f.counters =
        omega (arith, s, mod-lt (hasher item i) {m = f.num_counters} p) in
      let g : CountingBloomFilter = record f { counters = raised limit f.counters index } in
      let long = length-raised limit f.counters index in
      let (sizes, more, met) = grown rounds (suc i) g item l p (long ∙ s) in
      (
        (sizes.0, sizes.1, sizes.2 ∙ long),
        (λ j. omega (arith, more j, (raised_grows limit f.counters index j inside l).0)),
        λ j h. elim (ℕ_discrete index j) [
          | yes e ↦
              subst (λ k. 0 < get_or (add_from hasher limit rounds (suc i) g item).counters k 0) e
                (omega (arith, more index, (raised_grows limit f.counters index index inside l).1))
          | no d ↦ let off : (index == j) ≡ false = ne→== index j d in met j (ground (arith, h))
        ],
      )

  met_all :
      (rounds i : ℕ) (f : CountingBloomFilter) (item : T) (j : ℕ)
      → contains_from hasher rounds i f item ≡ true
      → 0 < hits hasher f.num_counters rounds i item j
      → 0 < get_or f.counters j 0
  unfolding contains_from
  met_all zero i f item j c h = absurd (omega arith)
  met_all (suc rounds) i f item j c h =
      let index = hasher item i % f.num_counters in
      elim (ℕ_discrete (get_or f.counters index 0) 0) [
        | yes z ↦ absurd (ground (arith, eq→== (get_or f.counters index 0) 0 z))
        | no z ↦ elim (ℕ_discrete index j) [
          | yes e ↦ omega (arith, ap (λ k. get_or f.counters k 0) e)
          | no d ↦
              met_all rounds (suc i) f item j (rw (ne→== (get_or f.counters index 0) 0 z) at c)
                (ground (arith, h, ne→== index j d))
        ]
      ]

  -- After `add`, the new item and every item found before are found, also where counters are
  -- full, in a filter with at least one counter and a largest counter value that is not 0.
  pub contains-add :
      (f : CountingBloomFilter) (x y : T)
      → 0 < limit
      → 0 < f.num_counters
      → length f.counters ≡ f.num_counters
      → (contains hasher f x ≡ true) ⊎ (x ≡ y)
      → contains hasher (add hasher limit f y) x ≡ true
  unfolding add_from
  contains-add f x y l p s before =
      let (sizes, more, met) = grown f.num_hash_functions 0 f y l p s in
      let f' = add hasher limit f y in
      rw sizes.1 (
        found hasher f.num_hash_functions 0 f' x λ j h.
          let h' : 0 < hits hasher f.num_counters f.num_hash_functions 0 x j =
            subst (λ m. 0 < hits hasher m f.num_hash_functions 0 x j) sizes.0 h in
          elim before [
            | inl c ↦ omega (arith, more j, met_all f.num_hash_functions 0 f x j c h')
            | inr e ↦
                met j (subst (λ z. 0 < hits hasher f.num_counters f.num_hash_functions 0 z j) e h')
          ])
