-- ===== src/SortedVectorMap/Members.antt =====
-- include/sorted_vector_map.h: what a caller sees of the members.
use av_utils.Base.{
  Bool, IsStrictWeak, Option-cases, Outcome, arith, get_elem?, if◌then◌else◌, inl, inr, ok,
  out_of_range, refl, some, suc, throw, ℕ, ◌&&◌, ◌+◌, ◌==◌, ◌↔◌, ◌≡◌,
}
use av_utils.SortedVectorMap.{
  SortedVectorMap, at, count, erase, insert, lower_bound, size, subscript, upper_bound,
}
use av_utils.SortedVectorMap.Order.{
  IsAscending, found, found-inserted, found-removed, found_same, held-found, inserted,
  inserted-IsAscending, removed, removed-IsAscending,
}
use av_utils.SortedVectorMap.Lookup.{
  at-found, count-found, erase-removed, get_elem?-found, get_elem?-inserted, insert-inserted,
  length-inserted, length-removed, range_lem, same,
}

-- The value an outcome carries.
abbrev pub value_or {ℓ} : {V : Type ℓ} → V → Outcome V → V
value_or d (ok v) = v
value_or d (throw e) = d

module _ {ℓ} {K V : Type ℓ} (comp : K → K → Bool) where
  -- For a map and a key: `at` raises exactly when `count` is 0, and it raises `out_of_range`.
  pub at-count :
      (m : SortedVectorMap K V) (key : K)
      → (at comp m key ≡ throw out_of_range) ↔ (count comp m key ≡ 0)
  at-count m key = elim (Option-cases (found comp m.entries key)) [
    | inl h ↦ rw (at-found comp m key, count-found comp m key, h) ((λ _. refl), (λ _. refl))
    | inr (e, h) ↦
        rw (at-found comp m key, count-found comp m key, h) ((λ p. cc), (λ p. absurd (omega arith)))
  ]

module _ {ℓ} {K V : Type ℓ} (comp : K → K → Bool) (order : IsStrictWeak comp) where
  at-inserted :
      (m : SortedVectorMap K V) (key : K) (value : V) (q : K)
      → at comp (record { entries = inserted comp m.entries (key, value) }) q
        ≡ (if same comp key q && (count comp m key == 0) then ok value else at comp m q)
  at-inserted m key value q = ground (
    arith,
    at-found comp (record { entries = inserted comp m.entries (key, value) }) q,
    at-found comp m q,
    count-found comp m key,
    found-inserted comp order m.entries (key, value) q,
    found_same comp order m.entries key q,
  )

  -- For a strict weak order and ascending entries: `insert` keeps them ascending and says whether
  -- the key was new; then the key has the new value, and no other lookup changes; the size grows
  -- by one exactly for a new key.
  pub insert-at :
      (m : SortedVectorMap K V) (key : K) (value : V) (q : K)
      → IsAscending comp m.entries
      → (m' : SortedVectorMap K V) × (insert comp m (key, value)
          ≡ (m', lower_bound comp m key, count comp m key == 0))
        × IsAscending comp m'.entries
        × (size m' + count comp m key ≡ suc (size m))
        × (at comp m' q
            ≡ (if same comp key q && (count comp m key == 0) then ok value else at comp m q))
  insert-at m key value q s = (
    record { entries = inserted comp m.entries (key, value) },
    insert-inserted comp m (key, value),
    inserted-IsAscending comp order m.entries (key, value) s,
    omega (arith, count-found comp m key, length-inserted comp m.entries (key, value)),
    at-inserted m key value q,
  )

  -- For a strict weak order and ascending entries: `erase` keeps them ascending and gives the
  -- number of entries it dropped; then the key is not found, and no other lookup changes.
  pub erase-at :
      (m : SortedVectorMap K V) (key q : K)
      → IsAscending comp m.entries
      → (m' : SortedVectorMap K V) × (erase comp m key ≡ (m', count comp m key))
        × IsAscending comp m'.entries
        × (size m' + count comp m key ≡ size m)
        × (at comp m' q ≡ (if same comp key q then throw out_of_range else at comp m q))
  erase-at m key q s = (
    record { entries = removed comp m.entries key },
    erase-removed comp m key,
    removed-IsAscending comp order m.entries key s,
    omega (arith, count-found comp m key, length-removed comp m.entries key),
    ground (
      arith,
      at-found comp (record { entries = removed comp m.entries key }) q,
      at-found comp m q,
      found-removed comp order m.entries key q s,
    ),
  )

  -- For a strict weak order and ascending entries, `operator[]` keeps them ascending, and the
  -- entry its reference denotes has the value that `at` then gives for the key: the value the map
  -- had, and the default for a new key.
  pub subscript-at :
      (d : V) (m : SortedVectorMap K V) (key : K)
      → IsAscending comp m.entries
      → (m' : SortedVectorMap K V) × (it : ℕ) × (e : K × V) × (subscript comp d m key ≡ (m', it))
        × IsAscending comp m'.entries
        × (get_elem? m'.entries it ≡ some e)
        × (at comp m' key ≡ ok e.1)
        × (e.1 ≡ value_or d (at comp m key))
  unfolding subscript
  subscript-at d m key s = elim (Option-cases (found comp m.entries key)) [
    | inl h ↦ (
      record { entries = inserted comp m.entries (key, d) },
      lower_bound comp m key,
      (key, d),
      rw (subscript, held-found comp m key, h, insert-inserted comp m (key, d)) refl,
      inserted-IsAscending comp order m.entries (key, d) s,
      get_elem?-inserted comp m.entries (key, d) h,
      ground (arith, at-inserted m key d key, count-found comp m key, order.irrefl key),
      rw (at-found comp m key, h) refl,
    )
    | inr (e, h) ↦ (
      m,
      lower_bound comp m key,
      e,
      rw (subscript, held-found comp m key, h) refl,
      s,
      get_elem?-found comp m.entries key e h,
      rw (at-found comp m key, h) refl,
      rw (at-found comp m key, h) refl,
    )
  ]

  -- For a strict weak order and ascending entries, `equal_range` spans `count` entries.
  pub equal_range-count :
      (m : SortedVectorMap K V) (key : K)
      → IsAscending comp m.entries
      → upper_bound comp m key ≡ lower_bound comp m key + count comp m key
  equal_range-count m key s = rw (count-found comp m key) (range_lem comp order m.entries key s)
