-- ===== src/CountingBloomFilter/Counts.antt =====
-- include/counting_bloom_filter.h: the counters count the items in the filter, as long as none of
-- them has reached the largest value.
use native.Mathlib.Nat.{mod-eq_of_lt, mod-lt}
use native.Mathlib.Decide.{ℕ_discrete}
use av_utils.Base.{
  List, [], ap, ap₂, arith, eq→==, false, get_or, get_or-replicate, get_or-set_at, get_or-set_off,
  if◌then◌else◌, length, length-replicate, length-set, ltb, lt→ltb, ne→==, refl, set, suc, true,
  zero, ℕ, ◌%◌, ◌++◌, ◌+◌, ◌-◌, ◌<◌, ◌==◌, ◌∙◌, ◌∷◌, ◌≡◌, ◌≤◌,
}
use av_utils.CountingBloomFilter.{
  CountingBloomFilter, add, add_from, contains, contains_from, of_sizes, raised, remove,
  remove_from,
}

-- Below the largest value, the increment does not wrap.
pub raised_value :
    (limit : ℕ) (counters : List ℕ) (index : ℕ)
    → get_or counters index 0 < limit
    → (get_or counters index 0 + 1) % suc limit ≡ get_or counters index 0 + 1
raised_value limit counters index room =
    mod-eq_of_lt {n = get_or counters index 0 + 1} {m = suc limit} (omega arith)

raised_count :
    (limit : ℕ) (counters : List ℕ) (index j : ℕ)
    → index < length counters
    → get_or counters index 0 < limit
    → get_or (raised limit counters index) j 0 ≡ get_or counters j 0 + (if index == j then 1 else 0)
raised_count limit counters index j h room = elim (ℕ_discrete index j) [
  | yes e ↦
      rw
        (
          lt→ltb (get_or counters index 0) limit room,
          raised_value limit counters index room,
          eq→== index j e,
        )
        (get_or-set_at counters index j (get_or counters index 0 + 1) 0 h e
          ∙ ap (λ k. get_or counters k 0 + 1) e)
  | no d ↦
      rw
        (
          lt→ltb (get_or counters index 0) limit room,
          raised_value limit counters index room,
          ne→== index j d,
        )
        (get_or-set_off counters index j (get_or counters index 0 + 1) 0 h d ∙ omega arith)
]

lowered_count :
    (counters : List ℕ) (index j : ℕ)
    → index < length counters
    → ltb 0 (get_or counters index 0) ≡ true
    → get_or (set counters index (get_or counters index 0 - 1)) j 0 + (if index == j then 1 else 0)
      ≡ get_or counters j 0
lowered_count counters index j h some_there = elim (ℕ_discrete index j) [
  | yes e ↦ ground (
    arith,
    get_or-set_at counters index j (get_or counters index 0 - 1) 0 h e,
    ap (λ k. get_or counters k 0) e,
  )
  | no d ↦ ground (arith, get_or-set_off counters index j (get_or counters index 0 - 1) 0 h d)
]

pub length-raised :
    (limit : ℕ) (counters : List ℕ) (index : ℕ)
    → length (raised limit counters index) ≡ length counters
length-raised limit counters index =
    ground (arith, length-set counters index ((get_or counters index 0 + 1) % suc limit))

module _ {ℓ} {T : Type ℓ} (hasher : T → ℕ → ℕ) where
  -- How many of `rounds` hash functions from `i` on give the index `j` of `m`.
  abbrev pub hits : ℕ → ℕ → ℕ → T → ℕ → ℕ
  hits m zero i item j = 0
  hits m (suc rounds) i item j =
      (if hasher item i % m == j then 1 else 0) + hits m rounds (suc i) item j

  -- The same for a list of items and `k` hash functions.
  abbrev pub total : ℕ → ℕ → List T → ℕ → ℕ
  total m k [] j = 0
  total m k (item ∷ items) j = hits m k 0 item j + total m k items j

  pub record IsCount (f : CountingBloomFilter) (items : List T) : Type ℓ where
    pub positive : 0 < f.num_counters
    pub sized : length f.counters ≡ f.num_counters
    pub counted :
        (j : ℕ) → get_or f.counters j 0 ≡ total f.num_counters f.num_hash_functions items j

  -- Two filters with the same sizes.
  abbrev pub SameSizes : CountingBloomFilter → CountingBloomFilter → Type 0
  SameSizes f g =
      (f.num_counters ≡ g.num_counters)
      × (f.num_hash_functions ≡ g.num_hash_functions)
      × (length f.counters ≡ length g.counters)

  pub found :
      (rounds i : ℕ) (f : CountingBloomFilter) (item : T)
      → ((j : ℕ) → 0 < hits f.num_counters rounds i item j → 0 < get_or f.counters j 0)
      → contains_from hasher rounds i f item ≡ true
  unfolding contains_from
  found zero i f item h = refl
  found (suc rounds) i f item h =
      let index = hasher item i % f.num_counters in
      let met : 0 < hits f.num_counters (suc rounds) i item index = ground arith in
      let some_there : (get_or f.counters index 0 == 0) ≡ false = ground (arith, h index met) in
      rw some_there (found rounds (suc i) f item λ j p. h j (omega arith))

  removed :
      (rounds i : ℕ) (f : CountingBloomFilter) (item : T)
      → 0 < f.num_counters
      → length f.counters ≡ f.num_counters
      → ((j : ℕ) → hits f.num_counters rounds i item j ≤ get_or f.counters j 0)
      → (f' : CountingBloomFilter) × (remove_from hasher rounds i f item true ≡ (f', true))
        × SameSizes f' f
        × ((j : ℕ)
            → get_or f'.counters j 0 + hits f.num_counters rounds i item j ≡ get_or f.counters j 0)
  unfolding remove_from
  removed zero i f item p s h = (f, refl, (refl, refl, refl), λ j. omega arith)
  removed (suc rounds) i f item p s h =
      let index = hasher item i % f.num_counters in
      let inside : index < length f.counters =
        omega (arith, s, mod-lt (hasher item i) {m = f.num_counters} p) in
      let some_there : ltb 0 (get_or f.counters index 0) ≡ true = ground (arith, h index) in
      let g : CountingBloomFilter = record f {
        counters = set f.counters index (get_or f.counters index 0 - 1);
      } in
      let one = λ (j : ℕ). lowered_count f.counters index j inside some_there in
      let long = length-set f.counters index (get_or f.counters index 0 - 1) in
      let (f', done, sizes, all) =
        removed rounds (suc i) g item p (long ∙ s) λ j. omega (arith, h j, one j) in
      (f', rw some_there done, (sizes.0, sizes.1, sizes.2 ∙ long), λ j. omega (arith, all j, one j))

  total_middle :
      (m k : ℕ) (before after : List T) (item : T) (j : ℕ)
      → total m k (before ++ item ∷ after) j ≡ hits m k 0 item j + total m k (before ++ after) j
  total_middle m k [] after item j = refl
  total_middle m k (x ∷ before) after item j = omega (arith, total_middle m k before after item j)

  held :
      (f : CountingBloomFilter) (before after : List T) (item : T)
      → IsCount f (before ++ item ∷ after)
      → (j : ℕ) → hits f.num_counters f.num_hash_functions 0 item j ≤ get_or f.counters j 0
  held f before after item c j =
      omega
        (arith, c.counted j, total_middle f.num_counters f.num_hash_functions before after item j)

  -- In a filter whose counters count its items, an item that is there is found.
  pub contains-held :
      (f : CountingBloomFilter) (before after : List T) (item : T)
      → IsCount f (before ++ item ∷ after)
      → contains hasher f item ≡ true
  contains-held f before after item c =
      found f.num_hash_functions 0 f item λ j p. omega (arith, held f before after item c j)

  -- In a filter whose counters count its items, `remove` of an item that is there succeeds, and
  -- the counters then count the other items.
  pub remove-held :
      (f : CountingBloomFilter) (before after : List T) (item : T)
      → IsCount f (before ++ item ∷ after)
      → (f' : CountingBloomFilter) × (remove hasher f item ≡ (f', true))
        × IsCount f' (before ++ after)
  unfolding remove
  remove-held f before after item c =
      let there = held f before after item c in
      let (f', done, sizes, all) = removed f.num_hash_functions 0 f item c.positive c.sized there in
      (
        f',
        rw (remove, contains-held f before after item c) done,
        record {
          positive = omega (arith, c.positive, sizes.0);
          sized = omega (arith, c.sized, sizes.0, sizes.2);
          counted = λ j.
              rw (sizes.0, sizes.1)
                (omega (
                  arith,
                  all j,
                  c.counted j,
                  total_middle f.num_counters f.num_hash_functions before after item j,
                ));
        },
      )

  module _ (limit : ℕ) where
    added :
        (rounds i : ℕ) (f : CountingBloomFilter) (item : T)
        → 0 < f.num_counters
        → length f.counters ≡ f.num_counters
        → ((j : ℕ) → get_or f.counters j 0 + hits f.num_counters rounds i item j ≤ limit)
        → SameSizes (add_from hasher limit rounds i f item) f
          × ((j : ℕ)
              → get_or (add_from hasher limit rounds i f item).counters j 0
                ≡ get_or f.counters j 0 + hits f.num_counters rounds i item j)
    unfolding add_from
    added zero i f item p s h = ((refl, refl, refl), λ j. omega arith)
    added (suc rounds) i f item p s h =
        let index = hasher item i % f.num_counters in
        let inside : index < length f.counters =
          omega (arith, s, mod-lt (hasher item i) {m = f.num_counters} p) in
        let room : get_or f.counters index 0 < limit = ground (arith, h index) in
        let g : CountingBloomFilter = record f { counters = raised limit f.counters index } in
        let one = λ (j : ℕ). raised_count limit f.counters index j inside room in
        let long = length-raised limit f.counters index in
        let (sizes, all) =
          added rounds (suc i) g item p (long ∙ s) λ j. omega (arith, h j, one j) in
        ((sizes.0, sizes.1, sizes.2 ∙ long), λ j. omega (arith, all j, one j))

    -- In a filter whose counters count its items, as long as no counter passes the largest value,
    -- `add` makes the counters count the new item besides.
    pub add-IsCount :
        (f : CountingBloomFilter) (items : List T) (item : T)
        → IsCount f items
        → ((j : ℕ) → total f.num_counters f.num_hash_functions (item ∷ items) j ≤ limit)
        → IsCount (add hasher limit f item) (item ∷ items)
    add-IsCount f items item c fits =
        let (sizes, all) =
          added f.num_hash_functions 0 f item c.positive c.sized
            λ j. omega (arith, fits j, c.counted j) in
        record {
          positive = omega (arith, c.positive, sizes.0);
          sized = omega (arith, c.sized, sizes.0, sizes.2);
          counted = λ j.
              omega (
                arith,
                all j,
                c.counted j,
                ap₂ (λ m k. total m k (item ∷ items) j) sizes.0 sizes.1,
              );
        }

  -- A new filter counts no items.
  pub of_sizes-IsCount :
      (num_counters num_hash_functions : ℕ)
      → 0 < num_counters
      → IsCount (of_sizes num_counters num_hash_functions) []
  unfolding of_sizes
  of_sizes-IsCount m k h = record {
    positive = h;
    sized = length-replicate m 0;
    counted = λ j. get_or-replicate m 0 j;
  }
