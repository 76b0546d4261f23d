-- ===== src/CountingBloomFilter.antt =====
-- include/counting_bloom_filter.h: `CountingBloomFilter<T, CounterType, Hasher>`. The hash function
-- and the largest counter value are parameters; the numbers of counters and of hash functions,
-- which the constructor works out in floating point, are those of the state.
pub mod Counts
pub mod Adds
mod Tests
use av_utils.Base.{
  Bool, List, false, get_or, if◌then◌else◌, ltb, not, replicate, set, suc, true, zero, ℕ, ◌%◌, ◌+◌,
  ◌-◌, ◌==◌,
}

pub record CountingBloomFilter : Type 0 where
  pub counters : List ℕ
  pub num_counters : ℕ
  pub num_hash_functions : ℕ

-- The last step of the constructor, for the two numbers it has worked out.
unfoldable pub of_sizes : ℕ → ℕ → CountingBloomFilter
of_sizes num_counters num_hash_functions = record {
  counters = replicate num_counters 0;
  num_counters = num_counters;
  num_hash_functions = num_hash_functions;
}

-- `if (counters_[index] < limit) counters_[index]++`; `limit` is
-- `std::numeric_limits<CounterType>::max()`, so that `++` of the unsigned type is modulo the next
-- number.
abbrev pub raised : ℕ → List ℕ → ℕ → List ℕ
raised limit counters index =
    if ltb (get_or counters index 0) limit
    then set counters index ((get_or counters index 0 + 1) % suc limit)
    else counters

-- `hasher` is `hasher_`.
module _ {ℓ} {T : Type ℓ} (hasher : T → ℕ → ℕ) where
  abbrev pub get_hash : CountingBloomFilter → T → ℕ → ℕ
  get_hash f item i = hasher item i % f.num_counters

  unfoldable pub contains_from : ℕ → ℕ → CountingBloomFilter → T → Bool
  contains_from zero i f item = true
  contains_from (suc rounds) i f item =
      let rest = contains_from rounds (suc i) f item in
      if get_or f.counters (get_hash f item i) 0 == 0 then false else rest

  abbrev pub contains : CountingBloomFilter → T → Bool
  contains f item = contains_from f.num_hash_functions 0 f item

  -- The loop of `remove`, with `potentially_removed`.
  unfoldable pub remove_from : ℕ → ℕ → CountingBloomFilter → T → Bool → CountingBloomFilter × Bool
  remove_from zero i f item removed = (f, removed)
  remove_from (suc rounds) i f item removed =
      let index = get_hash f item i in
      let lowered = record f { counters = set f.counters index (get_or f.counters index 0 - 1) } in
      let hit = remove_from rounds (suc i) lowered item removed in
      let miss = remove_from rounds (suc i) f item false in
      if ltb 0 (get_or f.counters index 0) then hit else miss

  unfoldable pub remove : CountingBloomFilter → T → CountingBloomFilter × Bool
  remove f item =
      if not (contains f item) then (f, false) else remove_from f.num_hash_functions 0 f item true

module _ {ℓ} {T : Type ℓ} (hasher : T → ℕ → ℕ) (limit : ℕ) where
  -- The loop of `add` over the hash functions from `i` on, `rounds` of them.
  unfoldable pub add_from : ℕ → ℕ → CountingBloomFilter → T → CountingBloomFilter
  add_from zero i f item = f
  add_from (suc rounds) i f item =
      add_from rounds (suc i)
        (record f { counters = raised limit f.counters (get_hash hasher f item i) }) item

  abbrev pub add : CountingBloomFilter → T → CountingBloomFilter
  add f item = add_from f.num_hash_functions 0 f item
