-- ===== src/IdAllocator/Tests.antt =====
-- Runs of `IDAllocator`, and its theorems at the ids from 2 to 4 of a type of three bits.
use av_utils.Base.{
  Option, [], arith, false, invalid_argument, leb, not, ok, refl, some, throw, ℕ, ◌&&◌, ◌+◌, ◌-◌,
  ◌<◌, ◌==◌, ◌||◌, ◌∷◌, ◌≡◌, ◌≤◌, ◌⊎◌,
}
use av_utils.IdAllocator.{
  IdAllocator, allocate, allocate_range, available, free, is_allocated, new, release_range, reserve,
}
use av_utils.IdAllocator.Allocate.{Allocates, IsValid, allocate_lem}
use av_utils.IdAllocator.Single.{free_lem, new_lem, reserve_lem}
use av_utils.IdAllocator.Ranges.{Blocks, allocate_range_lem}
use av_utils.IdAllocator.Release.{Releases, release_range_lem}
use av_utils.IdAllocator.Wrap.{allocate_wraps}

-- 2 is in use and 3 was freed.
abbrev some_ids : IdAllocator
some_ids = record {
  min_id = 2;
  max_id = 5;
  next_available_id = 4;
  freed_ids = 3 ∷ [];
  used_ids = 2 ∷ [];
}

-- All ids up to the highest of the type, whose last one is next.
abbrev last_ids : IdAllocator
last_ids = record { min_id = 7; max_id = 7; next_available_id = 7; freed_ids = []; used_ids = [] }

some_ids-IsValid : IsValid some_ids
unfolding is_allocated
some_ids-IsValid = record {
  ordered = omega arith;
  next_low = omega arith;
  next_high = omega arith;
  used_in_range = λ i m. ground (arith, m);
  freed_in_range = λ i m. ground (arith, m);
  accounted = λ i l h. ground arith;
}

last_ids-IsValid : IsValid last_ids
unfolding is_allocated
last_ids-IsValid = record {
  ordered = omega arith;
  next_low = omega arith;
  next_high = omega arith;
  used_in_range = λ i m. absurd cc;
  freed_in_range = λ i m. absurd cc;
  accounted = λ i l h. absurd (omega arith);
}

allocate_lem_example :
    (a' : IdAllocator) × (r : Option ℕ) × (allocate 3 some_ids ≡ some (a', r))
    × IsValid a'
    × Allocates some_ids 3 a' r
allocate_lem_example =
    allocate_lem 3 some_ids 3 some_ids-IsValid (omega arith) (omega arith) (omega arith)

new_lem_example :
    ((5 < 2) × (new 2 5 ≡ throw invalid_argument))
    ⊎ ((2 ≤ 5)
        × (a : IdAllocator) × (new 2 5 ≡ ok a)
        × IsValid a
        × (is_allocated a 3 ≡ false)
        × (available a ≡ 5 - 2 + 1))
new_lem_example = new_lem 2 5 3

free_lem_example :
    ((free some_ids 2).1 ≡ is_allocated some_ids 2)
    × IsValid (free some_ids 2).0
    × (is_allocated (free some_ids 2).0 2 ≡ (not (2 == 2) && is_allocated some_ids 2))
free_lem_example = free_lem some_ids 2 2 some_ids-IsValid

reserve_lem_example :
    ((reserve some_ids 5).1 ≡ (leb 2 5 && leb 5 5 && not (is_allocated some_ids 5)))
    × IsValid (reserve some_ids 5).0
    × (is_allocated (reserve some_ids 5).0 5
        ≡ (((reserve some_ids 5).1 && (5 == 5)) || is_allocated some_ids 5))
reserve_lem_example = reserve_lem some_ids 5 5 some_ids-IsValid

allocate_range_lem_example :
    (r : IdAllocator × Option ℕ) × (allocate_range 3 some_ids 2 ≡ some r) × Blocks some_ids 2 4 r
allocate_range_lem_example =
    allocate_range_lem 3 some_ids 2 4 some_ids-IsValid (omega arith) (omega arith) (omega arith)

release_range_lem_example : Releases some_ids 2 1 2 (release_range 3 some_ids 2 1)
release_range_lem_example =
    release_range_lem 3 some_ids 2 1 2 some_ids-IsValid (omega arith) (omega arith) (omega arith)
      (omega arith)

allocate_wraps_example :
    (a' : IdAllocator) × (a'' : IdAllocator) × (allocate 3 last_ids ≡ some (a', some 7))
    × (allocate 3 a' ≡ some (a'', some 0))
unfolding is_allocated
allocate_wraps_example =
    allocate_wraps 3 last_ids last_ids-IsValid (omega arith) (omega arith) refl refl refl
