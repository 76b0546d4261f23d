-- ===== src/IdAllocator.antt =====
-- include/IDAllocator.h: `IDAllocator`, ids from a range, those freed first and then in sequence. The
-- id type is an unsigned type of `w` bits, no narrower than `int`, so that its arithmetic is modulo
-- 2^w; a `std::set` is a list without repetition and the priority queue a list from the least id on.
pub mod Scan
pub mod Allocate
pub mod Single
pub mod Ranges
pub mod Release
pub mod Wrap
mod Tests
use av_utils.Base.{
  Bool, List, Option, Outcome, [], false, if◌then◌else◌, invalid_argument, leb, length, ltb, mem,
  none, ok, push_ordered, set_erase, set_insert, some, suc, throw, true, zero, ℕ, ◌%◌, ◌+◌, ◌-◌,
  ◌==◌, ◌^◌, ◌||◌, ◌∷◌,
}

pub record IdAllocator : Type 0 where
  pub min_id : ℕ
  pub max_id : ℕ
  pub next_available_id : ℕ
  pub freed_ids : List ℕ
  pub used_ids : List ℕ

pub new : ℕ → ℕ → Outcome IdAllocator
new min_id max_id =
    if ltb max_id min_id
    then throw invalid_argument
    else ok (record {
      min_id = min_id;
      max_id = max_id;
      next_available_id = min_id;
      freed_ids = [];
      used_ids = [];
    })

-- The first loop of `allocate`: the freed id that is free indeed, and what is left of the queue.
pub from_freed : List ℕ → List ℕ → Option ℕ × List ℕ
from_freed used [] = (none, [])
from_freed used (id ∷ freed) =
    let rest = from_freed used freed in if mem used id then rest else (some id, freed)

pub is_allocated : IdAllocator → ℕ → Bool
is_allocated a id = mem a.used_ids id

pub free : IdAllocator → ℕ → IdAllocator × Bool
free a id =
    if ltb id a.min_id || ltb a.max_id id
    then (a, false)
    else (if mem a.used_ids id
        then (
          record a { used_ids = set_erase id a.used_ids; freed_ids = push_ordered id a.freed_ids },
          true,
        )
        else (a, false))

pub reserve : IdAllocator → ℕ → IdAllocator × Bool
reserve a id =
    if ltb id a.min_id || ltb a.max_id id
    then (a, false)
    else (if mem a.used_ids id
        then (a, false)
        else (record a { used_ids = set_insert id a.used_ids }, true))

pub used : IdAllocator → ℕ
used a = length a.used_ids

pub capacity : IdAllocator → ℕ
capacity a = if ltb a.max_id a.min_id then 0 else a.max_id - a.min_id + 1

pub available : IdAllocator → ℕ
available a = capacity a - used a

pub reset : IdAllocator → IdAllocator
reset a = record a { used_ids = []; freed_ids = []; next_available_id = a.min_id }

abbrev pub take_freed : IdAllocator → List ℕ → ℕ → IdAllocator
take_freed a freed id = record a { freed_ids = freed; used_ids = set_insert id a.used_ids }

module _ (w : ℕ) where
  -- The second loop of `allocate`: `none` when it has not ended within the rounds given, and
  -- otherwise the candidate that it stops at, if any.
  pub scan : ℕ → List ℕ → ℕ → ℕ → Option (Option ℕ)
  scan zero used max_id candidate = none
  scan (suc rounds) used max_id candidate =
      let rest = scan rounds used max_id ((candidate + 1) % 2 ^ w) in
      if leb candidate max_id
      then (if mem used candidate then rest else some (some candidate))
      else some none

  -- The next id is behind a candidate that is used.
  abbrev pub take_candidate : IdAllocator → ℕ → IdAllocator
  take_candidate a id = record a {
    freed_ids = [];
    used_ids = set_insert id a.used_ids;
    next_available_id = (id + 1) % 2 ^ w;
  }

  -- What the two loops find: a freed id is taken first.
  abbrev pub finish :
      IdAllocator → Option ℕ → List ℕ → Option (Option ℕ) → Option (IdAllocator × Option ℕ)
  finish a (some id) freed scanned = some (take_freed a freed id, some id)
  finish a none freed none = none
  finish a none freed (some none) = some (record a { freed_ids = [] }, none)
  finish a none freed (some (some id)) = some (take_candidate a id, some id)

  -- `allocate`, with the number of rounds that its second loop may take.
  pub allocate_within : ℕ → IdAllocator → Option (IdAllocator × Option ℕ)
  allocate_within rounds a =
      finish a (from_freed a.used_ids a.freed_ids).0 (from_freed a.used_ids a.freed_ids).1
        (scan rounds a.used_ids a.max_id a.next_available_id)

  -- No loop over the ids is longer than there are values of the id type.
  abbrev pub allocate : IdAllocator → Option (IdAllocator × Option ℕ)
  allocate a = allocate_within (2 ^ w + 1) a

  -- The check of `allocate_range`, from `current` on: whether all ids up to `range_end` are free. The
  -- rounds are those from the start of the range to its end.
  pub all_free : ℕ → List ℕ → ℕ → ℕ → Bool
  all_free zero used range_end current = if mem used current then false else current == range_end
  all_free (suc k) used range_end current =
      let rest = all_free k used range_end ((current + 1) % 2 ^ w) in
      if mem used current
      then false
      else (if current == range_end then true else (if ltb range_end current then false else rest))

  -- The loop that marks the range; it follows the check, so that it ends where that ended.
  pub mark : ℕ → List ℕ → ℕ → ℕ → List ℕ
  mark zero used range_end current = set_insert current used
  mark (suc k) used range_end current =
      let rest = mark k (set_insert current used) range_end ((current + 1) % 2 ^ w) in
      if current == range_end then set_insert current used else rest

  -- Both loops over a block that fits.
  pub take_block : IdAllocator → ℕ → ℕ → IdAllocator × Option ℕ
  take_block a range_start range_end =
      if all_free (range_end - range_start) a.used_ids range_end range_start
      then (
        record a {
          used_ids = mark (range_end - range_start) a.used_ids range_end range_start;
          next_available_id =
              if range_end == a.max_id then (a.max_id + 1) % 2 ^ w else (range_end + 1) % 2 ^ w;
        },
        some range_start,
      )
      else (a, none)

  -- The block that starts at the next id, for `n` > 1.
  pub allocate_block : IdAllocator → ℕ → IdAllocator × Option ℕ
  allocate_block a n =
      let range_start = a.next_available_id in
      if ltb a.max_id range_start
      then (a, none)
      else (if ltb ((a.max_id - range_start + 1) % 2 ^ w) (n % 2 ^ w)
          then (a, none)
          else take_block a range_start ((range_start + (n - 1)) % 2 ^ w))

  pub allocate_range : IdAllocator → ℕ → Option (IdAllocator × Option ℕ)
  allocate_range a n =
      if n == 0 then some (a, none) else (if n == 1 then allocate a else some (allocate_block a n))

  -- The validation pass of `release_range`: whether all ids up to `range_end` are in use.
  pub all_used : ℕ → List ℕ → ℕ → ℕ → Bool
  all_used zero used range_end current = if mem used current then current == range_end else false
  all_used (suc k) used range_end current =
      let rest = all_used k used range_end ((current + 1) % 2 ^ w) in
      if mem used current
      then (if current == range_end then true else (if ltb range_end current then false else rest))
      else false

  -- The release pass, which ends where the validation ended.
  pub release : ℕ → IdAllocator → ℕ → ℕ → IdAllocator
  release zero a range_end current = record a {
    used_ids = set_erase current a.used_ids;
    freed_ids = push_ordered current a.freed_ids;
  }
  release (suc k) a range_end current =
      let released = record a {
        used_ids = set_erase current a.used_ids;
        freed_ids = push_ordered current a.freed_ids;
      } in
      let rest = release k released range_end ((current + 1) % 2 ^ w) in
      if current == range_end then released else rest

  -- Both passes over a range that lies within the bounds.
  pub release_block : IdAllocator → ℕ → ℕ → IdAllocator × Bool
  release_block a start_id range_end =
      if ltb start_id a.min_id || ltb a.max_id range_end || ltb range_end start_id
      then (a, false)
      else (if all_used (range_end - start_id) a.used_ids range_end start_id
          then (release (range_end - start_id) a range_end start_id, true)
          else (a, false))

  pub release_range : IdAllocator → ℕ → ℕ → IdAllocator × Bool
  release_range a start_id n =
      if n == 0
      then (a, true)
      else (if ltb ((a.max_id + (2 ^ w - (n - 1) % 2 ^ w)) % 2 ^ w) start_id
          then (a, false)
          else release_block a start_id ((start_id + (n - 1) % 2 ^ w) % 2 ^ w))
