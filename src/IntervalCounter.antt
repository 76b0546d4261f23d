-- ===== src/IntervalCounter.antt =====
-- include/interval_counter.h: `IntervalCounterST`, the number of events in a sliding window of
-- time. A time is the nanoseconds of the steady clock, which each operation that reads it takes as
-- an argument. `IntervalCounter` is the same code under a lock, with atomic counts that wrap.
pub mod Buckets
pub mod Window
mod Tests
use av_utils.Base.{
  Bool, List, Option, Outcome, [], false, if◌then◌else◌, invalid_argument, ltb, negsuc, none, ok,
  pos, some, throw, ℕ, ℤ, ◌%◌, ◌*◌, ◌++◌, ◌+◌, ◌-◌, ◌/◌, ◌==◌, ◌^◌, ◌||◌, ◌∷◌,
}

pub record Bucket : Type 0 where
  pub timestamp : ℕ
  pub count : ℕ

pub record IntervalCounter : Type 0 where
  -- In seconds.
  pub window_duration : ℕ
  -- In milliseconds.
  pub resolution : ℕ
  pub buckets : List Bucket
  pub total_count : ℕ

-- The constructor.
unfoldable pub of_window : ℤ → ℤ → Outcome IntervalCounter
of_window (negsuc w) resolution = throw invalid_argument
of_window (pos w) (negsuc r) = throw invalid_argument
of_window (pos w) (pos r) =
    if (w == 0) || (r == 0)
    then throw invalid_argument
    else ok (record { window_duration = w; resolution = r; buckets = []; total_count = 0 })

-- The window in nanoseconds.
abbrev pub window : IntervalCounter → ℕ
window c = c.window_duration * 10 ^ 9

-- `timestamp < now - window`
abbrev pub expired : ℕ → ℕ → Bucket → Bool
expired w now b = ltb (b.timestamp + w) now

-- The loop of `cleanup_expired_buckets`, with `total_count_ -= count` in a word of 64 bits.
unfoldable pub drop_expired : ℕ → ℕ → List Bucket → ℕ → List Bucket × ℕ
drop_expired w now [] total = ([], total)
drop_expired w now (b ∷ bs) total =
    let rest = drop_expired w now bs ((total + (2 ^ 64 - b.count % 2 ^ 64)) % 2 ^ 64) in
    if expired w now b then rest else (b ∷ bs, total)

unfoldable pub cleanup_expired_buckets : IntervalCounter → ℕ → IntervalCounter
cleanup_expired_buckets c now =
    let kept = drop_expired (window c) now c.buckets c.total_count in
    record c { buckets = kept.0; total_count = kept.1 }

-- `now` rounded down to the resolution.
unfoldable pub bucket_time : IntervalCounter → ℕ → ℕ
bucket_time c now = now / 10 ^ 6 / c.resolution * c.resolution * 10 ^ 6

-- `buckets_.back().timestamp == bucket_time`
abbrev pub is_current : ℕ → List Bucket → Bool
is_current time [] = false
is_current time (b ∷ []) = b.timestamp == time
is_current time (b ∷ b' ∷ bs) = is_current time (b' ∷ bs)

-- `get_or_create_current_bucket`
abbrev pub with_current_bucket : ℕ → List Bucket → List Bucket
with_current_bucket time bs =
    if is_current time bs then bs else bs ++ record { timestamp = time; count = 0 } ∷ []

-- `bucket.count += count` on the last bucket.
abbrev pub add_to_last : ℕ → List Bucket → List Bucket
add_to_last n [] = []
add_to_last n (b ∷ []) = record b { count = b.count + n } ∷ []
add_to_last n (b ∷ b' ∷ bs) = b ∷ add_to_last n (b' ∷ bs)

-- The count of the last bucket.
abbrev pub last_count : List Bucket → ℕ
last_count [] = 0
last_count (b ∷ []) = b.count
last_count (b ∷ b' ∷ bs) = last_count (b' ∷ bs)

-- A number that is not negative is that of an `int`.
abbrev pub is_int : ℕ → Bool
is_int n = ltb n (2 ^ 31)

-- `record(count)` with a positive count; the clock is read once for the cleanup, once for the
-- bucket. `none` where `bucket.count += count` overflows, which is undefined for an `int`.
unfoldable pub record_events : IntervalCounter → ℕ → ℕ → ℕ → Option IntervalCounter
record_events c now now' n =
    let cleaned = cleanup_expired_buckets c now in
    let current = with_current_bucket (bucket_time c now') cleaned.buckets in
    if is_int (last_count current + n)
    then some (record cleaned {
      buckets = add_to_last n current;
      total_count = (cleaned.total_count + n) % 2 ^ 64;
    })
    else none

unfoldable pub record_count : IntervalCounter → ℕ → ℕ → ℤ → Option IntervalCounter
record_count c now now' (negsuc n) = some c
record_count c now now' (pos n) = if n == 0 then some c else record_events c now now' n

abbrev pub count : IntervalCounter → ℕ → IntervalCounter × ℕ
count c now = let cleaned = cleanup_expired_buckets c now in (cleaned, cleaned.total_count)

abbrev pub clear : IntervalCounter → IntervalCounter
clear c = record c { buckets = []; total_count = 0 }
