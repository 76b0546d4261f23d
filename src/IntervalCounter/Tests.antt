-- ===== src/IntervalCounter/Tests.antt =====
-- include/interval_counter.h: runs of the counter, with a window and a resolution of one second.
use av_utils.Base.{
  List, [], arith, none, ok, pos, refl, some, ℕ, ◌%◌, ◌*◌, ◌+◌, ◌-◌, ◌<◌, ◌^◌, ◌∷◌, ◌≡◌,
}
use av_utils.IntervalCounter.{
  Bucket, IntervalCounter, bucket_time, cleanup_expired_buckets, count, drop_expired, of_window,
  record_count, record_events, window,
}
use av_utils.IntervalCounter.Buckets.{in_window}
use av_utils.IntervalCounter.Window.{
  Counts, count-in_window, current_count, current_count-le, event, of_window-Counts,
  record_count-Counts,
}

abbrev second : ℕ
second = 10 ^ 9

abbrev idle : IntervalCounter
idle = record { window_duration = 1; resolution = 1000; buckets = []; total_count = 0 }

-- Two events in the second that starts at 3.
abbrev busy : IntervalCounter
busy = record idle { buckets = record { timestamp = 3 * second; count = 2 } ∷ []; total_count = 2 }

abbrev two_events : List Bucket
two_events = record { timestamp = 3 * second; count = 2 } ∷ []

busy-Counts : Counts busy two_events (3 * second)
unfolding bucket_time
busy-Counts = record {
  resolved = omega arith;
  ordered = refl;
  past = refl;
  ints = refl;
  summed = refl;
  agrees = λ t p. refl;
}

recorded : record_count idle (3 * second + 5) (3 * second + 9) (pos 2) ≡ some busy
unfolding record_count record_events cleanup_expired_buckets drop_expired bucket_time
recorded = refl

-- Events at the end of a second are dropped 2 nanoseconds later.
dropped_early :
    elim (record_count idle (4 * second - 1) (4 * second - 1) (pos 2)) [
      | none ↦ none
      | some c ↦ some (count c (4 * second + 1))
    ]
    ≡ some (idle, 0)
unfolding record_count record_events cleanup_expired_buckets drop_expired bucket_time
dropped_early = refl

-- The count of a bucket is an `int`.
overflows : record_count busy (3 * second) (3 * second) (pos (2 ^ 31 - 1)) ≡ none
unfolding record_count record_events cleanup_expired_buckets drop_expired bucket_time
overflows = refl

of_window-Counts_example :
    (c : IntervalCounter) × (of_window (pos 60) (pos 1000) ≡ ok c) × Counts c [] 0
of_window-Counts_example = of_window-Counts 60 1000 (omega arith) (omega arith)

-- The second counts two events already, the next one none.
few_events : (n : ℕ) → n < 100 → current_count busy (3 * second + 7) (4 * second) + n < 2 ^ 31
few_events n h = omega (
  arith,
  current_count-le busy two_events (3 * second) (3 * second + 7) (4 * second) busy-Counts
      (omega arith),
)

record_count-Counts_example :
    (c' : IntervalCounter) × (record_count busy (3 * second + 7) (4 * second) (pos 5) ≡ some c')
    × Counts c' (event busy (4 * second) 5 ∷ two_events) (4 * second)
record_count-Counts_example =
    record_count-Counts busy two_events (3 * second) (3 * second + 7) (4 * second) 5 busy-Counts
      (omega arith) (omega arith) (omega arith) (few_events 5 (omega arith))

count-in_window_example :
    (c' : IntervalCounter) × (count busy (5 * second)
      ≡ (c', in_window (window busy) (5 * second) two_events % 2 ^ 64))
    × Counts c' two_events (5 * second)
count-in_window_example =
    count-in_window busy two_events (3 * second) (5 * second) busy-Counts (omega arith)
