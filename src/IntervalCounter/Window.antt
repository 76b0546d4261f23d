-- ===== src/IntervalCounter/Window.antt =====
-- include/interval_counter.h: the counter against the list of all events that were recorded.
use native.Mathlib.Nat.{div-mul-le_self, le-div_iff_mul-le, mul-le-mul_right}
use av_utils.Base.{
  List, [], ap, arith, false, if◌then◌else◌, lt→ltb, ok, pos, refl, some, true, ℕ, ◌%◌, ◌+◌, ◌/◌,
  ◌<◌, ◌==◌, ◌^◌, ◌||◌, ◌∙◌, ◌∷◌, ◌≡◌, ◌≤◌,
}
use av_utils.IntervalCounter.{
  Bucket, IntervalCounter, add_to_last, bucket_time, cleanup_expired_buckets, count, drop_expired,
  expired, is_int, last_count, of_window, record_count, record_events, window, with_current_bucket,
}
use av_utils.IntervalCounter.Buckets.{
  all_ints, ascending_from, drop_expired-all_ints, drop_expired-ascending, drop_expired-in_window,
  drop_expired-total, drop_expired-up_to, in_window, total, total-drop_expired, up_to, up_to_le,
}

-- The buckets after `n` events at the time of a bucket that is not before the last.
abbrev added : ℕ → ℕ → List Bucket → List Bucket
added time n bs = add_to_last n (with_current_bucket time bs)

total-added : (time n : ℕ) (bs : List Bucket) → total (added time n bs) ≡ total bs + n
total-added time n [] = omega arith
total-added time n (b ∷ []) = ground arith
total-added time n (b ∷ b' ∷ bs) = ground (arith, total-added time n (b' ∷ bs))

in_window-added :
    (w t time n : ℕ) (bs : List Bucket)
    → in_window w t (added time n bs)
      ≡ in_window w t bs + (if expired w t (record { timestamp = time; count = n }) then 0 else n)
in_window-added w t time n [] = ground arith
in_window-added w t time n (b ∷ []) = ground arith
in_window-added w t time n (b ∷ b' ∷ bs) = ground (arith, in_window-added w t time n (b' ∷ bs))

ascending-added :
    (low time n : ℕ) (bs : List Bucket)
    → low ≤ time
    → ascending_from low bs ≡ true
    → up_to time bs ≡ true
    → ascending_from low (added time n bs) ≡ true
ascending-added low time n [] p h u = ground arith
ascending-added low time n (b ∷ []) p h u = ground arith
ascending-added low time n (b ∷ b' ∷ bs) p h u =
    ground (arith, ascending-added b.timestamp time n (b' ∷ bs))

up_to-added :
    (time n : ℕ) (bs : List Bucket) → up_to time bs ≡ true → up_to time (added time n bs) ≡ true
up_to-added time n [] u = ground arith
up_to-added time n (b ∷ []) u = ground arith
up_to-added time n (b ∷ b' ∷ bs) u = ground (arith, up_to-added time n (b' ∷ bs))

all_ints-added :
    (time n : ℕ) (bs : List Bucket)
    → all_ints bs ≡ true
    → is_int (last_count (with_current_bucket time bs) + n) ≡ true
    → all_ints (added time n bs) ≡ true
all_ints-added time n [] h k = ground arith
all_ints-added time n (b ∷ []) h k = ground arith
all_ints-added time n (b ∷ b' ∷ bs) h k = ground (arith, all_ints-added time n (b' ∷ bs))

last_count-le : (time : ℕ) (bs : List Bucket) → last_count (with_current_bucket time bs) ≤ total bs
last_count-le time [] = omega arith
last_count-le time (b ∷ []) = ground arith
last_count-le time (b ∷ b' ∷ bs) = ground (arith, last_count-le time (b' ∷ bs))

-- What a counter is after the events, the latest first, whose last clock reading was `last`.
pub record Counts (c : IntervalCounter) (events : List Bucket) (last : ℕ) : Type 0 where
  pub resolved : 0 < c.resolution
  pub ordered : ascending_from 0 c.buckets ≡ true
  pub past : up_to (bucket_time c last) c.buckets ≡ true
  pub ints : all_ints c.buckets ≡ true
  pub summed : c.total_count ≡ total c.buckets % 2 ^ 64
  pub agrees : (t : ℕ) → last ≤ t → in_window (window c) t c.buckets ≡ in_window (window c) t events

-- Rounding down keeps the order of time.
bucket_time_le :
    (c : IntervalCounter) (t t' : ℕ)
    → 0 < c.resolution
    → t ≤ t'
    → bucket_time c t ≤ bucket_time c t'
unfolding bucket_time
bucket_time_le c t t' p h =
    let below : t / 10 ^ 6 ≤ t' / 10 ^ 6 = omega arith in
    let whole = div-mul-le_self (t / 10 ^ 6) c.resolution in
    let fewer : t / 10 ^ 6 / c.resolution ≤ t' / 10 ^ 6 / c.resolution =
      (le-div_iff_mul-le p).1 (omega (arith, whole)) in
    mul-le-mul_right (10 ^ 6) (mul-le-mul_right c.resolution fewer)

pub cleanup-Counts :
    (c : IntervalCounter) (events : List Bucket) (last now : ℕ)
    → Counts c events last
    → last ≤ now
    → Counts (cleanup_expired_buckets c now) events now
      × ((cleanup_expired_buckets c now).total_count ≡ in_window (window c) now events % 2 ^ 64)
unfolding cleanup_expired_buckets bucket_time
cleanup-Counts c events last now k h =
    let w = window c in
    let sum = drop_expired-total w now c.buckets c.total_count k.summed in
    (
      record {
        resolved = k.resolved;
        ordered = drop_expired-ascending w now 0 c.buckets c.total_count k.ordered;
        past =
            up_to_le (bucket_time c last) (bucket_time c now)
              (drop_expired w now c.buckets c.total_count).0
              (bucket_time_le c last now k.resolved h)
              (drop_expired-up_to w now (bucket_time c last) c.buckets c.total_count k.past);
        ints = drop_expired-all_ints w now c.buckets c.total_count k.ints;
        summed = sum;
        agrees = λ t p.
            drop_expired-in_window w now t c.buckets c.total_count p ∙ k.agrees t (omega arith);
      },
      sum
          ∙ ap (λ n. n % 2 ^ 64)
              (total-drop_expired w now c.buckets c.total_count k.ordered ∙ k.agrees now h),
    )

-- An event as the bucket of its time.
abbrev pub event : IntervalCounter → ℕ → ℕ → Bucket
event c time n = record { timestamp = bucket_time c time; count = n }

add-Counts :
    (c : IntervalCounter) (events : List Bucket) (last now n : ℕ)
    → Counts c events last
    → last ≤ now
    → is_int (last_count (with_current_bucket (bucket_time c now) c.buckets) + n) ≡ true
    → Counts
        (record c {
          buckets = added (bucket_time c now) n c.buckets;
          total_count = (c.total_count + n) % 2 ^ 64;
        })
        (event c now n ∷ events)
        now
unfolding bucket_time
add-Counts c events last now n k h small =
    let time = bucket_time c now in
    let past =
      up_to_le (bucket_time c last) time c.buckets (bucket_time_le c last now k.resolved h)
        k.past in
    let sum = total-added time n c.buckets in
    record {
      resolved = k.resolved;
      ordered = ascending-added 0 time n c.buckets (omega arith) k.ordered past;
      past = up_to-added time n c.buckets past;
      ints = all_ints-added time n c.buckets k.ints small;
      summed = omega (arith, k.summed, sum);
      agrees = λ t p.
          ground (arith, in_window-added (window c) t time n c.buckets, k.agrees t (omega arith));
    }

-- The count that the bucket of the second reading has after the cleanup, 0 if there is none.
abbrev pub current_count : IntervalCounter → ℕ → ℕ → ℕ
current_count c now now' =
    last_count (with_current_bucket (bucket_time c now') (cleanup_expired_buckets c now).buckets)

-- Few events in the window leave it small.
pub current_count-le :
    (c : IntervalCounter) (events : List Bucket) (last now now' : ℕ)
    → Counts c events last
    → last ≤ now
    → current_count c now now' ≤ in_window (window c) now events
unfolding cleanup_expired_buckets
current_count-le c events last now now' k h =
    let w = window c in
    let kept = (drop_expired w now c.buckets c.total_count).0 in
    omega (
      arith,
      last_count-le (bucket_time c now') kept,
      total-drop_expired w now c.buckets c.total_count k.ordered,
      k.agrees now h,
    )

-- When the clock does not go back and the bucket's count stays an `int`, `record(count)` with a
-- positive count succeeds and adds an event at the bucket of the second reading to those the
-- counter counts.
pub record_count-Counts :
    (c : IntervalCounter) (events : List Bucket) (last now now' n : ℕ)
    → Counts c events last
    → last ≤ now
    → now ≤ now'
    → 0 < n
    → current_count c now now' + n < 2 ^ 31
    → (c' : IntervalCounter) × (record_count c now now' (pos n) ≡ some c')
      × Counts c' (event c now' n ∷ events) now'
unfolding record_count record_events cleanup_expired_buckets bucket_time
record_count-Counts c events last now now' n k h h' p small =
    let some_events : (n == 0) ≡ false = ground arith in
    let fits : is_int (current_count c now now' + n) ≡ true =
      lt→ltb (current_count c now now' + n) (2 ^ 31) small in
    let cleaned = cleanup_expired_buckets c now in
    (
      record cleaned {
        buckets = added (bucket_time c now') n cleaned.buckets;
        total_count = (cleaned.total_count + n) % 2 ^ 64;
      },
      rw (some_events, fits) refl,
      add-Counts cleaned events now now' n (cleanup-Counts c events last now k h).0 h' fits,
    )

-- A new counter counts no events.
pub of_window-Counts :
    (w r : ℕ)
    → 0 < w
    → 0 < r
    → (c : IntervalCounter) × (of_window (pos w) (pos r) ≡ ok c) × Counts c [] 0
unfolding of_window bucket_time
of_window-Counts w r p q =
    let valid : ((w == 0) || (r == 0)) ≡ false = ground arith in
    (
      record { window_duration = w; resolution = r; buckets = []; total_count = 0 },
      rw valid refl,
      record {
        resolved = q;
        ordered = refl;
        past = refl;
        ints = refl;
        summed = refl;
        agrees = λ t p. refl;
      },
    )

-- On a counter that counts the recorded events, each bucket's count an `int`, and when the clock does
-- not go back: `count` gives the number of the events whose bucket, their time rounded down to the
-- resolution, is not before the window, as a word of 64 bits; the counter goes on to count the same
-- events.
pub count-in_window :
    (c : IntervalCounter) (events : List Bucket) (last now : ℕ)
    → Counts c events last
    → last ≤ now
    → (c' : IntervalCounter) × (count c now ≡ (c', in_window (window c) now events % 2 ^ 64))
      × Counts c' events now
count-in_window c events last now k h =
    let (counts, number) = cleanup-Counts c events last now k h in
    (cleanup_expired_buckets c now, ap (λ n. (cleanup_expired_buckets c now, n)) number, counts)
