-- ===== src/IntervalCounter/Buckets.antt =====
-- include/interval_counter.h: the buckets as a list of events, and what is left of it at a time.
use av_utils.Base.{
  Bool, List, [], arith, if◌then◌else◌, leb, refl, true, ℕ, ◌%◌, ◌&&◌, ◌+◌, ◌-◌, ◌^◌, ◌∷◌, ◌≡◌, ◌≤◌,
}
use av_utils.IntervalCounter.{Bucket, drop_expired, expired, is_int}

abbrev pub total : List Bucket → ℕ
total [] = 0
total (b ∷ bs) = b.count + total bs

-- How many of the events have not left the window of length `w` at time `t`.
abbrev pub in_window : ℕ → ℕ → List Bucket → ℕ
in_window w t [] = 0
in_window w t (b ∷ bs) = if expired w t b then in_window w t bs else b.count + in_window w t bs

-- In the order of time, from `low` on.
abbrev pub ascending_from : ℕ → List Bucket → Bool
ascending_from low [] = true
ascending_from low (b ∷ bs) = leb low b.timestamp && ascending_from b.timestamp bs

abbrev pub up_to : ℕ → List Bucket → Bool
up_to high [] = true
up_to high (b ∷ bs) = leb b.timestamp high && up_to high bs

-- The counts are those of an `int`.
abbrev pub all_ints : List Bucket → Bool
all_ints [] = true
all_ints (b ∷ bs) = is_int b.count && all_ints bs

pub ascending_from_le :
    (low low' : ℕ) (bs : List Bucket)
    → low' ≤ low
    → ascending_from low bs ≡ true
    → ascending_from low' bs ≡ true
ascending_from_le low low' [] p h = refl
ascending_from_le low low' (b ∷ bs) p h = ground arith

pub up_to_le :
    (high high' : ℕ) (bs : List Bucket)
    → high ≤ high'
    → up_to high bs ≡ true
    → up_to high' bs ≡ true
up_to_le high high' [] p h = refl
up_to_le high high' (b ∷ bs) p h = ground (arith, up_to_le high high' bs)

-- When the oldest bucket is in the window, all are.
pub in_window_all :
    (w t low : ℕ) (bs : List Bucket)
    → ascending_from low bs ≡ true
    → t ≤ low + w
    → in_window w t bs ≡ total bs
in_window_all w t low [] h p = refl
in_window_all w t low (b ∷ bs) h p = ground (arith, in_window_all w t b.timestamp bs)

module _ (w now : ℕ) where
  pub drop_expired-in_window :
      (t : ℕ) (bs : List Bucket) (n : ℕ)
      → now ≤ t
      → in_window w t (drop_expired w now bs n).0 ≡ in_window w t bs
  unfolding drop_expired
  drop_expired-in_window t [] n p = refl
  drop_expired-in_window t (b ∷ bs) n p =
      ground (arith, drop_expired-in_window t bs ((n + (2 ^ 64 - b.count % 2 ^ 64)) % 2 ^ 64))

  pub drop_expired-total :
      (bs : List Bucket) (n : ℕ)
      → n ≡ total bs % 2 ^ 64
      → (drop_expired w now bs n).1 ≡ total (drop_expired w now bs n).0 % 2 ^ 64
  unfolding drop_expired
  drop_expired-total [] n h = h
  drop_expired-total (b ∷ bs) n h =
      ground
        (arith, drop_expired-total bs ((n + (2 ^ 64 - b.count % 2 ^ 64)) % 2 ^ 64) (omega arith))

  pub drop_expired-ascending :
      (low : ℕ) (bs : List Bucket) (n : ℕ)
      → ascending_from low bs ≡ true
      → ascending_from low (drop_expired w now bs n).0 ≡ true
  unfolding drop_expired
  drop_expired-ascending low [] n h = refl
  drop_expired-ascending low (b ∷ bs) n h = ground (
    arith,
    drop_expired-ascending low bs ((n + (2 ^ 64 - b.count % 2 ^ 64)) % 2 ^ 64),
    ascending_from_le b.timestamp low bs,
  )

  pub drop_expired-up_to :
      (high : ℕ) (bs : List Bucket) (n : ℕ)
      → up_to high bs ≡ true
      → up_to high (drop_expired w now bs n).0 ≡ true
  unfolding drop_expired
  drop_expired-up_to high [] n h = refl
  drop_expired-up_to high (b ∷ bs) n h =
      ground (arith, drop_expired-up_to high bs ((n + (2 ^ 64 - b.count % 2 ^ 64)) % 2 ^ 64))

  pub drop_expired-all_ints :
      (bs : List Bucket) (n : ℕ) → all_ints bs ≡ true → all_ints (drop_expired w now bs n).0 ≡ true
  unfolding drop_expired
  drop_expired-all_ints [] n h = refl
  drop_expired-all_ints (b ∷ bs) n h =
      ground (arith, drop_expired-all_ints bs ((n + (2 ^ 64 - b.count % 2 ^ 64)) % 2 ^ 64))

  -- What is left is what the window holds.
  pub total-drop_expired :
      (bs : List Bucket) (n : ℕ)
      → ascending_from 0 bs ≡ true
      → total (drop_expired w now bs n).0 ≡ in_window w now bs
  unfolding drop_expired
  total-drop_expired [] n h = refl
  total-drop_expired (b ∷ bs) n h = ground (
    arith,
    total-drop_expired bs ((n + (2 ^ 64 - b.count % 2 ^ 64)) % 2 ^ 64),
    ascending_from_le b.timestamp 0 bs,
    in_window_all w now b.timestamp bs,
  )
