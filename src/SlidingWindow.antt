-- ===== src/SlidingWindow.antt =====
-- include/sliding_window_minmax.h: `SlidingWindow`, the extreme of a window over a stream, with the
-- comparison and the equality of the element type as arguments. `SlidingWindowMin` and
-- `SlidingWindowMax` are the children `Min` and `Max`.
pub mod Stairs
pub mod Window
pub mod Duplicate
pub mod Min
pub mod Max
mod Tests
use av_utils.Base.{
  Bool, List, Option, Outcome, [], if◌then◌else◌, invalid_argument, length, none, not, ok,
  runtime_error, some, throw, ℕ, ◌++◌, ◌==◌, ◌∷◌,
}

pub record SlidingWindow {ℓ} (T : Type ℓ) : Type ℓ where
  pub window_capacity : ℕ
  pub window_data : List T
  pub mono : List T

module _ {ℓ} {T : Type ℓ} where
  pub new : ℕ → Outcome (SlidingWindow T)
  new capacity =
      if capacity == 0
      then throw invalid_argument
      else ok (record { window_capacity = capacity; window_data = []; mono = [] })

  pub size : SlidingWindow T → ℕ
  size w = length w.window_data

  pub empty : SlidingWindow T → Bool
  empty w = length w.window_data == 0

  pub full : SlidingWindow T → Bool
  full w = length w.window_data == w.window_capacity

  pub clear : SlidingWindow T → SlidingWindow T
  clear w = record w { window_data = []; mono = [] }

  -- The front of `mono_`; `none` where the deque is empty, so that the read is undefined.
  pub front_of : List T → Option T
  front_of [] = none
  front_of (x ∷ xs) = some x

  pub extreme : SlidingWindow T → Outcome (Option T)
  extreme w = if length w.window_data == 0 then throw runtime_error else ok (front_of w.mono)

module _ {ℓ} {T : Type ℓ} (comp : T → T → Bool) where
  -- The loop of `push`: elements go from the back as long as they do not precede the value.
  pub keep : T → T → List T → List T
  keep value x [] = if not (comp x value) then [] else x ∷ []
  keep value x (y ∷ ys) = x ∷ y ∷ ys

  pub trim : T → List T → List T
  trim value [] = []
  trim value (x ∷ xs) = keep value x (trim value xs)

module _ {ℓ} {T : Type ℓ} (same : T → T → Bool) where
  pub drop_front : T → List T → List T
  drop_front value [] = []
  drop_front value (x ∷ xs) = if same x value then xs else x ∷ xs

  -- `pop` of a window whose data are given.
  pub popped : SlidingWindow T → List T → Outcome (SlidingWindow T)
  popped w [] = throw runtime_error
  popped w (x ∷ rest) = ok (record w { window_data = rest; mono = drop_front x w.mono })

  pub pop : SlidingWindow T → Outcome (SlidingWindow T)
  pop w = popped w w.window_data

module _ {ℓ} {T : Type ℓ} (comp same : T → T → Bool) where
  -- `push` without the check of the capacity.
  pub append : T → SlidingWindow T → SlidingWindow T
  append value w = record w {
    window_data = w.window_data ++ value ∷ [];
    mono = trim comp value w.mono ++ value ∷ [];
  }

  pub push_after : T → Outcome (SlidingWindow T) → Outcome (SlidingWindow T)
  push_after value (throw e) = throw e
  push_after value (ok w) = ok (append value w)

  pub push : SlidingWindow T → T → Outcome (SlidingWindow T)
  push w value =
      push_after value (if length w.window_data == w.window_capacity then pop same w else ok w)
