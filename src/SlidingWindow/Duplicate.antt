-- ===== src/SlidingWindow/Duplicate.antt =====
-- A window that holds the same value twice.
use av_utils.Base.{Bool, [], arith, false, ne→==, none, ok, refl, true, ℕ, ◌<◌, ◌∷◌, ◌≡◌}
use av_utils.SlidingWindow.{
  SlidingWindow, append, drop_front, extreme, front_of, keep, pop, popped, push, push_after, trim,
}

module _ {ℓ} {T : Type ℓ} (comp same : T → T → Bool) where
  -- In an empty window with room for two elements, a value that is the same as itself and does not
  -- precede itself, pushed twice and popped once is still an element,
  -- but the second deque is empty: `extreme` reads the front of an empty deque.
  pub extreme-duplicate :
      (capacity : ℕ) (value : T)
      → 1 < capacity
      → same value value ≡ true
      → comp value value ≡ false
      → (once : SlidingWindow T) × (twice : SlidingWindow T) × (left : SlidingWindow T) × (push comp
            same
            (record { window_capacity = capacity; window_data = []; mono = [] })
            value
          ≡ ok once)
        × (push comp same once value ≡ ok twice)
        × (pop same twice ≡ ok left)
        × (left.window_data ≡ value ∷ [])
        × (extreme left ≡ ok none)
  unfolding push push_after append trim keep pop popped drop_front extreme front_of
  extreme-duplicate capacity value room eq ne = (
    record { window_capacity = capacity; window_data = value ∷ []; mono = value ∷ [] },
    record { window_capacity = capacity; window_data = value ∷ value ∷ []; mono = value ∷ [] },
    record { window_capacity = capacity; window_data = value ∷ []; mono = [] },
    rw (ne→== 0 capacity (omega arith)) refl,
    rw (ne→== 1 capacity (omega arith), ne) refl,
    rw eq refl,
    refl,
    refl,
  )
