-- ===== src/SlidingWindow/Min.antt =====
-- `SlidingWindowMin`, with the operators `>=` and `==` of the element type as arguments: the loop of
-- its `push` removes what is at least the value.
use av_utils.Base.{Bool, Option, Outcome, not}
use av_utils.SlidingWindow.{SlidingWindow}
use av_utils.SlidingWindow.{push as window_push, pop as window_pop, extreme as window_extreme}

module _ {ℓ} {T : Type ℓ} (ge eq : T → T → Bool) where
  abbrev pub less : T → T → Bool
  less a b = not (ge a b)

  abbrev pub push : SlidingWindow T → T → Outcome (SlidingWindow T)
  push w value = window_push less eq w value

  abbrev pub pop : SlidingWindow T → Outcome (SlidingWindow T)
  pop w = window_pop eq w

  abbrev pub min : SlidingWindow T → Outcome (Option T)
  min w = window_extreme w
