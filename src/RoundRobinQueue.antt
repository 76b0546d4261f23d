-- ===== src/RoundRobinQueue.antt =====
-- include/round_robin_queue.h: `RoundRobinQueue<T>`, a deque with a position that goes round. The two
-- overloads of `enqueue`, `insert_front` and `peek` are one function each.
mod Tests
pub mod Order
pub mod Remove
pub mod Turn
pub mod Fair
use av_utils.Base.{
  Bool, List, Option, Outcome, [], false, get_elem?, if◌then◌else◌, leb, length, ltb, negsuc, not,
  ok, pos, remove_at, runtime_error, suc, throw, true, zero, ℕ, ℤ, ◌%◌, ◌&&◌, ◌++◌, ◌+◌, ◌-◌, ◌==◌,
  ◌∷◌,
}

pub record RoundRobinQueue {ℓ} (T : Type ℓ) : Type ℓ where
  pub queue : List T
  pub current : ℕ

-- `std::distance(begin, std::find(...))`: the length of the list if nothing is found.
module _ {ℓ} {T : Type ℓ} (eq : T → T → Bool) where
  pub find_index : T → List T → ℕ
  find_index value [] = 0
  find_index value (x ∷ xs) = let rest = find_index value xs in if eq x value then 0 else suc rest

-- `((current + n) % size + size) % size` with the remainder of C++, which has the sign of its left
-- operand: for a sum below 0 the first remainder is taken of its absolute value.
abbrev pub turn : ℕ → ℕ → ℤ → ℕ
turn count current (pos n) = ((current + n) % count + count) % count
turn count current (negsuc n) =
    if leb (suc n) current
    then ((current - suc n) % count + count) % count
    else (count - (suc n - current) % count) % count

module _ {ℓ} {T : Type ℓ} where
  pub from_range : List T → RoundRobinQueue T
  from_range items = record { queue = items; current = 0 }

  abbrev pub empty : RoundRobinQueue T → Bool
  empty q = length q.queue == 0

  pub size : RoundRobinQueue T → ℕ
  size q = length q.queue

  pub enqueue : RoundRobinQueue T → T → RoundRobinQueue T
  enqueue q item = record q { queue = q.queue ++ item ∷ [] }

  -- The element is `none` for a read outside the deque, which is undefined in the source.
  pub next : RoundRobinQueue T → Outcome (Option T × RoundRobinQueue T)
  next q =
      if empty q
      then throw runtime_error
      else ok (get_elem? q.queue q.current, record q { current = (q.current + 1) % length q.queue })

  pub peek : RoundRobinQueue T → Outcome (Option T)
  peek q = if empty q then throw runtime_error else ok (get_elem? q.queue q.current)

  -- The position after an element went from under it.
  abbrev pub settle : RoundRobinQueue T → RoundRobinQueue T
  settle q =
      if empty q
      then record q { current = 0 }
      else (if leb (length q.queue) q.current then record q { current = 0 } else q)

  pub skip : RoundRobinQueue T → Outcome (RoundRobinQueue T)
  skip q =
      if empty q
      then throw runtime_error
      else ok (settle (record q { queue = remove_at q.current q.queue }))

  pub clear : RoundRobinQueue T → RoundRobinQueue T
  clear q = record { queue = []; current = 0 }

  pub reset : RoundRobinQueue T → RoundRobinQueue T
  reset q = record q { current = 0 }

  pub insert_front : RoundRobinQueue T → T → RoundRobinQueue T
  insert_front q item = record {
    queue = item ∷ q.queue;
    current = if not (empty q) then q.current + 1 else q.current;
  }

  -- The loop of `for_each`: what the callback is given, from `pos` on for `i` rounds.
  pub visit : List T → ℕ → ℕ → List (Option T)
  visit queue at zero = []
  visit queue at (suc i) = get_elem? queue at ∷ visit queue ((at + 1) % length queue) i

  pub for_each : RoundRobinQueue T → List (Option T)
  unfolding visit
  for_each q = if empty q then [] else visit q.queue q.current (length q.queue)

  pub current_position : RoundRobinQueue T → ℕ
  current_position q = q.current

  pub rotate : RoundRobinQueue T → ℤ → RoundRobinQueue T
  rotate q n = if empty q then q else record q { current = turn (length q.queue) q.current n }

  -- The position after the element `removed_idx` went.
  abbrev pub current_without : ℕ → RoundRobinQueue T → ℕ
  current_without removed_idx q =
      let moved =
        if ltb removed_idx q.current
        then q.current - 1
        else (if removed_idx == q.current
            then (if leb (length q.queue) q.current then 0 else q.current)
            else q.current) in
      if empty q then 0 else (if leb (length q.queue) moved && not (empty q) then 0 else moved)

module _ {ℓ} {T : Type ℓ} (eq : T → T → Bool) where
  pub remove : RoundRobinQueue T → T → RoundRobinQueue T × Bool
  remove q value =
      if empty q
      then (q, false)
      else (let removed_idx = find_index eq value q.queue in
          if removed_idx == length q.queue
          then (q, false)
          else (let rest = record q { queue = remove_at removed_idx q.queue } in
              (record rest { current = current_without removed_idx rest }, true)))

  pub contains : RoundRobinQueue T → T → Bool
  contains q value = not (find_index eq value q.queue == length q.queue)
