-- ===== src/RoundRobinQueue/Turn.antt =====
-- `for_each` and `rotate` of `RoundRobinQueue`, element by element.
use native.Mathlib.Decide.{dec_lt, dec_le}
use native.Mathlib.Nat.{mod-lt, mod-eq_of_lt, mod-add-mod, add-mod-mod, mod-mod}
use av_utils.Base.{
  List, ap, ap₂, arith, drop, false, get_elem?, get_elem?-append_left, get_elem?-append_right,
  get_elem?-drop, get_elem?-take, inl, inr, leb, length, length-drop, negsuc, ne→==, pos, refl,
  some, suc, sym, take, zero, ℕ, ℤ, ◌%◌, ◌+◌, ◌-◌, ◌<◌, ◌∙◌, ◌∷◌, ◌≡◌, ◌≤◌,
}
use av_utils.Base.Mod.{
  length-tabulate, mod-add_self, mod_step, shift, tabulate, tabulate_ext, tabulate_read, wrap_once,
}
use av_utils.RoundRobinQueue.{RoundRobinQueue, for_each, rotate, size, turn, visit}
use av_utils.RoundRobinQueue.Order.{IsValid, order, order_at}

turn_back :
    (count c k r : ℕ)
    → c < count
    → k < count
    → r ≡ (k + c) % count
    → (count - k) % count ≡ (c + (count - r)) % count
turn_back count c k r h l e = elim (dec_lt (k + c) count) [
  | yes p ↦ ap (λ m. m % count) (omega (arith, e, mod-eq_of_lt p))
  | no p ↦
      sym (mod-add_self (count - k) count)
      ∙ ap (λ m. m % count) (ground (arith, e, wrap_once count (k + c)))
]

-- The new position: the code's two cases of the sign of the sum agree.
turn_lem : (count c : ℕ) (n : ℤ) → c < count → turn count c n ≡ (c + shift count n) % count
turn_lem count c (pos n) h = mod-add_self ((c + n) % count) count ∙ mod-mod (c + n) count
turn_lem count c (negsuc n) h = elim (dec_le (suc n) c) [
  | yes k ↦ ground (
    arith,
    mod-eq_of_lt {n = suc n} {m = count},
    wrap_once count (c - suc n),
    wrap_once count (c - suc n + count),
    wrap_once count (c + (count - suc n)),
  )
  | no k ↦ rw (not-leb k) (
      turn_back count c ((suc n - c) % count) (suc n % count) h (mod-lt (suc n - c) (omega arith))
        (sym (mod_step (suc n - c) c count (suc n) (omega arith))))
]
  where
    not-leb : ¬ (suc n ≤ c) → leb (suc n) c ≡ false
    not-leb k = ground arith

module _ {ℓ} {T : Type ℓ} where
  -- The element `i` places on from the current one.
  get_elem?-order_at :
      (xs : List T) (c i : ℕ)
      → c ≤ length xs
      → i < length xs
      → get_elem? (order_at xs c) i ≡ get_elem? xs ((c + i) % length xs)
  get_elem?-order_at xs c i h k = elim (dec_lt (c + i) (length xs)) [
    | yes front ↦
        get_elem?-append_left i (drop c xs) (take c xs) (omega (arith, length-drop c xs))
        ∙ get_elem?-drop c i xs
        ∙ ap (get_elem? xs) (sym (mod-eq_of_lt front))
    | no round ↦
        get_elem?-append_right i (drop c xs) (take c xs) (omega (arith, length-drop c xs))
        ∙ get_elem?-take c (i - length (drop c xs)) xs (omega (arith, length-drop c xs))
        ∙ ap (get_elem? xs) (ground (arith, length-drop c xs, wrap_once (length xs) (c + i)))
  ]

  visit-tabulate :
      (xs : List T) (c n : ℕ)
      → c < length xs
      → visit xs c n ≡ tabulate n (λ i. get_elem? xs ((c + i) % length xs))
  unfolding visit
  visit-tabulate xs c zero h = refl
  visit-tabulate xs c (suc n) h =
      ap₂ ◌∷◌
        (ap (get_elem? xs)
          (sym (ap (λ m. m % length xs) {x = c + 0} (omega arith) ∙ mod-eq_of_lt h)))
        (visit-tabulate xs ((c + 1) % length xs) n (mod-lt (c + 1) (omega arith))
          ∙ tabulate_ext n _ _ λ i k.
            ap (get_elem? xs)
              (mod-add-mod (c + 1) (length xs) i ∙ ap (λ m. m % length xs) (omega arith)))

  -- `for_each` hands the callback as many elements as there are, and the one with index `i` is the
  -- one with that index in the order of `next`.
  pub for_each_lem :
      (q : RoundRobinQueue T) (i : ℕ)
      → IsValid q
      → i < size q
      → (length (for_each q) ≡ size q) × (get_elem? (for_each q) i ≡ some (get_elem? (order q) i))
  unfolding for_each size
  for_each_lem q i (inr (e, c)) k = absurd (omega arith)
  for_each_lem q i (inl h) k =
      rw
        (
          ne→== (length q.queue) 0 (omega arith),
          visit-tabulate q.queue q.current (length q.queue) h,
        )
        (
          length-tabulate (length q.queue) _,
          tabulate_read (length q.queue) _ i k
              ∙ ap some (sym (get_elem?-order_at q.queue q.current i (omega arith) k)),
        )

  -- `rotate(n)` keeps a valid queue valid and turns the order by `n`: the element with index `i` is
  -- then the one that had index `i + n`, counted round the queue, or `i - |n|` for a negative `n`.
  pub rotate_lem :
      (q : RoundRobinQueue T) (n : ℤ) (i : ℕ)
      → IsValid q
      → i < size q
      → IsValid (rotate q n)
        × (get_elem? (order (rotate q n)) i ≡ get_elem? (order q) ((shift (size q) n + i) % size q))
  unfolding rotate size
  rotate_lem q n i (inr (e, c)) h = absurd (omega arith)
  rotate_lem q n i (inl v) h =
      rw (ne→== (length q.queue) 0 (omega arith), turn_lem (length q.queue) q.current n v)
        (
          inl (mod-lt (q.current + shift (length q.queue) n) (omega arith)),
          get_elem?-order_at q.queue _ i
                (omega (
                  arith,
                  mod-lt (q.current + shift (length q.queue) n) {m = length q.queue} (omega arith),
                ))
                h
              ∙ ap (get_elem? q.queue) same
              ∙ sym (
                  get_elem?-order_at q.queue q.current _ (omega arith)
                    (mod-lt (shift (length q.queue) n + i) {m = length q.queue} (omega arith))),
        )
    where
      same :
          ((q.current + shift (length q.queue) n) % length q.queue + i) % length q.queue
          ≡ (q.current + (shift (length q.queue) n + i) % length q.queue) % length q.queue
      same =
          mod_step (q.current + shift (length q.queue) n) i (length q.queue)
            (q.current + (shift (length q.queue) n + i)) (omega arith)
          ∙ sym (add-mod-mod q.current (shift (length q.queue) n + i) (length q.queue))
