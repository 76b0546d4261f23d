-- ===== src/RoundRobinQueue/Remove.antt =====
-- `remove` and `contains` of `RoundRobinQueue`.
use native.Mathlib.Decide.{dec_lt}
use av_utils.Base.{
  Bool, Bool-cases, List, [], ap, ap₂, arith, drop, drop-remove_at_before, drop-remove_at_behind,
  eq→==, false, get_elem?, if◌then◌else◌, inl, inr, leb, length, length-remove_at, ltb, lt→ltb,
  ne→==, refl, remove_at, some, suc, sym, take, take-remove_at_before, take-remove_at_behind, true,
  ℕ, ◌++◌, ◌+◌, ◌-◌, ◌<◌, ◌==◌, ◌∙◌, ◌∷◌, ◌≡◌, ◌≤◌, ◌⊎◌,
}
use av_utils.RoundRobinQueue.{RoundRobinQueue, contains, current_without, find_index, remove}
use av_utils.RoundRobinQueue.Order.{IsValid, order, order_at, order_at-end}

-- Taking the element with index `i` of the deque out of the order.
abbrev pub order_without {ℓ} : {T : Type ℓ} → ℕ → RoundRobinQueue T → List T
order_without i q =
    if ltb i q.current
    then drop q.current q.queue ++ remove_at i (take q.current q.queue)
    else remove_at (i - q.current) (drop q.current q.queue) ++ take q.current q.queue

module _ {ℓ} {T : Type ℓ} (eq : T → T → Bool) where
  find_index-le : (x : T) (xs : List T) → find_index eq x xs ≤ length xs
  unfolding find_index
  find_index-le x [] = omega arith
  find_index-le x (y ∷ xs) = elim (Bool-cases (eq y x)) [
    | inl e ↦ rw e (omega arith)
    | inr e ↦ rw e (omega (arith, find_index-le x xs))
  ]

  -- What `std::find` promises: the element there is equal to the value, and none before it.
  find_index-found :
      (x : T) (xs : List T)
      → find_index eq x xs < length xs
      → (y : T) × (get_elem? xs (find_index eq x xs) ≡ some y) × (eq y x ≡ true)
  unfolding find_index
  find_index-found x [] h = absurd (omega arith)
  find_index-found x (y ∷ xs) h = elim (Bool-cases (eq y x)) [
    | inl e ↦ (y, rw e, e)
    | inr e ↦ let (z, f, g) = find_index-found x xs (ground arith) in (z, rw e f, g)
  ]

  find_index-take :
      (x : T) (xs : List T)
      → find_index eq x (take (find_index eq x xs) xs) ≡ length (take (find_index eq x xs) xs)
  unfolding find_index
  find_index-take x [] = refl
  find_index-take x (y ∷ xs) = elim (Bool-cases (eq y x)) [
    | inl e ↦ rw e
    | inr e ↦ rw (e, e) (ap suc (find_index-take x xs))
  ]

  current_without-order :
      (q : RoundRobinQueue T) (i : ℕ)
      → i < length q.queue
      → q.current < length q.queue
      → order_at
          (remove_at i q.queue)
          (current_without i (record q { queue = remove_at i q.queue }))
        ≡ order_without i q
  current_without-order q i h k = elim (dec_lt i q.current) [
    | yes before ↦
        (ap (order_at (remove_at i q.queue)) (stepped before)
          ∙ ap₂ ◌++◌
              (drop-remove_at_before i (q.current - 1) q.queue (omega arith) (omega arith)
                ∙ ap (λ c. drop c q.queue) {x = suc (q.current - 1)} (omega arith))
              (take-remove_at_before i (q.current - 1) q.queue (omega arith)
                ∙ ap (λ c. remove_at i (take c q.queue)) {x = suc (q.current - 1)} (omega arith))
          ∙ sym (without_before before))
    | no behind ↦
        (stayed behind
          ∙ ap₂ ◌++◌
              (ap (λ m. drop q.current (remove_at m q.queue)) {x = i}
                  {y = q.current + (i - q.current)} (omega arith)
                ∙ drop-remove_at_behind (i - q.current) q.current q.queue)
              (take-remove_at_behind i q.current q.queue (omega arith))
          ∙ sym (without_behind behind))
  ]
    where
      rest : RoundRobinQueue T
      rest = record q { queue = remove_at i q.queue }

      not_before : ¬ (i < q.current) → ltb i q.current ≡ false
      not_before n = ground arith

      without_before :
          i < q.current
          → order_without i q ≡ drop q.current q.queue ++ remove_at i (take q.current q.queue)
      without_before b = rw (lt→ltb i q.current b)

      without_behind :
          ¬ (i < q.current)
          → order_without i q
            ≡ remove_at (i - q.current) (drop q.current q.queue) ++ take q.current q.queue
      without_behind n = rw (not_before n)

      stepped : i < q.current → current_without i rest ≡ q.current - 1
      stepped b = ground (arith, length-remove_at i q.queue)

      position :
          ¬ (i < q.current)
          → current_without i rest ≡ (if leb (length rest.queue) q.current then 0 else q.current)
      position n = ground (arith, length-remove_at i q.queue)

      stayed :
          ¬ (i < q.current)
          → order_at rest.queue (current_without i rest) ≡ order_at rest.queue q.current
      stayed n = elim (Bool-cases (leb (length rest.queue) q.current)) [
        | inl e ↦
            ap (order_at rest.queue) (position n ∙ ap (λ b. if b then 0 else q.current) e)
            ∙ sym (order_at-end rest.queue q.current (ground arith))
        | inr e ↦ ap (order_at rest.queue) (position n ∙ ap (λ b. if b then 0 else q.current) e)
      ]

  -- `remove` takes out the first element of the deque that is equal to the value and leaves the
  -- others in their order, so that the current element stays current unless it is the one removed.
  -- Without such an element nothing changes. The result says which, as `contains` does.
  pub remove_lem :
      (q : RoundRobinQueue T) (x : T)
      → IsValid q
      → ((contains eq q x ≡ false) × (remove eq q x ≡ (q, false)))
        ⊎ ((i : ℕ) × (y : T) × (get_elem? q.queue i ≡ some y)
            × (eq y x ≡ true)
            × (contains eq (record q { queue = take i q.queue }) x ≡ false)
            × (contains eq q x ≡ true)
            × ((remove eq q x).1 ≡ true)
            × (order (remove eq q x).0 ≡ order_without i q)
            × IsValid (remove eq q x).0)
  unfolding remove contains
  remove_lem q x (inr (e, c)) = inl (ground (arith, find_index-le x q.queue), rw (eq→== _ _ e))
  remove_lem q x (inl h) = elim (Bool-cases (find_index eq x q.queue == length q.queue)) [
    | inl absent ↦ inl (rw absent, rw (ne→== (length q.queue) 0 (omega arith), absent))
    | inr present ↦
        let below : find_index eq x q.queue < length q.queue =
          ground (arith, find_index-le x q.queue) in
        let (y, e, f) = find_index-found x q.queue below in
        inr (
          find_index eq x q.queue,
          y,
          e,
          f,
          rw (eq→== _ _ (find_index-take x q.queue)),
          rw present,
          rw (ne→== (length q.queue) 0 (omega arith), present),
          rw (ne→== (length q.queue) 0 (omega arith), present) (current_without-order q _ below h),
          rw (ne→== (length q.queue) 0 (omega arith), present)
              (ground (arith, length-remove_at (find_index eq x q.queue) q.queue)),
        )
  ]
