-- ===== src/RoundRobinQueue/Order.antt =====
-- The queue in the order in which `next` gives its elements.
use native.Mathlib.Nat.{mod-lt}
use av_utils.Base.{
  Bool-cases, List, [], ap, append-nil, append_assoc, ap₂, arith, drop, drop-all, drop-append,
  drop-cons, drop-remove_at_before, eq→==, get_elem?, inl, inr, leb, length, length-append,
  length-remove_at, ne→==, ok, refl, remove_at, runtime_error, some, suc, sym, take, take-all,
  take-append, take-remove_at_behind, take-suc, throw, zero, ℕ, ◌%◌, ◌++◌, ◌+◌, ◌<◌, ◌==◌, ◌∙◌, ◌∷◌,
  ◌≡◌, ◌≤◌, ◌⊎◌,
}
use av_utils.Base.Mod.{wrap_once}
use av_utils.RoundRobinQueue.{
  RoundRobinQueue, empty, enqueue, insert_front, next, peek, settle, size, skip,
}

-- The position is that of an element, or 0 in an empty queue.
abbrev pub IsValid {ℓ} : {T : Type ℓ} → RoundRobinQueue T → Type 0
IsValid q = (q.current < length q.queue) ⊎ ((length q.queue ≡ 0) × (q.current ≡ 0))

-- The list from the index `c` on, and round to the one before it.
abbrev pub order_at {ℓ} : {T : Type ℓ} → List T → ℕ → List T
order_at xs c = drop c xs ++ take c xs

abbrev pub order {ℓ} : {T : Type ℓ} → RoundRobinQueue T → List T
order q = order_at q.queue q.current

module _ {ℓ} {T : Type ℓ} where
  -- An index at the end stands for 0.
  pub order_at-zero : (xs : List T) → order_at xs 0 ≡ xs
  order_at-zero xs = append-nil xs

  pub order_at-end : (xs : List T) (c : ℕ) → length xs ≤ c → order_at xs c ≡ order_at xs 0
  order_at-end xs c h = ap₂ ◌++◌ (drop-all c xs h) (take-all c xs h) ∙ sym (order_at-zero xs)

  pub order_at-next :
      (xs : List T) (c : ℕ)
      → c < length xs
      → order_at xs ((c + 1) % length xs) ≡ order_at xs (c + 1)
  order_at-next xs c h = elim (Bool-cases (c + 1 == length xs)) [
    | inl last ↦
        ap (order_at xs) {y = 0} (ground (arith, wrap_once (length xs) (c + 1)))
        ∙ sym (order_at-end xs (c + 1) (ground arith))
    | inr inside ↦ ap (order_at xs) (ground (arith, wrap_once (length xs) (c + 1)))
  ]

  read_some : (xs : List T) (c : ℕ) → c < length xs → (x : T) × (get_elem? xs c ≡ some x)
  read_some [] c h = absurd (omega arith)
  read_some (x ∷ xs) zero h = (x, refl)
  read_some (x ∷ xs) (suc c) h = read_some xs c (omega arith)

  nil_of_length : (xs : List T) → length xs ≡ 0 → xs ≡ []
  nil_of_length [] h = refl
  nil_of_length (x ∷ xs) h = absurd (omega arith)

  order-nil : (q : RoundRobinQueue T) → length q.queue ≡ 0 → order q ≡ []
  order-nil q h =
      order_at-end q.queue q.current (omega arith) ∙ order_at-zero q.queue ∙ nil_of_length q.queue h

  -- `next` and `peek` throw on an empty queue; otherwise both return the first element of the order,
  -- and `next` moves it to the end.
  pub next_lem :
      (q : RoundRobinQueue T)
      → IsValid q
      → ((order q ≡ []) × (next q ≡ throw runtime_error) × (peek q ≡ throw runtime_error))
        ⊎ ((x : T) × (rest : List T) × (q' : RoundRobinQueue T) × (next q ≡ ok (some x, q'))
            × (peek q ≡ ok (some x))
            × (order q ≡ x ∷ rest)
            × (order q' ≡ rest ++ x ∷ [])
            × IsValid q')
  unfolding next peek
  next_lem q (inr (e, c)) = inl (order-nil q e, rw (eq→== _ _ e), rw (eq→== _ _ e))
  next_lem q (inl h) =
      let (x, e) = read_some q.queue q.current h in
      let filled = ne→== (length q.queue) 0 (omega arith) in
      inr (
        x,
        drop (suc q.current) q.queue ++ take q.current q.queue,
        record q { current = (q.current + 1) % length q.queue },
        rw (filled, e),
        rw (filled, e),
        ap (λ l. l ++ take q.current q.queue) (drop-cons q.current q.queue x e),
        order_at-next q.queue q.current h
            ∙ ap (order_at q.queue) {y = suc q.current} (omega arith)
            ∙ ap (λ l. drop (suc q.current) q.queue ++ l) (take-suc q.current q.queue x e)
            ∙ sym (append_assoc (drop (suc q.current) q.queue) (take q.current q.queue) (x ∷ [])),
        inl (mod-lt (q.current + 1) (omega arith)),
      )

  -- `enqueue` and `insert_front` put the item at the two ends of the deque, which is the same place
  -- of the order: before the first element of the deque. Both keep a valid queue valid.
  pub enqueue_lem :
      (q : RoundRobinQueue T) (x : T)
      → IsValid q
      → (order (enqueue q x) ≡ drop q.current q.queue ++ x ∷ take q.current q.queue)
        × (order (insert_front q x) ≡ order (enqueue q x))
        × IsValid (enqueue q x)
        × IsValid (insert_front q x)
  unfolding enqueue insert_front
  enqueue_lem q x v = (
    at_end,
    elim (Bool-cases (empty q)) [
      | inl none_there ↦ rw none_there (
          ap (order_at (x ∷ q.queue)) {x = q.current} {y = 0} (ground arith)
          ∙ order_at-zero (x ∷ q.queue)
          ∙ ap (◌∷◌ x) (nil_of_length q.queue (ground arith))
          ∙ sym (
              ap₂ (λ c xs. drop c xs ++ x ∷ take c xs) {x = q.current} {y = 0} (ground arith)
                (nil_of_length q.queue (ground arith)))
          ∙ sym at_end)
      | inr some_there ↦
          rw some_there (ap (order_at (x ∷ q.queue)) {y = suc q.current} (omega arith) ∙ sym at_end)
    ],
    ground (arith, length-append q.queue (x ∷ [])),
    ground arith,
  )
    where
      at_end :
          order_at (q.queue ++ x ∷ []) q.current
          ≡ drop q.current q.queue ++ x ∷ take q.current q.queue
      at_end =
          ap₂ ◌++◌ (drop-append q.current q.queue (x ∷ []) (ground arith))
            (take-append q.current q.queue (x ∷ []) (ground arith))
          ∙ append_assoc (drop q.current q.queue) (x ∷ []) (take q.current q.queue)

  -- The check of the position does not change the order.
  pub settle-order : (q : RoundRobinQueue T) → order (settle q) ≡ order q
  settle-order q = elim (Bool-cases (empty q)) [
    | inl e ↦ rw e (sym (order_at-end q.queue q.current (ground arith)))
    | inr e ↦ elim (Bool-cases (leb (length q.queue) q.current)) [
      | inl f ↦ rw (e, f) (sym (order_at-end q.queue q.current (ground arith)))
      | inr f ↦ rw (e, f)
    ]
  ]

  -- `skip` throws on an empty queue; otherwise it drops the first element of the order.
  pub skip_lem :
      (q : RoundRobinQueue T)
      → IsValid q
      → ((order q ≡ []) × (skip q ≡ throw runtime_error))
        ⊎ ((q' : RoundRobinQueue T) × (skip q ≡ ok q')
            × (order q' ≡ drop 1 (order q))
            × (size q' + 1 ≡ size q)
            × IsValid q')
  unfolding skip size
  skip_lem q (inr (e, c)) = inl (order-nil q e, rw (eq→== _ _ e))
  skip_lem q (inl h) = inr (
    settle cut,
    rw (ne→== (length q.queue) 0 (omega arith)),
    settle-order cut ∙ gone,
    ground (arith, length-remove_at q.current q.queue),
    ground arith,
  )
    where
      cut : RoundRobinQueue T
      cut = record q { queue = remove_at q.current q.queue }

      gone : order_at (remove_at q.current q.queue) q.current ≡ drop 1 (order q)
      gone =
          let (x, e) = read_some q.queue q.current h in
          ap₂ ◌++◌ (drop-remove_at_before q.current q.current q.queue (omega arith) h)
            (take-remove_at_behind q.current q.current q.queue (omega arith))
          ∙ sym (ap (λ l. drop 1 (l ++ take q.current q.queue)) (drop-cons q.current q.queue x e))
