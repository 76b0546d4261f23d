-- ===== src/CircularBuffer/Contents.antt =====
-- Each operation of `CircularBuffer` keeps the invariant and acts on the list that it stands for.
use av_utils.Base.{
  Bool-cases, [], ap, arith, drop, drop_last, get_elem?, get_or, if◌then◌else◌, inl, inr,
  invalid_argument, leb, length-replicate, ok, or_throw, out_of_range, refl, replicate,
  runtime_error, suc, throw, zero, ℕ, ◌%◌, ◌++◌, ◌+◌, ◌-◌, ◌<◌, ◌^◌, ◌∙◌, ◌∷◌, ◌≡◌, ◌≤◌, ◌⊎◌,
}
use av_utils.Base.Mod.{mod_turn, tabulate, tabulate-none, tabulate_read, wrap_once}
use av_utils.CircularBuffer.{
  CircularBuffer, at, back, back_one, empty, front, full, new, pop_back, pop_front, push_back,
  push_front, word,
}
use av_utils.CircularBuffer.Ring.{IsValid, back_one_lem, contents, count_up, forward_lem, slot}
use av_utils.CircularBuffer.Steps.{
  pop_back_some, pop_front_some, push_back_full, push_back_room, push_front_full, push_front_room,
  tail_in,
}

module _ {ℓ} {T : Type ℓ} (d : T) where
  -- A constructed buffer is valid and empty; capacity 0 is refused.
  pub new_lem :
      (capacity : ℕ)
      → capacity ≤ 2 ^ 63
      → ((capacity ≡ 0) × (new d capacity ≡ throw invalid_argument))
        ⊎ ((b : CircularBuffer T) × (new d capacity ≡ ok b)
            × IsValid b
            × (contents d b ≡ [])
            × (b.capacity ≡ capacity))
  unfolding new
  new_lem zero h = inl (refl, refl)
  new_lem (suc c) h = inr (b, ground arith, valid, refl, refl)
    where
      b : CircularBuffer T
      b = record { data_ = replicate (suc c) d; head = 0; tail = 0; count = 0; capacity = suc c }

      valid : IsValid b
      valid = record {
        storage = length-replicate (suc c) d;
        positive = omega arith;
        small = h;
        head_in = omega arith;
        count_in = omega arith;
        tail_at = ground (arith, wrap_once (suc c) (0 + 0));
      }

  -- `push_back` appends its item; on a full buffer the oldest element goes. The buffer stays valid.
  pub push_back_lem :
      {b : CircularBuffer T} (x : T)
      → IsValid b
      → IsValid (push_back b x)
        × (contents d (push_back b x)
            ≡ (if full b then drop 1 (contents d b) else contents d b) ++ x ∷ [])
  unfolding push_back
  push_back_lem {b} x v = elim (Bool-cases (full b)) [
    | inl e ↦
        rw
          (
            e,
            forward_lem b.capacity b.head v.small v.head_in,
            forward_lem b.capacity b.tail v.small (tail_in d v),
          )
          (push_back_full d v x (ground arith))
    | inr e ↦
        rw (e, forward_lem b.capacity b.tail v.small (tail_in d v), count_up v)
          (push_back_room d v x (ground arith))
  ]

  -- `push_front` puts its item first; on a full buffer the newest element goes. The buffer stays
  -- valid.
  pub push_front_lem :
      {b : CircularBuffer T} (x : T)
      → IsValid b
      → IsValid (push_front b x)
        × (contents d (push_front b x)
            ≡ x ∷ (if full b then drop_last (contents d b) else contents d b))
  unfolding push_front
  push_front_lem {b} x v = elim (Bool-cases (full b)) [
    | inl e ↦
        rw
          (
            e,
            back_one_lem b.capacity b.head v.small v.head_in,
            back_one_lem b.capacity b.tail v.small (tail_in d v),
          )
          (push_front_full d v x (ground arith))
    | inr e ↦
        rw (e, back_one_lem b.capacity b.head v.small v.head_in, count_up v)
          (push_front_room d v x (ground arith))
  ]

  contents-empty : (b : CircularBuffer T) → b.count ≡ 0 → contents d b ≡ []
  contents-empty b e = ap (λ n. tabulate n (λ i. get_or b.data_ (slot b i) d)) e

  -- `pop_front` throws on an empty buffer, and otherwise takes the oldest element away.
  pub pop_front_lem :
      {b : CircularBuffer T}
      → IsValid b
      → ((contents d b ≡ []) × (pop_front b ≡ throw runtime_error))
        ⊎ ((b' : CircularBuffer T) × (pop_front b ≡ ok b')
            × IsValid b'
            × (contents d b' ≡ drop 1 (contents d b))
            × (b'.count + 1 ≡ b.count))
  unfolding pop_front
  pop_front_lem {b} v = elim (Bool-cases (empty b)) [
    | inl e ↦ inl (contents-empty b (ground arith), ground arith)
    | inr e ↦
        let p = pop_front_some d v (ground arith) in
        inr (_, rw (e, forward_lem b.capacity b.head v.small v.head_in), p.0, p.1, ground arith)
  ]

  -- `pop_back` throws on an empty buffer, and otherwise takes the newest element away.
  pub pop_back_lem :
      {b : CircularBuffer T}
      → IsValid b
      → ((contents d b ≡ []) × (pop_back b ≡ throw runtime_error))
        ⊎ ((b' : CircularBuffer T) × (pop_back b ≡ ok b')
            × IsValid b'
            × (contents d b' ≡ drop_last (contents d b))
            × (b'.count + 1 ≡ b.count))
  unfolding pop_back
  pop_back_lem {b} v = elim (Bool-cases (empty b)) [
    | inl e ↦ inl (contents-empty b (ground arith), ground arith)
    | inr e ↦
        let p = pop_back_some d v (ground arith) in
        inr
          (_, rw (e, back_one_lem b.capacity b.tail v.small (tail_in d v)), p.0, p.1, ground arith)
  ]

  -- The element reads are those of the list, and throw where it has no such element: `operator[]`
  -- reads at its index, `front` the oldest element and `back` the newest.
  pub reads_lem :
      {b : CircularBuffer T} (i : ℕ)
      → IsValid b
      → (at d b i ≡ or_throw out_of_range (get_elem? (contents d b) i))
        × (front d b ≡ or_throw runtime_error (get_elem? (contents d b) 0))
        × (back d b ≡ or_throw runtime_error (get_elem? (contents d b) (b.count - 1)))
  unfolding at front back
  reads_lem {b} i v = (
    elim (Bool-cases (leb b.count i)) [
      | inl e ↦ rw (e, tabulate-none b.count _ i (ground arith))
      | inr e ↦ rw (e, tabulate_read b.count _ i (ground arith), at_slot (ground arith))
    ],
    elim (Bool-cases (empty b)) [
      | inl e ↦ rw (e, tabulate-none b.count _ 0 (ground arith))
      | inr e ↦ rw (e, tabulate_read b.count _ 0 (ground arith), head_slot)
    ],
    elim (Bool-cases (empty b)) [
      | inl e ↦ rw (e, tabulate-none b.count _ (b.count - 1) (ground arith))
      | inr e ↦
          rw (e, tabulate_read b.count _ (b.count - 1) (ground arith), last_slot (ground arith))
    ],
  )
    where
      at_slot : i < b.count → word (b.head + i) ≡ b.head + i
      at_slot h = omega (arith, v.count_in, v.small, v.head_in)

      head_slot : slot b 0 ≡ b.head
      head_slot = ground (arith, v.head_in, wrap_once b.capacity (b.head + 0))

      last_slot : 0 < b.count → back_one b.capacity b.tail ≡ slot b (b.count - 1)
      last_slot h =
          back_one_lem b.capacity b.tail v.small (tail_in d v)
          ∙ ap (λ n. (n + (b.capacity - 1)) % b.capacity) v.tail_at
          ∙ mod_turn (b.head + b.count) (b.capacity - 1) b.capacity (b.head + (b.count - 1))
              (omega (arith, v.positive))
