-- ===== src/CircularBuffer/Steps.antt =====
-- The buffers that the branches of `CircularBuffer`'s operations build, with indices that have gone
-- round: each is valid, and its elements are those of the old buffer but for one.
use native.Mathlib.Nat.{mod-lt}
use av_utils.Base.{
  ==→eq, [], ap, arith, drop, drop_last, get_or, get_or-set_at, get_or-set_off, length, length-set,
  refl, set, suc, sym, true, ℕ, ◌%◌, ◌++◌, ◌+◌, ◌-◌, ◌<◌, ◌∙◌, ◌∷◌, ◌≡◌, ◌≢◌,
}
use av_utils.Base.Mod.{
  drop-tabulate, drop_last-tabulate, mod_step, mod_turn, tabulate_cons, tabulate_ext, tabulate_snoc,
}
use av_utils.CircularBuffer.{CircularBuffer, full}
use av_utils.CircularBuffer.Ring.{IsValid, contents, slot, slot_in, slot_ne}

-- The slot before the oldest element.
abbrev pub before {ℓ} : {T : Type ℓ} → CircularBuffer T → ℕ
before b = (b.head + (b.capacity - 1)) % b.capacity

module _ {ℓ} {T : Type ℓ} (d : T) where
  module _ {b : CircularBuffer T} (v : IsValid b) where
    open b use {data_, head, tail, count, capacity}

    pub tail_in : tail < capacity
    tail_in = omega (arith, slot_in count v, v.storage, v.tail_at)

    step_in : (n : ℕ) → n % capacity < capacity
    step_in n = mod-lt n v.positive

    full_lem : full b ≡ true → count ≡ capacity
    full_lem e = ==→eq count capacity e

    -- A write goes to a slot of the storage.
    room_tail : tail < length data_
    room_tail = omega (arith, tail_in, v.storage)

    room_before : before b < length data_
    room_before = omega (arith, step_in (head + (capacity - 1)), v.storage)

    tail_off : (i : ℕ) → i < count → count < i + capacity → tail ≢ slot b i
    tail_off i h k e = slot_ne i count v h v.count_in k (sym e ∙ v.tail_at)

    before_off : (i : ℕ) → i < capacity - 1 → before b ≢ slot b i
    before_off i h e =
        slot_ne i (capacity - 1) v h (omega arith) (omega (arith, v.positive)) (sym e)

    pub push_back_room :
        (x : T)
        → count < capacity
        → let b' = record b {
          data_ = set data_ tail x;
          tail = (tail + 1) % capacity;
          count = count + 1;
        } in
          IsValid b' × (contents d b' ≡ contents d b ++ x ∷ [])
    push_back_room x e = (
      record {
        storage = length-set data_ tail x ∙ v.storage;
        positive = v.positive;
        small = v.small;
        head_in = v.head_in;
        count_in = omega arith;
        tail_at =
            ap (λ n. (n + 1) % capacity) v.tail_at
            ∙ mod_step (head + count) 1 capacity (head + (count + 1)) (omega arith);
      },
      tabulate_snoc (count + 1) count _ _ x (omega arith)
          (λ i h. get_or-set_off data_ tail (slot b i) x d room_tail (tail_off i h (omega arith)))
          (get_or-set_at data_ tail (slot b count) x d room_tail v.tail_at),
    )

    pub push_back_full :
        (x : T)
        → count ≡ capacity
        → let b' = record b {
          data_ = set data_ tail x;
          head = (head + 1) % capacity;
          tail = (tail + 1) % capacity;
        } in
          IsValid b' × (contents d b' ≡ drop 1 (contents d b) ++ x ∷ [])
    push_back_full x e = (
      record {
        storage = length-set data_ tail x ∙ v.storage;
        positive = v.positive;
        small = v.small;
        head_in = step_in (head + 1);
        count_in = v.count_in;
        tail_at =
            ap (λ n. (n + 1) % capacity) v.tail_at
            ∙ mod_step (head + count) 1 capacity (head + count + 1) refl
            ∙ sym (mod_step (head + 1) count capacity (head + count + 1) (omega arith));
      },
      rw drop-tabulate (
          tabulate_snoc count (count - 1) _ _ x (omega (arith, v.positive))
            (λ i h. rw (mod_step (head + 1) i capacity (head + suc i) (omega arith)) (
              get_or-set_off data_ tail (slot b (suc i)) x d room_tail
                (tail_off (suc i) (omega arith) (omega arith))))
            (get_or-set_at data_ tail _ x d room_tail (
              v.tail_at
              ∙ sym (
                  mod_step (head + 1) (count - 1) capacity (head + count)
                    (omega (arith, v.positive)))))),
    )

    pub push_front_room :
        (x : T)
        → count < capacity
        → let b' = record b {
          data_ = set data_ (before b) x;
          head = before b;
          count = count + 1;
        } in
          IsValid b' × (contents d b' ≡ x ∷ contents d b)
    push_front_room x e = (
      record {
        storage = length-set data_ (before b) x ∙ v.storage;
        positive = v.positive;
        small = v.small;
        head_in = step_in (head + (capacity - 1));
        count_in = omega arith;
        tail_at =
            v.tail_at
            ∙ sym (
                mod_turn (head + (capacity - 1)) (count + 1) capacity (head + count) (omega arith));
      },
      tabulate_cons (count + 1) count _ _ x (omega arith)
          (get_or-set_at data_ (before b) _ x d room_before (
            sym
              (mod_step (head + (capacity - 1)) 0 capacity (head + (capacity - 1)) (omega arith))))
          (λ i h. rw (mod_turn (head + (capacity - 1)) (suc i) capacity (head + i) (omega arith)) (
            get_or-set_off data_ (before b) (slot b i) x d room_before
              (before_off i (omega arith)))),
    )

    pub push_front_full :
        (x : T)
        → count ≡ capacity
        → let b' = record b {
          data_ = set data_ (before b) x;
          head = before b;
          tail = (tail + (capacity - 1)) % capacity;
        } in
          IsValid b' × (contents d b' ≡ x ∷ drop_last (contents d b))
    push_front_full x e = (
      record {
        storage = length-set data_ (before b) x ∙ v.storage;
        positive = v.positive;
        small = v.small;
        head_in = step_in (head + (capacity - 1));
        count_in = v.count_in;
        tail_at =
            ap (λ n. (n + (capacity - 1)) % capacity) v.tail_at
            ∙ mod_step (head + count) (capacity - 1) capacity (head + count + (capacity - 1)) refl
            ∙ sym (
                mod_step (head + (capacity - 1)) count capacity (head + count + (capacity - 1))
                  (omega arith));
      },
      rw drop_last-tabulate (
          tabulate_cons count (count - 1) _ _ x (omega (arith, v.positive))
            (get_or-set_at data_ (before b) _ x d room_before (
              sym (
                mod_step (head + (capacity - 1)) 0 capacity (head + (capacity - 1)) (omega arith))))
            (λ i h.
              rw (mod_turn (head + (capacity - 1)) (suc i) capacity (head + i) (omega arith)) (
                get_or-set_off data_ (before b) (slot b i) x d room_before
                  (before_off i (omega arith))))),
    )

    pub pop_front_some :
        0 < count
        → let b' = record b { head = (head + 1) % capacity; count = count - 1 } in
          IsValid b' × (contents d b' ≡ drop 1 (contents d b))
    pop_front_some e = (
      record {
        storage = v.storage;
        positive = v.positive;
        small = v.small;
        head_in = step_in (head + 1);
        count_in = omega (arith, v.count_in);
        tail_at =
            v.tail_at ∙ sym (mod_step (head + 1) (count - 1) capacity (head + count) (omega arith));
      },
      rw drop-tabulate (
          tabulate_ext (count - 1) _ _ (λ i h.
            ap (λ k. get_or data_ k d)
              (mod_step (head + 1) i capacity (head + suc i) (omega arith)))),
    )

    pub pop_back_some :
        0 < count
        → let b' = record b { tail = (tail + (capacity - 1)) % capacity; count = count - 1 } in
          IsValid b' × (contents d b' ≡ drop_last (contents d b))
    pop_back_some e = (
      record {
        storage = v.storage;
        positive = v.positive;
        small = v.small;
        head_in = v.head_in;
        count_in = omega (arith, v.count_in);
        tail_at =
            ap (λ n. (n + (capacity - 1)) % capacity) v.tail_at
            ∙ mod_turn (head + count) (capacity - 1) capacity (head + (count - 1))
                (omega (arith, v.positive));
      },
      sym (drop_last-tabulate count _),
    )
