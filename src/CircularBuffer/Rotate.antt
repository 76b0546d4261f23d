-- ===== src/CircularBuffer/Rotate.antt =====
-- `CircularBuffer::rotate`, on a full buffer and on one with room.
use native.Mathlib.Nat.{mod-lt, mod-eq_of_lt, add-mod-mod}
use av_utils.Base.{
  [], ap, arith, drop, false, get_elem?, get_or, negsuc, pos, refl, some, suc, sym, zero, ℕ, ℤ, ◌%◌,
  ◌++◌, ◌+◌, ◌-◌, ◌<◌, ◌^◌, ◌∙◌, ◌∷◌, ◌≡◌, ◌≤◌,
}
use av_utils.Base.Mod.{
  drop-tabulate, mod-add_self, mod_step, shift, tabulate, tabulate_ext, tabulate_read,
  tabulate_snoc,
}
use av_utils.CircularBuffer.{CircularBuffer, empty, rotate, word}
use av_utils.CircularBuffer.Ring.{IsValid, contents, slot}
use av_utils.CircularBuffer.Steps.{tail_in}

-- Both ends moved on by `k` slots.
turned {ℓ} : {T : Type ℓ} → CircularBuffer T → ℕ → CircularBuffer T
turned b k = record b { head = (b.head + k) % b.capacity; tail = (b.tail + k) % b.capacity }

turned-IsValid {ℓ} : {T : Type ℓ} {b : CircularBuffer T} (k : ℕ) → IsValid b → IsValid (turned b k)
unfolding turned
turned-IsValid {b = b} k v = record {
  storage = v.storage;
  positive = v.positive;
  small = v.small;
  head_in = mod-lt (b.head + k) v.positive;
  count_in = v.count_in;
  tail_at =
      ap (λ n. (n + k) % b.capacity) v.tail_at
      ∙ mod_step (b.head + b.count) k b.capacity (b.head + b.count + k) refl
      ∙ sym (mod_step (b.head + k) b.count b.capacity (b.head + b.count + k) (omega arith));
}

-- The code's two formulas, without wrap.
on_lem : (c i n : ℕ) → c ≤ 2 ^ 63 → i < c → n < 2 ^ 63 → word (i + n) % c ≡ (i + n) % c
on_lem c i n h k l = ap (λ m. m % c) (omega arith)

back_lem :
    (c i n : ℕ)
    → c ≤ 2 ^ 63
    → i < c
    → word (word (i + c) + 2 ^ 64 - n % c) % c ≡ (i + (c - n % c)) % c
back_lem c i n h k = ap (λ m. m % c) (omega (arith, mod-lt n {m = c} (omega arith)))

-- The slot at distance `c` is the slot itself.
back_zero : (c i : ℕ) → c ≤ 2 ^ 63 → i < c → word (word (i + c) + 2 ^ 64 - 0 % c) % c ≡ (i + 0) % c
back_zero c i h k =
    ap (λ m. m % c)
      (omega (arith, mod-lt 0 {m = c} (omega arith), mod-eq_of_lt {n = 0} {m = c} (omega arith)))
    ∙ mod-add_self (i + 0) c

module _ {ℓ} {T : Type ℓ} (d : T) where
  rotate-turned :
      {b : CircularBuffer T} (n : ℤ)
      → IsValid b
      → 0 < b.count
      → shift b.capacity n < 2 ^ 63
      → rotate b n ≡ turned b (shift b.capacity n)
  unfolding rotate turned
  rotate-turned {b} (pos zero) v h m = rw (
    not_empty,
    back_zero b.capacity b.head v.small v.head_in,
    back_zero b.capacity b.tail v.small (tail_in d v),
  )
    where
      not_empty : empty b ≡ false
      not_empty = ground arith
  rotate-turned {b} (pos (suc n)) v h m = rw (
    not_empty,
    on_lem b.capacity b.head (suc n) v.small v.head_in m,
    on_lem b.capacity b.tail (suc n) v.small (tail_in d v) m,
  )
    where
      not_empty : empty b ≡ false
      not_empty = ground arith
  rotate-turned {b} (negsuc n) v h m = rw (
    not_empty,
    back_lem b.capacity b.head (suc n) v.small v.head_in,
    back_lem b.capacity b.tail (suc n) v.small (tail_in d v),
  )
    where
      not_empty : empty b ≡ false
      not_empty = ground arith

  contents-turned :
      (b : CircularBuffer T) (k : ℕ)
      → contents d (turned b k) ≡ tabulate b.count (λ i. get_or b.data_ (slot b (k + i)) d)
  unfolding turned
  contents-turned b k = tabulate_ext b.count _ _ λ i h.
      ap (λ m. get_or b.data_ m d)
        (mod_step (b.head + k) i b.capacity (b.head + (k + i)) (omega arith))

  -- `rotate(n)` on a full buffer keeps it valid and turns its list to the left by `n`: the element
  -- with index `i` is then the one that had index `i + n`, counted round the buffer, or `i - |n|`
  -- for a negative `n`. No step of the code wraps for an `n` of the range of `ptrdiff_t`.
  pub rotate_full :
      {b : CircularBuffer T} (n : ℤ) (i : ℕ)
      → IsValid b
      → b.count ≡ b.capacity
      → shift b.capacity n < 2 ^ 63
      → i < b.count
      → IsValid (rotate b n)
        × (get_elem? (contents d (rotate b n)) i
            ≡ get_elem? (contents d b) ((shift b.capacity n + i) % b.count))
  rotate_full {b} n i v e m h =
      rw (rotate-turned n v (omega (arith, v.positive)) m, contents-turned b (shift b.capacity n))
        (
          turned-IsValid (shift b.capacity n) v,
          tabulate_read b.count _ i h
              ∙ ap (λ k. some (get_or b.data_ k d)) same
              ∙ sym (
                  tabulate_read b.count _ _
                    (mod-lt (shift b.capacity n + i) {m = b.count} (omega (arith, v.positive)))),
        )
    where
      same : slot b (shift b.capacity n + i) ≡ slot b ((shift b.capacity n + i) % b.count)
      same = rw e (sym (add-mod-mod b.head (shift b.capacity n + i) b.capacity))

  -- With room in the buffer `rotate(1)` drops the oldest element and shows the slot behind the
  -- newest, whatever was left there, as the new last element.
  pub rotate_stale :
      {b : CircularBuffer T}
      → IsValid b
      → 0 < b.count
      → b.count < b.capacity
      → contents d (rotate b (pos 1)) ≡ drop 1 (contents d b) ++ get_or b.data_ b.tail d ∷ []
  rotate_stale {b} v h k =
      rw (rotate-turned (pos 1) v h (omega arith), contents-turned b 1, drop-tabulate)
        (tabulate_snoc b.count (b.count - 1) _ _ _ (omega arith)
          (λ i l. ap (λ m. get_or b.data_ (slot b m) d) (omega arith))
          (ap (λ m. get_or b.data_ m d)
            (ap (slot b) {x = 1 + (b.count - 1)} (omega arith) ∙ sym v.tail_at)))
