-- ===== src/BitQueue/Pops.antt =====
-- include/bit_queue.h: what `front` and `pop` do to the bits in the queue.
use native.Mathlib.Decide.{ℕ_discrete}
use av_utils.Base.{
  Bool, Bool-cases, List, Option, Outcome, [], ap, ap₂, arith, drop, false, get_elem?-eq-get_or,
  get_or, if◌then◌else◌, inl, inr, length, length-drop, ne→==, ok, out_of_range, refl, some, suc,
  sym, throw, zero, ℕ, ◌%◌, ◌*◌, ◌+◌, ◌-◌, ◌/◌, ◌<◌, ◌==◌, ◌∙◌, ◌∷◌, ◌≡◌, ◌≤◌, ◌⊎◌,
}
use av_utils.Base.Mod.{drop-tabulate, tabulate_ext}
use av_utils.BitQueue.{BitQueue, bit_of, front, next_bit, pop}
use av_utils.BitQueue.Contents.{IsAligned, bit_at, contents}

-- The queue that `pop` leaves, where it does not raise.
abbrev pub popped : BitQueue → BitQueue
popped q = record {
  buffer = if (q.write_pos + 1) % 8 == 0 then drop 1 q.buffer else q.buffer;
  num_bits = q.num_bits - 1;
  write_pos = q.write_pos + 1;
}

get_or-drop : (buffer : List ℕ) (j : ℕ) → get_or (drop 1 buffer) j 0 ≡ get_or buffer (suc j) 0
get_or-drop [] j = refl
get_or-drop (x ∷ buffer) j = refl

bit_at-popped :
    (q : BitQueue) (i : ℕ)
    → bit_at (popped q).buffer ((q.write_pos + 1) % 8 + i)
      ≡ bit_at q.buffer (q.write_pos % 8 + suc i)
bit_at-popped q i = elim (Bool-cases ((q.write_pos + 1) % 8 == 0)) [
  | inl h ↦
      let byte : suc (((q.write_pos + 1) % 8 + i) / 8) ≡ (q.write_pos % 8 + suc i) / 8 =
        ground arith in
      let place : ((q.write_pos + 1) % 8 + i) % 8 ≡ (q.write_pos % 8 + suc i) % 8 = ground arith in
      rw (popped, h)
        (ap₂ (λ b s. bit_of b (7 - s))
          (get_or-drop q.buffer (((q.write_pos + 1) % 8 + i) / 8)
            ∙ ap (λ j. get_or q.buffer j 0) byte)
          place)
  | inr h ↦
      let next : (q.write_pos + 1) % 8 + i ≡ q.write_pos % 8 + suc i = ground arith in
      rw (popped, h) (ap (bit_at q.buffer) next)
]

front_bit :
    (q : BitQueue)
    → bit_of (get_or q.buffer 0 0) (7 - q.write_pos % 8) ≡ bit_at q.buffer (q.write_pos % 8 + 0)
front_bit q =
    let byte : 0 ≡ (q.write_pos % 8 + 0) / 8 = omega arith in
    let place : q.write_pos % 8 ≡ (q.write_pos % 8 + 0) % 8 = omega arith in
    ap₂ (λ j s. bit_of (get_or q.buffer j 0) (7 - s)) byte place

rest_contents : (q : BitQueue) → contents (popped q) ≡ drop 1 (contents q)
rest_contents q =
    tabulate_ext (q.num_bits - 1) (λ i. bit_at (popped q).buffer ((q.write_pos + 1) % 8 + i) == 1)
      (λ i. bit_at q.buffer (q.write_pos % 8 + suc i) == 1)
      (λ i h. ap (λ b. b == 1) (bit_at-popped q i))
    ∙ sym (drop-tabulate q.num_bits (λ i. bit_at q.buffer (q.write_pos % 8 + i) == 1))

-- The results of `front` and `pop`, by the bits in the queue.
abbrev pub first_bit : List Bool → Outcome (Option Bool)
first_bit [] = throw out_of_range
first_bit (bit ∷ bits) = ok (some bit)

abbrev pub popped_bit : BitQueue → List Bool → Outcome (Option (BitQueue × Bool))
popped_bit q [] = throw out_of_range
popped_bit q (bit ∷ bits) = ok (some (popped q, bit))

-- The buffer has a byte for each bit the queue counts.
abbrev pub IsStored : BitQueue → Type 0
IsStored q = (q.num_bits ≡ 0) ⊎ (q.write_pos % 8 + q.num_bits ≤ 8 * length q.buffer)

pub IsAligned-IsStored : (q : BitQueue) → IsAligned q → IsStored q
IsAligned-IsStored q a = inr (omega (arith, a.start, a.room))

popped-IsStored : (q : BitQueue) → IsStored q → IsStored (popped q)
popped-IsStored q (inl h) = inl (omega arith)
popped-IsStored q (inr h) = elim (ℕ_discrete q.num_bits 0) [
  | yes none_left ↦ inl (omega arith)
  | no some_left ↦ inr (elim (Bool-cases ((q.write_pos + 1) % 8 == 0)) [
    | inl wraps ↦ rw wraps (ground (arith, length-drop 1 q.buffer))
    | inr inside ↦ rw inside (ground arith)
  ])
]

next_bit_lem :
    (q : BitQueue)
    → 0 < length q.buffer
    → next_bit q ≡ some (bit_at q.buffer (q.write_pos % 8 + 0) == 1)
next_bit_lem q h =
    rw (next_bit, get_elem?-eq-get_or q.buffer 0 0 h) (ap (λ b. some (b == 1)) (front_bit q))

pop_cases :
    (buffer : List ℕ) (n write_pos : ℕ)
    → let q : BitQueue = record { buffer = buffer; num_bits = n; write_pos = write_pos } in
      IsStored q → (front q ≡ first_bit (contents q)) × (pop q ≡ popped_bit q (contents q))
unfolding front pop
pop_cases buffer zero write_pos s = (refl, refl)
pop_cases buffer (suc n) write_pos s =
    let q : BitQueue = record { buffer = buffer; num_bits = suc n; write_pos = write_pos } in
    let some_left : (suc n == 0) ≡ false = ne→== (suc n) 0 (omega arith) in
    let bit = next_bit_lem q (ground arith) in
    (rw (front, some_left, bit) refl, rw (pop, some_left, bit) refl)

-- On a queue with a byte for each bit it counts, `front` gives the next bit and `pop` takes it away
-- and leaves the others, with a byte for each; both raise exactly when there are no bits.
pub pop-contents :
    (q : BitQueue)
    → IsStored q
    → (front q ≡ first_bit (contents q))
      × (pop q ≡ popped_bit q (contents q))
      × (contents (popped q) ≡ drop 1 (contents q))
      × IsStored (popped q)
pop-contents q s =
    let (first, taken) = pop_cases q.buffer q.num_bits q.write_pos s in
    (first, taken, rest_contents q, popped-IsStored q s)
