-- ===== src/BitQueue/Contents.antt =====
-- include/bit_queue.h: the bits in the queue, and what a push does to them.
use Prim.Native.Nat.{bit_or}
use native.Mathlib.Decide.{ℕ_discrete}
use av_utils.Base.{
  Bool, Bool-cases, List, [], ap, arith, eq→==, false, get_or, get_or-set, if◌then◌else◌, inl, inr,
  length, length-append, length-set, ne→==, refl, set, some, suc, sym, true, zero, ℕ, ◌%◌, ◌++◌,
  ◌+◌, ◌-◌, ◌/◌, ◌<◌, ◌==◌, ◌∙◌, ◌∷◌, ◌≡◌, ◌≤◌,
}
use av_utils.Base.Mod.{tabulate, tabulate_snoc}
use av_utils.BitQueue.{BitQueue, bit_number, bit_of, one_shl, push, set_bit}
use av_utils.BitQueue.Bits.{bit_of-bit_or}

-- Bit `i` of the buffer, from the highest bit of the first byte on.
abbrev pub bit_at : List ℕ → ℕ → ℕ
bit_at buffer i = bit_of (get_or buffer (i / 8) 0) (7 - i % 8)

-- The bits in the queue, the next one first.
abbrev pub contents : BitQueue → List Bool
contents q = tabulate q.num_bits (λ i. bit_at q.buffer (q.write_pos % 8 + i) == 1)

-- The reader stands at the start of a byte, and the bits behind the last one are 0.
pub record IsAligned (q : BitQueue) : Type 0 where
  pub start : q.write_pos % 8 ≡ 0
  pub room : length q.buffer ≡ (q.num_bits + 7) / 8
  pub zeros : (i : ℕ) → q.num_bits ≤ i → bit_at q.buffer i ≡ 0

bit_of-zero : (s : ℕ) → bit_of 0 s ≡ 0
bit_of-zero zero = refl
bit_of-zero (suc s) = bit_of-zero s

get_or-grown : (buffer : List ℕ) (j : ℕ) → get_or (buffer ++ 0 ∷ []) j 0 ≡ get_or buffer j 0
get_or-grown [] zero = refl
get_or-grown [] (suc j) = refl
get_or-grown (x ∷ buffer) zero = refl
get_or-grown (x ∷ buffer) (suc j) = get_or-grown buffer j

bit_at-grown : (buffer : List ℕ) (i : ℕ) → bit_at (buffer ++ 0 ∷ []) i ≡ bit_at buffer i
bit_at-grown buffer i = ap (λ b. bit_of b (7 - i % 8)) (get_or-grown buffer (i / 8))

-- Writing the bit behind the last one changes that bit alone.
bit_at-set_bit :
    (buffer : List ℕ) (n i : ℕ)
    → length buffer ≡ suc (n / 8)
    → bit_at (set_bit buffer (7 - n % 8)) i ≡ (if n == i then 1 else bit_at buffer i)
unfolding set_bit
bit_at-set_bit buffer n i h =
    let final : length buffer - 1 ≡ n / 8 = omega arith in
    let byte = bit_or (get_or buffer (n / 8) 0) (one_shl (7 - n % 8)) in
    let written = get_or-set buffer (n / 8) (i / 8) byte 0 (omega arith) in
    rw final (elim (ℕ_discrete (n / 8) (i / 8)) [
      | yes e ↦
          let here : get_or (set buffer (n / 8) byte) (i / 8) 0 ≡ byte = ground arith in
          let same : (7 - n % 8 == 7 - i % 8) ≡ (n == i) = ground arith in
          rw (here, bit_of-bit_or (get_or buffer (n / 8) 0) (7 - n % 8) (7 - i % 8), same)
            (ap (λ j. if n == i then 1 else bit_of (get_or buffer j 0) (7 - i % 8)) e)
      | no d ↦
          let there : get_or (set buffer (n / 8) byte) (i / 8) 0 ≡ get_or buffer (i / 8) 0 =
            ground arith in
          let other : (n == i) ≡ false = ground arith in rw (there, other) refl
    ])

written_bits :
    (buffer : List ℕ) (n : ℕ) (bit : Bool) (i : ℕ)
    → length buffer ≡ suc (n / 8)
    → bit_at buffer n ≡ 0
    → bit_at (if bit then set_bit buffer (7 - n % 8) else buffer) i
      ≡ (if n == i then bit_number bit else bit_at buffer i)
written_bits buffer n true i h z = bit_at-set_bit buffer n i h
written_bits buffer n false i h z = elim (ℕ_discrete n i) [
  | yes e ↦ rw (eq→== n i e) (sym (ap (bit_at buffer) e) ∙ z)
  | no d ↦ rw (ne→== n i d) refl
]

-- The queue that `push` leaves, where the buffer has a last byte.
unfoldable pushed : BitQueue → Bool → BitQueue
pushed q bit =
    let grown = if q.num_bits % 8 == 0 then q.buffer ++ 0 ∷ [] else q.buffer in
    record q {
      buffer = if bit then set_bit grown (7 - q.num_bits % 8) else grown;
      num_bits = q.num_bits + 1;
    }

push-pushed : (q : BitQueue) (bit : Bool) → IsAligned q → push q bit ≡ some (pushed q bit)
unfolding push pushed
push-pushed q bit a =
    let long : (length (if q.num_bits % 8 == 0 then q.buffer ++ 0 ∷ [] else q.buffer) == 0)
        ≡ false =
      ground (arith, a.room, length-append q.buffer (0 ∷ [])) in
    elim (Bool-cases bit) [ inl h ↦ rw (h, long) refl | inr h ↦ rw h refl ]

-- The bits of the buffer after a push onto an aligned queue.
pushed_bits :
    (q : BitQueue) (bit : Bool) (i : ℕ)
    → IsAligned q
    → bit_at (pushed q bit).buffer i
      ≡ (if q.num_bits == i then bit_number bit else bit_at q.buffer i)
unfolding pushed
pushed_bits q bit i a =
    let zero_there = a.zeros q.num_bits (omega arith) in
    elim (Bool-cases (q.num_bits % 8 == 0)) [
      | inl h ↦
          let room : length (q.buffer ++ 0 ∷ []) ≡ suc (q.num_bits / 8) =
            ground (arith, a.room, length-append q.buffer (0 ∷ [])) in
          rw (pushed, h)
            (written_bits (q.buffer ++ 0 ∷ []) q.num_bits bit i room
                (bit_at-grown q.buffer q.num_bits ∙ zero_there)
              ∙ ap (λ b. if q.num_bits == i then bit_number bit else b) (bit_at-grown q.buffer i))
      | inr h ↦
          let room : length q.buffer ≡ suc (q.num_bits / 8) = ground (arith, a.room) in
          rw (pushed, h) (written_bits q.buffer q.num_bits bit i room zero_there)
    ]

length-set_bit : (buffer : List ℕ) (s : ℕ) → length (set_bit buffer s) ≡ length buffer
unfolding set_bit
length-set_bit buffer s =
    length-set buffer (length buffer - 1) (bit_or (get_or buffer (length buffer - 1) 0) (one_shl s))

length-pushed :
    (q : BitQueue) (bit : Bool)
    → IsAligned q
    → length (pushed q bit).buffer ≡ (q.num_bits + 1 + 7) / 8
unfolding pushed
length-pushed q true a = ground (
  arith,
  a.room,
  length-append q.buffer (0 ∷ []),
  length-set_bit (q.buffer ++ 0 ∷ []) (7 - q.num_bits % 8),
  length-set_bit q.buffer (7 - q.num_bits % 8),
)
length-pushed q false a = ground (arith, a.room, length-append q.buffer (0 ∷ []))

bit_back : (bit : Bool) → (bit_number bit == 1) ≡ bit
bit_back true = refl
bit_back false = refl

pushed_old :
    (q : BitQueue) (bit : Bool) (i : ℕ)
    → IsAligned q
    → i < q.num_bits
    → bit_at (pushed q bit).buffer (q.write_pos % 8 + i) ≡ bit_at q.buffer (q.write_pos % 8 + i)
pushed_old q bit i a h =
    let from_start : q.write_pos % 8 + i ≡ i = omega (arith, a.start) in
    ap (bit_at (pushed q bit).buffer) from_start
    ∙ pushed_bits q bit i a
    ∙ ap (λ b. if b then bit_number bit else bit_at q.buffer i)
        (ne→== q.num_bits i λ e. absurd (omega arith))
    ∙ sym (ap (bit_at q.buffer) from_start)

pushed_new :
    (q : BitQueue) (bit : Bool)
    → IsAligned q
    → bit_at (pushed q bit).buffer (q.write_pos % 8 + q.num_bits) ≡ bit_number bit
pushed_new q bit a =
    let from_start : q.write_pos % 8 + q.num_bits ≡ q.num_bits = omega (arith, a.start) in
    ap (bit_at (pushed q bit).buffer) from_start
    ∙ pushed_bits q bit q.num_bits a
    ∙ ap (λ b. if b then bit_number bit else bit_at q.buffer q.num_bits)
        (eq→== q.num_bits q.num_bits refl)

-- On an aligned queue, `push` adds the bit behind the others, and the queue stays aligned.
pub push-contents :
    (q : BitQueue) (bit : Bool)
    → IsAligned q
    → (q' : BitQueue) × (push q bit ≡ some q')
      × IsAligned q'
      × (contents q' ≡ contents q ++ bit ∷ [])
unfolding pushed
push-contents q bit a = (
  pushed q bit,
  push-pushed q bit a,
  record {
    start = a.start;
    room = length-pushed q bit a;
    zeros = λ i h. ground (arith, pushed_bits q bit i a, a.zeros i (omega arith));
  },
  tabulate_snoc (q.num_bits + 1) q.num_bits
      (λ i. bit_at (pushed q bit).buffer (q.write_pos % 8 + i) == 1)
      (λ i. bit_at q.buffer (q.write_pos % 8 + i) == 1) bit (omega arith)
      (λ i h. ap (λ b. b == 1) (pushed_old q bit i a h))
      (ap (λ b. b == 1) (pushed_new q bit a) ∙ bit_back bit),
)
