-- ===== src/BitQueue/RoundTrip.antt =====
-- include/bit_queue.h: numbers written into the queue and read back.
use Prim.Native.Nat.{bit_or}
use av_utils.Base.{
  Bool, List, [], ap, append-nil, append_assoc, arith, drop, false, length, ltb, ok, refl, some,
  suc, sym, zero, ℕ, ◌%◌, ◌*◌, ◌++◌, ◌+◌, ◌/◌, ◌<◌, ◌==◌, ◌^◌, ◌∙◌, ◌∷◌, ◌≡◌, ◌≤◌,
}
use av_utils.Base.Mod.{length-tabulate, tabulate}
use av_utils.BitQueue.{
  BitQueue, bit_number, bit_of, pop_from, pop_value, push_from, push_value, shr,
}
use av_utils.BitQueue.Bits.{bit_or_even, shr-half, shr-le}
use av_utils.BitQueue.Contents.{IsAligned, bit_at, contents, push-contents}
use av_utils.BitQueue.Pops.{IsAligned-IsStored, IsStored, pop-contents, popped, popped_bit}

-- The lowest `count` bits of a number, the highest of them first.
abbrev pub bits_of : ℕ → ℕ → List Bool
bits_of zero value = []
bits_of (suc i) value = (bit_of value i == 1) ∷ bits_of i value

pushed_bits_of :
    (count value : ℕ) (q : BitQueue)
    → IsAligned q
    → (q' : BitQueue) × (push_from count value q ≡ some q')
      × IsAligned q'
      × (contents q' ≡ contents q ++ bits_of count value)
unfolding push_from
pushed_bits_of zero value q a = (q, refl, a, sym (append-nil (contents q)))
pushed_bits_of (suc i) value q a =
    let (q₁, done, a', one) = push-contents q (bit_of value i == 1) a in
    let (q₂, done', a'', all) = pushed_bits_of i value q₁ a' in
    (
      q₂,
      rw done done',
      a'',
      all
          ∙ ap (λ bits. bits ++ bits_of i value) one
          ∙ append_assoc (contents q) ((bit_of value i == 1) ∷ []) (bits_of i value),
    )

bit_value : (value i : ℕ) → bit_number (bit_of value i == 1) ≡ shr value i % 2
bit_value value i = ground arith

shr-lt : (n value : ℕ) → value < 2 ^ n → shr value n ≡ 0
shr-lt zero value h = omega arith
shr-lt (suc n) value h = shr-lt n (value / 2) (omega arith)

-- One round of the loop: the bit goes to the end of the number read so far.
read_bit :
    (value i : ℕ)
    → value < 2 ^ 64
    → bit_or (shr value (suc i) * 2 % 2 ^ 64) (bit_number (bit_of value i == 1)) ≡ shr value i
read_bit value i h =
    let small : shr value (suc i) * 2 % 2 ^ 64 ≡ shr value (suc i) * 2 =
      omega (arith, shr-half value i, shr-le value i) in
    rw (small, bit_value value i)
      (bit_or_even (shr value (suc i)) (shr value i % 2) (omega arith)
        ∙ omega (arith, shr-half value i))

popped_value :
    (count value : ℕ) (q : BitQueue) (rest : List Bool)
    → value < 2 ^ 64
    → IsStored q
    → contents q ≡ bits_of count value ++ rest
    → (q' : BitQueue) × (pop_from count (shr value count) q ≡ ok (some (q', value)))
      × (contents q' ≡ rest)
unfolding pop_from
popped_value zero value q rest h s c = (q, refl, c)
popped_value (suc i) value q rest h s c =
    let (first, taken, left, s') = pop-contents q s in
    let (q', read, rest') = popped_value i value (popped q) rest h s' (left ∙ ap (drop 1) c) in
    (q', rw (pop_from, taken, c, popped_bit, read_bit value i h) read, rest')

length-bits_of : (count value : ℕ) → length (bits_of count value) ≡ count
length-bits_of zero value = refl
length-bits_of (suc i) value = ap suc (length-bits_of i value)

held :
    (count : ℕ) (q : BitQueue) (value : ℕ)
    → contents q ≡ bits_of count value ++ []
    → q.num_bits ≡ count
held count q value h =
    sym (length-tabulate q.num_bits (λ i. bit_at q.buffer (q.write_pos % 8 + i) == 1))
    ∙ ap length (h ∙ append-nil (bits_of count value))
    ∙ length-bits_of count value

-- On an aligned queue, `push` of a number with a count of at most 64 bits succeeds and adds its
-- lowest bits behind the others, the highest of them first, and the queue stays aligned.
pub push_value-contents :
    (q : BitQueue) (value count : ℕ)
    → IsAligned q
    → count ≤ 64
    → (q' : BitQueue) × (push_value q value count ≡ ok (some q'))
      × IsAligned q'
      × (contents q' ≡ contents q ++ bits_of count value)
unfolding push_value
push_value-contents q value count a few =
    let allowed : ltb 64 count ≡ false = ground arith in
    let (q', done, a', all) = pushed_bits_of count value q a in
    (q', rw (push_value, allowed) (ap ok done), a', all)

-- A number of at most 64 bits that is pushed onto an empty aligned queue with a count it fits in
-- is the number that `pop` with that count gives, and the queue is empty again.
pub pop_value-push_value :
    (q : BitQueue) (value count : ℕ)
    → IsAligned q
    → q.num_bits ≡ 0
    → count ≤ 64
    → value < 2 ^ 64
    → value < 2 ^ count
    → (q₁ : BitQueue) × (q₂ : BitQueue) × (push_value q value count ≡ ok (some q₁))
      × (pop_value q₁ count ≡ ok (some (q₂, value)))
      × (contents q₂ ≡ [])
unfolding pop_value
pop_value-push_value q value count a nothing few word fits =
    let (q₁, pushed, a', all) = push_value-contents q value count a few in
    let alone : contents q₁ ≡ bits_of count value ++ [] =
      all
      ∙ ap
          (λ n. tabulate n (λ i. bit_at q.buffer (q.write_pos % 8 + i) == 1) ++ bits_of count value)
          nothing
      ∙ sym (append-nil (bits_of count value)) in
    let (q₂, read, rest) = popped_value count value q₁ [] word (IsAligned-IsStored q₁ a') alone in
    let start : 0 ≡ shr value count = sym (shr-lt count value fits) in
    let allowed : ltb 64 count ≡ false = ground arith in
    let enough : ltb q₁.num_bits count ≡ false = ground (arith, held count q₁ value alone) in
    (q₁, q₂, pushed, rw (pop_value, allowed, enough, start) read, rest)
