-- ===== src/BitQueue/Tests.antt =====
-- include/bit_queue.h: the theorems at concrete queues, and runs of the members.
use av_utils.Base.{
  [], arith, false, inr, invalid_argument, logic_error, none, ok, out_of_range, refl, some, suc,
  throw, true, zero, ℕ, ◌%◌, ◌-◌, ◌∷◌, ◌≡◌,
}
use av_utils.BitQueue.{
  BitQueue, bit_of, front, new, pop, pop_from, pop_value, push, push_from, push_value, set_bit,
}
use av_utils.BitQueue.Contents.{IsAligned, contents, push-contents}
use av_utils.BitQueue.Pops.{IsStored, pop-contents, popped}
use av_utils.BitQueue.RoundTrip.{pop_value-push_value, push_value-contents}

new-IsAligned : IsAligned new
new-IsAligned = record { start = refl; room = refl; zeros = λ i h. zero_bits (7 - i % 8) }
  where
    zero_bits : (s : ℕ) → bit_of 0 s ≡ 0
    zero_bits zero = refl
    zero_bits (suc s) = zero_bits s

-- The bits 1 and 0 in a byte.
abbrev two : BitQueue
two = record { buffer = 128 ∷ []; num_bits = 2; write_pos = 0 }

two_pushed : push_from 2 2 new ≡ some two
unfolding push_from push set_bit
two_pushed = refl

too_many : (push_value new 0 65 ≡ throw invalid_argument) × (pop_value two 3 ≡ throw out_of_range)
unfolding push_value pop_value
too_many = (refl, refl)

-- After a pop the reader is inside a byte, and a bit that is pushed then is written to the place
-- of an older one: with 0 in the queue and 1 pushed behind it, the queue holds 1 and 0.
abbrev one_then_zero : BitQueue
one_then_zero = record { buffer = 192 ∷ []; num_bits = 2; write_pos = 1 }

misplaced :
    (contents (popped two) ≡ false ∷ [])
    × (push (popped two) true ≡ some one_then_zero)
    × (contents one_then_zero ≡ true ∷ false ∷ [])
unfolding push set_bit
misplaced = (refl, refl, refl)

-- From there the buffer can be empty while the queue counts a bit: the next read or write of it is
-- undefined.
abbrev ran_out : BitQueue
ran_out = record { buffer = []; num_bits = 1; write_pos = 8 }

undefined_reads :
    (elim (push_from 7 0 (popped two)) [ none ↦ throw logic_error | some q ↦ pop_value q 7 ]
      ≡ ok (some (ran_out, 0)))
    × (front ran_out ≡ ok none)
    × (pop ran_out ≡ ok none)
    × (push ran_out true ≡ none)
unfolding push push_from set_bit front pop pop_value pop_from
undefined_reads = (refl, refl, refl, refl)

push-contents_example :
    (q' : BitQueue) × (push new true ≡ some q') × IsAligned q' × (contents q' ≡ true ∷ [])
push-contents_example = push-contents new true new-IsAligned

pop-contents_example :
    (front two ≡ ok (some true))
    × (pop two ≡ ok (some (popped two, true)))
    × (contents (popped two) ≡ false ∷ [])
    × IsStored (popped two)
pop-contents_example = pop-contents two (inr (omega arith))

push_value-contents_example :
    (q' : BitQueue) × (push_value new 5 3 ≡ ok (some q'))
    × IsAligned q'
    × (contents q' ≡ true ∷ false ∷ true ∷ [])
push_value-contents_example = push_value-contents new 5 3 new-IsAligned (omega arith)

pop_value-push_value_example :
    (q₁ : BitQueue) × (q₂ : BitQueue) × (push_value new 5 3 ≡ ok (some q₁))
    × (pop_value q₁ 3 ≡ ok (some (q₂, 5)))
    × (contents q₂ ≡ [])
pop_value-push_value_example =
    pop_value-push_value new 5 3 new-IsAligned refl (omega arith) (omega arith) (omega arith)
