-- ===== src/BitQueue.antt =====
-- include/bit_queue.h: `BitQueue`, bits packed into bytes from the highest on.
pub mod Bits
pub mod Contents
pub mod Pops
pub mod RoundTrip
mod Tests
use Prim.Native.Nat.{bit_or}
use av_utils.Base.{
  Bool, List, Option, Outcome, [], drop, false, get_elem?, get_or, if◌then◌else◌, invalid_argument,
  length, ltb, none, ok, out_of_range, set, some, suc, throw, true, zero, ℕ, ◌%◌, ◌&&◌, ◌*◌, ◌++◌,
  ◌+◌, ◌-◌, ◌/◌, ◌==◌, ◌>>=◌, ◌^◌, ◌∷◌,
}

pub record BitQueue : Type 0 where
  pub buffer : List ℕ
  pub num_bits : ℕ
  pub write_pos : ℕ

abbrev pub new : BitQueue
new = record { buffer = []; num_bits = 0; write_pos = 0 }

-- `x >> s`
abbrev pub shr : ℕ → ℕ → ℕ
shr x zero = x
shr x (suc s) = shr (x / 2) s

-- `1 << s`
abbrev pub one_shl : ℕ → ℕ
one_shl zero = 1
one_shl (suc s) = 2 * one_shl s

-- `(byte >> s) & 1`
abbrev pub bit_of : ℕ → ℕ → ℕ
bit_of byte s = shr byte s % 2

-- `buffer_.back() |= 1 << s`
unfoldable pub set_bit : List ℕ → ℕ → List ℕ
set_bit buffer s =
    set buffer (length buffer - 1) (bit_or (get_or buffer (length buffer - 1) 0) (one_shl s))

-- `buffer_.back()` of an empty deque is undefined: `none`, here and below.
unfoldable pub push : BitQueue → Bool → Option BitQueue
push q bit =
    let grown = if q.num_bits % 8 == 0 then q.buffer ++ 0 ∷ [] else q.buffer in
    if bit && (length grown == 0)
    then none
    else some (record q {
      buffer = if bit then set_bit grown (7 - q.num_bits % 8) else grown;
      num_bits = q.num_bits + 1;
    })

-- The loop of `push(value, count)` from bit `i - 1` down.
unfoldable pub push_from : ℕ → ℕ → BitQueue → Option BitQueue
push_from zero value q = some q
push_from (suc i) value q = do q' ← push q (bit_of value i == 1); push_from i value q'

unfoldable pub push_value : BitQueue → ℕ → ℕ → Outcome (Option BitQueue)
push_value q value count =
    if ltb 64 count then throw invalid_argument else ok (push_from count value q)

-- The bit at the reader in the first byte, `buffer_.front()`.
abbrev pub next_bit : BitQueue → Option Bool
next_bit q = elim (get_elem? q.buffer 0) [
  | none ↦ none
  | some byte ↦ some (bit_of byte (7 - q.write_pos % 8) == 1)
]

unfoldable pub front : BitQueue → Outcome (Option Bool)
front q = if q.num_bits == 0 then throw out_of_range else ok (next_bit q)

unfoldable pub pop : BitQueue → Outcome (Option (BitQueue × Bool))
pop q =
    if q.num_bits == 0
    then throw out_of_range
    else ok (do
      bit ← next_bit q
      some (
        record {
          buffer = if (q.write_pos + 1) % 8 == 0 then drop 1 q.buffer else q.buffer;
          num_bits = q.num_bits - 1;
          write_pos = q.write_pos + 1;
        },
        bit,
      ))

abbrev pub bit_number : Bool → ℕ
bit_number true = 1
bit_number false = 0

-- The loop of `pop(count)`: `value = (value << 1) | pop()`.
unfoldable pub pop_from : ℕ → ℕ → BitQueue → Outcome (Option (BitQueue × ℕ))
pop_from zero value q = ok (some (q, value))
pop_from (suc i) value q = elim (pop q) [
  | throw e ↦ throw e
  | ok r ↦ elim r [
    | none ↦ ok none
    | some r ↦ pop_from i (bit_or (value * 2 % 2 ^ 64) (bit_number r.1)) r.0
  ]
]

unfoldable pub pop_value : BitQueue → ℕ → Outcome (Option (BitQueue × ℕ))
pop_value q count =
    if ltb 64 count
    then throw invalid_argument
    else (if ltb q.num_bits count then throw out_of_range else pop_from count 0 q)

abbrev pub clear : BitQueue → BitQueue
clear q = new
