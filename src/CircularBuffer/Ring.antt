-- ===== src/CircularBuffer/Ring.antt =====
-- The invariant of `CircularBuffer`, and the list that it stands for.
use native.Mathlib.Nat.{mod-lt}
use av_utils.Base.{List, ap, arith, get_or, length, ℕ, ◌%◌, ◌+◌, ◌-◌, ◌<◌, ◌^◌, ◌≡◌, ◌≢◌, ◌≤◌}
use av_utils.Base.Mod.{tabulate, wrap_once}
use av_utils.CircularBuffer.{CircularBuffer, back_one, forward, word}

-- `capacity_` is at most half of `size_t`, as a `std::vector` requires.
pub record IsValid {ℓ} {T : Type ℓ} (b : CircularBuffer T) : Type 0 where
  pub storage : length b.data_ ≡ b.capacity
  pub positive : 0 < b.capacity
  pub small : b.capacity ≤ 2 ^ 63
  pub head_in : b.head < b.capacity
  pub count_in : b.count ≤ b.capacity
  pub tail_at : b.tail ≡ (b.head + b.count) % b.capacity

-- No `size_t` operation wraps on an index of the buffer.
pub forward_lem : (c i : ℕ) → c ≤ 2 ^ 63 → i < c → forward c i ≡ (i + 1) % c
forward_lem c i h k = ap (λ n. n % c) (omega arith)

pub back_one_lem : (c i : ℕ) → c ≤ 2 ^ 63 → i < c → back_one c i ≡ (i + (c - 1)) % c
back_one_lem c i h k = ap (λ n. n % c) (omega arith)

-- The slot of the element with index `i`.
abbrev pub slot {ℓ} : {T : Type ℓ} → CircularBuffer T → ℕ → ℕ
slot b i = (b.head + i) % b.capacity

-- The elements, oldest first.
abbrev pub contents {ℓ} : {T : Type ℓ} → T → CircularBuffer T → List T
contents d b = tabulate b.count (λ i. get_or b.data_ (slot b i) d)

-- A slot lies in the storage, and the slots of different elements differ.
pub slot_in {ℓ} :
    {T : Type ℓ} {b : CircularBuffer T} (i : ℕ) → IsValid b → slot b i < length b.data_
slot_in {b = b} i v = omega (arith, v.storage, v.positive, mod-lt (b.head + i) v.positive)

pub slot_ne {ℓ} :
    {T : Type ℓ} {b : CircularBuffer T} (i j : ℕ)
    → IsValid b
    → i < j
    → j ≤ b.capacity
    → j < i + b.capacity
    → slot b i ≢ slot b j
slot_ne {b = b} i j v h k l =
    ground (arith, v.head_in, wrap_once b.capacity (b.head + i), wrap_once b.capacity (b.head + j))

pub count_up {ℓ} :
    {T : Type ℓ} {b : CircularBuffer T} → IsValid b → word (b.count + 1) ≡ b.count + 1
count_up v = omega (arith, v.count_in, v.small)
