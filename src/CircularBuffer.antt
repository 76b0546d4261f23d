-- ===== src/CircularBuffer.antt =====
-- include/circular_buffer.h: `CircularBuffer<T>`, a vector used as a ring that overwrites its oldest
-- element when it is full. Its iterators are in the child `Iterator`.
mod Tests
pub mod Ring
pub mod Rotate
pub mod Steps
pub mod Contents
pub mod Iterator
use av_utils.Base.{
  Bool, List, Outcome, get_or, if◌then◌else◌, invalid_argument, leb, negsuc, ok, out_of_range, pos,
  replicate, runtime_error, set, suc, throw, zero, ℕ, ℤ, ◌%◌, ◌+◌, ◌-◌, ◌==◌, ◌^◌,
}

pub record CircularBuffer {ℓ} (T : Type ℓ) : Type ℓ where
  pub data_ : List T
  pub head : ℕ
  pub tail : ℕ
  pub count : ℕ
  pub capacity : ℕ

-- `size_t` arithmetic.
abbrev pub word : ℕ → ℕ
word n = n % 2 ^ 64

-- `(i + 1) % capacity_` and `(i + capacity_ - 1) % capacity_`.
abbrev pub forward : ℕ → ℕ → ℕ
forward capacity i = word (i + 1) % capacity

abbrev pub back_one : ℕ → ℕ → ℕ
back_one capacity i = word (word (i + capacity) + (2 ^ 64 - 1)) % capacity

-- `d` is `T{}`, which `resize` fills the storage with.
module _ {ℓ} {T : Type ℓ} (d : T) where
  pub new : ℕ → Outcome (CircularBuffer T)
  new capacity =
      if capacity == 0
      then throw invalid_argument
      else ok (record {
        data_ = replicate capacity d;
        head = 0;
        tail = 0;
        count = 0;
        capacity = capacity;
      })

module _ {ℓ} {T : Type ℓ} where
  pub size : CircularBuffer T → ℕ
  size b = b.count

  abbrev pub empty : CircularBuffer T → Bool
  empty b = b.count == 0

  abbrev pub full : CircularBuffer T → Bool
  full b = b.count == b.capacity

  pub push_back : CircularBuffer T → T → CircularBuffer T
  push_back b item = record b {
    data_ = set b.data_ b.tail item;
    head = if full b then forward b.capacity b.head else b.head;
    tail = forward b.capacity b.tail;
    count = if full b then b.count else word (b.count + 1);
  }

  pub push_front : CircularBuffer T → T → CircularBuffer T
  push_front b item = record b {
    data_ = set b.data_ (back_one b.capacity b.head) item;
    head = back_one b.capacity b.head;
    tail = if full b then back_one b.capacity b.tail else b.tail;
    count = if full b then b.count else word (b.count + 1);
  }

  -- `count_--` runs only at a positive count.
  pub pop_front : CircularBuffer T → Outcome (CircularBuffer T)
  pop_front b =
      if empty b
      then throw runtime_error
      else ok (record b { head = forward b.capacity b.head; count = b.count - 1 })

  pub pop_back : CircularBuffer T → Outcome (CircularBuffer T)
  pop_back b =
      if empty b
      then throw runtime_error
      else ok (record b { tail = back_one b.capacity b.tail; count = b.count - 1 })

  -- `rotate(n)` for a positive and for another `n`; `-n` is converted to `size_t`.
  rotate_by : CircularBuffer T → ℕ → CircularBuffer T
  rotate_by b n = record b {
    head = word (b.head + n) % b.capacity;
    tail = word (b.tail + n) % b.capacity;
  }

  rotate_back : CircularBuffer T → ℕ → CircularBuffer T
  rotate_back b n = record b {
    head = word (word (b.head + b.capacity) + 2 ^ 64 - n % b.capacity) % b.capacity;
    tail = word (word (b.tail + b.capacity) + 2 ^ 64 - n % b.capacity) % b.capacity;
  }

  rotate_some : CircularBuffer T → ℤ → CircularBuffer T
  rotate_some b (pos zero) = rotate_back b 0
  rotate_some b (pos (suc n)) = rotate_by b (suc n)
  rotate_some b (negsuc n) = rotate_back b (suc n)

  pub rotate : CircularBuffer T → ℤ → CircularBuffer T
  unfolding rotate_by rotate_back rotate_some
  rotate b n = if empty b then b else rotate_some b n

  pub clear : CircularBuffer T → CircularBuffer T
  clear b = record b { head = 0; tail = 0; count = 0 }

-- A read outside the storage is undefined in the source; it gives `d` here, and the invariant rules
-- it out.
module _ {ℓ} {T : Type ℓ} (d : T) where
  pub front : CircularBuffer T → Outcome T
  front b = if empty b then throw runtime_error else ok (get_or b.data_ b.head d)

  pub back : CircularBuffer T → Outcome T
  back b =
      if empty b then throw runtime_error else ok (get_or b.data_ (back_one b.capacity b.tail) d)

  -- `operator[]`.
  pub at : CircularBuffer T → ℕ → Outcome T
  at b index =
      if leb b.count index
      then throw out_of_range
      else ok (get_or b.data_ (word (b.head + index) % b.capacity) d)
