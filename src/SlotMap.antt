-- ===== src/SlotMap.antt =====
-- include/slot_map_new.h: `SlotMapNew`, values in slots that keys with a generation refer to. The free
-- list is a list whose head is the vector's back. Erasing runs the destructor of a value and leaves its
-- slot in `data_`; the model leaves the value there.
pub mod Slots
pub mod Updates
pub mod Insert
pub mod Erase
pub mod Clear
pub mod Entries
mod Tests
use av_utils.Base.{
  Bool, List, Option, Outcome, [], false, get_elem?, get_or, if◌then◌else◌, leb, length, ltb, none,
  not, ok, or_throw, out_of_range, runtime_error, set, suc, throw, true, zero, ℕ, ◌&&◌, ◌++◌, ◌+◌,
  ◌-◌, ◌==◌, ◌^◌, ◌∷◌,
}

-- `INVALID_INDEX`, the highest value of 32 bits.
abbrev pub invalid_index : ℕ
invalid_index = 2 ^ 32 - 1

pub record Key : Type 0 where
  pub index : ℕ
  pub generation : ℕ

pub record SlotMap {ℓ} (T : Type ℓ) : Type ℓ where
  pub data_slots : List T
  pub generations : List ℕ
  pub free_list : List ℕ
  pub slot_active : List Bool

-- `increment_generation`, on the generation: 0 is left to new slots.
abbrev pub increment_generation : ℕ → ℕ
increment_generation generation = if generation == 2 ^ 32 - 1 then 1 else generation + 1

-- The slots of `clear`: those that are active become free, with a new generation.
pub retire : List ℕ → List Bool → List ℕ
retire [] active = []
retire (g ∷ gs) [] = g ∷ gs
retire (g ∷ gs) (active ∷ rest) = (if active then increment_generation g else g) ∷ retire gs rest

pub deactivate : List Bool → List Bool
deactivate [] = []
deactivate (active ∷ rest) = (if active then false else active) ∷ deactivate rest

-- The free list that `clear` rebuilds, from slot `i` on.
pub all_slots : ℕ → ℕ → List ℕ
all_slots i zero = []
all_slots i (suc n) = i ∷ all_slots (suc i) n

module _ {ℓ} {T : Type ℓ} where
  pub new : SlotMap T
  new = record { data_slots = []; generations = []; free_list = []; slot_active = [] }

  pub is_valid_key : SlotMap T → Key → Bool
  is_valid_key m key =
      not (key.index == invalid_index)
      && ltb key.index (length m.data_slots)
      && (get_or m.generations key.index 0 == key.generation)

  pub contains : SlotMap T → Key → Bool
  contains m key = is_valid_key m key

  -- The branches of `emplace`, by the free list.
  pub place : SlotMap T → T → List ℕ → Outcome (SlotMap T × Key)
  place m value (index ∷ rest) = ok (
    record m {
      data_slots = set m.data_slots index value;
      free_list = rest;
      slot_active = set m.slot_active index true;
    },
    record { index = index; generation = get_or m.generations index 0 },
  )
  place m value [] =
      if leb invalid_index (length m.data_slots)
      then throw runtime_error
      else ok (
        record m {
          data_slots = m.data_slots ++ value ∷ [];
          generations = m.generations ++ 0 ∷ [];
          slot_active = m.slot_active ++ true ∷ [];
        },
        record { index = length m.data_slots; generation = 0 },
      )

  -- `emplace`, and `insert`, which calls it.
  pub insert : SlotMap T → T → Outcome (SlotMap T × Key)
  insert m value = place m value m.free_list

  pub erase : SlotMap T → Key → SlotMap T × Bool
  erase m key = if not (is_valid_key m key) then (m, false) else (
    record m {
      free_list = key.index ∷ m.free_list;
      generations =
          set m.generations key.index (increment_generation (get_or m.generations key.index 0));
      slot_active = set m.slot_active key.index false;
    },
    true,
  )

  pub get : SlotMap T → Key → Option T
  get m key = if is_valid_key m key then get_elem? m.data_slots key.index else none

  -- A valid key is in range, so that the read in the second branch finds a value.
  pub at : SlotMap T → Key → Outcome T
  at m key =
      if not (is_valid_key m key)
      then throw out_of_range
      else or_throw out_of_range (get_elem? m.data_slots key.index)

  pub size : SlotMap T → ℕ
  size m = length m.data_slots - length m.free_list

  pub empty : SlotMap T → Bool
  empty m = size m == 0

  pub clear : SlotMap T → SlotMap T
  clear m = record m {
    generations = retire m.generations m.slot_active;
    slot_active = deactivate m.slot_active;
    free_list = all_slots 0 (length m.data_slots);
  }

  -- What an iterator visits from slot `i` on: `skip_invalid_slots` passes the slots that are not active.
  pub entries_from : ℕ → List T → List ℕ → List Bool → List (Key × T)
  entries_from i (value ∷ values) (generation ∷ generations) (active ∷ rest) =
      let others = entries_from (suc i) values generations rest in
      if active then (record { index = i; generation = generation }, value) ∷ others else others
  entries_from i values generations active = []

  pub entries : SlotMap T → List (Key × T)
  entries m = entries_from 0 m.data_slots m.generations m.slot_active
