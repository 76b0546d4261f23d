-- ===== src/SlotMap/Tests.antt =====
-- Runs of `SlotMapNew`, and its theorems at a map of two slots, of which one is free.
use av_utils.Base.{
  [], ap, arith, false, get_or, length, mem, none, ok, refl, runtime_error, some, sym, throw, true,
  ℕ, ◌+◌, ◌<◌, ◌∷◌, ◌≡◌, ◌≤◌, ◌⊎◌,
}
use av_utils.SlotMap.{
  Key, SlotMap, clear, contains, entries, entries_from, erase, get, insert, invalid_index,
  is_valid_key, place, size,
}
use av_utils.SlotMap.Slots.{IsLive, IsValid}
use av_utils.SlotMap.Insert.{Inserted, insert_lem}
use av_utils.SlotMap.Erase.{erase_lem}
use av_utils.SlotMap.Clear.{clear_lem}
use av_utils.SlotMap.Entries.{entries_lem}

abbrev two_slots : SlotMap ℕ
two_slots = record {
  data_slots = 10 ∷ 20 ∷ [];
  generations = 0 ∷ 3 ∷ [];
  free_list = 1 ∷ [];
  slot_active = true ∷ false ∷ [];
}

abbrev first_key : Key
first_key = record { index = 0; generation = 0 }

two_slots-IsValid : IsValid two_slots
two_slots-IsValid = record {
  generations_length = refl;
  active_length = refl;
  room = omega arith;
  free_inactive = free_inactive;
  free_distinct = refl;
  counted = omega arith;
}
  where
    one : (i : ℕ) → mem (1 ∷ []) i ≡ true → 1 ≡ i
    one i h = ground (arith, h)

    free_inactive :
        (i : ℕ) → mem (1 ∷ []) i ≡ true → (i < 2) × (get_or (true ∷ false ∷ []) i true ≡ false)
    free_inactive i h =
        (omega (arith, one i h), ap (λ j. get_or (true ∷ false ∷ []) j true) (sym (one i h)))

first_key-IsLive : IsLive two_slots first_key
unfolding is_valid_key
first_key-IsLive = (refl, refl)

-- The free slot is used again, under its generation.
insert_again :
    insert two_slots 30
    ≡ ok (
      record {
        data_slots = 10 ∷ 30 ∷ [];
        generations = 0 ∷ 3 ∷ [];
        free_list = [];
        slot_active = true ∷ true ∷ [];
      },
      record { index = 1; generation = 3 },
    )
unfolding insert place
insert_again = refl

insert_lem_example :
    ((two_slots.free_list ≡ [])
      × (invalid_index ≤ length two_slots.data_slots)
      × (insert two_slots 30 ≡ throw runtime_error))
    ⊎ ((m' : SlotMap ℕ) × (key : Key) × (insert two_slots 30 ≡ ok (m', key))
        × Inserted two_slots 30 first_key m' key)
insert_lem_example = insert_lem two_slots 30 first_key two_slots-IsValid

erase_lem_example :
    ((erase two_slots first_key).1 ≡ true)
    × IsValid (erase two_slots first_key).0
    × (contains (erase two_slots first_key).0 first_key ≡ false)
    × (get (erase two_slots first_key).0 first_key ≡ none)
    × (size (erase two_slots first_key).0 + 1 ≡ size two_slots)
    × ((first_key.index ≡ first_key.index)
        ⊎ ((contains (erase two_slots first_key).0 first_key ≡ contains two_slots first_key)
            × (get (erase two_slots first_key).0 first_key ≡ get two_slots first_key)))
erase_lem_example = erase_lem two_slots first_key first_key two_slots-IsValid first_key-IsLive

clear_lem_example :
    IsValid (clear two_slots)
    × (size (clear two_slots) ≡ 0)
    × (contains (clear two_slots) first_key ≡ false)
clear_lem_example = clear_lem two_slots first_key two_slots-IsValid first_key-IsLive

entries_lem_example :
    (length (entries two_slots) ≡ size two_slots)
    × IsLive two_slots first_key
    × (get two_slots first_key ≡ some 10)
unfolding entries entries_from
entries_lem_example = entries_lem two_slots 0 first_key 10 two_slots-IsValid refl
