-- ===== src/SlotMap/Erase.antt =====
-- `erase` and `clear` of `SlotMapNew`: the keys that they make stale.
use native.Mathlib.Decide.{ℕ_discrete}
use av_utils.Base.{
  ap, arith, false, get_elem?, get_or, get_or-set_at, get_or-set_off, if◌then◌else◌, inl, inr,
  length, length-set, ltb, none, not, refl, set, true, ℕ, ◌&&◌, ◌+◌, ◌<◌, ◌==◌, ◌∙◌, ◌∷◌, ◌≡◌, ◌≢◌,
  ◌⊎◌,
}
use av_utils.SlotMap.{
  Key, SlotMap, contains, erase, get, increment_generation, invalid_index, is_valid_key, size,
}
use av_utils.SlotMap.Slots.{
  IsLive, IsValid, active_in_range, active_not_free, count-set, count_active,
}
use av_utils.SlotMap.Updates.{}

pub increment_generation-ne : (g : ℕ) → (increment_generation g == g) ≡ false
increment_generation-ne g = ground arith

module _ {ℓ} {T : Type ℓ} where
  -- The map after the slot of a valid key is put on the free list.
  abbrev release : SlotMap T → Key → SlotMap T
  release m key = record m {
    free_list = key.index ∷ m.free_list;
    generations =
        set m.generations key.index (increment_generation (get_or m.generations key.index 0));
    slot_active = set m.slot_active key.index false;
  }

  -- In a valid map `erase` of a live key succeeds. The map stays valid with one value less, the key is no longer
  -- valid and gives nothing, and any other key is of the same slot, or is as valid as it was and refers
  -- to the same value.
  pub erase_lem :
      (m : SlotMap T) (key other : Key)
      → IsValid m
      → IsLive m key
      → ((erase m key).1 ≡ true)
        × IsValid (erase m key).0
        × (contains (erase m key).0 key ≡ false)
        × (get (erase m key).0 key ≡ none)
        × (size (erase m key).0 + 1 ≡ size m)
        × ((key.index ≡ other.index)
            ⊎ ((contains (erase m key).0 other ≡ contains m other)
                × (get (erase m key).0 other ≡ get m other)))
  unfolding erase contains is_valid_key get size
  erase_lem m key other v (h, a) = rw h (
    refl,
    valid,
    stale,
    ap (λ b. if b then get_elem? m.data_slots key.index else none) stale,
    omega (arith, valid.counted, v.counted, smaller),
    elim (ℕ_discrete key.index other.index) [
      | yes q ↦ inl q
      | no q ↦
          inr (same q, ap (λ b. if b then get_elem? m.data_slots other.index else none) (same q))
    ],
  )
    where
      below : key.index < length m.data_slots
      below = omega (arith, active_in_range m.slot_active key.index a, v.active_length)

      valid : IsValid (release m key)
      valid = record {
        generations_length = length-set m.generations key.index _ ∙ v.generations_length;
        active_length = length-set m.slot_active key.index false ∙ v.active_length;
        room = v.room;
        free_inactive = λ i k. elim (ℕ_discrete key.index i) [
          | yes q ↦ (
            omega (arith, below, q),
            get_or-set_at m.slot_active key.index i false true
                (omega (arith, below, v.active_length)) q,
          )
          | no q ↦
              let (l, n) = v.free_inactive i (ground (arith, k, q)) in
              (
                l,
                get_or-set_off m.slot_active key.index i false true
                      (omega (arith, below, v.active_length)) q
                    ∙ n,
              )
        ];
        free_distinct = ground (arith, v.free_distinct, active_not_free key.index v a);
        counted = ground (
          arith,
          v.counted,
          a,
          count-set m.slot_active key.index false (omega (arith, below, v.active_length)),
        );
      }

      stale : is_valid_key (release m key) key ≡ false
      stale = ground (
        arith,
        h,
        increment_generation-ne (get_or m.generations key.index 0),
        get_or-set_at m.generations key.index key.index
            (increment_generation (get_or m.generations key.index 0)) 0
            (omega (arith, below, v.generations_length)) refl,
      )

      smaller : count_active (set m.slot_active key.index false) + 1 ≡ count_active m.slot_active
      smaller = ground (
        arith,
        a,
        count-set m.slot_active key.index false (omega (arith, below, v.active_length)),
      )

      same : key.index ≢ other.index → is_valid_key (release m key) other ≡ is_valid_key m other
      same q =
          ap
            (λ g.
              not (other.index == invalid_index)
              && ltb other.index (length m.data_slots)
              && (g == other.generation))
            (get_or-set_off m.generations key.index other.index
              (increment_generation (get_or m.generations key.index 0)) 0
              (omega (arith, below, v.generations_length)) q)
