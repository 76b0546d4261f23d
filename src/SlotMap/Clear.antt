-- ===== src/SlotMap/Clear.antt =====
-- `clear` of `SlotMapNew`.
use av_utils.Base.{
  Bool, List, [], ap, arith, false, get_or, if◌then◌else◌, leb, length, ltb, mem, refl, suc, true,
  zero, ℕ, ◌&&◌, ◌+◌, ◌<◌, ◌∙◌, ◌∷◌, ◌≡◌,
}
use av_utils.SlotMap.{
  Key, SlotMap, all_slots, clear, contains, deactivate, increment_generation, is_valid_key, retire,
  size,
}
use av_utils.SlotMap.Slots.{IsLive, IsValid, active_in_range, count_active, distinct}
use av_utils.SlotMap.Erase.{increment_generation-ne}

length-retire : (gs : List ℕ) (acts : List Bool) → length (retire gs acts) ≡ length gs
unfolding retire
length-retire [] acts = refl
length-retire (g ∷ gs) [] = refl
length-retire (g ∷ gs) (a ∷ acts) = ap suc (length-retire gs acts)

get_or-retire :
    (gs : List ℕ) (acts : List Bool) (i : ℕ)
    → i < length gs
    → get_or acts i false ≡ true
    → get_or (retire gs acts) i 0 ≡ increment_generation (get_or gs i 0)
unfolding retire
get_or-retire [] acts i h a = absurd (omega arith)
get_or-retire (g ∷ gs) [] i h a = absurd cc
get_or-retire (g ∷ gs) (b ∷ acts) zero h a = ap (λ c. if c then increment_generation g else g) a
get_or-retire (g ∷ gs) (b ∷ acts) (suc i) h a = get_or-retire gs acts i (omega arith) a

length-deactivate : (acts : List Bool) → length (deactivate acts) ≡ length acts
unfolding deactivate
length-deactivate [] = refl
length-deactivate (a ∷ acts) = ap suc (length-deactivate acts)

get_or-deactivate :
    (acts : List Bool) (i : ℕ) → i < length acts → get_or (deactivate acts) i true ≡ false
unfolding deactivate
get_or-deactivate [] i h = absurd (omega arith)
get_or-deactivate (true ∷ acts) zero h = refl
get_or-deactivate (false ∷ acts) zero h = refl
get_or-deactivate (a ∷ acts) (suc i) h = get_or-deactivate acts i (omega arith)

count-deactivate : (acts : List Bool) → count_active (deactivate acts) ≡ 0
unfolding deactivate
count-deactivate [] = refl
count-deactivate (true ∷ acts) = omega (arith, count-deactivate acts)
count-deactivate (false ∷ acts) = omega (arith, count-deactivate acts)

length-all_slots : (i n : ℕ) → length (all_slots i n) ≡ n
unfolding all_slots
length-all_slots i zero = refl
length-all_slots i (suc n) = ap suc (length-all_slots (suc i) n)

mem-all_slots : (i n j : ℕ) → mem (all_slots i n) j ≡ (leb i j && ltb j (i + n))
unfolding all_slots
mem-all_slots i zero j = ground arith
mem-all_slots i (suc n) j = ground (arith, mem-all_slots (suc i) n j)

distinct-all_slots : (i n : ℕ) → distinct (all_slots i n) ≡ true
unfolding all_slots
distinct-all_slots i zero = refl
distinct-all_slots i (suc n) =
    ground (arith, mem-all_slots (suc i) n i, distinct-all_slots (suc i) n)

module _ {ℓ} {T : Type ℓ} where
  -- `clear` leaves a valid map without values, in which no key that was live is valid.
  pub clear_lem :
      (m : SlotMap T) (key : Key)
      → IsValid m
      → IsLive m key
      → IsValid (clear m) × (size (clear m) ≡ 0) × (contains (clear m) key ≡ false)
  unfolding clear contains is_valid_key size
  clear_lem m key v (h, a) = (
    record {
      generations_length = length-retire m.generations m.slot_active ∙ v.generations_length;
      active_length = length-deactivate m.slot_active ∙ v.active_length;
      room = v.room;
      free_inactive = λ i k. (
        inside i k,
        get_or-deactivate m.slot_active i (omega (arith, inside i k, v.active_length)),
      );
      free_distinct = distinct-all_slots 0 (length m.data_slots);
      counted =
          omega (arith, count-deactivate m.slot_active, length-all_slots 0 (length m.data_slots));
    },
    omega (arith, length-all_slots 0 (length m.data_slots)),
    ground (
      arith,
      h,
      increment_generation-ne (get_or m.generations key.index 0),
      get_or-retire m.generations m.slot_active key.index
          (omega (
            arith,
            active_in_range m.slot_active key.index a,
            v.active_length,
            v.generations_length,
          ))
          a,
    ),
  )
    where
      inside : (i : ℕ) → mem (all_slots 0 (length m.data_slots)) i ≡ true → i < length m.data_slots
      inside i k = ground (arith, k, mem-all_slots 0 (length m.data_slots) i)
