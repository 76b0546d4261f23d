-- ===== src/SlotMap/Slots.antt =====
-- The invariant of `SlotMapNew`: the free list names inactive slots, each once, and all others count.
use av_utils.Base.{
  Bool, Bool-cases, List, [], arith, false, get_or, if◌then◌else◌, inl, inr, length, mem, not, refl,
  set, suc, sym, true, zero, ℕ, ◌&&◌, ◌++◌, ◌+◌, ◌<◌, ◌∙◌, ◌∷◌, ◌≡◌, ◌≤◌,
}
use av_utils.SlotMap.{Key, SlotMap, invalid_index, is_valid_key}

abbrev pub distinct : List ℕ → Bool
distinct [] = true
distinct (x ∷ xs) = not (mem xs x) && distinct xs

abbrev pub count_active : List Bool → ℕ
count_active [] = 0
count_active (active ∷ rest) = (if active then 1 else 0) + count_active rest

pub record IsValid {ℓ} {T : Type ℓ} (m : SlotMap T) : Type ℓ where
  pub generations_length : length m.generations ≡ length m.data_slots
  pub active_length : length m.slot_active ≡ length m.data_slots
  pub room : length m.data_slots ≤ invalid_index
  pub free_inactive :
      (i : ℕ)
      → mem m.free_list i ≡ true
      → (i < length m.data_slots) × (get_or m.slot_active i true ≡ false)
  pub free_distinct : distinct m.free_list ≡ true
  pub counted : count_active m.slot_active + length m.free_list ≡ length m.data_slots

-- A key that was handed out and not erased: valid, and of an active slot.
abbrev pub IsLive {ℓ} : {T : Type ℓ} → SlotMap T → Key → Type 0
IsLive m key = (is_valid_key m key ≡ true) × (get_or m.slot_active key.index false ≡ true)

pub count-set :
    (xs : List Bool) (i : ℕ) (v : Bool)
    → i < length xs
    → count_active (set xs i v) + (if get_or xs i false then 1 else 0)
      ≡ count_active xs + (if v then 1 else 0)
count-set [] i v h = absurd (omega arith)
count-set (x ∷ xs) zero v h = omega arith
count-set (x ∷ xs) (suc i) v h = omega (arith, count-set xs i v (omega arith))

pub count-push : (xs : List Bool) → count_active (xs ++ true ∷ []) ≡ count_active xs + 1
count-push [] = omega arith
count-push (x ∷ xs) = omega (arith, count-push xs)

pub get_or_default :
    (xs : List Bool) (i : ℕ) (d e : Bool) → i < length xs → get_or xs i d ≡ get_or xs i e
get_or_default [] i d e h = absurd (omega arith)
get_or_default (x ∷ xs) zero d e h = refl
get_or_default (x ∷ xs) (suc i) d e h = get_or_default xs i d e (omega arith)

-- An active slot is not in the free list, and is below the number of slots.
pub active_not_free {ℓ} :
    {T : Type ℓ} {m : SlotMap T} (i : ℕ)
    → IsValid m
    → get_or m.slot_active i false ≡ true
    → mem m.free_list i ≡ false
active_not_free {m = m} i v a = elim (Bool-cases (mem m.free_list i)) [
  | inr h ↦ h
  | inl h ↦
      let (l, n) = v.free_inactive i h in
      absurd (
        true-not-false (
          sym a
          ∙ get_or_default m.slot_active i false true (omega (arith, l, v.active_length))
          ∙ n))
]
  where
    true-not-false : true ≡ false → ⊥
    true-not-false e = cc

-- An active slot is one of those that there are.
pub active_in_range : (xs : List Bool) (i : ℕ) → get_or xs i false ≡ true → i < length xs
active_in_range [] i h = absurd cc
active_in_range (x ∷ xs) zero h = omega arith
active_in_range (x ∷ xs) (suc i) h = omega (arith, active_in_range xs i h)
