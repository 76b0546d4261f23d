-- ===== src/SlotMap/Entries.antt =====
-- What an iteration over `SlotMapNew` visits.
use av_utils.Base.{
  Bool, List, Option, [], ap, arith, false, get_elem?, get_or, length, none, refl, some, subst, suc,
  true, zero, ℕ, ◌-◌, ◌∙◌, ◌∷◌, ◌≡◌, ◌≤◌,
}
use av_utils.SlotMap.{Key, SlotMap, entries, entries_from, get, size}
use av_utils.SlotMap.Slots.{IsLive, IsValid, active_in_range, count_active}
use av_utils.SlotMap.Insert.{get-valid, valid_key}

module _ {ℓ} {T : Type ℓ} where
  length-entries_from :
      (i : ℕ) (values : List T) (gens : List ℕ) (acts : List Bool)
      → length gens ≡ length values
      → length acts ≡ length values
      → length (entries_from i values gens acts) ≡ count_active acts
  unfolding entries_from
  length-entries_from i [] gens [] h k = refl
  length-entries_from i [] gens (a ∷ acts) h k = absurd (omega (arith, k))
  length-entries_from i (x ∷ values) [] acts h k = absurd (omega (arith, h))
  length-entries_from i (x ∷ values) (g ∷ gens) [] h k = absurd (omega (arith, k))
  length-entries_from i (x ∷ values) (g ∷ gens) (true ∷ acts) h k =
      omega
        (arith, length-entries_from (suc i) values gens acts (omega (arith, h)) (omega (arith, k)))
  length-entries_from i (x ∷ values) (g ∷ gens) (false ∷ acts) h k =
      omega
        (arith, length-entries_from (suc i) values gens acts (omega (arith, h)) (omega (arith, k)))

  -- An entry from slot `i` on is that of an active slot, with its value and generation.
  abbrev Visits : ℕ → List T → List ℕ → List Bool → Key → T → Type ℓ
  Visits i values gens acts key value =
      (i ≤ key.index)
      × (get_elem? values (key.index - i) ≡ some value)
      × (get_or gens (key.index - i) 0 ≡ key.generation)
      × (get_or acts (key.index - i) false ≡ true)

  Visits-later :
      (i : ℕ) (x : T) (g : ℕ) (a : Bool) (values : List T) (gens : List ℕ) (acts : List Bool)
      (key : Key) (value : T)
      → Visits (suc i) values gens acts key value
      → Visits i (x ∷ values) (g ∷ gens) (a ∷ acts) key value
  Visits-later i x g a values gens acts key value (l, b, c, d) =
      rw (further l) (omega (arith, l), b, c, d)
    where
      further : suc i ≤ key.index → key.index - i ≡ suc (key.index - suc i)
      further l = omega arith

  Visits-here :
      (i : ℕ) (x : T) (g : ℕ) (values : List T) (gens : List ℕ) (acts : List Bool)
      → Visits i (x ∷ values) (g ∷ gens) (true ∷ acts) (record { index = i; generation = g }) x
  Visits-here i x g values gens acts = rw here (omega arith, refl, refl, refl)
    where
      here : i - i ≡ 0
      here = omega arith

  abbrev entry_of : Key × T → Option (Key × T) → Key × T
  entry_of d none = d
  entry_of d (some p) = p

  entries_from-Visits :
      (i : ℕ) (values : List T) (gens : List ℕ) (acts : List Bool) (j : ℕ) (key : Key) (value : T)
      → get_elem? (entries_from i values gens acts) j ≡ some (key, value)
      → Visits i values gens acts key value
  unfolding entries_from
  entries_from-Visits i [] gens acts j key value e = absurd cc
  entries_from-Visits i (x ∷ values) [] acts j key value e = absurd cc
  entries_from-Visits i (x ∷ values) (g ∷ gens) [] j key value e = absurd cc
  entries_from-Visits i (x ∷ values) (g ∷ gens) (false ∷ acts) j key value e =
      Visits-later i x g false values gens acts key value
        (entries_from-Visits (suc i) values gens acts j key value e)
  entries_from-Visits i (x ∷ values) (g ∷ gens) (true ∷ acts) zero key value e =
      subst (λ p. Visits i (x ∷ values) (g ∷ gens) (true ∷ acts) p.0 p.1)
        (ap (entry_of (key, value)) e) (Visits-here i x g values gens acts)
  entries_from-Visits i (x ∷ values) (g ∷ gens) (true ∷ acts) (suc j) key value e =
      Visits-later i x g true values gens acts key value
        (entries_from-Visits (suc i) values gens acts j key value e)

  -- An iteration over a valid map visits as many entries as there are values. The key of each entry is
  -- live, and refers to the value of the entry.
  pub entries_lem :
      (m : SlotMap T) (j : ℕ) (key : Key) (value : T)
      → IsValid m
      → get_elem? (entries m) j ≡ some (key, value)
      → (length (entries m) ≡ size m) × IsLive m key × (get m key ≡ some value)
  unfolding entries size
  entries_lem m j key value v e =
      let (l, b, c, d) =
        entries_from-Visits 0 m.data_slots m.generations m.slot_active j key value e in
      let active = ap (λ i. get_or m.slot_active i false) (straight key) ∙ d in
      let valid =
        valid_key m key.index key.generation v
          (omega (arith, active_in_range m.slot_active key.index active, v.active_length))
          (ap (λ i. get_or m.generations i 0) (straight key) ∙ c) in
      (
        omega (
          arith,
          length-entries_from 0 m.data_slots m.generations m.slot_active v.generations_length
              v.active_length,
          v.counted,
        ),
        (valid, active),
        get-valid m key value valid (ap (get_elem? m.data_slots) (straight key) ∙ b),
      )
    where
      straight : (key : Key) → key.index ≡ key.index - 0
      straight key = omega arith
