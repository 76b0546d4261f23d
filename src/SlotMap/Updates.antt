-- ===== src/SlotMap/Updates.antt =====
-- `insert` and `erase` of `SlotMapNew`: what they do to the key they concern and to other live keys.
use av_utils.Base.{
  List, [], ap, ap₂, arith, false, get_elem?, get_or, get_or-set_off, if◌then◌else◌, length,
  length-append, length-set, mem, none, set, subst, sym, true, ℕ, ◌++◌, ◌<◌, ◌∙◌, ◌∷◌, ◌≡◌,
}
use av_utils.SlotMap.{Key, SlotMap, get, invalid_index, is_valid_key}
use av_utils.SlotMap.Slots.{IsValid, count-push, count-set, distinct, get_or_default}

module _ {ℓ} {T : Type ℓ} where
  -- A key of a slot that two maps share refers to the same value in both.
  pub get_same :
      (m m' : SlotMap T) (key : Key)
      → is_valid_key m key ≡ is_valid_key m' key
      → get_elem? m.data_slots key.index ≡ get_elem? m'.data_slots key.index
      → get m key ≡ get m' key
  unfolding get
  get_same m m' key e f = ap₂ (λ b o. if b then o else none) e f

  -- The map after a value is put into a free slot.
  abbrev pub reuse : SlotMap T → T → ℕ → List ℕ → SlotMap T
  reuse m value index rest = record m {
    data_slots = set m.data_slots index value;
    free_list = rest;
    slot_active = set m.slot_active index true;
  }

  abbrev pub append : SlotMap T → T → SlotMap T
  append m value = record m {
    data_slots = m.data_slots ++ value ∷ [];
    generations = m.generations ++ 0 ∷ [];
    slot_active = m.slot_active ++ true ∷ [];
  }

  pub head_free :
      (m : SlotMap T) (index : ℕ) (rest : List ℕ)
      → IsValid m
      → m.free_list ≡ index ∷ rest
      → (index < length m.data_slots)
        × (get_or m.slot_active index false ≡ false)
        × (mem rest index ≡ false)
        × (distinct rest ≡ true)
  head_free m index rest v e =
      let (l, n) = v.free_inactive index (rw e (ground arith)) in
      let d = subst (λ xs. distinct xs ≡ true) e v.free_distinct in
      (
        l,
        get_or_default m.slot_active index false true (omega (arith, l, v.active_length)) ∙ n,
        ground (arith, d),
        ground (arith, d),
      )

  pub reuse-IsValid :
      (m : SlotMap T) (value : T) (index : ℕ) (rest : List ℕ)
      → IsValid m
      → m.free_list ≡ index ∷ rest
      → IsValid (reuse m value index rest)
  reuse-IsValid m value index rest v e =
      let (l, n, f, d) = head_free m index rest v e in
      record {
        generations_length = v.generations_length ∙ sym (length-set m.data_slots index value);
        active_length =
            length-set m.slot_active index true
            ∙ v.active_length
            ∙ sym (length-set m.data_slots index value);
        room = omega (arith, v.room, length-set m.data_slots index value);
        free_inactive = λ i h.
            let (l', n') =
              v.free_inactive i (subst (λ xs. mem xs i ≡ true) (sym e) (ground (arith, h))) in
            (
              omega (arith, l', length-set m.data_slots index value),
              get_or-set_off m.slot_active index i true true (omega (arith, l, v.active_length))
                    (λ q. apart rest index i q f h)
                  ∙ n',
            );
        free_distinct = d;
        counted = ground (
          arith,
          v.counted,
          ap length e,
          n,
          length-set m.data_slots index value,
          count-set m.slot_active index true (omega (arith, l, v.active_length)),
        );
      }
    where
      apart : (xs : List ℕ) (a b : ℕ) → a ≡ b → mem xs a ≡ false → mem xs b ≡ true → ⊥
      apart xs a b q f h = true-not-false (sym h ∙ ap (mem xs) (sym q) ∙ f)
        where
          true-not-false : true ≡ false → ⊥
          true-not-false e = cc

  pub append-IsValid :
      (m : SlotMap T) (value : T)
      → IsValid m
      → m.free_list ≡ []
      → length m.data_slots < invalid_index
      → IsValid (append m value)
  append-IsValid m value v e h = record {
    generations_length = omega (
      arith,
      length-append m.generations (0 ∷ []),
      length-append m.data_slots (value ∷ []),
      v.generations_length,
    );
    active_length = omega (
      arith,
      length-append m.slot_active (true ∷ []),
      length-append m.data_slots (value ∷ []),
      v.active_length,
    );
    room = omega (arith, h, length-append m.data_slots (value ∷ []));
    free_inactive = λ i k. absurd (nothing i (subst (λ xs. mem xs i ≡ true) e k));
    free_distinct = ap distinct e;
    counted =
        omega (arith, v.counted, count-push m.slot_active, length-append m.data_slots (value ∷ []));
  }
    where
      nothing : (i : ℕ) → mem [] i ≡ true → ⊥
      nothing i k = cc
