-- ===== src/SlotMap/Insert.antt =====
-- `insert` of `SlotMapNew`: the new key, and all keys of active slots.
use av_utils.Base.{
  Bool-cases, List, [], ap, arith, eq→==, false, get_elem?, get_elem?-push, get_elem?-set, get_or,
  get_or-push, get_or-set_at, if◌then◌else◌, inl, inr, leb, length, length-append, length-set, ltb,
  ne→==, not, ok, refl, runtime_error, set, some, sym, throw, true, ℕ, ◌&&◌, ◌+◌, ◌<◌, ◌==◌, ◌∙◌,
  ◌∷◌, ◌≡◌, ◌≢◌, ◌≤◌, ◌⊎◌,
}
use av_utils.SlotMap.{Key, SlotMap, get, insert, invalid_index, is_valid_key, place, size}
use av_utils.SlotMap.Slots.{IsLive, IsValid, active_in_range}
use av_utils.SlotMap.Updates.{append, append-IsValid, get_same, head_free, reuse, reuse-IsValid}

module _ {ℓ} {T : Type ℓ} where
  -- What `insert` promises of the new key, and of any other key of an active slot.
  abbrev pub Inserted : SlotMap T → T → Key → SlotMap T → Key → Type ℓ
  Inserted m value other m' key =
      IsValid m'
      × IsLive m' key
      × (get m' key ≡ some value)
      × (size m' ≡ size m + 1)
      × ((get_or m.slot_active other.index false ≡ false)
          ⊎ ((is_valid_key m' other ≡ is_valid_key m other) × (get m' other ≡ get m other)))

  pub valid_key :
      (m : SlotMap T) (i g : ℕ)
      → IsValid m
      → i < length m.data_slots
      → get_or m.generations i 0 ≡ g
      → is_valid_key m (record { index = i; generation = g }) ≡ true
  unfolding is_valid_key
  valid_key m i g v h e = ground (arith, v.room, h, e)

  pub get-valid :
      (m : SlotMap T) (key : Key) (value : T)
      → is_valid_key m key ≡ true
      → get_elem? m.data_slots key.index ≡ some value
      → get m key ≡ some value
  unfolding get
  get-valid m key value h e = rw h e

  reuse-other :
      (m : SlotMap T) (value : T) (index : ℕ) (rest : List ℕ) (other : Key)
      → index < length m.data_slots
      → index ≢ other.index
      → (is_valid_key (reuse m value index rest) other ≡ is_valid_key m other)
        × (get (reuse m value index rest) other ≡ get m other)
  unfolding is_valid_key
  reuse-other m value index rest other l n = (
    valid,
    get_same (reuse m value index rest) m other valid (
        read
        ∙ ap (λ b. if b then some value else get_elem? m.data_slots other.index)
            (ne→== index other.index n)),
  )
    where
      valid : is_valid_key (reuse m value index rest) other ≡ is_valid_key m other
      valid =
          ap
            (λ k.
              not (other.index == invalid_index)
              && ltb other.index k
              && (get_or m.generations other.index 0 == other.generation))
            (length-set m.data_slots index value)

      read :
          get_elem? (set m.data_slots index value) other.index
          ≡ (if index == other.index then some value else get_elem? m.data_slots other.index)
      read = get_elem?-set m.data_slots index other.index value l

  append-other :
      (m : SlotMap T) (value : T) (other : Key)
      → IsValid m
      → other.index < length m.data_slots
      → (is_valid_key (append m value) other ≡ is_valid_key m other)
        × (get (append m value) other ≡ get m other)
  unfolding is_valid_key
  append-other m value other v l = (
    valid,
    get_same (append m value) m other valid (
        get_elem?-push m.data_slots value other.index
        ∙ ap (λ b. if b then some value else get_elem? m.data_slots other.index)
            (ne→== (length m.data_slots) other.index (omega arith))),
  )
    where
      valid : is_valid_key (append m value) other ≡ is_valid_key m other
      valid = ground (
        arith,
        length-append m.data_slots (value ∷ []),
        get_or-push m.generations 0 other.index 0,
        v.generations_length,
      )

  reuse-Inserted :
      (m : SlotMap T) (value : T) (other : Key) (index : ℕ) (rest : List ℕ)
      → IsValid m
      → m.free_list ≡ index ∷ rest
      → Inserted m value other
          (reuse m value index rest)
          (record { index = index; generation = get_or m.generations index 0 })
  unfolding size
  reuse-Inserted m value other index rest v e =
      let (l, n, f, d) = head_free m index rest v e in
      let v' = reuse-IsValid m value index rest v e in
      let valid =
        valid_key (reuse m value index rest) index (get_or m.generations index 0) v'
          (omega (arith, l, length-set m.data_slots index value)) refl in
      (
        v',
        (
          valid,
          get_or-set_at m.slot_active index index true false (omega (arith, l, v.active_length))
              refl,
        ),
        get-valid (reuse m value index rest)
            (record { index = index; generation = get_or m.generations index 0 }) value valid
            (get_elem?-set m.data_slots index index value l
              ∙ ap (λ b. if b then some value else get_elem? m.data_slots index)
                  (eq→== index index refl)),
        omega (arith, length-set m.data_slots index value, ap length e, v.counted),
        elim (Bool-cases (get_or m.slot_active other.index false)) [
          | inr h ↦ inl h
          | inl h ↦ inr (reuse-other m value index rest other l (λ q. different n h q))
        ],
      )
    where
      different :
          {i j : ℕ}
          → get_or m.slot_active i false ≡ false
          → get_or m.slot_active j false ≡ true
          → i ≡ j
          → ⊥
      different n h q = clash (sym h ∙ ap (λ i. get_or m.slot_active i false) (sym q) ∙ n)
        where
          clash : true ≡ false → ⊥
          clash e = cc

  append-Inserted :
      (m : SlotMap T) (value : T) (other : Key)
      → IsValid m
      → m.free_list ≡ []
      → length m.data_slots < invalid_index
      → Inserted m value other
          (append m value)
          (record { index = length m.data_slots; generation = 0 })
  unfolding size
  append-Inserted m value other v e h =
      let v' = append-IsValid m value v e h in
      let valid =
        valid_key (append m value) (length m.data_slots) 0 v'
          (omega (arith, length-append m.data_slots (value ∷ [])))
          (ground
            (arith, get_or-push m.generations 0 (length m.data_slots) 0, v.generations_length)) in
      (
        v',
        (
          valid,
          ground
              (arith, get_or-push m.slot_active true (length m.data_slots) false, v.active_length),
        ),
        get-valid (append m value) (record { index = length m.data_slots; generation = 0 }) value
            valid
            (get_elem?-push m.data_slots value (length m.data_slots)
              ∙ ap (λ b. if b then some value else get_elem? m.data_slots (length m.data_slots))
                  (eq→== (length m.data_slots) (length m.data_slots) refl)),
        omega (arith, length-append m.data_slots (value ∷ []), ap length e),
        elim (Bool-cases (get_or m.slot_active other.index false)) [
          | inr k ↦ inl k
          | inl k ↦ inr (
              append-other m value other v
                (omega (arith, active_in_range m.slot_active other.index k, v.active_length)))
        ],
      )

  place_lem :
      (m : SlotMap T) (value : T) (other : Key) (free : List ℕ)
      → IsValid m
      → m.free_list ≡ free
      → ((m.free_list ≡ [])
          × (invalid_index ≤ length m.data_slots)
          × (place m value free ≡ throw runtime_error))
        ⊎ ((m' : SlotMap T) × (key : Key) × (place m value free ≡ ok (m', key))
            × Inserted m value other m' key)
  unfolding place
  place_lem m value other (index ∷ rest) v e = inr (
    reuse m value index rest,
    record { index = index; generation = get_or m.generations index 0 },
    refl,
    reuse-Inserted m value other index rest v e,
  )
  place_lem m value other [] v e = elim (Bool-cases (leb invalid_index (length m.data_slots))) [
    | inl h ↦ rw h (inl (e, ground (arith, h), refl))
    | inr h ↦ rw h (
        inr (
          append m value,
          record { index = length m.data_slots; generation = 0 },
          refl,
          append-Inserted m value other v e (ground (arith, h)),
        ))
  ]

  -- In a valid map `insert` throws exactly when no slot is free and there are as many slots as there
  -- may be. Otherwise the map stays valid and holds one value more, the new key is live and refers to
  -- the value, and a key of any slot that was active is as valid as it was and refers to the same value.
  pub insert_lem :
      (m : SlotMap T) (value : T) (other : Key)
      → IsValid m
      → ((m.free_list ≡ [])
          × (invalid_index ≤ length m.data_slots)
          × (insert m value ≡ throw runtime_error))
        ⊎ ((m' : SlotMap T) × (key : Key) × (insert m value ≡ ok (m', key))
            × Inserted m value other m' key)
  unfolding insert
  insert_lem m value other v = place_lem m value other m.free_list v refl
