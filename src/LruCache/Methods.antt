-- ===== src/LruCache/Methods.antt =====
-- include/lru_cache.h: the entries after each method, and the bound of their number.
use av_utils.Base.{
  Bool, List, Option-cases, [], ap, arith, drop_last, if◌then◌else◌, inl, inr, leb, length, none,
  not, refl, some, ℕ, ◌&&◌, ◌<◌, ◌∷◌, ◌≡◌, ◌≤◌,
}
use av_utils.Linked.{find, key_of, last, splice_front, value_of}
use av_utils.Linked.Nodes.{
  IsEquivalence, IsLinked, find-lookup, find-none, is_some, length-remove, lookup, remove,
}
use av_utils.Linked.Moves.{element_at-splice_front, move_to_front-splice_front, splice_front_lem}
use av_utils.Linked.Writes.{update}
use av_utils.LruCache.{LruCache, entries, get, incremented}

-- The last element, if there is one.
abbrev pub last_one {ℓ} : {A : Type ℓ} → List A → List A
last_one es = elim (last es) [ none ↦ [] | some e ↦ e ∷ [] ]

module _ {ℓ} {K V : Type ℓ} (eq : K → K → Bool) (law : IsEquivalence eq) where
  pub record IsValid (c : LruCache K V) : Type ℓ where
    pub linked : IsLinked eq key_of c.links
    pub bounded : length (entries c) ≤ c.max_size
    pub positive : 0 < c.max_size

  pub found_some :
      (c : LruCache K V) (key : K) (it : ℕ)
      → IsValid c
      → find eq key_of c.links key ≡ some it
      → (e : K × V) × (lookup eq key_of (entries c) key ≡ some e)
  found_some c key it w h = elim (Option-cases (lookup eq key_of (entries c) key)) [
    | inr (e, p) ↦ (e, p)
    | inl n ↦ absurd (ground (arith, find-lookup eq key_of c.links key w.linked))
  ]

  -- The entries that `get` leaves: a hit moves its entry to the front.
  abbrev pub touched : List (K × V) → K → List (K × V)
  touched es key = elim (lookup eq key_of es key) [
    | none ↦ es
    | some e ↦ e ∷ remove eq key_of es key
  ]

  -- On a valid cache, `get` gives the value of the entry with the key, moves a hit to the front,
  -- counts a hit or a miss, and leaves the cache valid.
  pub get-lookup :
      (c : LruCache K V) (key : K)
      → IsValid c
      → (c' : LruCache K V) × (get eq c key ≡ (c', value_of (lookup eq key_of (entries c) key)))
        × IsValid c'
        × (entries c' ≡ touched (entries c) key)
        × (c'.stats ≡ (
            if is_some (lookup eq key_of (entries c) key)
            then record c.stats { hits = incremented c.stats.hits }
            else record c.stats { misses = incremented c.stats.misses }))
  unfolding get
  get-lookup c key w = elim (Option-cases (find eq key_of c.links key)) [
    | inl h ↦
        let absent = find-none eq key_of c.links key w.linked h in
        (
          record c { stats = record c.stats { misses = incremented c.stats.misses } },
          rw (get, h, absent) refl,
          record { linked = w.linked; bounded = w.bounded; positive = w.positive },
          rw (touched, absent) refl,
          rw absent refl,
        )
    | inr (it, h) ↦
        let (e, there) = found_some c key it w h in
        let (linked', front) = splice_front_lem eq key_of law c.links key it e w.linked h there in
        (
          record c {
            links = record c.links { nodes = splice_front c.links.nodes it };
            stats = record c.stats { hits = incremented c.stats.hits };
          },
          rw
              (
                get,
                h,
                there,
                move_to_front-splice_front c.links.nodes it,
                element_at-splice_front eq key_of law c.links key it e w.linked h there,
              )
              refl,
          record {
            linked = linked';
            bounded = omega (
              arith,
              w.bounded,
              ap length front,
              length-remove eq key_of (entries c) key e there,
            );
            positive = w.positive;
          },
          rw (touched, there) front,
          rw there refl,
        )
  ]

  -- The entries that `put` leaves: a hit writes and moves its entry, a miss adds one at the front
  -- after the last one has left a full cache.
  abbrev pub stored : ℕ → List (K × V) → K → V → List (K × V)
  stored max_size es key value = elim (lookup eq key_of es key) [
    | some e ↦ (e.0, value) ∷ remove eq key_of es key
    | none ↦ (key, value) ∷ (if leb max_size (length es) then drop_last es else es)
  ]

  -- The entries that `put` gives to the callback.
  abbrev pub evicted : ℕ → List (K × V) → K → List (K × V)
  evicted max_size es key =
      if not (is_some (lookup eq key_of es key)) && leb max_size (length es)
      then last_one es
      else []

  pub update-lookup :
      (value : V) (es : List (K × V)) (key : K) (e : K × V)
      → lookup eq key_of es key ≡ some e
      → (lookup eq key_of (update eq key_of (λ e. (e.0, value)) es key) key ≡ some (e.0, value))
        × (remove eq key_of (update eq key_of (λ e. (e.0, value)) es key) key
            ≡ remove eq key_of es key)
  update-lookup value [] key e h = cc
  update-lookup value (f ∷ es) key e h = ground (arith, update-lookup value es key e)
