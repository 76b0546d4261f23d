-- ===== src/InsertionOrderedMap/Entries.antt =====
-- include/InsertionOrderedMap.h: what the lookups and the changes at a key do to the entries.
use av_utils.Base.{
  Bool, List, Option-cases, [], arith, if◌then◌else◌, inl, inr, not, or_throw, out_of_range, refl,
  some, sym, ℕ, ◌++◌, ◌∙◌, ◌∷◌, ◌≡◌,
}
use av_utils.Linked.{assign, element_at, find, key_of, push_back, value_of}
use av_utils.Linked.Nodes.{
  IsEquivalence, IsLinked, address_of-lookup, element_at-lookup, find-lookup, find-none, is_some,
  lookup,
}
use av_utils.Linked.Laws.{find-push_back, push_back_lem}
use av_utils.Linked.Moves.{}
use av_utils.Linked.Writes.{assign_lem, update}
use av_utils.InsertionOrderedMap.{
  InsertionOrderedMap, at, contains, entries, insert, insert_or_assign, subscript,
}

module _ {ℓ} {K V : Type ℓ} (eq : K → K → Bool) (law : IsEquivalence eq) where
  -- List and map agree.
  abbrev pub IsValid : InsertionOrderedMap K V → Type ℓ
  IsValid m = IsLinked eq key_of m.links

  abbrev pub has : List (K × V) → K → Bool
  has es key = is_some (lookup eq key_of es key)

  pub contains-has :
      (m : InsertionOrderedMap K V) (key : K) → IsValid m → contains eq m key ≡ has (entries m) key
  contains-has m key w =
      ground (arith, w.indexed key, address_of-lookup eq key_of m.links.nodes key)

  pub found-lookup :
      (m : InsertionOrderedMap K V) (key : K) (it : ℕ)
      → IsValid m
      → find eq key_of m.links key ≡ some it
      → element_at m.links.nodes it ≡ lookup eq key_of (entries m) key
  found-lookup m key it w h =
      element_at-lookup eq key_of m.links.nodes key it w.apart (sym (w.indexed key) ∙ h)

  pub found_entry :
      (m : InsertionOrderedMap K V) (key : K) (it : ℕ)
      → IsValid m
      → find eq key_of m.links key ≡ some it
      → (e : K × V) × (lookup eq key_of (entries m) key ≡ some e)
  found_entry m key it w h = elim (Option-cases (lookup eq key_of (entries m) key)) [
    | inr (e, p) ↦ (e, p)
    | inl n ↦ absurd (ground (arith, find-lookup eq key_of m.links key w))
  ]

  -- On a map whose list and index agree, `contains` and `at` answer for the entry with the key:
  -- `at` gives its value, and raises `out_of_range` where there is none.
  pub at-lookup :
      (m : InsertionOrderedMap K V) (key : K)
      → IsValid m
      → (contains eq m key ≡ has (entries m) key)
        × (at eq m key ≡ or_throw out_of_range (value_of (lookup eq key_of (entries m) key)))
  unfolding at
  at-lookup m key w = (
    contains-has m key w,
    elim (Option-cases (find eq key_of m.links key)) [
      | inl h ↦ rw (at, h, find-none eq key_of m.links key w h) refl
      | inr (it, h) ↦ rw (at, h, found-lookup m key it w h) refl
    ],
  )

  -- On a map whose list and index agree, `insert` leaves such a map: a new key is added at the
  -- back, a key that is there keeps its value, and the iterator is at the entry of the key.
  pub insert-entries :
      (m : InsertionOrderedMap K V) (e : K × V)
      → IsValid m
      → (m' : InsertionOrderedMap K V) × (it : ℕ) × (insert eq m e
          ≡ (m', it, not (contains eq m e.0)))
        × IsValid m'
        × (entries m' ≡ (if contains eq m e.0 then entries m else entries m ++ e ∷ []))
        × (find eq key_of m'.links e.0 ≡ some it)
  unfolding insert
  insert-entries m e w = elim (Option-cases (find eq key_of m.links e.0)) [
    | inr (it, h) ↦ (m, it, rw (insert, contains, h) refl, w, rw (contains, h) refl, h)
    | inl h ↦
        let (linked', longer) = push_back_lem eq key_of law m.links e w h in
        (
          record { links = push_back eq key_of m.links e },
          m.links.next,
          rw (insert, contains, h) refl,
          linked',
          rw (contains, h) longer,
          find-push_back eq key_of law m.links e,
        )
  ]

  -- On a map whose list and index agree, `insert_or_assign` leaves such a map: a key that is there
  -- gets the value in its place, a new key is added at the back.
  pub insert_or_assign-entries :
      (m : InsertionOrderedMap K V) (k : K) (v : V)
      → IsValid m
      → (m' : InsertionOrderedMap K V) × (it : ℕ) × (insert_or_assign eq m k v
          ≡ (m', it, not (contains eq m k)))
        × IsValid m'
        × (entries m' ≡ (
            if contains eq m k
            then update eq key_of (λ e. (e.0, v)) (entries m) k
            else entries m ++ (k, v) ∷ []))
  unfolding insert_or_assign
  insert_or_assign-entries m k v w = elim (Option-cases (find eq key_of m.links k)) [
    | inr (it, h) ↦
        let (linked', changed) =
          assign_lem eq key_of (λ e. (e.0, v)) (λ e. refl) m.links k it w h in
        (
          record { links = record m.links { nodes = assign (λ e. (e.0, v)) m.links.nodes it } },
          it,
          rw (insert_or_assign, contains, h) refl,
          linked',
          rw (contains, h) changed,
        )
    | inl h ↦
        let (linked', longer) = push_back_lem eq key_of law m.links (k, v) w h in
        (
          record { links = push_back eq key_of m.links (k, v) },
          m.links.next,
          rw (insert_or_assign, contains, h) refl,
          linked',
          rw (contains, h) longer,
        )
  ]

  -- On a map whose list and index agree, `operator[]` leaves such a map: a new key is added at the
  -- back with the default value, and the reference is to the value of the key.
  pub subscript-entries :
      (d : V) (m : InsertionOrderedMap K V) (k : K)
      → IsValid m
      → (m' : InsertionOrderedMap K V) × (it : ℕ) × (subscript eq d m k ≡ (m', it))
        × IsValid m'
        × (entries m' ≡ (if contains eq m k then entries m else entries m ++ (k, d) ∷ []))
        × (find eq key_of m'.links k ≡ some it)
  unfolding subscript
  subscript-entries d m k w = elim (Option-cases (find eq key_of m.links k)) [
    | inr (it, h) ↦ (m, it, rw (subscript, h) refl, w, rw (contains, h) refl, h)
    | inl h ↦
        let (linked', longer) = push_back_lem eq key_of law m.links (k, d) w h in
        (
          record { links = push_back eq key_of m.links (k, d) },
          m.links.next,
          rw (subscript, h) refl,
          linked',
          rw (contains, h) longer,
          find-push_back eq key_of law m.links (k, d),
        )
  ]
