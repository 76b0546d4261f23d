-- ===== src/InsertionOrderedMap/Changes.antt =====
-- include/InsertionOrderedMap.h: entries dropped and moved to an end.
use av_utils.Base.{
  Bool, List, Option-cases, [], ap, drop, drop_last, get_elem?, if◌then◌else◌, inl, inr, none, refl,
  some, some-injective, sym, ℕ, ◌++◌, ◌∙◌, ◌∷◌, ◌≡◌,
}
use av_utils.Linked.{element_at, erase_node, find, key_of, last, next_of, pop_back, pop_front}
use av_utils.Linked.Nodes.{IsEquivalence, find-none, lookup, remove, remove_absent}
use av_utils.Linked.Laws.{erase_node_lem}
use av_utils.Linked.Ends.{pop_back_lem, pop_front_lem}
use av_utils.Linked.Moves.{
  address_of-element_at, move_to_back-splice_back, move_to_front-splice_front, splice_back_lem,
  splice_front_lem,
}
use av_utils.InsertionOrderedMap.{
  InsertionOrderedMap, contains, entries, erase, erase_at_iterator, pop_first, pop_last, to_back,
  to_front,
}
use av_utils.InsertionOrderedMap.Entries.{IsValid, found_entry}

module _ {ℓ} {K V : Type ℓ} (eq : K → K → Bool) (law : IsEquivalence eq) where
  -- On a map whose list and index agree, `erase` of a key leaves such a map, says how many entries
  -- it dropped, and keeps the order of the others.
  pub erase_key-remove :
      (m : InsertionOrderedMap K V) (k : K)
      → IsValid eq law m
      → (m' : InsertionOrderedMap K V) × (erase eq m k ≡ (m', (if contains eq m k then 1 else 0)))
        × IsValid eq law m'
        × (entries m' ≡ remove eq key_of (entries m) k)
  unfolding erase
  erase_key-remove m k w = elim (Option-cases (find eq key_of m.links k)) [
    | inl h ↦
        let absent = find-none eq key_of m.links k w h in
        (m, rw (erase, contains, h) refl, w, sym (remove_absent eq key_of (entries m) k absent))
    | inr (it, h) ↦
        let (linked', kept) = erase_node_lem eq key_of law m.links k it w h in
        (
          record { links = erase_node eq key_of m.links k it },
          rw (erase, contains, h) refl,
          linked',
          kept,
        )
  ]

  -- On a map whose list and index agree, `erase` of an iterator to an entry does what `erase` of
  -- its key does, and gives the iterator after it.
  pub erase_iterator-erase :
      (m : InsertionOrderedMap K V) (it : ℕ) (e : K × V)
      → IsValid eq law m
      → element_at m.links.nodes it ≡ some e
      → erase_at_iterator eq m (some it) ≡ ((erase eq m e.0).0, next_of m.links.nodes it)
  unfolding erase_at_iterator erase
  erase_iterator-erase m it e w h =
      let there : find eq key_of m.links e.0 ≡ some it =
        w.indexed e.0 ∙ address_of-element_at eq key_of law m.links.nodes it e w.apart h in
      rw (erase_at_iterator, h, erase, there) refl

  -- The entries with that of a key first, and last.
  abbrev pub brought_front : List (K × V) → K → List (K × V)
  brought_front es k = elim (lookup eq key_of es k) [
    | none ↦ es
    | some e ↦ e ∷ remove eq key_of es k
  ]

  abbrev pub brought_back : List (K × V) → K → List (K × V)
  brought_back es k = elim (lookup eq key_of es k) [
    | none ↦ es
    | some e ↦ remove eq key_of es k ++ e ∷ []
  ]

  -- On a map whose list and index agree, `to_front` and `to_back` leave such maps: the entry of
  -- the key, if there is one, comes first or last, and the others keep their order.
  pub to_front-to_back :
      (m : InsertionOrderedMap K V) (k : K)
      → IsValid eq law m
      → IsValid eq law (to_front eq m k)
        × (entries (to_front eq m k) ≡ brought_front (entries m) k)
        × IsValid eq law (to_back eq m k)
        × (entries (to_back eq m k) ≡ brought_back (entries m) k)
  unfolding to_front to_back
  to_front-to_back m k w = elim (Option-cases (find eq key_of m.links k)) [
    | inl h ↦
        let absent = find-none eq key_of m.links k w h in
        rw (to_front, to_back, h, brought_front, brought_back, absent) (w, refl, w, refl)
    | inr (it, h) ↦
        let (e, there) = found_entry eq law m k it w h in
        let (linked', front) = splice_front_lem eq key_of law m.links k it e w h there in
        let (linked'', back) = splice_back_lem eq key_of law m.links k it e w h there in
        rw
          (
            to_front,
            to_back,
            h,
            move_to_front-splice_front m.links.nodes it,
            move_to_back-splice_back eq key_of law m.links.nodes it w.apart,
            brought_front,
            brought_back,
            there,
          )
          (linked', front, linked'', back)
  ]

  -- On a map whose list and index agree, `pop_front` leaves such a map and gives the first entry,
  -- which it drops; an empty map gives nothing.
  pub pop_first-entries :
      (m : InsertionOrderedMap K V)
      → IsValid eq law m
      → (m' : InsertionOrderedMap K V) × (pop_first eq m ≡ (m', get_elem? (entries m) 0))
        × IsValid eq law m'
        × (entries m' ≡ drop 1 (entries m))
  unfolding pop_first
  pop_first-entries m w = elim (Option-cases (get_elem? (entries m) 0)) [
    | inr (e, h) ↦
        let (linked', rest) =
          pop_front_lem eq key_of law m.links e (drop 1 (entries m)) w
            (first_rest (entries m) e h) in
        (record { links = pop_front eq key_of m.links }, rw (pop_first, h) refl, linked', rest)
    | inl h ↦ (m, rw (pop_first, h) refl, w, no_first (entries m) h)
  ]
    where
      first_rest : (es : List (K × V)) (e : K × V) → get_elem? es 0 ≡ some e → es ≡ e ∷ drop 1 es
      first_rest [] e h = cc
      first_rest (f ∷ es) e h = ap (λ g. g ∷ es) (some-injective f e h)

      no_first : (es : List (K × V)) → get_elem? es 0 ≡ none → es ≡ drop 1 es
      no_first [] h = refl
      no_first (e ∷ es) h = cc

  -- On a map whose list and index agree, `pop_back` leaves such a map and gives the last entry,
  -- which it drops; an empty map gives nothing.
  pub pop_last-entries :
      (m : InsertionOrderedMap K V)
      → IsValid eq law m
      → (m' : InsertionOrderedMap K V) × (pop_last eq m ≡ (m', last (entries m)))
        × IsValid eq law m'
        × (entries m' ≡ drop_last (entries m))
  unfolding pop_last
  pop_last-entries m w = elim (Option-cases (last (entries m))) [
    | inr (e, h) ↦
        let (linked', rest) = pop_back_lem eq key_of law m.links e w h in
        (record { links = pop_back eq key_of m.links }, rw (pop_last, h) refl, linked', rest)
    | inl h ↦ (m, rw (pop_last, h) refl, w, no_last (entries m) h)
  ]
    where
      no_last : (es : List (K × V)) → last es ≡ none → es ≡ drop_last es
      no_last [] h = refl
      no_last (e ∷ []) h = cc
      no_last (e ∷ f ∷ es) h = ap (◌∷◌ e) (no_last (f ∷ es) h)
