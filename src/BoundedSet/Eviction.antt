-- ===== src/BoundedSet/Eviction.antt =====
-- include/bounded_set.h: the elements a bounded set keeps, and their bound.
use av_utils.Base.{
  Bool, List, Option-cases, [], ap, arith, drop, false, if◌then◌else◌, inl, inr, invalid_argument,
  length, length-append, length-drop, ltb, lt→ltb, ne→==, not, ok, refl, suc, sym, throw, zero, ℕ,
  ◌++◌, ◌+◌, ◌-◌, ◌<◌, ◌∙◌, ◌∷◌, ◌≡◌, ◌≤◌,
}
use av_utils.Linked.{elements, erase_node, find, itself, push_back}
use av_utils.Linked.Nodes.{
  IsEquivalence, IsLinked, address_of-lookup, find-none, is_some, length-elements, length-remove-le,
  lookup, remove, remove_absent,
}
use av_utils.Linked.Laws.{erase_node_lem, push_back_lem}
use av_utils.Linked.Ends.{pop_front_lem}
use av_utils.BoundedSet.{
  BoundedSet, as_vector, contains, erase, evict, evict_from, insert, reserve, shrink_to_fit, size,
}
use native.Mathlib.Decide.{dec_lt}

module _ {ℓ} {T : Type ℓ} where
  -- The last `n` elements.
  abbrev pub newest : ℕ → List T → List T
  newest n xs = drop (length xs - n) xs

  newest_all : (n : ℕ) (xs : List T) → length xs ≤ n → newest n xs ≡ xs
  newest_all n xs h = let none_over : length xs - n ≡ 0 = omega arith in rw none_over refl

  newest_tail : (n : ℕ) (xs : List T) → n < length xs → newest n (drop 1 xs) ≡ newest n xs
  newest_tail n [] h = refl
  newest_tail n (x ∷ xs) h =
      let one_over : suc (length xs) - n ≡ suc (length xs - n) = omega arith in rw one_over refl

  length-newest : (n : ℕ) (xs : List T) → length (newest n xs) ≤ n
  length-newest n xs = omega (arith, length-drop (length xs - n) xs)

  nonempty : (l : List (ℕ × T)) → 0 < length l → (e : T) × (es : List T) × (elements l ≡ e ∷ es)
  nonempty [] h = absurd (omega arith)
  nonempty (m ∷ l) h = (m.1, elements l, refl)

module _ {ℓ} {T : Type ℓ} (eq : T → T → Bool) (law : IsEquivalence eq) where
  pub record IsValid (s : BoundedSet T) : Type ℓ where
    pub linked : IsLinked eq itself s.links
    pub bounded : size s ≤ s.max_size
    pub positive : 0 < s.max_size

  -- `contains` answers for the elements listed.
  pub contains-lookup :
      (s : BoundedSet T) (v : T)
      → IsLinked eq itself s.links
      → contains eq s v ≡ is_some (lookup eq itself (as_vector s) v)
  contains-lookup s v w = ground (arith, w.indexed v, address_of-lookup eq itself s.links.nodes v)

  evict_lem :
      (s : BoundedSet T)
      → IsLinked eq itself s.links
      → 0 < size s
      → IsLinked eq itself (evict eq s).links
        × (as_vector (evict eq s) ≡ drop 1 (as_vector s))
        × (size s ≡ suc (size (evict eq s)))
  evict_lem s w h =
      let (e, es, first) = nonempty s.links.nodes h in
      let (linked', rest) = pop_front_lem eq itself law s.links e es w first in
      (
        linked',
        rest ∙ sym (ap (drop 1) first),
        sym (length-elements s.links.nodes)
            ∙ ap length (first ∙ ap (◌∷◌ e) (sym rest))
            ∙ ap suc (length-elements (evict eq s).links.nodes),
      )

  shrunk :
      (fuel : ℕ) (s : BoundedSet T)
      → IsLinked eq itself s.links
      → size s ≤ s.max_size + fuel
      → IsLinked eq itself (evict_from eq fuel s).links
        × (as_vector (evict_from eq fuel s) ≡ newest s.max_size (as_vector s))
        × ((evict_from eq fuel s).max_size ≡ s.max_size)
  unfolding evict_from
  shrunk zero s w h = (
    w,
    sym (newest_all s.max_size (as_vector s) (omega (arith, length-elements s.links.nodes))),
    refl,
  )
  shrunk (suc fuel) s w h = elim (dec_lt s.max_size (size s)) [
    | yes p ↦
        let (linked', rest, shorter) = evict_lem s w (omega arith) in
        let (linked'', kept, same) = shrunk fuel (evict eq s) linked' (omega arith) in
        rw (lt→ltb s.max_size (size s) p) (
          linked'',
          kept
              ∙ ap (newest s.max_size) rest
              ∙ newest_tail s.max_size (as_vector s) (omega (arith, length-elements s.links.nodes)),
          same,
        )
    | no p ↦
        let fits : ltb s.max_size (size s) ≡ false = ground arith in
        rw fits (
          w,
          sym (newest_all s.max_size (as_vector s) (omega (arith, length-elements s.links.nodes))),
          refl,
        )
  ]

  kept-IsValid :
      (s : BoundedSet T) (n : ℕ) (xs : List T)
      → IsLinked eq itself s.links
      → s.max_size ≡ n
      → as_vector s ≡ newest n xs
      → 0 < n
      → IsValid s
  kept-IsValid s n xs linked same kept positive = record {
    linked = linked;
    bounded = omega (arith, length-elements s.links.nodes, ap length kept, length-newest n xs);
    positive = omega arith;
  }

  -- On a valid set, `insert` says whether the value was new; a value that is there changes
  -- nothing, and of the elements with a new value at the back the set keeps the newest that its
  -- capacity holds. The set stays valid, so it never has more elements than its capacity.
  pub insert-newest :
      (s : BoundedSet T) (v : T)
      → IsValid s
      → (s' : BoundedSet T) × (insert eq s v ≡ (s', not (contains eq s v)))
        × IsValid s'
        × (s'.max_size ≡ s.max_size)
        × (as_vector s'
            ≡ (if contains eq s v then as_vector s else newest s.max_size (as_vector s ++ v ∷ [])))
  unfolding insert evict_from
  insert-newest s v w = elim (Option-cases (find eq itself s.links v)) [
    | inr (it, h) ↦ (s, rw (insert, contains, h) refl, w, refl, rw (contains, h) refl)
    | inl h ↦
        let pushed : BoundedSet T = record s { links = push_back eq itself s.links v } in
        let (linked', longer) = push_back_lem eq itself law s.links v w.linked h in
        let (linked'', kept, same) = shrunk 1 pushed linked' (
          omega (
            arith,
            w.bounded,
            ap length longer,
            length-append (as_vector s) (v ∷ []),
            length-elements s.links.nodes,
            length-elements pushed.links.nodes,
          )) in
        (
          evict_from eq 1 pushed,
          rw (insert, contains, h) refl,
          kept-IsValid (evict_from eq 1 pushed) s.max_size (as_vector pushed) linked'' same kept
              w.positive,
          same,
          rw (contains, h) (kept ∙ ap (newest s.max_size) longer),
        )
  ]

  -- On a valid set, `erase` says whether the value was there, drops it and keeps the order.
  pub erase-remove :
      (s : BoundedSet T) (v : T)
      → IsValid s
      → (s' : BoundedSet T) × (erase eq s v ≡ (s', contains eq s v))
        × IsValid s'
        × (s'.max_size ≡ s.max_size)
        × (as_vector s' ≡ remove eq itself (as_vector s) v)
  unfolding erase
  erase-remove s v w = elim (Option-cases (find eq itself s.links v)) [
    | inl h ↦ (
      s,
      rw (erase, contains, h) refl,
      w,
      refl,
      sym (remove_absent eq itself (as_vector s) v (find-none eq itself s.links v w.linked h)),
    )
    | inr (it, h) ↦
        let (linked', kept) = erase_node_lem eq itself law s.links v it w.linked h in
        (
          record s { links = erase_node eq itself s.links v it },
          rw (erase, contains, h) refl,
          record {
            linked = linked';
            bounded = omega (
              arith,
              w.bounded,
              ap length kept,
              length-remove-le eq itself (as_vector s) v,
              length-elements s.links.nodes,
              length-elements (erase_node eq itself s.links v it).nodes,
            );
            positive = w.positive;
          },
          refl,
          kept,
        )
  ]

  -- On a valid set, `reserve` raises for capacity 0; else it succeeds, the set keeps the newest
  -- elements that the new capacity holds, and is valid.
  pub reserve-newest :
      (s : BoundedSet T) (n : ℕ)
      → IsValid s
      → (reserve eq s 0 ≡ throw invalid_argument)
        × ((s' : BoundedSet T) × (reserve eq s (suc n) ≡ ok s')
            × IsValid s'
            × (s'.max_size ≡ suc n)
            × (as_vector s' ≡ newest (suc n) (as_vector s)))
  unfolding reserve shrink_to_fit
  reserve-newest s n w =
      let smaller : BoundedSet T = record s { max_size = suc n } in
      let (linked', kept, same) = shrunk (size s) smaller w.linked (omega arith) in
      (
        refl,
        (
          shrink_to_fit eq smaller,
          rw (ne→== (suc n) 0 (omega arith)) refl,
          kept-IsValid (shrink_to_fit eq smaller) (suc n) (as_vector s) linked' same kept
              (omega arith),
          same,
          kept,
        ),
      )
