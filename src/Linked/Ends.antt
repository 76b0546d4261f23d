-- ===== src/Linked/Ends.antt =====
-- The first and the last node of a list with its map dropped, where the two agree.
use av_utils.Base.{
  Bool, List, [], ap, arith, drop_last, if◌then◌else◌, length, length-drop_last, none, refl, some,
  true, ℕ, ◌<◌, ◌∙◌, ◌∷◌, ◌≡◌,
}
use av_utils.Linked.{Linked, element_at, elements, last, map_erase, pop_back, pop_front}
use av_utils.Linked.Nodes.{IsEquivalence, IsLinked, address_of, below, distinct, is_some}
use av_utils.Linked.Laws.{address_of-same, length-map_erase, map_find-map_erase, unique-map_erase}

module _ {ℓ} {K E : Type ℓ} (eq : K → K → Bool) (key : E → K) (law : IsEquivalence eq) where
  open law use {same_self, swap, through}

  last-address_of :
      (l : List (ℕ × E)) (e : E)
      → last (elements l) ≡ some e
      → is_some (address_of eq key l (key e)) ≡ true
  last-address_of [] e h = cc
  last-address_of (m ∷ []) e h = ground (arith, h, same_self (key e))
  last-address_of (m ∷ n ∷ l) e h = ground (arith, last-address_of (n ∷ l) e h)

  address_of-drop_last :
      (l : List (ℕ × E)) (e : E) (q : K)
      → distinct eq key l ≡ true
      → last (elements l) ≡ some e
      → address_of eq key (drop_last l) q ≡ (if eq (key e) q then none else address_of eq key l q)
  address_of-drop_last [] e q d h = cc
  address_of-drop_last (m ∷ []) e q d h = ground arith
  address_of-drop_last (m ∷ n ∷ l) e q d h = ground (
    arith,
    address_of-drop_last (n ∷ l) e q,
    last-address_of (n ∷ l) e h,
    address_of-same eq key law (n ∷ l) (key e) (key m.1),
    through (key m.1) q (key e),
    swap (key e) q,
    swap (key m.1) (key e),
    through (key e) q (key m.1),
    swap (key m.1) q,
  )

  element_at-drop_last :
      (l : List (ℕ × E)) (a : ℕ) → element_at l a ≡ none → element_at (drop_last l) a ≡ none
  element_at-drop_last [] a h = refl
  element_at-drop_last (m ∷ []) a h = refl
  element_at-drop_last (m ∷ n ∷ l) a h = ground (arith, element_at-drop_last (n ∷ l) a)

  address_of-drop_last_absent :
      (l : List (ℕ × E)) (q : K)
      → address_of eq key l q ≡ none
      → address_of eq key (drop_last l) q ≡ none
  address_of-drop_last_absent [] q h = refl
  address_of-drop_last_absent (m ∷ []) q h = refl
  address_of-drop_last_absent (m ∷ n ∷ l) q h =
      ground (arith, address_of-drop_last_absent (n ∷ l) q)

  distinct-drop_last :
      (l : List (ℕ × E)) → distinct eq key l ≡ true → distinct eq key (drop_last l) ≡ true
  distinct-drop_last [] d = refl
  distinct-drop_last (m ∷ []) d = refl
  distinct-drop_last (m ∷ n ∷ l) d = ground (
    arith,
    distinct-drop_last (n ∷ l),
    address_of-drop_last_absent (n ∷ l) (key m.1),
    element_at-drop_last (n ∷ l) m.0,
  )

  below-drop_last : (n : ℕ) (l : List (ℕ × E)) → below n l ≡ true → below n (drop_last l) ≡ true
  below-drop_last n [] h = refl
  below-drop_last n (m ∷ []) h = refl
  below-drop_last n (m ∷ m' ∷ l) h = ground (arith, below-drop_last n (m' ∷ l))

  elements-drop_last : (l : List (ℕ × E)) → elements (drop_last l) ≡ drop_last (elements l)
  elements-drop_last [] = refl
  elements-drop_last (m ∷ []) = refl
  elements-drop_last (m ∷ n ∷ l) = ap (◌∷◌ m.1) (elements-drop_last (n ∷ l))

  length-some : (l : List (ℕ × E)) (e : E) → last (elements l) ≡ some e → 0 < length l
  length-some [] e h = cc
  length-some (m ∷ l) e h = omega arith

  -- The last node dropped.
  pub pop_back_lem :
      (l : Linked K E) (e : E)
      → IsLinked eq key l
      → last (elements l.nodes) ≡ some e
      → IsLinked eq key (pop_back eq key l)
        × (elements (pop_back eq key l).nodes ≡ drop_last (elements l.nodes))
  unfolding pop_back
  pop_back_lem l e w h =
      rw (pop_back, h)
        (
          record {
            indexed = λ q. ground (
              arith,
              w.indexed q,
              map_find-map_erase eq law l.index (key e) q,
              address_of-drop_last l.nodes e q w.apart h,
            );
            apart = distinct-drop_last l.nodes w.apart;
            old = below-drop_last l.next l.nodes w.old;
            keyed = unique-map_erase eq law l.index (key e) w.keyed;
            counted = omega (
              arith,
              w.counted,
              length-map_erase eq law l.index (key e) w.keyed
                  (ap is_some (w.indexed (key e)) ∙ last-address_of l.nodes e h),
              length-drop_last l.nodes,
              length-some l.nodes e h,
            );
          },
          elements-drop_last l.nodes,
        )

  pop_first :
      (m : ℕ × E) (l : List (ℕ × E)) (index : List (K × ℕ)) (next : ℕ)
      → IsLinked eq key (record { nodes = m ∷ l; index = index; next = next })
      → IsLinked eq key (record { nodes = l; index = map_erase eq index (key m.1); next = next })
  pop_first m l index next w = record {
    indexed = λ q. ground (
      arith,
      w.indexed q,
      w.apart,
      map_find-map_erase eq law index (key m.1) q,
      address_of-same eq key law l (key m.1) q,
    );
    apart = ground (arith, w.apart);
    old = ground (arith, w.old);
    keyed = unique-map_erase eq law index (key m.1) w.keyed;
    counted = omega (
      arith,
      w.counted,
      length-map_erase eq law index (key m.1) w.keyed
          (ap is_some (w.indexed (key m.1)) ∙ rw (address_of, same_self (key m.1)) refl),
    );
  }

  pop_some :
      (nodes : List (ℕ × E)) (index : List (K × ℕ)) (next : ℕ) (e : E) (es : List E)
      → IsLinked eq key (record { nodes = nodes; index = index; next = next })
      → elements nodes ≡ e ∷ es
      → IsLinked eq key (pop_front eq key (record { nodes = nodes; index = index; next = next }))
        × (elements (pop_front eq key (record { nodes = nodes; index = index; next = next })).nodes
            ≡ es)
  unfolding pop_front
  pop_some [] index next e es w h = cc
  pop_some (m ∷ l) index next e es w h = (pop_first m l index next w, ground arith)

  -- The first node dropped.
  pub pop_front_lem :
      (l : Linked K E) (e : E) (es : List E)
      → IsLinked eq key l
      → elements l.nodes ≡ e ∷ es
      → IsLinked eq key (pop_front eq key l) × (elements (pop_front eq key l).nodes ≡ es)
  pop_front_lem l e es w h = pop_some l.nodes l.index l.next e es w h
