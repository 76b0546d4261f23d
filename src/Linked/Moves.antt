-- ===== src/Linked/Moves.antt =====
-- Nodes moved to an end of a list with its map and elements written to, where the two agree.
use av_utils.Base.{
  ==→eq, Bool, Bool-cases, List, [], ap, arith, inl, inr, length-append, lt→ltb, none, refl, some,
  sym, true, ℕ, ◌++◌, ◌<◌, ◌∙◌, ◌∷◌, ◌≡◌,
}
use av_utils.Linked.{
  Linked, element_at, elements, find, is_first, is_last, move_to_back, move_to_front, splice_back,
  splice_front, unlink,
}
use av_utils.Linked.Nodes.{
  IsEquivalence, IsLinked, address_of, below, below-unlink, distinct, distinct-unlink,
  element_at-address_of, element_at-lookup, elements-append, is_some, length-unlink, lookup, remove,
  unlink-remove,
}
use av_utils.Linked.Laws.{address_of-push, address_of-same, address_of-unlink, distinct-push}

module _ {ℓ} {E : Type ℓ} where
  below-at :
      (n : ℕ) (l : List (ℕ × E)) (a : ℕ) (e : E)
      → below n l ≡ true
      → element_at l a ≡ some e
      → a < n
  below-at n [] a e h p = cc
  below-at n (m ∷ l) a e h p = ground (arith, below-at n l a e)

  below-push_old :
      (n : ℕ) (l : List (ℕ × E)) (a : ℕ) (e : E)
      → below n l ≡ true
      → a < n
      → below n (l ++ (a, e) ∷ []) ≡ true
  below-push_old n [] a e h p = ground arith
  below-push_old n (m ∷ l) a e h p = ground (arith, below-push_old n l a e)

module _ {ℓ} {E : Type ℓ} where
  -- Moving the first node to the front changes nothing.
  first_stays : (l : List (ℕ × E)) (it : ℕ) → is_first l it ≡ true → splice_front l it ≡ l
  first_stays [] it h = refl
  first_stays (n ∷ l) it h = rw (splice_front, h, h) (ap (λ a. (a, n.1) ∷ l) (sym (==→eq n.0 it h)))

  pub move_to_front-splice_front :
      (l : List (ℕ × E)) (it : ℕ) → move_to_front l it ≡ splice_front l it
  unfolding move_to_front
  move_to_front-splice_front l it = elim (Bool-cases (is_first l it)) [
    | inr h ↦ rw (move_to_front, h) refl
    | inl h ↦ rw (move_to_front, h) (sym (first_stays l it h))
  ]

module _ {ℓ} {K E : Type ℓ} (eq : K → K → Bool) (key : E → K) (law : IsEquivalence eq) where
  open law use {same_self, swap, through}

  address_of-key :
      (l : List (ℕ × E)) (k : K) (a : ℕ) (e : E)
      → distinct eq key l ≡ true
      → address_of eq key l k ≡ some a
      → element_at l a ≡ some e
      → eq (key e) k ≡ true
  address_of-key [] k a e d h p = cc
  address_of-key (m ∷ l) k a e d h p =
      ground (arith, address_of-key l k a e, element_at-address_of eq key l k a)

  element_at-unlink :
      (l : List (ℕ × E)) (a : ℕ) → distinct eq key l ≡ true → element_at (unlink l a) a ≡ none
  element_at-unlink [] a d = refl
  element_at-unlink (m ∷ l) a d = ground (arith, element_at-unlink l a)

  pub address_of-element_at :
      (l : List (ℕ × E)) (a : ℕ) (e : E)
      → distinct eq key l ≡ true
      → element_at l a ≡ some e
      → address_of eq key l (key e) ≡ some a
  address_of-element_at [] a e d h = cc
  address_of-element_at (m ∷ l) a e d h = ground (
    arith,
    address_of-element_at l a e,
    same_self (key e),
    address_of-same eq key law l (key m.1) (key e),
  )

  last_there : (l : List (ℕ × E)) (it : ℕ) → is_last l it ≡ true → is_some (element_at l it) ≡ true
  last_there [] it h = cc
  last_there (m ∷ []) it h = ground arith
  last_there (m ∷ n ∷ l) it h = ground (arith, last_there (n ∷ l) it h)

  -- Moving the last node to the back changes nothing.
  last_stays :
      (l : List (ℕ × E)) (it : ℕ)
      → distinct eq key l ≡ true
      → is_last l it ≡ true
      → splice_back l it ≡ l
  last_stays [] it d h = refl
  last_stays (m ∷ []) it d h =
      rw (splice_back, h, h) (ap (λ a. (a, m.1) ∷ []) (sym (==→eq m.0 it h)))
  last_stays (m ∷ n ∷ l) it d h = ground (arith, last_stays (n ∷ l) it, last_there (n ∷ l) it)

  pub move_to_back-splice_back :
      (l : List (ℕ × E)) (it : ℕ) → distinct eq key l ≡ true → move_to_back l it ≡ splice_back l it
  unfolding move_to_back
  move_to_back-splice_back l it d = elim (Bool-cases (is_last l it)) [
    | inr h ↦ rw (move_to_back, h) refl
    | inl h ↦ rw (move_to_back, h) (sym (last_stays l it d h))
  ]

  module _ (l : Linked K E) (k : K) (a : ℕ) (e : E) (w : IsLinked eq key l)
      (h : find eq key l k ≡ some a) (p : lookup eq key (elements l.nodes) k ≡ some e) where
    there : address_of eq key l.nodes k ≡ some a
    there = sym (w.indexed k) ∙ h

    pub found-element : element_at l.nodes a ≡ some e
    found-element = element_at-lookup eq key l.nodes k a w.apart there ∙ p

    pub element_at-splice_front : element_at (splice_front l.nodes a) a ≡ some e
    element_at-splice_front = rw (splice_front, found-element) (ground arith)

    has_key : eq (key e) k ≡ true
    has_key = address_of-key l.nodes k a e w.apart there found-element

    gone : (q : K) → eq k q ≡ true → address_of eq key (unlink l.nodes a) q ≡ none
    gone q same = address_of-unlink eq key law l.nodes k a q w.apart there ∙ rw same refl

    -- The node of a key moved to the front.
    pub splice_front_lem :
        IsLinked eq key (record l { nodes = splice_front l.nodes a })
        × (elements (splice_front l.nodes a) ≡ e ∷ remove eq key (elements l.nodes) k)
    splice_front_lem =
        rw (splice_front, found-element)
          (
            record {
              indexed = λ q. ground (
                arith,
                w.indexed q,
                there,
                has_key,
                address_of-unlink eq key law l.nodes k a q w.apart there,
                address_of-same eq key law l.nodes k q,
                through (key e) k q,
                swap (key e) k,
              );
              apart = ground (
                arith,
                distinct-unlink eq key l.nodes a w.apart,
                element_at-unlink l.nodes a w.apart,
                gone (key e),
                has_key,
                swap (key e) k,
              );
              old = ground (
                arith,
                below-unlink l.next l.nodes a w.old,
                lt→ltb a l.next (below-at l.next l.nodes a e w.old found-element),
              );
              keyed = w.keyed;
              counted = omega (arith, w.counted, length-unlink l.nodes a (rw found-element refl));
            },
            ap (◌∷◌ e) (unlink-remove eq key l.nodes k a w.apart there),
          )

    -- The node of a key moved to the back.
    pub splice_back_lem :
        IsLinked eq key (record l { nodes = splice_back l.nodes a })
        × (elements (splice_back l.nodes a) ≡ remove eq key (elements l.nodes) k ++ e ∷ [])
    splice_back_lem =
        rw (splice_back, found-element)
          (
            record {
              indexed = λ q. ground (
                arith,
                w.indexed q,
                there,
                has_key,
                address_of-push eq key law (unlink l.nodes a) a e q,
                address_of-unlink eq key law l.nodes k a q w.apart there,
                address_of-same eq key law l.nodes k q,
                through (key e) k q,
                swap (key e) k,
              );
              apart =
                  distinct-push eq key law (unlink l.nodes a) a e
                    (distinct-unlink eq key l.nodes a w.apart) (element_at-unlink l.nodes a w.apart)
                    (gone (key e) (swap k (key e) ∙ has_key));
              old =
                  below-push_old l.next (unlink l.nodes a) a e (below-unlink l.next l.nodes a w.old)
                    (below-at l.next l.nodes a e w.old found-element);
              keyed = w.keyed;
              counted = omega (
                arith,
                w.counted,
                length-unlink l.nodes a (rw found-element refl),
                length-append (unlink l.nodes a) ((a, e) ∷ []),
              );
            },
            elements-append (unlink l.nodes a) ((a, e) ∷ [])
                ∙ ap (λ es. es ++ e ∷ []) (unlink-remove eq key l.nodes k a w.apart there),
          )
