-- ===== src/Linked/Writes.antt =====
-- Elements written to through the map of a list, where the two agree.
use av_utils.Base.{
  Bool, List, [], arith, if◌then◌else◌, length, none, refl, some, sym, true, ℕ, ◌∙◌, ◌∷◌, ◌≡◌,
}
use av_utils.Linked.{Linked, assign, element_at, elements, find}
use av_utils.Linked.Nodes.{IsLinked, address_of, below, distinct, element_at-address_of}

module _ {ℓ} {E : Type ℓ} where
  below-assign :
      (n : ℕ) (f : E → E) (l : List (ℕ × E)) (a : ℕ)
      → below n l ≡ true
      → below n (assign f l a) ≡ true
  below-assign n f [] a h = refl
  below-assign n f (m ∷ l) a h = ground (arith, below-assign n f l a)

  length-assign : (f : E → E) (l : List (ℕ × E)) (a : ℕ) → length (assign f l a) ≡ length l
  length-assign f [] a = refl
  length-assign f (m ∷ l) a = ground (arith, length-assign f l a)

  element_at-assign :
      (f : E → E) (l : List (ℕ × E)) (a b : ℕ)
      → element_at l b ≡ none
      → element_at (assign f l a) b ≡ none
  element_at-assign f [] a b h = refl
  element_at-assign f (m ∷ l) a b h = ground (arith, element_at-assign f l a b)

module _ {ℓ} {K E : Type ℓ} (eq : K → K → Bool) (key : E → K) where
  -- The elements with `f` applied to the one with a key.
  abbrev pub update : (E → E) → List E → K → List E
  update f [] k = []
  update f (e ∷ es) k = if eq (key e) k then f e ∷ es else e ∷ update f es k

  module _ (f : E → E) (kept : (e : E) → key (f e) ≡ key e) where
    address_of-assign :
        (l : List (ℕ × E)) (a : ℕ) (q : K)
        → address_of eq key (assign f l a) q ≡ address_of eq key l q
    address_of-assign [] a q = refl
    address_of-assign (m ∷ l) a q = ground (arith, address_of-assign l a q, kept m.1)

    distinct-assign :
        (l : List (ℕ × E)) (a : ℕ)
        → distinct eq key l ≡ true
        → distinct eq key (assign f l a) ≡ true
    distinct-assign [] a d = refl
    distinct-assign (m ∷ l) a d = ground (
      arith,
      distinct-assign l a,
      address_of-assign l a (key m.1),
      element_at-assign f l a m.0,
      kept m.1,
    )

    elements-assign :
        (l : List (ℕ × E)) (k : K) (a : ℕ)
        → distinct eq key l ≡ true
        → address_of eq key l k ≡ some a
        → elements (assign f l a) ≡ update f (elements l) k
    elements-assign [] k a d h = refl
    elements-assign (m ∷ l) k a d h =
        ground (arith, elements-assign l k a, element_at-address_of eq key l k a)

    -- The element of a key written to, its key kept.
    pub assign_lem :
        (l : Linked K E) (k : K) (a : ℕ)
        → IsLinked eq key l
        → find eq key l k ≡ some a
        → IsLinked eq key (record l { nodes = assign f l.nodes a })
          × (elements (assign f l.nodes a) ≡ update f (elements l.nodes) k)
    assign_lem l k a w h = (
      record {
        indexed = λ q. w.indexed q ∙ sym (address_of-assign l.nodes a q);
        apart = distinct-assign l.nodes a w.apart;
        old = below-assign l.next f l.nodes a w.old;
        keyed = w.keyed;
        counted = w.counted ∙ sym (length-assign f l.nodes a);
      },
      elements-assign l.nodes k a w.apart (sym (w.indexed k) ∙ h),
    )
