-- ===== src/Linked/Hints.antt =====
-- A node added to a list with its map before another, where the two agree.
use av_utils.Base.{
  Bool, List, Option, [], ap, arith, if◌then◌else◌, insert_at, length, none, refl, some, suc, sym,
  true, ℕ, ◌++◌, ◌<◌, ◌==◌, ◌∙◌, ◌∷◌, ◌≡◌, ◌≢◌,
}
use av_utils.Linked.{
  Linked, element_at, elements, find, insert_before, link_before, push_at, unlink,
}
use av_utils.Linked.Nodes.{
  IsEquivalence, IsLinked, address_of, below, below-element_at, below-suc, distinct,
}
use av_utils.Linked.Laws.{map_erase_absent, map_find-map_erase}
use av_utils.InsertionOrderedMap.{}
use av_utils.InsertionOrderedMap.Entries.{}

module _ {ℓ} {E : Type ℓ} where
  -- The index of a node; without one, or for one that is not there, the end.
  abbrev index_of : List (ℕ × E) → ℕ → ℕ
  index_of [] it = 0
  index_of (n ∷ l) it = if n.0 == it then 0 else suc (index_of l it)

  abbrev pub position : List (ℕ × E) → Option ℕ → ℕ
  position l none = length l
  position l (some it) = index_of l it

  -- At the end, a new node stands before its own address.
  insert_end :
      (l : List (ℕ × E)) (n : ℕ × E) → element_at l n.0 ≡ none → l ++ n ∷ [] ≡ insert_before l n.0 n
  insert_end [] n h = refl
  insert_end (m ∷ l) n h = ground (arith, insert_end l n)

  index_end : (l : List (ℕ × E)) (a : ℕ) → element_at l a ≡ none → length l ≡ index_of l a
  index_end [] a h = refl
  index_end (m ∷ l) a h = ground (arith, index_end l a)

  elements-insert_before :
      (l : List (ℕ × E)) (it : ℕ) (n : ℕ × E)
      → elements (insert_before l it n) ≡ insert_at (elements l) (index_of l it) n.1
  elements-insert_before [] it n = refl
  elements-insert_before (m ∷ l) it n = ground (arith, elements-insert_before l it n)

  below-insert_before :
      (k : ℕ) (l : List (ℕ × E)) (it : ℕ) (n : ℕ × E)
      → below k l ≡ true
      → n.0 < k
      → below k (insert_before l it n) ≡ true
  below-insert_before k [] it n b h = ground arith
  below-insert_before k (m ∷ l) it n b h = ground (arith, below-insert_before k l it n)

  length-insert_before :
      (l : List (ℕ × E)) (it : ℕ) (n : ℕ × E) → length (insert_before l it n) ≡ suc (length l)
  length-insert_before [] it n = refl
  length-insert_before (m ∷ l) it n = ground (arith, length-insert_before l it n)

  unlink-insert_before :
      (l : List (ℕ × E)) (it : ℕ) (n : ℕ × E)
      → element_at l n.0 ≡ none
      → unlink (insert_before l it n) n.0 ≡ l
  unlink-insert_before [] it n h = ground arith
  unlink-insert_before (m ∷ l) it n h = ground (arith, unlink-insert_before l it n)

  -- A new node taken away again.
  pub unlink-link_before :
      (l : List (ℕ × E)) (hint : Option ℕ) (n : ℕ × E)
      → element_at l n.0 ≡ none
      → unlink (link_before l hint n) n.0 ≡ l
  unlink-link_before l none n h = rw (insert_end l n h) (unlink-insert_before l n.0 n h)
  unlink-link_before l (some it) n h = unlink-insert_before l it n h

  element_at-insert_before :
      (l : List (ℕ × E)) (it : ℕ) (n : ℕ × E) (b : ℕ)
      → element_at l b ≡ none
      → n.0 ≢ b
      → element_at (insert_before l it n) b ≡ none
  element_at-insert_before [] it n b h d = ground arith
  element_at-insert_before (m ∷ l) it n b h d = ground (arith, element_at-insert_before l it n b)

module _ {ℓ} {K E : Type ℓ} (eq : K → K → Bool) (key : E → K) (law : IsEquivalence eq) where
  open law use {same_self, swap, through}

  address_of-insert_before :
      (l : List (ℕ × E)) (it : ℕ) (n : ℕ × E) (q : K)
      → address_of eq key l (key n.1) ≡ none
      → address_of eq key (insert_before l it n) q
        ≡ (if eq (key n.1) q then some n.0 else address_of eq key l q)
  address_of-insert_before [] it n q h = refl
  address_of-insert_before (m ∷ l) it n q h =
      ground
        (arith, address_of-insert_before l it n q, through (key m.1) q (key n.1), swap (key n.1) q)

  distinct-insert_before :
      (l : List (ℕ × E)) (it : ℕ) (n : ℕ × E)
      → distinct eq key l ≡ true
      → element_at l n.0 ≡ none
      → address_of eq key l (key n.1) ≡ none
      → distinct eq key (insert_before l it n) ≡ true
  distinct-insert_before [] it n d f h = refl
  distinct-insert_before (m ∷ l) it n d f h = ground (
    arith,
    distinct-insert_before l it n,
    address_of-insert_before l it n (key m.1),
    element_at-insert_before l it n m.0,
    swap (key n.1) (key m.1),
  )

  push_before :
      (l : Linked K E) (it : ℕ) (e : E)
      → IsLinked eq key l
      → find eq key l (key e) ≡ none
      → IsLinked eq key (push_at eq key l (some it) e)
        × (elements (push_at eq key l (some it) e).nodes
            ≡ insert_at (elements l.nodes) (index_of l.nodes it) e)
  unfolding push_at
  push_before l it e w h =
      let new : address_of eq key l.nodes (key e) ≡ none = sym (w.indexed (key e)) ∙ h in
      let fresh = below-element_at l.next l.nodes l.next w.old (omega arith) in
      (
        record {
          indexed = λ q. ground (
            arith,
            w.indexed q,
            map_find-map_erase eq law l.index (key e) q,
            address_of-insert_before l.nodes it (l.next, e) q new,
          );
          apart = distinct-insert_before l.nodes it (l.next, e) w.apart fresh new;
          old =
              below-insert_before (suc l.next) l.nodes it (l.next, e)
                (below-suc l.next l.nodes w.old) (omega arith);
          keyed = ground (arith, w.keyed, h, map_erase_absent eq law l.index (key e) h);
          counted = omega (
            arith,
            ap length (map_erase_absent eq law l.index (key e) h),
            w.counted,
            length-insert_before l.nodes it (l.next, e),
          );
        },
        elements-insert_before l.nodes it (l.next, e),
      )

  -- A node of a new key before a hint.
  pub push_at_lem :
      (l : Linked K E) (hint : Option ℕ) (e : E)
      → IsLinked eq key l
      → find eq key l (key e) ≡ none
      → IsLinked eq key (push_at eq key l hint e)
        × (elements (push_at eq key l hint e).nodes
            ≡ insert_at (elements l.nodes) (position l.nodes hint) e)
  unfolding push_at
  push_at_lem l (some it) e w h = push_before l it e w h
  push_at_lem l none e w h =
      let fresh = below-element_at l.next l.nodes l.next w.old (omega arith) in
      rw
        (
          push_at,
          link_before,
          position,
          insert_end l.nodes (l.next, e) fresh,
          index_end l.nodes l.next fresh,
        )
        (push_before l l.next e w h)
