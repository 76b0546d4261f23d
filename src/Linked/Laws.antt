-- ===== src/Linked/Laws.antt =====
-- What the changes of a list with its map do, where the two agree.
use av_utils.Base.{
  Bool, List, Option, [], ap, arith, if◌then◌else◌, length, length-append, none, refl, some, suc,
  sym, true, ℕ, ◌++◌, ◌==◌, ◌∙◌, ◌∷◌, ◌≡◌,
}
use av_utils.Linked.{
  Linked, element_at, elements, erase_node, find, map_erase, map_find, push_back, push_front,
  unlink,
}
use av_utils.Linked.Nodes.{
  IsEquivalence, IsLinked, address_of, below-element_at, below-push, below-suc, below-unlink,
  distinct, distinct-unlink, element_at-address_of, elements-append, is_some, length-unlink, remove,
  unique, unlink-remove,
}

module _ {ℓ} {K : Type ℓ} (eq : K → K → Bool) (law : IsEquivalence eq) where
  open law use {same_self, swap, through}

  pub map_find-map_erase :
      (m : List (K × ℕ)) (k q : K)
      → map_find eq (map_erase eq m k) q ≡ (if eq k q then none else map_find eq m q)
  map_find-map_erase [] k q = ground arith
  map_find-map_erase (p ∷ m) k q =
      ground
        (arith, map_find-map_erase m k q, through k q p.0, through p.0 k q, swap p.0 k, swap p.0 q)

  map_find-same : (m : List (K × ℕ)) (a b : K) → eq a b ≡ true → map_find eq m a ≡ map_find eq m b
  map_find-same [] a b h = refl
  map_find-same (p ∷ m) a b h =
      ground (arith, map_find-same m a b h, swap p.0 a, swap p.0 b, through a b p.0)

  pub map_erase_absent : (m : List (K × ℕ)) (k : K) → map_find eq m k ≡ none → map_erase eq m k ≡ m
  map_erase_absent [] k h = refl
  map_erase_absent (p ∷ m) k h = ground (arith, map_erase_absent m k)

  pub unique-map_erase :
      (m : List (K × ℕ)) (k : K) → unique eq m ≡ true → unique eq (map_erase eq m k) ≡ true
  unique-map_erase [] k h = refl
  unique-map_erase (p ∷ m) k h = ground (arith, unique-map_erase m k, map_find-map_erase m k p.0)

  pub length-map_erase :
      (m : List (K × ℕ)) (k : K)
      → unique eq m ≡ true
      → is_some (map_find eq m k) ≡ true
      → suc (length (map_erase eq m k)) ≡ length m
  length-map_erase [] k u h = cc
  length-map_erase (p ∷ m) k u h =
      ground (arith, length-map_erase m k, map_find-same m p.0 k, map_erase_absent m k)

module _ {ℓ} {K E : Type ℓ} (eq : K → K → Bool) (key : E → K) (law : IsEquivalence eq) where
  open law use {same_self, swap, through}

  pub address_of-push :
      (l : List (ℕ × E)) (n : ℕ) (e : E) (q : K)
      → address_of eq key (l ++ (n, e) ∷ []) q ≡ elim (address_of eq key l q) as (λ _. Option ℕ) [
        | some a ↦ some a
        | none ↦ if eq (key e) q then some n else none
      ]
  address_of-push [] n e q = refl
  address_of-push (m ∷ l) n e q = ground (arith, address_of-push l n e q)

  pub address_of-same :
      (l : List (ℕ × E)) (k q : K) → eq k q ≡ true → address_of eq key l k ≡ address_of eq key l q
  address_of-same [] k q h = refl
  address_of-same (m ∷ l) k q h = ground (
    arith,
    address_of-same l k q h,
    through (key m.1) k q,
    swap (key m.1) k,
    swap (key m.1) q,
    through k q (key m.1),
  )

  element_at-push :
      (l : List (ℕ × E)) (n : ℕ) (e : E) (b : ℕ)
      → element_at (l ++ (n, e) ∷ []) b ≡ elim (element_at l b) as (λ _. Option E) [
        | some x ↦ some x
        | none ↦ if n == b then some e else none
      ]
  element_at-push [] n e b = refl
  element_at-push (m ∷ l) n e b = ground (arith, element_at-push l n e b)

  pub distinct-push :
      (l : List (ℕ × E)) (n : ℕ) (e : E)
      → distinct eq key l ≡ true
      → element_at l n ≡ none
      → address_of eq key l (key e) ≡ none
      → distinct eq key (l ++ (n, e) ∷ []) ≡ true
  distinct-push [] n e d b h = refl
  distinct-push (m ∷ l) n e d b h = ground (
    arith,
    distinct-push l n e,
    address_of-push l n e (key m.1),
    element_at-push l n e m.0,
    swap (key m.1) (key e),
  )

  -- A node of a new key at the back.
  pub push_back_lem :
      (l : Linked K E) (e : E)
      → IsLinked eq key l
      → find eq key l (key e) ≡ none
      → IsLinked eq key (push_back eq key l e)
        × (elements (push_back eq key l e).nodes ≡ elements l.nodes ++ e ∷ [])
  unfolding push_back
  push_back_lem l e w h =
      let new : address_of eq key l.nodes (key e) ≡ none = sym (w.indexed (key e)) ∙ h in
      (
        record {
          indexed = λ q. ground (
            arith,
            w.indexed q,
            map_find-map_erase eq law l.index (key e) q,
            address_of-push l.nodes l.next e q,
            address_of-same l.nodes (key e) q,
          );
          apart =
              distinct-push l.nodes l.next e w.apart
                (below-element_at l.next l.nodes l.next w.old (omega arith)) new;
          old = below-push l.next l.nodes e w.old;
          keyed = ground (arith, w.keyed, h, map_erase_absent eq law l.index (key e) h);
          counted = omega (
            arith,
            ap length (map_erase_absent eq law l.index (key e) h),
            w.counted,
            length-append l.nodes ((l.next, e) ∷ []),
          );
        },
        elements-append l.nodes ((l.next, e) ∷ []),
      )

  pub find-push_back :
      (l : Linked K E) (e : E) → find eq key (push_back eq key l e) (key e) ≡ some l.next
  unfolding push_back
  find-push_back l e = rw (map_find, same_self (key e)) refl

  pub push_front_lem :
      (l : Linked K E) (e : E)
      → IsLinked eq key l
      → find eq key l (key e) ≡ none
      → IsLinked eq key (push_front eq key l e)
        × (elements (push_front eq key l e).nodes ≡ e ∷ elements l.nodes)
  unfolding push_front
  push_front_lem l e w h =
      let new : address_of eq key l.nodes (key e) ≡ none = sym (w.indexed (key e)) ∙ h in
      (
        record {
          indexed = λ q. ground (
            arith,
            w.indexed q,
            map_find-map_erase eq law l.index (key e) q,
            address_of-same l.nodes (key e) q,
          );
          apart = ground (arith, w.apart, new, below-element_at l.next l.nodes l.next w.old);
          old = ground (arith, below-suc l.next l.nodes w.old);
          keyed = ground (arith, w.keyed, h, map_erase_absent eq law l.index (key e) h);
          counted = omega (arith, ap length (map_erase_absent eq law l.index (key e) h), w.counted);
        },
        refl,
      )

  pub address_of-unlink :
      (l : List (ℕ × E)) (k : K) (a : ℕ) (q : K)
      → distinct eq key l ≡ true
      → address_of eq key l k ≡ some a
      → address_of eq key (unlink l a) q ≡ (if eq k q then none else address_of eq key l q)
  address_of-unlink [] k a q d h = cc
  address_of-unlink (m ∷ l) k a q d h = ground (
    arith,
    address_of-unlink l k a q,
    element_at-address_of eq key l k a,
    address_of-same l k q,
    address_of-same l (key m.1) q,
    through (key m.1) k q,
    swap (key m.1) k,
    through k (key m.1) q,
    swap (key m.1) q,
    through k q (key m.1),
  )

  -- The node of a key dropped.
  pub erase_node_lem :
      (l : Linked K E) (k : K) (a : ℕ)
      → IsLinked eq key l
      → find eq key l k ≡ some a
      → IsLinked eq key (erase_node eq key l k a)
        × (elements (erase_node eq key l k a).nodes ≡ remove eq key (elements l.nodes) k)
  unfolding erase_node
  erase_node_lem l k a w h =
      let there : address_of eq key l.nodes k ≡ some a = sym (w.indexed k) ∙ h in
      (
        record {
          indexed = λ q. ground (
            arith,
            w.indexed q,
            map_find-map_erase eq law l.index k q,
            address_of-unlink l.nodes k a q w.apart there,
          );
          apart = distinct-unlink eq key l.nodes a w.apart;
          old = below-unlink l.next l.nodes a w.old;
          keyed = unique-map_erase eq law l.index k w.keyed;
          counted = omega (
            arith,
            w.counted,
            length-map_erase eq law l.index k w.keyed (rw h refl),
            length-unlink l.nodes a (element_at-address_of eq key l.nodes k a there),
          );
        },
        unlink-remove eq key l.nodes k a w.apart there,
      )
