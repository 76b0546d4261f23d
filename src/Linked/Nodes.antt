-- ===== src/Linked/Nodes.antt =====
-- Lists of nodes with distinct keys and addresses: what the map must say of them.
use av_utils.Base.{
  Bool, List, Option, [], ap, arith, false, if◌then◌else◌, length, ltb, none, not, refl, some, suc,
  true, ℕ, ◌&&◌, ◌++◌, ◌==◌, ◌∙◌, ◌∷◌, ◌≡◌, ◌≤◌,
}
use av_utils.Linked.{Linked, element_at, elements, find, map_find, unlink}

-- What `KeyEqual` must be.
pub record IsEquivalence {ℓ} {K : Type ℓ} (eq : K → K → Bool) : Type ℓ where
  pub same_self : (a : K) → eq a a ≡ true
  pub swap : (a b : K) → eq a b ≡ eq b a
  pub through : (a b c : K) → eq a b ≡ true → eq a c ≡ eq b c

-- Equality of numbers.
pub ==-IsEquivalence : IsEquivalence ◌==◌
==-IsEquivalence = record {
  same_self = λ a. ground arith;
  swap = λ a b. ground arith;
  through = λ a b c h. ground arith;
}

abbrev pub is_some {ℓ} : {A : Type ℓ} → Option A → Bool
is_some none = false
is_some (some a) = true

module _ {ℓ} {E : Type ℓ} where
  -- All addresses are below `n`.
  abbrev pub below : ℕ → List (ℕ × E) → Bool
  below n [] = true
  below n (m ∷ l) = ltb m.0 n && below n l

  pub below-element_at :
      (n : ℕ) (l : List (ℕ × E)) (a : ℕ) → below n l ≡ true → n ≤ a → element_at l a ≡ none
  below-element_at n [] a h p = refl
  below-element_at n (m ∷ l) a h p = ground (arith, below-element_at n l a)

  pub below-suc : (n : ℕ) (l : List (ℕ × E)) → below n l ≡ true → below (suc n) l ≡ true
  below-suc n [] h = refl
  below-suc n (m ∷ l) h = ground (arith, below-suc n l)

  pub below-push :
      (n : ℕ) (l : List (ℕ × E)) (e : E)
      → below n l ≡ true
      → below (suc n) (l ++ (n, e) ∷ []) ≡ true
  below-push n [] e h = ground arith
  below-push n (m ∷ l) e h = ground (arith, below-push n l e)

  pub length-unlink :
      (l : List (ℕ × E)) (a : ℕ)
      → is_some (element_at l a) ≡ true
      → suc (length (unlink l a)) ≡ length l
  length-unlink [] a h = cc
  length-unlink (m ∷ l) a h = ground (arith, length-unlink l a)

  pub below-unlink :
      (n : ℕ) (l : List (ℕ × E)) (a : ℕ) → below n l ≡ true → below n (unlink l a) ≡ true
  below-unlink n [] a h = refl
  below-unlink n (m ∷ l) a h = ground (arith, below-unlink n l a)

  pub length-elements : (l : List (ℕ × E)) → length (elements l) ≡ length l
  length-elements [] = refl
  length-elements (n ∷ l) = ap suc (length-elements l)

  pub elements-append : (l m : List (ℕ × E)) → elements (l ++ m) ≡ elements l ++ elements m
  elements-append [] m = refl
  elements-append (n ∷ l) m = ap (◌∷◌ n.1) (elements-append l m)

-- No key of the map twice.
abbrev pub unique {ℓ} : {K : Type ℓ} → (K → K → Bool) → List (K × ℕ) → Bool
unique eq [] = true
unique eq (p ∷ m) = not (is_some (map_find eq m p.0)) && unique eq m

module _ {ℓ} {K E : Type ℓ} (eq : K → K → Bool) (key : E → K) where
  -- The address of the node with a key.
  abbrev pub address_of : List (ℕ × E) → K → Option ℕ
  address_of [] k = none
  address_of (n ∷ l) k = if eq (key n.1) k then some n.0 else address_of l k

  -- The element with a key.
  abbrev pub lookup : List E → K → Option E
  lookup [] k = none
  lookup (e ∷ es) k = if eq (key e) k then some e else lookup es k

  -- The elements without the one with a key.
  abbrev pub remove : List E → K → List E
  remove [] k = []
  remove (e ∷ es) k = if eq (key e) k then es else e ∷ remove es k

  pub remove_absent : (es : List E) (k : K) → lookup es k ≡ none → remove es k ≡ es
  remove_absent [] k h = refl
  remove_absent (e ∷ es) k h = ground (arith, remove_absent es k)

  pub length-remove :
      (es : List E) (k : K) (e : E) → lookup es k ≡ some e → suc (length (remove es k)) ≡ length es
  length-remove [] k e h = cc
  length-remove (f ∷ es) k e h = ground (arith, length-remove es k e)

  pub length-remove-le : (es : List E) (k : K) → length (remove es k) ≤ length es
  length-remove-le [] k = omega arith
  length-remove-le (e ∷ es) k = ground (arith, length-remove-le es k)

  -- No key and no address twice.
  abbrev pub distinct : List (ℕ × E) → Bool
  distinct [] = true
  distinct (n ∷ l) =
      not (is_some (address_of l (key n.1))) && (not (is_some (element_at l n.0)) && distinct l)

  pub record IsLinked (l : Linked K E) : Type ℓ where
    pub indexed : (k : K) → map_find eq l.index k ≡ address_of l.nodes k
    pub apart : distinct l.nodes ≡ true
    pub old : below l.next l.nodes ≡ true
    pub keyed : unique eq l.index ≡ true
    pub counted : length l.index ≡ length l.nodes

  pub address_of-lookup :
      (l : List (ℕ × E)) (k : K) → is_some (address_of l k) ≡ is_some (lookup (elements l) k)
  address_of-lookup [] k = refl
  address_of-lookup (n ∷ l) k = ground (arith, address_of-lookup l k)

  pub element_at-address_of :
      (l : List (ℕ × E)) (k : K) (a : ℕ) → address_of l k ≡ some a → is_some (element_at l a) ≡ true
  element_at-address_of [] k a h = cc
  element_at-address_of (n ∷ l) k a h = ground (arith, element_at-address_of l k a)

  pub find-lookup :
      (l : Linked K E) (k : K)
      → IsLinked l
      → is_some (find eq key l k) ≡ is_some (lookup (elements l.nodes) k)
  find-lookup l k w = ap is_some (w.indexed k) ∙ address_of-lookup l.nodes k

  pub find-none :
      (l : Linked K E) (k : K)
      → IsLinked l
      → find eq key l k ≡ none
      → lookup (elements l.nodes) k ≡ none
  find-none l k w h = ground (arith, find-lookup l k w)

  pub lookup-find :
      (l : Linked K E) (k : K)
      → IsLinked l
      → lookup (elements l.nodes) k ≡ none
      → find eq key l k ≡ none
  lookup-find l k w h = ground (arith, find-lookup l k w)

  -- The node that the map finds holds the element with the key.
  pub element_at-lookup :
      (l : List (ℕ × E)) (k : K) (a : ℕ)
      → distinct l ≡ true
      → address_of l k ≡ some a
      → element_at l a ≡ lookup (elements l) k
  element_at-lookup [] k a d h = cc
  element_at-lookup (n ∷ l) k a d h =
      ground (arith, element_at-lookup l k a, element_at-address_of l k a)

  pub unlink-remove :
      (l : List (ℕ × E)) (k : K) (a : ℕ)
      → distinct l ≡ true
      → address_of l k ≡ some a
      → elements (unlink l a) ≡ remove (elements l) k
  unlink-remove [] k a d h = refl
  unlink-remove (n ∷ l) k a d h = ground (arith, unlink-remove l k a, element_at-address_of l k a)

  address_of-unlink_absent :
      (l : List (ℕ × E)) (a : ℕ) (q : K) → address_of l q ≡ none → address_of (unlink l a) q ≡ none
  address_of-unlink_absent [] a q h = refl
  address_of-unlink_absent (n ∷ l) a q h = ground (arith, address_of-unlink_absent l a q)

  element_at-unlink_absent :
      (l : List (ℕ × E)) (a b : ℕ) → element_at l b ≡ none → element_at (unlink l a) b ≡ none
  element_at-unlink_absent [] a b h = refl
  element_at-unlink_absent (n ∷ l) a b h = ground (arith, element_at-unlink_absent l a b)

  pub distinct-unlink :
      (l : List (ℕ × E)) (a : ℕ) → distinct l ≡ true → distinct (unlink l a) ≡ true
  distinct-unlink [] a d = refl
  distinct-unlink (n ∷ l) a d = ground (
    arith,
    distinct-unlink l a,
    address_of-unlink_absent l a (key n.1),
    element_at-unlink_absent l a n.0,
  )
