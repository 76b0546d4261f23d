-- ===== src/SortedVectorMap/Order.antt =====
-- include/sorted_vector_map.h: what the searches by index find, element by element, and the order
-- of the entries.
use mathlib.Core.List.{IsChain}
use av_utils.Base.{
  Bool, Bool-cases, IsStrictWeak, List, Option, [], arith, erase_at, get_elem?, if◌then◌else◌, inl,
  inr, insert_at, none, not, partition_point, refl, some, true, ◌&&◌, ◌∷◌, ◌≡◌,
}
use av_utils.SortedVectorMap.{SortedVectorMap, held, matching}

module _ {ℓ} {K V : Type ℓ} (comp : K → K → Bool) where
  -- The entry with the key, in one pass.
  abbrev pub found : List (K × V) → K → Option (K × V)
  found [] key = none
  found (e ∷ es) key = if comp e.0 key then found es key else matching comp key (some e)

  abbrev pub inserted : List (K × V) → K × V → List (K × V)
  inserted [] v = v ∷ []
  inserted (e ∷ es) v =
      if comp e.0 v.0 then e ∷ inserted es v else (if comp v.0 e.0 then v ∷ e ∷ es else e ∷ es)

  abbrev pub removed : List (K × V) → K → List (K × V)
  removed [] key = []
  removed (e ∷ es) key =
      if comp e.0 key then e ∷ removed es key else (if comp key e.0 then e ∷ es else es)

  -- Strictly ascending keys.
  abbrev pub IsAscending : List (K × V) → Type ℓ
  IsAscending = IsChain λ e f. comp e.0 f.0 ≡ true

  matching-found :
      (es : List (K × V)) (key : K)
      → matching comp key (get_elem? es (partition_point (λ e. comp e.0 key) es)) ≡ found es key
  matching-found [] key = refl
  matching-found (e ∷ es) key = elim (Bool-cases (comp e.0 key)) [
    | inl h ↦ rw h (matching-found es key)
    | inr h ↦ rw h refl
  ]

  pub held-found : (m : SortedVectorMap K V) (key : K) → held comp m key ≡ found m.entries key
  unfolding held
  held-found m key = matching-found m.entries key

  pub insert_at-inserted :
      (es : List (K × V)) (v : K × V)
      → elim (found es v.0) as (λ _. List (K × V)) [
        | some e ↦ es
        | none ↦ insert_at es (partition_point (λ e. comp e.0 v.0) es) v
      ]
        ≡ inserted es v
  insert_at-inserted [] v = refl
  insert_at-inserted (e ∷ es) v = ground (arith, insert_at-inserted es v)

  pub erase_at-removed :
      (es : List (K × V)) (key : K)
      → elim (found es key) as (λ _. List (K × V)) [
        | some e ↦ erase_at es (partition_point (λ e. comp e.0 key) es)
        | none ↦ es
      ]
        ≡ removed es key
  erase_at-removed [] key = refl
  erase_at-removed (e ∷ es) key = ground (arith, erase_at-removed es key)

  module _ (order : IsStrictWeak comp) where
    open order use {irrefl, trans, co_trans}

    -- An insertion adds the entry unless the key is there; other keys are untouched.
    pub found-inserted :
        (es : List (K × V)) (v : K × V) (q : K)
        → found (inserted es v) q ≡ elim (found es q) as (λ _. Option (K × V)) [
          | some e ↦ some e
          | none ↦ if not (comp v.0 q) && not (comp q v.0) then some v else none
        ]
    found-inserted [] v q = ground arith
    found-inserted (e ∷ es) v q = ground (
      arith,
      found-inserted es v q,
      trans q v.0 e.0,
      co_trans e.0 q v.0,
      co_trans e.0 v.0 q,
      co_trans q v.0 e.0,
      co_trans v.0 q e.0,
      irrefl q,
    )

    -- Keys that the order does not tell apart have the same entry.
    pub found_same :
        (es : List (K × V)) (a b : K)
        → (not (comp a b) && not (comp b a)) ≡ true
        → found es a ≡ found es b
    found_same [] a b h = refl
    found_same (e ∷ es) a b h = ground (
      arith,
      found_same es a b h,
      co_trans e.0 a b,
      co_trans e.0 b a,
      co_trans a b e.0,
      co_trans b a e.0,
    )

    -- Before the first key nothing is found.
    found_before :
        (e : K × V) (es : List (K × V)) (q : K) → comp q e.0 ≡ true → found (e ∷ es) q ≡ none
    found_before e es q h = ground (arith, trans q e.0 q, irrefl q)

    inserted_ascends :
        (e : K × V) (es : List (K × V)) (v : K × V)
        → comp e.0 v.0 ≡ true
        → IsAscending (e ∷ es)
        → IsAscending (e ∷ inserted es v)
    inserted_ascends e [] v h s = IsChain.cons-cons h (IsChain.singleton v)
    inserted_ascends e (f ∷ es) v h (IsChain.cons-cons p s) = elim (Bool-cases (comp f.0 v.0)) [
      | inl l ↦ rw l (IsChain.cons-cons p (inserted_ascends f es v l s))
      | inr l ↦ elim (Bool-cases (comp v.0 f.0)) [
        | inl g ↦ rw (l, g) (IsChain.cons-cons h (IsChain.cons-cons g s))
        | inr g ↦ rw (l, g) (IsChain.cons-cons p s)
      ]
    ]

    pub inserted-IsAscending :
        (es : List (K × V)) (v : K × V) → IsAscending es → IsAscending (inserted es v)
    inserted-IsAscending [] v s = IsChain.singleton v
    inserted-IsAscending (e ∷ es) v s = elim (Bool-cases (comp e.0 v.0)) [
      | inl l ↦ rw l (inserted_ascends e es v l s)
      | inr l ↦ elim (Bool-cases (comp v.0 e.0)) [
        | inl g ↦ rw (l, g) (IsChain.cons-cons g s)
        | inr g ↦ rw (l, g) s
      ]
    ]

    removed_ascends :
        (e : K × V) (es : List (K × V)) (key : K)
        → IsAscending (e ∷ es)
        → IsAscending (e ∷ removed es key)
    removed_ascends e [] key s = s
    removed_ascends e (f ∷ es) key (IsChain.cons-cons p s) = elim (Bool-cases (comp f.0 key)) [
      | inl l ↦ rw l (IsChain.cons-cons p (removed_ascends f es key s))
      | inr l ↦ elim (Bool-cases (comp key f.0)) [
        | inl g ↦ rw (l, g) (IsChain.cons-cons p s)
        | inr g ↦ rw (l, g) (skip e f es p s)
      ]
    ]
      where
        skip :
            (e f : K × V) (es : List (K × V))
            → comp e.0 f.0 ≡ true
            → IsAscending (f ∷ es)
            → IsAscending (e ∷ es)
        skip e f [] p s = IsChain.singleton e
        skip e f (g ∷ es) p (IsChain.cons-cons q s) = IsChain.cons-cons (trans e.0 f.0 g.0 p q) s

    pub tail_ascends : (e : K × V) (es : List (K × V)) → IsAscending (e ∷ es) → IsAscending es
    tail_ascends e [] s = IsChain.nil
    tail_ascends e (f ∷ es) (IsChain.cons-cons p s) = s

    pub removed-IsAscending :
        (es : List (K × V)) (key : K) → IsAscending es → IsAscending (removed es key)
    removed-IsAscending [] key s = s
    removed-IsAscending (e ∷ es) key s = elim (Bool-cases (comp e.0 key)) [
      | inl l ↦ rw l (removed_ascends e es key s)
      | inr l ↦ elim (Bool-cases (comp key e.0)) [
        | inl g ↦ rw (l, g) s
        | inr g ↦ rw (l, g) (tail_ascends e es s)
      ]
    ]

    -- A removal forgets the key; other keys are untouched.
    pub found-removed :
        (es : List (K × V)) (key q : K)
        → IsAscending es
        → found (removed es key) q
          ≡ (if not (comp key q) && not (comp q key) then none else found es q)
    found-removed [] key q s = ground arith
    found-removed (e ∷ []) key q s = ground (
      arith,
      co_trans e.0 q key,
      co_trans e.0 key q,
      co_trans key q e.0,
      co_trans q key e.0,
      co_trans q e.0 key,
      co_trans key e.0 q,
      trans q e.0 q,
      irrefl q,
    )
    found-removed (e ∷ f ∷ es) key q (IsChain.cons-cons p s) = ground (
      arith,
      found-removed (f ∷ es) key q s,
      found_before f es q,
      co_trans e.0 q key,
      co_trans e.0 key q,
      co_trans key q e.0,
      co_trans q key e.0,
      co_trans q e.0 key,
      co_trans key e.0 q,
      trans q e.0 f.0,
      trans e.0 f.0 q,
      co_trans f.0 q key,
      co_trans e.0 q f.0,
      co_trans e.0 key f.0,
      trans q e.0 q,
      irrefl q,
    )
