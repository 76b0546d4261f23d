-- ===== src/SortedVectorMap/Lookup.antt =====
-- include/sorted_vector_map.h: what `at` gives after each member, and the iterators.
use mathlib.Core.List.{IsChain}
use av_utils.Base.{
  Bool, IsStrictWeak, List, Option, Option-cases, Outcome, [], arith, eq→==, false, get_elem?, inl,
  inr, length, ne→==, none, not, ok, out_of_range, partition_point, refl, some, suc, throw, ℕ, ◌&&◌,
  ◌+◌, ◌<◌, ◌==◌, ◌∷◌, ◌≡◌,
}
use av_utils.SortedVectorMap.{SortedVectorMap, at, count, erase, find, insert, lower_bound}
use av_utils.SortedVectorMap.Order.{
  IsAscending, erase_at-removed, found, held-found, insert_at-inserted, inserted, removed,
  tail_ascends,
}

-- Neither key is before the other.
abbrev pub same {ℓ} : {K : Type ℓ} (comp : K → K → Bool) → K → K → Bool
same comp a b = not (comp a b) && not (comp b a)

module _ {ℓ} {K V : Type ℓ} where
  abbrev pub value_or_throw : Option (K × V) → Outcome V
  value_or_throw none = throw out_of_range
  value_or_throw (some e) = ok e.1

  abbrev pub one_if : Option (K × V) → ℕ
  one_if none = 0
  one_if (some e) = 1

module _ {ℓ} {K V : Type ℓ} (comp : K → K → Bool) where
  pub at-found :
      (m : SortedVectorMap K V) (key : K)
      → at comp m key ≡ value_or_throw (found comp m.entries key)
  unfolding at
  at-found m key = elim (Option-cases (found comp m.entries key)) [
    | inl h ↦ rw (at, held-found comp m key, h) refl
    | inr (e, h) ↦ rw (at, held-found comp m key, h) refl
  ]

  found-lt :
      (es : List (K × V)) (key : K) (e : K × V)
      → found comp es key ≡ some e
      → partition_point (λ e. comp e.0 key) es < length es
  found-lt [] key e h = cc
  found-lt (f ∷ es) key e h = ground (arith, found-lt es key e)

  find-found :
      (m : SortedVectorMap K V) (key : K)
      → find comp m key ≡ elim (found comp m.entries key) as (λ _. ℕ) [
        | none ↦ length m.entries
        | some e ↦ lower_bound comp m key
      ]
  unfolding find
  find-found m key = rw (find, held-found comp m key) refl

  pub count-found :
      (m : SortedVectorMap K V) (key : K) → count comp m key ≡ one_if (found comp m.entries key)
  unfolding count
  count-found m key = elim (Option-cases (found comp m.entries key)) [
    | inl h ↦ rw (find-found m key, h) (ground arith)
    | inr (e, h) ↦ rw (find-found m key, h) (ground (arith, found-lt m.entries key e h))
  ]

  pub insert-inserted :
      (m : SortedVectorMap K V) (v : K × V)
      → insert comp m v ≡ (
        record { entries = inserted comp m.entries v },
        lower_bound comp m v.0,
        count comp m v.0 == 0,
      )
  unfolding insert
  insert-inserted m v = elim (Option-cases (found comp m.entries v.0)) [
    | inl h ↦
        rw
          (
            insert,
            held-found comp m v.0,
            count-found m v.0,
            ← insert_at-inserted comp m.entries v,
            h,
          )
          refl
    | inr (e, h) ↦
        rw
          (
            insert,
            held-found comp m v.0,
            count-found m v.0,
            ← insert_at-inserted comp m.entries v,
            h,
          )
          refl
  ]

  pub erase-removed :
      (m : SortedVectorMap K V) (key : K)
      → erase comp m key ≡ (record { entries = removed comp m.entries key }, count comp m key)
  unfolding erase
  erase-removed m key = elim (Option-cases (found comp m.entries key)) [
    | inl h ↦
        rw (find-found m key, count-found m key, ← erase_at-removed comp m.entries key, h)
          (rw (eq→== (length m.entries) (length m.entries) refl) refl)
    | inr (e, h) ↦
        rw (find-found m key, count-found m key, ← erase_at-removed comp m.entries key, h)
          (rw
            (ne→== (lower_bound comp m key) (length m.entries)
              (omega (arith, found-lt m.entries key e h)))
            refl)
  ]

  pub length-inserted :
      (es : List (K × V)) (v : K × V)
      → length (inserted comp es v) + one_if (found comp es v.0) ≡ suc (length es)
  length-inserted [] v = refl
  length-inserted (e ∷ es) v = ground (arith, length-inserted es v)

  pub length-removed :
      (es : List (K × V)) (key : K)
      → length (removed comp es key) + one_if (found comp es key) ≡ length es
  length-removed [] key = refl
  length-removed (e ∷ es) key = ground (arith, length-removed es key)

  pub get_elem?-found :
      (es : List (K × V)) (key : K) (e : K × V)
      → found comp es key ≡ some e
      → get_elem? es (partition_point (λ e. comp e.0 key) es) ≡ some e
  get_elem?-found [] key e h = cc
  get_elem?-found (f ∷ es) key e h = ground (arith, get_elem?-found es key e)

  pub get_elem?-inserted :
      (es : List (K × V)) (v : K × V)
      → found comp es v.0 ≡ none
      → get_elem? (inserted comp es v) (partition_point (λ e. comp e.0 v.0) es) ≡ some v
  get_elem?-inserted [] v h = refl
  get_elem?-inserted (e ∷ es) v h = ground (arith, get_elem?-inserted es v)

  module _ (order : IsStrictWeak comp) where
    open order use {irrefl, trans, co_trans}

    -- No key after an entry that is not before the key is the key.
    none_after :
        (e : K × V) (es : List (K × V)) (key : K)
        → comp e.0 key ≡ false
        → IsAscending comp (e ∷ es)
        → partition_point (λ f. not (comp key f.0)) es ≡ 0
    none_after e [] key h s = refl
    none_after e (f ∷ es) key h (IsChain.cons-cons p s) = ground (arith, co_trans e.0 key f.0)

    pub range_lem :
        (es : List (K × V)) (key : K)
        → IsAscending comp es
        → partition_point (λ e. not (comp key e.0)) es
          ≡ partition_point (λ e. comp e.0 key) es + one_if (found comp es key)
    range_lem [] key s = refl
    range_lem (e ∷ es) key s = ground (
      arith,
      range_lem es key (tail_ascends comp order e es s),
      none_after e es key,
      trans key e.0 key,
      irrefl key,
    )
