-- ===== src/SlidingWindow/Stairs.antt =====
-- The elements of a window that no later one replaces, which the second deque keeps.
use av_utils.Base.{
  Bool, Bool-cases, List, [], ap, arith, false, get_elem?, if◌then◌else◌, inl, inr, not, refl, some,
  some-injective, subst, suc, true, zero, ℕ, ◌++◌, ◌||◌, ◌∷◌, ◌≡◌,
}
use av_utils.SlidingWindow.{front_of, keep, trim}

-- What the code relies on of a comparison.
pub record IsStrictWeakOrder {ℓ} {T : Type ℓ} (comp : T → T → Bool) : Type ℓ where
  pub asym : (a b : T) → comp a b ≡ true → comp b a ≡ false
  pub irrefl : (a : T) → comp a a ≡ false
  pub ntrans : (a b c : T) → comp a b ≡ false → comp b c ≡ false → comp a c ≡ false

module _ {ℓ} {T : Type ℓ} where
  abbrev pub exists_in : (T → Bool) → List T → Bool
  exists_in p [] = false
  exists_in p (x ∷ xs) = p x || exists_in p xs

  pub exists_in-read :
      (p : T → Bool) (xs : List T) (i : ℕ) (y : T)
      → exists_in p xs ≡ false
      → get_elem? xs i ≡ some y
      → p y ≡ false
  exists_in-read p [] i y h e = absurd cc
  exists_in-read p (x ∷ xs) zero y h e =
      subst (λ z. p z ≡ false) (some-injective x y e) (ground (arith, h))
  exists_in-read p (x ∷ xs) (suc i) y h e = exists_in-read p xs i y (ground (arith, h)) e

  pub exists_in-found :
      (p : T → Bool) (xs : List T)
      → exists_in p xs ≡ true
      → (i : ℕ) × (y : T) × (get_elem? xs i ≡ some y) × (p y ≡ true)
  exists_in-found p [] h = absurd cc
  exists_in-found p (x ∷ xs) h = elim (Bool-cases (p x)) [
    | inl k ↦ (0, x, refl, k)
    | inr k ↦ let (i, y, e, l) = exists_in-found p xs (ground (arith, h, k)) in (suc i, y, e, l)
  ]

  pub exists_in-weaken :
      (p q : T → Bool) (xs : List T)
      → ((y : T) → p y ≡ false → q y ≡ false)
      → exists_in p xs ≡ false
      → exists_in q xs ≡ false
  exists_in-weaken p q [] h e = refl
  exists_in-weaken p q (x ∷ xs) h e = ground (arith, h x, e, exists_in-weaken p q xs h)

  pub exists_in-push :
      (p : T → Bool) (xs : List T) (v : T) → exists_in p (xs ++ v ∷ []) ≡ (exists_in p xs || p v)
  exists_in-push p [] v = ground arith
  exists_in-push p (x ∷ xs) v = ground (arith, exists_in-push p xs v)

module _ {ℓ} {T : Type ℓ} (comp : T → T → Bool) where
  -- An element that some later one does not come after is left out.
  abbrev pub stairs : List T → List T
  stairs [] = []
  stairs (x ∷ xs) = if exists_in (λ y. not (comp x y)) xs then stairs xs else x ∷ stairs xs

  module _ (order : IsStrictWeakOrder comp) where
    -- The front of the stairs is one of the elements, and none precedes it.
    pub stairs-extreme :
        (x : T) (xs : List T)
        → (e : T) × (front_of (stairs (x ∷ xs)) ≡ some e)
          × (exists_in (λ y. comp y e) (x ∷ xs) ≡ false)
          × (i : ℕ) × (get_elem? (x ∷ xs) i ≡ some e)
    unfolding front_of
    stairs-extreme x [] = (x, refl, ground (arith, order.irrefl x), 0, refl)
    stairs-extreme x (z ∷ zs) = elim (Bool-cases (exists_in (λ y. not (comp x y)) (z ∷ zs))) [
      | inr h ↦ rw h (x, refl, first x (z ∷ zs) h, 0, refl)
      | inl h ↦
          let (e, f, g, i, r) = stairs-extreme z zs in
          let (j, y, s, t) = exists_in-found (λ y. not (comp x y)) (z ∷ zs) h in
          rw h (
            e,
            f,
            ground
                (arith, g, order.ntrans x y e, t, exists_in-read (λ y. comp y e) (z ∷ zs) j y g s),
            suc i,
            r,
          )
    ]
      where
        first :
            (x : T) (xs : List T)
            → exists_in (λ y. not (comp x y)) xs ≡ false
            → exists_in (λ y. comp y x) (x ∷ xs) ≡ false
        first x xs h = ground (
          arith,
          order.irrefl x,
          exists_in-weaken (λ y. not (comp x y)) (λ y. comp y x) xs
              (λ y k. order.asym x y (ground (arith, k))) h,
        )

    exists_in-stairs :
        (p : T → Bool) (xs : List T) → exists_in p xs ≡ false → exists_in p (stairs xs) ≡ false
    exists_in-stairs p [] h = refl
    exists_in-stairs p (x ∷ xs) h = elim (Bool-cases (exists_in (λ y. not (comp x y)) xs)) [
      | inl k ↦ rw k (exists_in-stairs p xs (ground (arith, h)))
      | inr k ↦ rw k (ground (arith, h, exists_in-stairs p xs))
    ]

    trim-all : (v : T) (xs : List T) → exists_in (λ y. comp y v) xs ≡ false → trim comp v xs ≡ []
    unfolding trim keep
    trim-all v [] h = refl
    trim-all v (x ∷ xs) h = rw (trim-all v xs (ground (arith, h)), head (comp x v) _ h) refl
      where
        head : (a b : Bool) → (a || b) ≡ false → a ≡ false
        head a b h = ground (arith, h)

    keep-yes : (v x : T) (xs : List T) → comp x v ≡ true → keep comp v x xs ≡ x ∷ xs
    unfolding keep
    keep-yes v x [] h = rw h refl
    keep-yes v x (y ∷ xs) h = refl

    keep-no : (v x : T) → comp x v ≡ false → keep comp v x [] ≡ []
    unfolding keep
    keep-no v x h = rw h refl

    -- Elements after `x` that it precedes do not precede what `x` does not precede.
    behind :
        (v x : T) (xs : List T)
        → exists_in (λ y. not (comp x y)) xs ≡ false
        → comp x v ≡ false
        → exists_in (λ y. comp y v) xs ≡ false
    behind v x xs h k =
        exists_in-weaken (λ y. not (comp x y)) (λ y. comp y v) xs
          (λ y e. ground (arith, e, k, order.asym y v, order.ntrans x v y)) h

    -- A value at the end trims the stairs and becomes their last step.
    pub stairs-push :
        (v : T) (xs : List T) → stairs (xs ++ v ∷ []) ≡ trim comp v (stairs xs) ++ v ∷ []
    unfolding trim
    stairs-push v [] = refl
    stairs-push v (x ∷ xs) = elim (Bool-cases (exists_in (λ y. not (comp x y)) xs)) [
      | inl h ↦ rw (exists_in-push (λ y. not (comp x y)) xs v, h) (stairs-push v xs)
      | inr h ↦ elim (Bool-cases (comp x v)) [
        | inl k ↦
            rw
              (
                exists_in-push (λ y. not (comp x y)) xs v,
                h,
                k,
                keep-yes v x (trim comp v (stairs xs)) k,
              )
              (ap (◌∷◌ x) (stairs-push v xs))
        | inr k ↦
            let none_left =
              trim-all v (stairs xs) (exists_in-stairs (λ y. comp y v) xs (behind v x xs h k)) in
            rw
              (
                exists_in-push (λ y. not (comp x y)) xs v,
                h,
                k,
                stairs-push v xs,
                none_left,
                keep-no v x k,
              )
              refl
      ]
    ]
