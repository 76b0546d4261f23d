-- ===== src/SlidingWindow/Window.antt =====
-- `push`, `pop` and `extreme` of `SlidingWindow`: the second deque keeps the stairs of the first.
use av_utils.Base.{
  ==→eq, Bool, Bool-cases, List, [], ap, arith, drop, false, get_elem?, if◌then◌else◌, inl, inr,
  length, length-append, ne→==, not, ok, refl, runtime_error, some, some-injective, subst, sym,
  throw, true, ℕ, ◌++◌, ◌<◌, ◌==◌, ◌∙◌, ◌∷◌, ◌≡◌, ◌≤◌, ◌⊎◌,
}
use av_utils.SlidingWindow.{
  SlidingWindow, append, drop_front, extreme, front_of, full, pop, popped, push, push_after, trim,
}
use av_utils.SlidingWindow.Stairs.{
  IsStrictWeakOrder, exists_in, exists_in-read, stairs, stairs-extreme, stairs-push,
}

module _ {ℓ} {T : Type ℓ} (comp same : T → T → Bool) where
  pub record IsValid (w : SlidingWindow T) : Type ℓ where
    pub stepped : w.mono ≡ stairs comp w.window_data
    pub some_capacity : 0 < w.window_capacity
    pub within : length w.window_data ≤ w.window_capacity

  -- Whether the oldest element is not the same as a later one.
  abbrev pub unique_front : List T → Bool
  unique_front [] = true
  unique_front (x ∷ xs) = not (exists_in (λ y. same y x) xs)

  drop_front-other :
      (x e : T) (xs : List T) → front_of xs ≡ some e → same e x ≡ false → drop_front same x xs ≡ xs
  unfolding front_of drop_front
  drop_front-other x e [] h k = refl
  drop_front-other x e (y ∷ xs) h k =
      rw (subst (λ z. same z x ≡ false) (sym (some-injective y e h)) k) refl

  module _ (order : IsStrictWeakOrder comp) (same-refl : (x : T) → same x x ≡ true) where
    drop_front-stairs :
        (x : T) (xs : List T)
        → exists_in (λ y. same y x) xs ≡ false
        → drop_front same x (stairs comp (x ∷ xs)) ≡ stairs comp xs
    unfolding drop_front
    drop_front-stairs x [] h = rw (same-refl x) refl
    drop_front-stairs x (z ∷ zs) h = elim (Bool-cases (exists_in (λ y. not (comp x y)) (z ∷ zs))) [
      | inl k ↦
          let (e, f, g, i, r) = stairs-extreme comp order z zs in
          rw k (
            drop_front-other x e (stairs comp (z ∷ zs)) f
              (exists_in-read (λ y. same y x) (z ∷ zs) i e h r))
      | inr k ↦ rw (k, same-refl x) refl
    ]

    popped_lem :
        (w : SlidingWindow T) (data_now : List T)
        → IsValid w
        → w.window_data ≡ data_now
        → unique_front data_now ≡ true
        → ((w.window_data ≡ []) × (popped same w data_now ≡ throw runtime_error))
          ⊎ ((x : T) × (rest : List T) × (w' : SlidingWindow T) × (w.window_data ≡ x ∷ rest)
              × (popped same w data_now ≡ ok w')
              × (w'.window_data ≡ rest)
              × (w'.window_capacity ≡ w.window_capacity)
              × IsValid w')
    unfolding popped
    popped_lem w [] v e h = inl (e, refl)
    popped_lem w (x ∷ rest) v e h = inr (
      x,
      rest,
      record w { window_data = rest; mono = drop_front same x w.mono },
      e,
      refl,
      refl,
      refl,
      record {
        stepped =
            ap (drop_front same x) (v.stepped ∙ ap (stairs comp) e)
            ∙ drop_front-stairs x rest (ground (arith, h));
        some_capacity = v.some_capacity;
        within = omega (arith, v.within, ap length e);
      },
    )

    -- With a strict weak order and a reflexive equality: `pop` throws on an empty window. From a valid one whose oldest element is not the same as a later
    -- one, it takes the oldest element, and the window stays valid.
    pub pop_lem :
        (w : SlidingWindow T)
        → IsValid w
        → unique_front w.window_data ≡ true
        → ((w.window_data ≡ []) × (pop same w ≡ throw runtime_error))
          ⊎ ((x : T) × (rest : List T) × (w' : SlidingWindow T) × (w.window_data ≡ x ∷ rest)
              × (pop same w ≡ ok w')
              × (w'.window_data ≡ rest)
              × (w'.window_capacity ≡ w.window_capacity)
              × IsValid w')
    unfolding pop
    pop_lem w v h = popped_lem w w.window_data v refl h

    append-IsValid :
        (w : SlidingWindow T) (value : T)
        → IsValid w
        → length w.window_data < w.window_capacity
        → IsValid (append comp same value w)
    unfolding append
    append-IsValid w value v h = record {
      stepped =
          ap (λ xs. trim comp value xs ++ value ∷ []) v.stepped
          ∙ sym (stairs-push comp order value w.window_data);
      some_capacity = v.some_capacity;
      within = omega (arith, h, length-append w.window_data (value ∷ []));
    }

    -- With a strict weak order and a reflexive equality: `push` on a valid window that is not full, or whose oldest element is not the same as a later
    -- one: the value is the last element then, behind all others, or all but the oldest if the window
    -- was full; and the window stays valid.
    pub push_lem :
        (w : SlidingWindow T) (value : T)
        → IsValid w
        → (full w ≡ false) ⊎ (unique_front w.window_data ≡ true)
        → (w' : SlidingWindow T) × (push comp same w value ≡ ok w')
          × (w'.window_data
              ≡ (if full w then drop 1 w.window_data else w.window_data) ++ value ∷ [])
          × IsValid w'
    unfolding push full push_after append
    push_lem w value v h = elim (Bool-cases (length w.window_data == w.window_capacity)) [
      | inr f ↦ rw f (
        append comp same value w,
        refl,
        refl,
        append-IsValid w value v (ground (arith, f, v.within)),
      )
      | inl f ↦ elim (pop_lem w v (unique f h)) [
        | inl (e, t) ↦ absurd (
            omega (
              arith,
              ap length e,
              ==→eq (length w.window_data) w.window_capacity f,
              v.some_capacity,
            ))
        | inr (x, rest, w', e, p, d, c, v') ↦
            rw (f, p)
              (
                append comp same value w',
                refl,
                ap (λ xs. xs ++ value ∷ []) (d ∙ ap (drop 1) (sym e)),
                append-IsValid w' value v' (omega (arith, ap length e, ap length d, c, v.within)),
              )
      ]
    ]
      where
        unique :
            (length w.window_data == w.window_capacity) ≡ true
            → ((length w.window_data == w.window_capacity) ≡ false)
              ⊎ (unique_front w.window_data ≡ true)
            → unique_front w.window_data ≡ true
        unique f (inl g) = absurd (clash (sym f ∙ g))
          where
            clash : true ≡ false → ⊥
            clash e = cc
        unique f (inr g) = g

  module _ (order : IsStrictWeakOrder comp) where
    extreme_from :
        (w : SlidingWindow T) (data_now : List T)
        → IsValid w
        → w.window_data ≡ data_now
        → ((w.window_data ≡ []) × (extreme w ≡ throw runtime_error))
          ⊎ ((e : T) × (extreme w ≡ ok (some e))
              × (exists_in (λ y. comp y e) w.window_data ≡ false)
              × (i : ℕ) × (get_elem? w.window_data i ≡ some e))
    unfolding extreme
    extreme_from w [] v q = inl (q, rw q refl)
    extreme_from w (x ∷ xs) v q =
        let (e, f, g, i, r) = stairs-extreme comp order x xs in
        inr (
          e,
          rw (ne→== (length w.window_data) 0 (omega (arith, ap length q)))
              (ap ok (ap front_of (v.stepped ∙ ap (stairs comp) q) ∙ f)),
          subst (λ ys. exists_in (λ y. comp y e) ys ≡ false) (sym q) g,
          i,
          subst (λ ys. get_elem? ys i ≡ some e) (sym q) r,
        )

    -- With a strict weak order: `extreme` throws on an empty window; on any other valid one it gives an
    -- element of the window that no element of the window precedes.
    pub extreme_lem :
        (w : SlidingWindow T)
        → IsValid w
        → ((w.window_data ≡ []) × (extreme w ≡ throw runtime_error))
          ⊎ ((e : T) × (extreme w ≡ ok (some e))
              × (exists_in (λ y. comp y e) w.window_data ≡ false)
              × (i : ℕ) × (get_elem? w.window_data i ≡ some e))
    extreme_lem w v = extreme_from w w.window_data v refl
