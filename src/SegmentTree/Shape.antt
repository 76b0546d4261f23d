-- ===== src/SegmentTree/Shape.antt =====
-- The invariant of `SegmentTree`: every inner node combines its two children. The constructors
-- establish it and `update` keeps it.
use native.Mathlib.Decide.{ℕ_discrete}
use av_utils.Base.{
  Bool-cases, List, arith, get_or, get_or-set_at, get_or-set_off, if◌then◌else◌, inl, inr, leb,
  length, length-replicate, length-set, ltb, ok, out_of_range, refl, replicate, set, subst, suc,
  throw, zero, ℕ, ◌*◌, ◌+◌, ◌-◌, ◌/◌, ◌<◌, ◌==◌, ◌∙◌, ◌≡◌, ◌≤◌, ◌⊎◌,
}
use av_utils.SegmentTree.Build.{
  AllBut, Combined, IsValid, build-Combined, combine-Combined, get_or-build, get_or-fill,
  length-build, length-combine, length-fill, set-Combined,
}
use av_utils.SegmentTree.{SegmentTree, build, climb, combine, fill, from_values, size, update}

-- The value with index `i`: a leaf.
abbrev pub value {ℓ} : {T : Type ℓ} → T → SegmentTree T → ℕ → T
value d t i = get_or t.tree (t.n + i) d

module _ {ℓ} {T : Type ℓ} (op : T → T → T) (d : T) where
  combine-AllBut :
      (n i : ℕ) (tree : List T)
      → length tree ≡ 2 * n
      → i < 2 * n
      → 1 < i
      → AllBut op d n i tree
      → AllBut op d n (i / 2) (combine op d tree (i / 2))
  combine-AllBut n i tree s h m a j p q e = elim (ℕ_discrete (i / 2) j) [
    | yes at ↦
        subst (Combined op d (combine op d tree (i / 2))) at
          (combine-Combined op d tree (i / 2) (omega arith) (omega arith))
    | no off ↦
        set-Combined op d tree (i / 2) j _ (omega arith) off (λ k. e (omega arith))
          (λ k. e (omega arith)) (a j p q off)
  ]

  -- The loop of `update` repairs the path to the root, and leaves the leaves alone.
  climb_lem :
      (n fuel i : ℕ) (tree : List T)
      → length tree ≡ 2 * n
      → i < 2 * n
      → i ≤ fuel
      → AllBut op d n i tree
      → (length (climb op d fuel i tree) ≡ 2 * n)
        × ((j : ℕ) → 1 ≤ j → j < n → Combined op d (climb op d fuel i tree) j)
        × ((j : ℕ) → n ≤ j → get_or (climb op d fuel i tree) j d ≡ get_or tree j d)
  unfolding climb
  climb_lem n zero i tree s h f a = (s, (λ j p q. a j p q (omega arith)), λ j p. refl)
  climb_lem n (suc fuel) i tree s h f a = elim (Bool-cases (ltb 1 i)) [
    | inl more ↦
        let above =
          climb_lem n fuel (i / 2) (combine op d tree (i / 2))
            (length-combine op d tree (i / 2) ∙ s) (omega arith) (omega arith)
            (combine-AllBut n i tree s h (ground arith) a) in
        rw more (
          above.0,
          above.1,
          λ j p. above.2 j p ∙ get_or-set_off tree (i / 2) j _ d (omega arith) (omega arith),
        )
    | inr done ↦ rw done (s, (λ j p q. a j p q (ground arith)), λ j p. refl)
  ]

  -- A constructed tree is valid and holds the values that it was given.
  pub from_values_lem :
      (values : List T)
      → IsValid op d (from_values op d values)
        × (size (from_values op d values) ≡ length values)
        × ((i : ℕ) → i < length values → value d (from_values op d values) i ≡ get_or values i d)
  unfolding from_values size
  from_values_lem values = elim (Bool-cases (length values == 0)) [
    | inl e ↦ rw e (
      record { sized = refl; storage = refl; inner = λ j p q. absurd (omega arith) },
      ground arith,
      λ i h. absurd (ground arith),
    )
    | inr e ↦ rw e (
      record {
        sized = refl;
        storage = stored;
        inner =
            λ j p q. build-Combined op d (n - 1) j leaves p (omega arith) (omega (arith, filled));
      },
      refl,
      λ i h. kept i h,
    )
  ]
    where
      n : ℕ
      n = length values

      leaves : List T
      leaves = fill n values (replicate (2 * n) d)

      filled : length leaves ≡ 2 * n
      filled = length-fill n values _ ∙ length-replicate (2 * n) d

      stored : length (build op d (n - 1) leaves) ≡ 2 * n
      stored = length-build op d (n - 1) leaves ∙ filled

      kept : (i : ℕ) → i < n → get_or (build op d (n - 1) leaves) (n + i) d ≡ get_or values i d
      kept i h =
          get_or-build op d (n - 1) (n + i) leaves (omega arith) (omega (arith, filled))
          ∙ get_or-fill n i values _ d (omega (arith, length-replicate (2 * n) d)) h

  -- On a valid tree, `update` throws for an index behind the last value; for any other index the tree
  -- stays valid and exactly the value with that index changes.
  pub update_lem :
      {t : SegmentTree T} (i : ℕ) (x : T)
      → IsValid op d t
      → ((size t ≤ i) × (update op d t i x ≡ throw out_of_range))
        ⊎ ((i < size t)
            × (t' : SegmentTree T) × (update op d t i x ≡ ok t')
            × IsValid op d t'
            × (t'.n ≡ t.n)
            × ((j : ℕ) → j < t.n → value d t' j ≡ (if i == j then x else value d t j)))
  unfolding update size
  update_lem {t} i x v = elim (Bool-cases (leb t.original_size i)) [
    | inl e ↦ inl (ground arith, rw e)
    | inr e ↦ inr (ground arith, changed, rw e, valid (ground arith), refl, values (ground arith))
  ]
    where
      leaf : List T
      leaf = set t.tree (t.n + i) x

      changed : SegmentTree T
      changed = record t { tree = climb op d (t.n + i) (t.n + i) leaf }

      others : i < t.n → AllBut op d t.n (t.n + i) leaf
      others h j p q e =
          set-Combined op d t.tree (t.n + i) j x (omega (arith, v.storage)) (omega arith)
            (omega arith) (omega arith) (v.inner j p q)

      climbed :
          i < t.n
          → (length changed.tree ≡ 2 * t.n)
            × ((j : ℕ) → 1 ≤ j → j < t.n → Combined op d changed.tree j)
            × ((j : ℕ) → t.n ≤ j → get_or changed.tree j d ≡ get_or leaf j d)
      climbed h =
          climb_lem t.n (t.n + i) (t.n + i) leaf (length-set t.tree (t.n + i) x ∙ v.storage)
            (omega arith) (omega arith) (others h)

      valid : i < t.n → IsValid op d changed
      valid h = record { sized = v.sized; storage = (climbed h).0; inner = (climbed h).1 }

      written : i < t.n → (j : ℕ) → get_or leaf (t.n + j) d ≡ (if i == j then x else value d t j)
      written h j = elim (Bool-cases (i == j)) [
        | inl e ↦
            rw e (
              get_or-set_at t.tree (t.n + i) (t.n + j) x d (omega (arith, v.storage))
                (ground arith))
        | inr e ↦ rw e (
            get_or-set_off t.tree (t.n + i) (t.n + j) x d (omega (arith, v.storage)) (ground arith))
      ]

      values : i < t.n → (j : ℕ) → j < t.n → value d changed j ≡ (if i == j then x else value d t j)
      values h j k = (climbed h).2 (t.n + j) (omega arith) ∙ written h j
