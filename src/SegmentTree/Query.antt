-- ===== src/SegmentTree/Query.antt =====
-- `query` combines exactly the values of its range.
use av_utils.Base.{
  Bool-cases, List, ap, ap₂, arith, get_or, if◌then◌else◌, inl, inr, ltb, ok, out_of_range, suc,
  sym, throw, zero, ℕ, ◌%◌, ◌*◌, ◌+◌, ◌-◌, ◌/◌, ◌<◌, ◌==◌, ◌||◌, ◌∙◌, ◌≡◌, ◌≤◌, ◌⊎◌,
}
use av_utils.SegmentTree.{SegmentTree, query, query_loop, size, take_left, take_right}
use av_utils.SegmentTree.Build.{IsValid}
use av_utils.SegmentTree.Shape.{value}
use av_utils.SegmentTree.Sums.{IsCommutativeMonoid, sum, sum-last, sum_halves, sum_shift}

module _ {ℓ} {T : Type ℓ} (op : T → T → T) (identity d : T)
    (laws : IsCommutativeMonoid op identity) where
  open laws use {assoc, comm, left_id}

  -- The entries of a tree from `l` up to `r`.
  abbrev range : List T → ℕ → ℕ → T
  range tree l r = sum op identity (λ i. get_or tree i d) l (r - l)

  range-nil : (tree : List T) (l r : ℕ) → r ≤ l → range tree l r ≡ identity
  range-nil tree l r h =
      ap (sum op identity (λ i. get_or tree i d) l) {x = r - l} {y = 0} (omega arith)

  right_id : (a : T) → op a identity ≡ a
  right_id a = comm a identity ∙ left_id a

  range-first :
      (tree : List T) (l r : ℕ)
      → l < r
      → range tree l r ≡ op (get_or tree l d) (range tree (suc l) r)
  range-first tree l r h =
      ap (sum op identity (λ i. get_or tree i d) l) {x = r - l} {y = suc (r - suc l)} (omega arith)

  range-last :
      (tree : List T) (l r : ℕ)
      → l < r
      → range tree l r ≡ op (get_or tree (r - 1) d) (range tree l (r - 1))
  range-last tree l r h =
      ap (sum op identity (λ i. get_or tree i d) l) {x = r - l} {y = suc (r - 1 - l)} (omega arith)
      ∙ sum-last op identity laws (λ i. get_or tree i d) l (r - 1 - l)
      ∙ comm (range tree l (r - 1)) (get_or tree (l + (r - 1 - l)) d)
      ∙ ap (λ m. op (get_or tree m d) (range tree l (r - 1))) (omega arith)

  module _ {t : SegmentTree T} (v : IsValid op d t) where
    range_half : (a b : ℕ) → 1 ≤ a → b ≤ t.n → range t.tree (2 * a) (2 * b) ≡ range t.tree a b
    range_half a b p q =
        ap (sum op identity (λ i. get_or t.tree i d) (2 * a)) (omega arith)
        ∙ sum_halves op identity laws (λ i. get_or t.tree i d) a (b - a)
            (λ i h k. v.inner i (omega arith) (omega arith))

    left_step :
        (l r : ℕ) (result : T)
        → l < r
        → op (take_left op d t.tree l result) (range t.tree (if l % 2 == 1 then l + 1 else l) r)
          ≡ op result (range t.tree l r)
    left_step l r result h = elim (Bool-cases (l % 2 == 1)) [
      | inl odd ↦ rw odd (
          ap (λ m. op (op result (get_or t.tree l d)) (range t.tree m r)) {x = l + 1} (omega arith)
          ∙ assoc result (get_or t.tree l d) (range t.tree (suc l) r)
          ∙ ap (op result) (sym (range-first t.tree l r h)))
      | inr even ↦ rw even
    ]

    right_step :
        (l r : ℕ) (result : T)
        → l ≤ r
        → l % 2 ≡ 0
        → op (take_right op d t.tree r result) (range t.tree l (if r % 2 == 1 then r - 1 else r))
          ≡ op result (range t.tree l r)
    right_step l r result h e = elim (Bool-cases (r % 2 == 1)) [
      | inl odd ↦ rw odd (
          assoc result (get_or t.tree (r - 1) d) (range t.tree l (r - 1))
          ∙ ap (op result) (sym (range-last t.tree l r (ground arith))))
      | inr even ↦ rw even
    ]

    half_step :
        (l r : ℕ)
        → 1 ≤ l
        → r ≤ 2 * t.n
        → l % 2 ≡ 0
        → r % 2 ≡ 0
        → range t.tree (l / 2) (r / 2) ≡ range t.tree l r
    half_step l r p q e f =
        sym (range_half (l / 2) (r / 2) (omega arith) (omega arith))
        ∙ ap₂ (range t.tree) {x = 2 * (l / 2)} {y = l} (omega arith) (omega arith)

    -- One round of the loop.
    round :
        (l r : ℕ) (result : T)
        → 1 ≤ l
        → l < r
        → r ≤ 2 * t.n
        → op (take_right op d t.tree r (take_left op d t.tree l result)) (
            range t.tree
              ((if l % 2 == 1 then l + 1 else l) / 2)
              ((if r % 2 == 1 then r - 1 else r) / 2))
          ≡ op result (range t.tree l r)
    round l r result p h q =
        ap (op (take_right op d t.tree r (take_left op d t.tree l result))) (
          half_step (if l % 2 == 1 then l + 1 else l) (if r % 2 == 1 then r - 1 else r)
            (ground arith) (ground arith) (ground arith) (ground arith))
        ∙ right_step (if l % 2 == 1 then l + 1 else l) r (take_left op d t.tree l result)
            (ground arith) (ground arith)
        ∙ left_step l r result h

    loop_lem :
        (fuel l r : ℕ) (result : T)
        → 1 ≤ l
        → r ≤ 2 * t.n
        → r ≤ fuel
        → query_loop op d fuel t.tree l r result ≡ op result (range t.tree l r)
    unfolding query_loop
    loop_lem zero l r result p q f =
        sym (ap (op result) (range-nil t.tree l r (omega arith)) ∙ right_id result)
    loop_lem (suc fuel) l r result p q f = elim (Bool-cases (ltb l r)) [
      | inl more ↦ rw more (
          loop_lem fuel ((if l % 2 == 1 then l + 1 else l) / 2)
            ((if r % 2 == 1 then r - 1 else r) / 2) _ (ground arith) (ground arith) (ground arith)
          ∙ round l r result p (ground arith) q)
      | inr done ↦
          rw done (sym (ap (op result) (range-nil t.tree l r (ground arith)) ∙ right_id result))
    ]

  range-values :
      (t : SegmentTree T) (i j : ℕ)
      → range t.tree (t.n + i) (t.n + j) ≡ sum op identity (value d t) i (j - i)
  range-values t i j =
      sum_shift op identity (λ m. get_or t.tree m d) t.n i (t.n + j - (t.n + i))
      ∙ ap (sum op identity (value d t) i) (omega arith)

  -- On a valid tree `query` throws for a range that ends before it starts or leaves the values, and
  -- otherwise returns the combination of exactly the values of the range, in one call: the identity
  -- for an empty one. The operation is a commutative monoid.
  pub query_lem :
      {t : SegmentTree T} (i j : ℕ)
      → IsValid op d t
      → (((j < i) ⊎ (size t < j)) × (query op identity d t i j ≡ throw out_of_range))
        ⊎ ((i ≤ j)
            × (j ≤ size t)
            × (query op identity d t i j ≡ ok (sum op identity (value d t) i (j - i))))
  unfolding query size
  query_lem {t} i j v =
      elim (Bool-cases (ltb t.original_size i || ltb t.original_size j || ltb j i)) [
        | inl bad ↦ inl (ground arith, rw bad)
        | inr good ↦ inr (
          ground arith,
          ground arith,
          rw good (elim (Bool-cases (i == j)) [
            | inl same ↦
                rw same (ap (λ k. ok (sum op identity (value d t) i k)) {x = 0} (ground arith))
            | inr more ↦ rw more (ap ok (found (ground arith) (ground arith) (ground arith)))
          ]),
        )
      ]
    where
      found :
          i < j
          → j ≤ t.original_size
          → 1 ≤ t.n
          → query_loop op d (t.n + j) t.tree (t.n + i) (t.n + j) identity
            ≡ sum op identity (value d t) i (j - i)
      found h k l =
          loop_lem v (t.n + j) (t.n + i) (t.n + j) identity (omega arith) (omega (arith, v.sized))
            (omega arith)
          ∙ left_id _
          ∙ range-values t i j
