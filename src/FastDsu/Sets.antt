-- ===== src/FastDsu/Sets.antt =====
-- The sets that the operations of `FastDSU` show their caller.
use av_utils.Base.{
  ap, ap₂, arith, eq→==, get_or, if◌then◌else◌, inl, inr, ne→==, not, refl, subst, sym, ℕ, ◌&&◌,
  ◌+◌, ◌<◌, ◌==◌, ◌||◌, ◌∙◌, ◌≡◌, ◌≢◌, ◌⊎◌,
}
use av_utils.FastDsu.{FastDsu, connected, count_sets, find, size, union_sets}
use av_utils.FastDsu.Forest.{Leads, Leads-root, Leads-unique}
use av_utils.FastDsu.Sums.{sum_below_le}
use av_utils.FastDsu.Valid.{Leads-in_range, at_roots}
use av_utils.FastDsu.Find.{IsValid, connected-roots, find-Found}
use av_utils.FastDsu.Union.{union_sets-Unites}

-- The root of an element in range.
pub root-Leads :
    (d : FastDsu) (x : ℕ)
    → IsValid d
    → x < d.max_element
    → (r : ℕ) × (r < d.max_element) × Leads d.parent x r
root-Leads d x v h =
    let (l, k, v') = find-Found d x v h in ((find d x).1, Leads-in_range v.forest h l, l)

size-root :
    (d : FastDsu) (x r : ℕ)
    → IsValid d
    → x < d.max_element
    → Leads d.parent x r
    → (size d x).1 ≡ get_or d.set_size r 0
unfolding size
size-root d x r v h l =
    let (m, k, v') = find-Found d x v h in
    ap₂ (λ xs i. get_or xs i 0) k.same_size (Leads-unique m l)

-- On a valid structure, for elements in range: `union_sets` reports whether the two elements were apart, the structure stays valid, and the
-- number of sets falls by one exactly then; it was not 0.
pub union_sets_lem :
    (d : FastDsu) (x y : ℕ)
    → IsValid d
    → x < d.max_element
    → y < d.max_element
    → IsValid (union_sets d x y).0
      × ((union_sets d x y).1 ≡ not (connected d x y).1)
      × (count_sets (union_sets d x y).0 + (if (connected d x y).1 then 0 else 1) ≡ count_sets d)
      × ((union_sets d x y).0.max_element ≡ d.max_element)
unfolding count_sets
union_sets_lem d x y v hx hy =
    let (r, hr, lx) = root-Leads d x v hx in
    let (s, hs, ly) = root-Leads d y v hy in
    rw (connected-roots d x y r s v hx hy lx ly) elim (union_sets-Unites d x y r s v hx hy lx ly) [
      | inl (m, f, k, v') ↦ rw (eq→== r s m) (v', f, omega (arith, k.same_count), k.same_range)
      | inr (m, f, w, o, j) ↦
          rw (ne→== r s m)
            (j.valid, f, omega (arith, j.count, some_set d v r hr (Leads-root lx)), j.same_range)
    ]
  where
    some_set :
        (d : FastDsu)
        → IsValid d
        → (r : ℕ) → r < d.max_element
        → get_or d.parent r 0 ≡ r
        → 0 < d.num_sets
    some_set d v r h q = omega (
      arith,
      v.forest.counted,
      sum_below_le d.max_element r (at_roots d.parent (λ i. 1)) h,
      ap {B = ℕ} (λ b. if b then 1 else 0) (eq→== (get_or d.parent r 0) r q),
    )

-- On a valid structure, for elements in range: after `union_sets(x, y)` two elements are connected exactly when they were before, or one was
-- connected to `x` and the other to `y`.
pub connected-union_sets :
    (d : FastDsu) (x y u v : ℕ)
    → IsValid d
    → x < d.max_element
    → y < d.max_element
    → u < d.max_element
    → v < d.max_element
    → (connected (union_sets d x y).0 u v).1 ≡ (
        (connected d u v).1
        || ((connected d u x).1 && (connected d y v).1)
        || ((connected d u y).1 && (connected d x v).1))
connected-union_sets d x y u v valid hx hy hu hv =
    let (r, hr, lx) = root-Leads d x valid hx in
    let (s, hs, ly) = root-Leads d y valid hy in
    let (t, ht, lu) = root-Leads d u valid hu in
    let (m, hm, lv) = root-Leads d v valid hv in
    rw
      (
        connected-roots d u v t m valid hu hv lu lv,
        connected-roots d u x t r valid hu hx lu lx,
        connected-roots d y v s m valid hy hv ly lv,
        connected-roots d u y t s valid hu hy lu ly,
        connected-roots d x v r m valid hx hv lx lv,
      )
      elim (union_sets-Unites d x y r s valid hx hy lx ly) [
        | inl (q, f, k, v') ↦
            connected-roots _ u v t m v' (omega (arith, hu, k.same_range))
              (omega (arith, hv, k.same_range)) (k.leads u t lu) (k.leads v m lv)
            ∙ ground (arith, q)
        | inr (q, f, w, o, j) ↦
            connected-roots _ u v _ _ j.valid (omega (arith, hu, j.same_range))
              (omega (arith, hv, j.same_range)) (j.leads u t lu) (j.leads v m lv)
            ∙ merge_roots r s t m w q o
      ]
  where
    merge_roots :
        (r s t m w : ℕ)
        → r ≢ s
        → (w ≡ r) ⊎ (w ≡ s)
        → ((if (t == r) || (t == s) then w else t) == (if (m == r) || (m == s) then w else m))
          ≡ ((t == m) || ((t == r) && (s == m)) || ((t == s) && (r == m)))
    merge_roots r s t m w q (inl o) = ground (arith, q, o)
    merge_roots r s t m w q (inr o) = ground (arith, q, o)

-- On a valid structure, for elements in range: after `union_sets(x, y)` the set of `x` has the size of the two sets together, or the size it had
-- if they were the same set; and so has the set of `y`.
pub size-union_sets :
    (d : FastDsu) (x y : ℕ)
    → IsValid d
    → x < d.max_element
    → y < d.max_element
    → ((size (union_sets d x y).0 x).1
        ≡ (if (connected d x y).1 then (size d x).1 else (size d x).1 + (size d y).1))
      × ((size (union_sets d x y).0 y).1 ≡ (size (union_sets d x y).0 x).1)
size-union_sets d x y v hx hy =
    let (r, hr, lx) = root-Leads d x v hx in
    let (s, hs, ly) = root-Leads d y v hy in
    rw (connected-roots d x y r s v hx hy lx ly, size-root d x r v hx lx, size-root d y s v hy ly)
      elim (union_sets-Unites d x y r s v hx hy lx ly) [
        | inl (m, f, k, v') ↦
            rw
              (
                eq→== r s m,
                size-root _ x r v' (omega (arith, hx, k.same_range)) (k.leads x r lx),
                size-root _ y s v' (omega (arith, hy, k.same_range)) (k.leads y s ly),
              )
              (
                ap (λ xs. get_or xs r 0) k.same_size,
                ap (λ i. get_or (union_sets d x y).0.set_size i 0) (sym m),
              )
        | inr (m, f, w, o, j) ↦
            rw
              (
                ne→== r s m,
                size-root _ x w j.valid (omega (arith, hx, j.same_range))
                    (subst (Leads _ x) (left r s w) (j.leads x r lx)),
                size-root _ y w j.valid (omega (arith, hy, j.same_range))
                    (subst (Leads _ y) (right r s w) (j.leads y s ly)),
              )
              (j.size, refl)
      ]
  where
    left : (r s w : ℕ) → (if (r == r) || (r == s) then w else r) ≡ w
    left r s w = ground arith

    right : (r s w : ℕ) → (if (s == r) || (s == s) then w else s) ≡ w
    right r s w = ground arith
