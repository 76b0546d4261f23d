-- ===== src/FastDsu/Components.antt =====
-- The graph algorithms of `DSUApplications`: connectivity, the number of components, cycles.
use av_utils.Base.{
  ==→eq, Bool, List, [], arith, false, get_elem?, inl, inr, refl, some, subst, suc, sym, true, ℕ,
  ◌&&◌, ◌<◌, ◌||◌, ◌↔◌, ◌∙◌, ◌∷◌, ◌≡◌, ◌⊎◌,
}
use av_utils.FastDsu.{FastDsu, UnionStrategy, connected, new, union_all, union_sets}
use av_utils.FastDsu.Find.{IsValid}
use av_utils.FastDsu.Sets.{connected-union_sets, union_sets_lem}
use av_utils.FastDsu.Graph.{connected-new, new-IsValid}
use av_utils.FastDsu.Runs.{
  Same, Same-refl, Same-sym, Same-trans, Walk, Within, Within-edge, back, edge, join, one_more,
  stay, union_all-IsValid, union_all-joins,
}

-- No run connects what no walk joins.
union_sets-Walk :
    (all : List (ℕ × ℕ)) (d : FastDsu) (x y u v : ℕ)
    → IsValid d
    → x < d.max_element
    → y < d.max_element
    → u < d.max_element
    → v < d.max_element
    → Walk all x y
    → ((a b : ℕ) → a < d.max_element → b < d.max_element → Same d a b → Walk all a b)
    → Same (union_sets d x y).0 u v
    → Walk all u v
union_sets-Walk all d x y u v valid hx hy hu hv path known e =
    elim (any_way (connected d u v).1 (connected d u x).1 (connected d y v).1 (connected d u y).1
      (connected d x v).1 (sym (connected-union_sets d x y u v valid hx hy hu hv) ∙ e)) [
        | inl p ↦ known u v hu hv p
        | inr (inl (p, q)) ↦ join (known u x hu hx p) (join path (known y v hy hv q))
        | inr (inr (p, q)) ↦ join (known u y hu hy p) (join (back path) (known x v hx hv q))
      ]
  where
    any_way :
        (a b c d e : Bool)
        → (a || (b && c) || (d && e)) ≡ true
        → (a ≡ true) ⊎ ((b ≡ true) × (c ≡ true)) ⊎ ((d ≡ true) × (e ≡ true))
    any_way true b c d e h = inl refl
    any_way false true true d e h = inr (inl (refl, refl))
    any_way false true false true true h = inr (inr (refl, refl))
    any_way false true false true false h = absurd cc
    any_way false true false false e h = absurd cc
    any_way false false c true true h = inr (inr (refl, refl))
    any_way false false c true false h = absurd cc
    any_way false false c false e h = absurd cc

union_all-Walk :
    (all : List (ℕ × ℕ)) (d : FastDsu) (edges : List (ℕ × ℕ)) (u v : ℕ)
    → IsValid d
    → Within d.max_element edges
    → ((i a b : ℕ) → get_elem? edges i ≡ some (a, b) → Walk all a b)
    → ((a b : ℕ) → a < d.max_element → b < d.max_element → Same d a b → Walk all a b)
    → u < d.max_element
    → v < d.max_element
    → Same (union_all d edges) u v
    → Walk all u v
unfolding union_all
union_all-Walk all d [] u v valid w step known hu hv e = known u v hu hv e
union_all-Walk all d ((x, y) ∷ edges) u v valid (one_more hx hy w) step known hu hv e =
    let (v', f, c, m) = union_sets_lem d x y valid hx hy in
    union_all-Walk all (union_sets d x y).0 edges u v v' (subst (λ k. Within k edges) (sym m) w)
      (λ i a b l. step (suc i) a b l)
      (λ a b ha hb s.
        union_sets-Walk all d x y a b valid hx hy (omega (arith, ha, m)) (omega (arith, hb, m))
          (step 0 x y refl) known s)
      (omega (arith, hu, m)) (omega (arith, hv, m)) e

-- Both ends of a walk from a vertex in range are in range.
Walk-in_range :
    {n : ℕ} {edges : List (ℕ × ℕ)} {u v : ℕ}
    → Within n edges
    → Walk edges u v
    → (u < n → v < n) × (v < n → u < n)
Walk-in_range w (stay e) = (λ h. omega (arith, h, e), λ h. omega (arith, h, e))
Walk-in_range w (edge {u} {v} i e) = let (h, k) = Within-edge i u v w e in (λ l. k, λ l. h)
Walk-in_range w (back p) = let (f, g) = Walk-in_range w p in (g, f)
Walk-in_range w (join p q) =
    let (f, g) = Walk-in_range w p in
    let (f', g') = Walk-in_range w q in (λ h. f' (f h), λ h. g (g' h))

Walk-Same :
    (d : FastDsu) (edges : List (ℕ × ℕ)) (u v : ℕ)
    → IsValid d
    → Within d.max_element edges
    → ((i a b : ℕ) → get_elem? edges i ≡ some (a, b) → Same d a b)
    → u < d.max_element
    → v < d.max_element
    → Walk edges u v
    → Same d u v
Walk-Same d edges u v valid w step hu hv (stay e) = subst (Same d u) e (Same-refl d u valid hu)
Walk-Same d edges u v valid w step hu hv (edge i e) = step i u v e
Walk-Same d edges u v valid w step hu hv (back p) =
    Same-sym d v u valid hv hu (Walk-Same d edges v u valid w step hv hu p)
Walk-Same d edges u v valid w step hu hv (join {v = m} p q) =
    let hm = (Walk-in_range w p).0 hu in
    Same-trans d u m v valid hu hm hv (Walk-Same d edges u m valid w step hu hm p)
      (Walk-Same d edges m v valid w step hm hv q)

-- After `union_sets` over the edges of a graph, all of which join vertices below `n`, on a fresh
-- structure of `n` elements, two vertices below `n` are connected exactly when a walk over the edges
-- joins them.
pub connected-union_all :
    (n : ℕ) (strategy : UnionStrategy) (edges : List (ℕ × ℕ)) (u v : ℕ)
    → Within n edges
    → u < n
    → v < n
    → ((connected (union_all (new n strategy) edges) u v).1 ≡ true) ↔ Walk edges u v
unfolding new
connected-union_all n strategy edges u v w hu hv =
    let (valid, m) = union_all-IsValid (new n strategy) edges (new-IsValid n strategy) w in
    (
      λ e.
          union_all-Walk edges (new n strategy) edges u v (new-IsValid n strategy) w
            (λ i a b l. edge i l)
            (λ a b ha hb s. stay (==→eq a b (sym (connected-new n strategy a b ha hb) ∙ s))) hu hv
            e,
      λ p.
          Walk-Same (union_all (new n strategy) edges) edges u v valid
            (subst (λ k. Within k edges) (sym m) w)
            (λ i a b l. union_all-joins (new n strategy) edges i a b (new-IsValid n strategy) w l)
            (omega (arith, hu, m)) (omega (arith, hv, m)) p,
    )
