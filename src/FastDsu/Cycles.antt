-- ===== src/FastDsu/Cycles.antt =====
-- `hasCycle` and `countConnectedComponents`, and what `compress` and `reset` leave.
use av_utils.Base.{
  Bool, Bool-cases, List, [], append-nil, append_assoc, arith, false, get_elem?, inl, inr, length,
  not, refl, some, subst, suc, sym, take, true, zero, ℕ, ◌++◌, ◌+◌, ◌<◌, ◌==◌, ◌↔◌, ◌∙◌, ◌∷◌, ◌≡◌,
  ◌≤◌, ◌⊎◌,
}
use av_utils.FastDsu.{
  FastDsu, by_rank, compress, compress_from, connected, count_connected_components, count_sets,
  find, find_cycle, has_cycle, new, union_all, union_sets,
}
use av_utils.FastDsu.Find.{IsValid, Keeps, Keeps-refl, Keeps-trans, connected-roots, find-Found}
use av_utils.FastDsu.Sets.{root-Leads, union_sets_lem}
use av_utils.FastDsu.Graph.{new-IsValid}
use av_utils.FastDsu.Runs.{Walk, Within, no_edges, one_more, union_all-IsValid}
use av_utils.FastDsu.Components.{connected-union_all}

-- One edge lowers the number of sets by one at most.
count-union_all :
    (d : FastDsu) (edges : List (ℕ × ℕ))
    → IsValid d
    → Within d.max_element edges
    → count_sets d ≤ count_sets (union_all d edges) + length edges
unfolding union_all
count-union_all d [] v w = omega arith
count-union_all d ((x, y) ∷ edges) v (one_more hx hy w) =
    let (v', f, c, m) = union_sets_lem d x y v hx hy in
    ground (
      arith,
      c,
      count-union_all (union_sets d x y).0 edges v' (subst (λ k. Within k edges) (sym m) w),
    )

find_cycle-count :
    (d : FastDsu) (edges : List (ℕ × ℕ))
    → IsValid d
    → Within d.max_element edges
    → find_cycle d edges ≡ not (count_sets (union_all d edges) + length edges == count_sets d)
unfolding find_cycle union_all
find_cycle-count d [] v w = ground arith
find_cycle-count d ((x, y) ∷ edges) v (one_more hx hy w) =
    let (v', f, c, m) = union_sets_lem d x y v hx hy in
    let w' = subst (λ k. Within k edges) (sym m) w in
    rw (f, find_cycle-count (union_sets d x y).0 edges v' w') ground
      (arith, c, count-union_all (union_sets d x y).0 edges v' w')

-- `hasCycle` is true exactly when the edges and what `countConnectedComponents` gives are together
-- not `n` in number, for edges that all join vertices below `n`.
pub has_cycle-count :
    (n : ℕ) (edges : List (ℕ × ℕ))
    → Within n edges
    → has_cycle n edges ≡ not (count_connected_components n edges + length edges == n)
unfolding has_cycle count_connected_components new count_sets
has_cycle-count n edges w = find_cycle-count (new n by_rank) edges (new-IsValid n by_rank) w

-- The edges up to an edge, and it.
union_all-snoc :
    (d : FastDsu) (edges : List (ℕ × ℕ)) (u v : ℕ)
    → union_all d (edges ++ (u, v) ∷ []) ≡ (union_sets (union_all d edges) u v).0
unfolding union_all
union_all-snoc d [] u v = refl
union_all-snoc d ((x, y) ∷ edges) u v = union_all-snoc (union_sets d x y).0 edges u v

Within-snoc :
    {n : ℕ} {edges : List (ℕ × ℕ)} {u v : ℕ}
    → Within n edges
    → u < n
    → v < n
    → Within n (edges ++ (u, v) ∷ [])
Within-snoc no_edges hu hv = one_more hu hv no_edges
Within-snoc (one_more hx hy w) hu hv = one_more hx hy (Within-snoc w hu hv)

-- An edge whose ends a walk over the edges before it joins: it closes a cycle. The edges `before`
-- come first.
abbrev Closes : List (ℕ × ℕ) → List (ℕ × ℕ) → Type 0
Closes before edges =
    (i : ℕ) × (u : ℕ) × (v : ℕ) × (get_elem? edges i ≡ some (u, v))
    × Walk (before ++ take i edges) u v

-- Any cycle of the graph has a last edge, and that one closes it.
abbrev pub HasCycle : List (ℕ × ℕ) → Type 0
HasCycle edges = Closes [] edges

Closes-later :
    (before edges : List (ℕ × ℕ)) (x y : ℕ)
    → Closes (before ++ (x, y) ∷ []) edges
    → Closes before ((x, y) ∷ edges)
Closes-later before edges x y (i, u, v, e, p) =
    (suc i, u, v, e, subst (λ es. Walk es u v) (append_assoc before ((x, y) ∷ []) (take i edges)) p)

Closes-cases :
    (before edges : List (ℕ × ℕ)) (x y : ℕ)
    → Closes before ((x, y) ∷ edges)
    → Walk before x y ⊎ Closes (before ++ (x, y) ∷ []) edges
Closes-cases before edges x y (zero, u, v, e, p) =
    let left : u ≡ x = cc in
    let right : v ≡ y = cc in
    let q = subst (λ es. Walk es u v) (append-nil before) p in
    inl (subst (λ a. Walk before a y) left (subst (λ b. Walk before u b) right q))
Closes-cases before edges x y (suc i, u, v, e, p) = inr (
  i,
  u,
  v,
  e,
  subst (λ es. Walk es u v) (sym (append_assoc before ((x, y) ∷ []) (take i edges))) p,
)

find_cycle-Closes :
    (n : ℕ) (before edges : List (ℕ × ℕ))
    → Within n before
    → Within n edges
    → (find_cycle (union_all (new n by_rank) before) edges ≡ true) ↔ Closes before edges
unfolding find_cycle new
find_cycle-Closes n before [] b w = (λ e. absurd cc, λ (i, u, v, e, p). absurd cc)
find_cycle-Closes n before ((x, y) ∷ edges) b (one_more hx hy w) =
    let d = union_all (new n by_rank) before in
    let (valid, m) = union_all-IsValid (new n by_rank) before (new-IsValid n by_rank) b in
    let (v', f, c, m') = union_sets_lem d x y valid (omega (arith, hx, m)) (omega (arith, hy, m)) in
    let joined = connected-union_all n by_rank before x y b hx hy in
    let later =
      subst (λ s. (find_cycle s edges ≡ true) ↔ Closes (before ++ (x, y) ∷ []) edges)
        (union_all-snoc (new n by_rank) before x y)
        (find_cycle-Closes n (before ++ (x, y) ∷ []) edges (Within-snoc b hx hy) w) in
    elim (Bool-cases (connected d x y).1) [
      | inl h ↦
          rw (f, h)
            (
              λ e. (
                zero,
                x,
                y,
                refl,
                subst (λ es. Walk es x y) (sym (append-nil before)) (joined.0 h),
              ),
              λ c. refl,
            )
      | inr h ↦
          rw (f, h)
            (
              λ e. Closes-later before edges x y (later.0 e),
              λ c. elim (Closes-cases before edges x y c) [
                | inl p ↦ absurd (no_walk h (joined.1 p))
                | inr c' ↦ later.1 c'
              ],
            )
    ]
  where
    no_walk : {b : Bool} → b ≡ false → b ≡ true → ⊥
    no_walk e e' = cc

-- For a graph whose edges all join vertices below `n`, `hasCycle` is true exactly when some edge
-- joins two vertices that a walk over the edges before it joins already.
pub has_cycle_lem :
    (n : ℕ) (edges : List (ℕ × ℕ)) → Within n edges → (has_cycle n edges ≡ true) ↔ HasCycle edges
unfolding has_cycle union_all
has_cycle_lem n edges w = find_cycle-Closes n [] edges no_edges w

compress_from-Keeps :
    (i k : ℕ) (d : FastDsu)
    → IsValid d
    → i + k ≤ d.max_element
    → Keeps d (compress_from i k d) × IsValid (compress_from i k d)
unfolding compress_from
compress_from-Keeps i zero d v h = (Keeps-refl d, v)
compress_from-Keeps i (suc k) d v h =
    let (l, e, v') = find-Found d i v (omega arith) in
    let (f, v'') = compress_from-Keeps (suc i) k (find d i).0 v' (omega (arith, h, e.same_range)) in
    (Keeps-trans e f, v'')

-- `compress` leaves a valid structure with the same number of sets, and every two elements are
-- connected as they were.
pub compress_lem :
    (d : FastDsu) (x y : ℕ)
    → IsValid d
    → x < d.max_element
    → y < d.max_element
    → IsValid (compress d)
      × ((connected (compress d) x y).1 ≡ (connected d x y).1)
      × (count_sets (compress d) ≡ count_sets d)
unfolding compress count_sets
compress_lem d x y v hx hy =
    let (k, v') = compress_from-Keeps 0 d.max_element d v (omega arith) in
    let (r, hr, lx) = root-Leads d x v hx in
    let (s, hs, ly) = root-Leads d y v hy in
    (
      v',
      connected-roots _ x y r s v' (omega (arith, hx, k.same_range))
            (omega (arith, hy, k.same_range)) (k.leads x r lx) (k.leads y s ly)
          ∙ sym (connected-roots d x y r s v hx hy lx ly),
      k.same_count,
    )
