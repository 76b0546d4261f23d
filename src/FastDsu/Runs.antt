-- ===== src/FastDsu/Runs.antt =====
-- A run of `union_sets` over the edges of a graph: what it keeps and what each edge joins.
use av_utils.Base.{
  ==→eq, Bool, List, [], arith, eq→==, false, get_elem?, none, refl, some, subst, suc, sym, true,
  zero, ℕ, ◌<◌, ◌||◌, ◌∙◌, ◌∷◌, ◌≡◌,
}
use av_utils.FastDsu.{FastDsu, connected, union_all, union_sets}
use av_utils.FastDsu.Forest.{}
use av_utils.FastDsu.Find.{IsValid, connected-roots}
use av_utils.FastDsu.Sets.{connected-union_sets, root-Leads, union_sets_lem}
use av_utils.FastDsu.Graph.{}

-- All edges join vertices below `n`.
pub data Within (n : ℕ) : List (ℕ × ℕ) → Type 0 where
  no_edges : Within n []
  one_more :
      {u v : ℕ} {edges : List (ℕ × ℕ)} → u < n → v < n → Within n edges → Within n ((u, v) ∷ edges)

-- The vertices that a walk over the edges, in either direction, joins.
pub data Walk (edges : List (ℕ × ℕ)) : ℕ → ℕ → Type 0 where
  stay : {u v : ℕ} → u ≡ v → Walk edges u v
  edge : {u v : ℕ} (i : ℕ) → get_elem? edges i ≡ some (u, v) → Walk edges u v
  back : {u v : ℕ} → Walk edges u v → Walk edges v u
  join : {u v w : ℕ} → Walk edges u v → Walk edges v w → Walk edges u w

pub Within-edge :
    {n : ℕ} {edges : List (ℕ × ℕ)} (i : ℕ) (u v : ℕ)
    → Within n edges
    → get_elem? edges i ≡ some (u, v)
    → (u < n) × (v < n)
Within-edge i u v no_edges e = absurd (none-not-some e)
  where
    none-not-some : {A : Type 0} {a : A} → none ≡ some a → ⊥
    none-not-some e = cc
Within-edge {n} zero u v (one_more {u = u'} {v = v'} h k w) e =
    (subst (λ m. m < n) left h, subst (λ m. m < n) right k)
  where
    left : u' ≡ u
    left = cc

    right : v' ≡ v
    right = cc
Within-edge (suc i) u v (one_more h k w) e = Within-edge i u v w e

abbrev pub Same : FastDsu → ℕ → ℕ → Type 0
Same d u v = (connected d u v).1 ≡ true

-- Being connected is an equivalence on the elements in range.
pub Same-sym :
    (d : FastDsu) (u v : ℕ)
    → IsValid d
    → u < d.max_element
    → v < d.max_element
    → Same d u v
    → Same d v u
Same-sym d u v valid hu hv e =
    let (r, hr, lu) = root-Leads d u valid hu in
    let (s, hs, lv) = root-Leads d v valid hv in
    connected-roots d v u s r valid hv hu lv lu
    ∙ eq→== s r (sym (==→eq r s (sym (connected-roots d u v r s valid hu hv lu lv) ∙ e)))

pub Same-refl : (d : FastDsu) (u : ℕ) → IsValid d → u < d.max_element → Same d u u
Same-refl d u valid hu =
    let (r, hr, lu) = root-Leads d u valid hu in
    connected-roots d u u r r valid hu hu lu lu ∙ eq→== r r refl

pub Same-trans :
    (d : FastDsu) (u v w : ℕ)
    → IsValid d
    → u < d.max_element
    → v < d.max_element
    → w < d.max_element
    → Same d u v
    → Same d v w
    → Same d u w
Same-trans d u v w valid hu hv hw e f =
    let (r, hr, lu) = root-Leads d u valid hu in
    let (s, hs, lv) = root-Leads d v valid hv in
    let (t, ht, lw) = root-Leads d w valid hw in
    connected-roots d u w r t valid hu hw lu lw
    ∙ eq→== r t (
        ==→eq r s (sym (connected-roots d u v r s valid hu hv lu lv) ∙ e)
        ∙ ==→eq s t (sym (connected-roots d v w s t valid hv hw lv lw) ∙ f))

-- What is kept along the run.
pub union_all-IsValid :
    (d : FastDsu) (edges : List (ℕ × ℕ))
    → IsValid d
    → Within d.max_element edges
    → IsValid (union_all d edges) × ((union_all d edges).max_element ≡ d.max_element)
unfolding union_all
union_all-IsValid d [] v w = (v, refl)
union_all-IsValid d ((x, y) ∷ edges) v (one_more hx hy w) =
    let (v', f, c, m) = union_sets_lem d x y v hx hy in
    let (v'', m') =
      union_all-IsValid (union_sets d x y).0 edges v' (subst (λ k. Within k edges) (sym m) w) in
    (v'', m' ∙ m)

-- The elements that were connected stay so, and the edges connect their ends.
union_sets-keeps :
    (d : FastDsu) (x y u v : ℕ)
    → IsValid d
    → x < d.max_element
    → y < d.max_element
    → u < d.max_element
    → v < d.max_element
    → Same d u v
    → Same (union_sets d x y).0 u v
union_sets-keeps d x y u v valid hx hy hu hv e =
    rw (connected-union_sets d x y u v valid hx hy hu hv, e) refl

union_sets-joins :
    (d : FastDsu) (x y : ℕ)
    → IsValid d
    → x < d.max_element
    → y < d.max_element
    → Same (union_sets d x y).0 x y
union_sets-joins d x y valid hx hy =
    rw
      (
        connected-union_sets d x y x y valid hx hy hx hy,
        Same-refl d x valid hx,
        Same-refl d y valid hy,
      )
      (or-true (connected d x y).1 _)
  where
    or-true : (a b : Bool) → (a || true || b) ≡ true
    or-true true b = refl
    or-true false b = refl

pub union_all-keeps :
    (d : FastDsu) (edges : List (ℕ × ℕ)) (u v : ℕ)
    → IsValid d
    → Within d.max_element edges
    → u < d.max_element
    → v < d.max_element
    → Same d u v
    → Same (union_all d edges) u v
unfolding union_all
union_all-keeps d [] u v valid w hu hv e = e
union_all-keeps d ((x, y) ∷ edges) u v valid (one_more hx hy w) hu hv e =
    let (v', f, c, m) = union_sets_lem d x y valid hx hy in
    union_all-keeps (union_sets d x y).0 edges u v v' (subst (λ k. Within k edges) (sym m) w)
      (omega (arith, hu, m)) (omega (arith, hv, m)) (union_sets-keeps d x y u v valid hx hy hu hv e)

pub union_all-joins :
    (d : FastDsu) (edges : List (ℕ × ℕ)) (i u v : ℕ)
    → IsValid d
    → Within d.max_element edges
    → get_elem? edges i ≡ some (u, v)
    → Same (union_all d edges) u v
unfolding union_all
union_all-joins d [] i u v valid w e = cc
union_all-joins d ((x, y) ∷ edges) zero u v valid (one_more hx hy w) e =
    let (v', f, c, m) = union_sets_lem d x y valid hx hy in
    union_all-keeps (union_sets d x y).0 edges u v v' (subst (λ k. Within k edges) (sym m) w)
      (omega (arith, hx, m, left)) (omega (arith, hy, m, right))
      (subst (λ a. Same (union_sets d x y).0 a v) left
        (subst (Same (union_sets d x y).0 x) right (union_sets-joins d x y valid hx hy)))
  where
    left : x ≡ u
    left = cc

    right : y ≡ v
    right = cc
union_all-joins d ((x, y) ∷ edges) (suc i) u v valid (one_more hx hy w) e =
    let (v', f, c, m) = union_sets_lem d x y valid hx hy in
    union_all-joins (union_sets d x y).0 edges i u v v' (subst (λ k. Within k edges) (sym m) w) e
