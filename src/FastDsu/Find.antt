-- ===== src/FastDsu/Find.antt =====
-- `find` and path compression, and the queries that go through them.
use native.Mathlib.Decide.{ℕ_discrete}
use av_utils.Base.{
  ap₂, arith, eq→==, get_or, length, ne→==, refl, set, subst, suc, zero, ℕ, ◌+◌, ◌<◌, ◌==◌, ◌∙◌,
  ◌≡◌, ◌≢◌, ◌≤◌,
}
use av_utils.FastDsu.{FastDsu, connected, find, find_from}
use av_utils.FastDsu.Forest.{Leads, Leads-compress, Leads-root, Leads-unique, at_root, up}
use av_utils.FastDsu.Valid.{IsForest, compress-IsForest}

pub record IsValid (d : FastDsu) : Type 0 where
  pub forest : IsForest d.max_element d.parent d.set_size d.num_sets
  pub ranked : length d.rank ≡ d.max_element

-- The roots of all elements, and all fields but the parents, are as they were.
pub record Keeps (d d' : FastDsu) : Type 0 where
  pub leads : (y s : ℕ) → Leads d.parent y s → Leads d'.parent y s
  pub same_size : d'.set_size ≡ d.set_size
  pub same_rank : d'.rank ≡ d.rank
  pub same_count : d'.num_sets ≡ d.num_sets
  pub same_range : d'.max_element ≡ d.max_element
  pub same_strategy : d'.strategy ≡ d.strategy

pub Keeps-refl : (d : FastDsu) → Keeps d d
Keeps-refl d = record {
  leads = λ y s l. l;
  same_size = refl;
  same_rank = refl;
  same_count = refl;
  same_range = refl;
  same_strategy = refl;
}

pub Keeps-trans : {d e f : FastDsu} → Keeps d e → Keeps e f → Keeps d f
Keeps-trans a b = record {
  leads = λ y s l. b.leads y s (a.leads y s l);
  same_size = b.same_size ∙ a.same_size;
  same_rank = b.same_rank ∙ a.same_rank;
  same_count = b.same_count ∙ a.same_count;
  same_range = b.same_range ∙ a.same_range;
  same_strategy = b.same_strategy ∙ a.same_strategy;
}

-- What a call of `find` owes its caller: the root, and a structure with the same roots.
abbrev pub Found : FastDsu → ℕ → FastDsu × ℕ → Type 0
Found d x (d', r) = Leads d.parent x r × Keeps d d' × IsValid d'

compress_step :
    {d d' : FastDsu} (x r : ℕ)
    → IsValid d
    → x < d.max_element
    → get_or d.parent x 0 ≢ x
    → Found d (get_or d.parent x 0) (d', r)
    → Found d x (record d' { parent = set d'.parent x r }, r)
compress_step {d} {d'} x r v h q (l, k, v') = (
  path,
  record {
    leads = λ y s m. Leads-compress x r inside (k.leads x r path) inner (k.leads y s m);
    same_size = k.same_size;
    same_rank = k.same_rank;
    same_count = k.same_count;
    same_range = k.same_range;
    same_strategy = k.same_strategy;
  },
  record {
    forest =
        compress-IsForest x r v'.forest (omega (arith, h, k.same_range)) inner (k.leads x r path);
    ranked = v'.ranked;
  },
)
  where
    path : Leads d.parent x r
    path = up refl q l

    inside : x < length d'.parent
    inside = omega (arith, h, k.same_range, v'.forest.parents)

    -- An element that were a root now would be its own root before.
    inner : get_or d'.parent x 0 ≢ x
    inner z = q (
        subst (λ m. get_or d.parent m 0 ≡ m) (Leads-unique (k.leads x r path) (at_root refl z))
          (Leads-root path))

find_from_lem :
    (fuel : ℕ) (d : FastDsu) (x : ℕ)
    → IsValid d
    → x < d.max_element
    → d.max_element ≤ fuel + get_or d.set_size x 0
    → Found d x (find_from (suc fuel) d x)
unfolding find_from
find_from_lem zero d x v h f = elim (ℕ_discrete (get_or d.parent x 0) x) [
  | yes q ↦ rw (eq→== (get_or d.parent x 0) x q) (at_root refl q, Keeps-refl d, v)
  | no q ↦ absurd (
      omega (
        arith,
        f,
        v.forest.grows x h q,
        v.forest.bounded (get_or d.parent x 0) (v.forest.in_range x h),
      ))
]
find_from_lem (suc fuel) d x v h f = elim (ℕ_discrete (get_or d.parent x 0) x) [
  | yes q ↦ rw (eq→== (get_or d.parent x 0) x q) (at_root refl q, Keeps-refl d, v)
  | no q ↦ rw (ne→== (get_or d.parent x 0) x q) (
      compress_step x _ v h q (
        find_from_lem fuel d (get_or d.parent x 0) v (v.forest.in_range x h)
          (omega (arith, f, v.forest.grows x h q))))
]

pub find-Found : (d : FastDsu) (x : ℕ) → IsValid d → x < d.max_element → Found d x (find d x)
unfolding find
find-Found d x v h = find_from_lem d.max_element d x v h (omega arith)

-- On a valid structure, for an element `x` in range, `find` returns the root that its parents lead to; the structure it
-- leaves is valid, every element `y` has the root it had, and only parents differ.
pub find_lem :
    (d : FastDsu) (x y s : ℕ)
    → IsValid d
    → x < d.max_element
    → Leads d.parent y s
    → Leads d.parent x (find d x).1
      × Leads (find d x).0.parent y s
      × IsValid (find d x).0
      × ((find d x).0.set_size ≡ d.set_size)
      × ((find d x).0.rank ≡ d.rank)
      × ((find d x).0.num_sets ≡ d.num_sets)
      × ((find d x).0.max_element ≡ d.max_element)
      × ((find d x).0.strategy ≡ d.strategy)
find_lem d x y s v h l =
    let (path, k, v') = find-Found d x v h in
    (path, k.leads y s l, v', k.same_size, k.same_rank, k.same_count, k.same_range, k.same_strategy)

-- `connected` tests whether the roots are the same.
pub connected-roots :
    (d : FastDsu) (x y r s : ℕ)
    → IsValid d
    → x < d.max_element
    → y < d.max_element
    → Leads d.parent x r
    → Leads d.parent y s
    → (connected d x y).1 ≡ (r == s)
unfolding connected
connected-roots d x y r s v hx hy lx ly =
    let (px, k, v') = find-Found d x v hx in
    let (py, k', v'') = find-Found (find d x).0 y v' (omega (arith, hy, k.same_range)) in
    ap₂ ◌==◌ (Leads-unique px lx) (Leads-unique py (k.leads y s ly))
