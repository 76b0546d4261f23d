-- ===== src/FastDsu.antt =====
-- include/disjoint_set_union.h: `FastDSU`, a union-find over 0 to n - 1 with path compression and
-- union by rank or by size, and the graph algorithms of `DSUApplications` that use it. An `int` here
-- is never negative; the assertions on the range of elements are hypotheses of the theorems.
pub mod Forest
pub mod Sums
pub mod Valid
pub mod Link
pub mod Find
pub mod Union
pub mod Sets
pub mod Graph
pub mod Runs
pub mod Components
pub mod Cycles
mod Tests
use av_utils.Base.{
  Bool, List, [], false, get_or, if◌then◌else◌, length, ltb, not, replicate, set, suc, true, zero,
  ℕ, ◌&&◌, ◌++◌, ◌+◌, ◌-◌, ◌==◌, ◌^◌, ◌∷◌,
}

pub data UnionStrategy : Type 0 where
  by_rank by_size : UnionStrategy

pub record FastDsu : Type 0 where
  pub parent : List ℕ
  pub rank : List ℕ
  pub set_size : List ℕ
  pub strategy : UnionStrategy
  pub num_sets : ℕ
  pub max_element : ℕ

-- The list from `i` on with `n` entries, as the constructor's loop fills it.
pub iota : ℕ → ℕ → List ℕ
iota i zero = []
iota i (suc n) = i ∷ iota (suc i) n

pub new : ℕ → UnionStrategy → FastDsu
unfolding iota
new n strategy = record {
  parent = iota 0 n;
  rank = replicate n 0;
  set_size = replicate n 1;
  strategy = strategy;
  num_sets = n;
  max_element = n;
}

-- The recursion of `find` on fuel: the new structure and the representative.
pub find_from : ℕ → FastDsu → ℕ → FastDsu × ℕ
find_from zero d x = (d, x)
find_from (suc fuel) d x =
    let above = find_from fuel d (get_or d.parent x 0) in
    if get_or d.parent x 0 == x
    then (d, x)
    else (record (above.0) { parent = set above.0.parent x above.1 }, above.1)

-- No path is longer than there are elements.
pub find : FastDsu → ℕ → FastDsu × ℕ
find d x = find_from (suc d.max_element) d x

-- `parent[child] = root; setSize[root] += setSize[child];`
abbrev pub attach : FastDsu → ℕ → ℕ → FastDsu
attach d child root = record d {
  parent = set d.parent child root;
  set_size = set d.set_size root (get_or d.set_size root 0 + get_or d.set_size child 0);
}

-- Which root is attached to which, for two different roots.
pub link : FastDsu → ℕ → ℕ → FastDsu
link d root_x root_y = elim d.strategy [
  | by_rank ↦
      if ltb (get_or d.rank root_x 0) (get_or d.rank root_y 0)
      then attach d root_x root_y
      else (if ltb (get_or d.rank root_y 0) (get_or d.rank root_x 0)
          then attach d root_y root_x
          else record (attach d root_x root_y) {
            rank = set d.rank root_y (get_or d.rank root_y 0 + 1);
          })
  | by_size ↦
      if ltb (get_or d.set_size root_x 0) (get_or d.set_size root_y 0)
      then attach d root_x root_y
      else (if ltb (get_or d.set_size root_y 0) (get_or d.set_size root_x 0)
          then attach d root_y root_x
          else attach d root_x root_y)
]

-- `numSets--` runs only with two different roots, so at a positive count.
abbrev pub union_roots : FastDsu → ℕ → ℕ → FastDsu × Bool
union_roots d root_x root_y = if root_x == root_y then (d, false) else (
  let linked = link d root_x root_y in record linked { num_sets = linked.num_sets - 1 },
  true,
)

pub union_sets : FastDsu → ℕ → ℕ → FastDsu × Bool
union_sets d x y =
    let (d₁, root_x) = find d x in let (d₂, root_y) = find d₁ y in union_roots d₂ root_x root_y

-- The two calls of `find` may be evaluated in either order; here the left one comes first.
pub connected : FastDsu → ℕ → ℕ → FastDsu × Bool
connected d x y =
    let (d₁, root_x) = find d x in let (d₂, root_y) = find d₁ y in (d₂, root_x == root_y)

pub size : FastDsu → ℕ → FastDsu × ℕ
size d x = let (d₁, root) = find d x in (d₁, get_or d₁.set_size root 0)

pub count_sets : FastDsu → ℕ
count_sets d = d.num_sets

pub contains : FastDsu → ℕ → Bool
contains d x = ltb x d.max_element

pub is_empty : FastDsu → Bool
is_empty d = d.num_sets == 0

pub reset : FastDsu → FastDsu
reset d = if d.max_element == 0 then d else new d.max_element d.strategy

-- The loop of `compress` from `i` on, with `n` rounds to go.
pub compress_from : ℕ → ℕ → FastDsu → FastDsu
compress_from i zero d = d
compress_from i (suc n) d = compress_from (suc i) n (find d i).0

pub compress : FastDsu → FastDsu
compress d = compress_from 0 d.max_element d

-- `hasCycle` and `countConnectedComponents` over the edges of a graph.
pub find_cycle : FastDsu → List (ℕ × ℕ) → Bool
find_cycle d [] = false
find_cycle d ((u, v) ∷ edges) =
    let rest = find_cycle (union_sets d u v).0 edges in
    if not (union_sets d u v).1 then true else rest

pub has_cycle : ℕ → List (ℕ × ℕ) → Bool
has_cycle n edges = find_cycle (new n by_rank) edges

pub union_all : FastDsu → List (ℕ × ℕ) → FastDsu
union_all d [] = d
union_all d ((u, v) ∷ edges) = union_all (union_sets d u v).0 edges

pub count_connected_components : ℕ → List (ℕ × ℕ) → ℕ
count_connected_components n edges = count_sets (union_all (new n by_rank) edges)

pub record Edge : Type 0 where
  pub u : ℕ
  pub v : ℕ
  pub weight : ℕ

-- The loop of `kruskalMST` over the sorted edges; it stops when the tree has `limit` edges.
pub kruskal_from : FastDsu → ℕ → List Edge → List Edge → List Edge
kruskal_from d limit mst [] = mst
kruskal_from d limit mst (e ∷ edges) =
    let (d', merged) = union_sets d e.u e.v in
    let next = if merged then mst ++ e ∷ [] else mst in
    let rest = kruskal_from d' limit next edges in
    if merged && (length next == limit) then next else rest

-- `std::sort` is an argument. For no vertices the limit n - 1 is the highest value of `size_t`.
pub kruskal_mst : (List Edge → List Edge) → ℕ → List Edge → List Edge
kruskal_mst sort n edges =
    kruskal_from (new n by_rank) (if n == 0 then 2 ^ 64 - 1 else n - 1) [] (sort edges)
