-- ===== src/Dsu.antt =====
-- include/disjoint_set_union.h: `DisjointSetUnion`, a union-find over the keys of hash maps, with the
-- key equality as an argument. A map is a list of its pairs; elements are added when they are met.
pub mod Elements
mod Tests
use av_utils.Base.{
  Bool, List, [], false, if◌then◌else◌, length, ltb, suc, true, zero, ℕ, ◌+◌, ◌-◌, ◌==◌, ◌||◌, ◌∷◌,
}
pub use av_utils.FastDsu.{UnionStrategy, by_rank, by_size}

pub record Dsu {ℓ} (T : Type ℓ) : Type ℓ where
  pub parents : List (T × T)
  pub ranks : List (T × ℕ)
  pub sizes : List (T × ℕ)
  pub sets : ℕ
  pub union_strategy : UnionStrategy

module _ {ℓ} {T : Type ℓ} where
  pub new : UnionStrategy → Dsu T
  new s = record { parents = []; ranks = []; sizes = []; sets = 0; union_strategy = s }

  pub count_sets : Dsu T → ℕ
  count_sets d = d.sets

  pub is_empty : Dsu T → Bool
  is_empty d = d.sets == 0

  pub total_elements : Dsu T → ℕ
  total_elements d = length d.parents

  pub clear : Dsu T → Dsu T
  clear d = new d.union_strategy

  -- The loop of `reset`: each key is its own parent, with the initial rank and size.
  pub self_parents : List (T × T) → List (T × T)
  self_parents [] = []
  self_parents ((x, p) ∷ rest) = (x, x) ∷ self_parents rest

module _ {ℓ ℓ'} {T : Type ℓ} {V : Type ℓ'} (eq : T → T → Bool) where
  -- `find` and `operator[]` of an unordered map; a missing key reads as the default.
  abbrev pub has_key : List (T × V) → T → Bool
  has_key [] k = false
  has_key ((j, v) ∷ rest) k = eq j k || has_key rest k

  abbrev pub read : List (T × V) → T → V → V
  read [] k d = d
  read ((j, v) ∷ rest) k d = if eq j k then v else read rest k d

  abbrev pub write : List (T × V) → T → V → List (T × V)
  write [] k v = (k, v) ∷ []
  write ((j, u) ∷ rest) k v = if eq j k then (j, v) ∷ rest else (j, u) ∷ write rest k v

module _ {ℓ} {T : Type ℓ} (eq : T → T → Bool) where
  pub contains : Dsu T → T → Bool
  contains d x = has_key eq d.parents x

  pub make_set : Dsu T → T → Dsu T
  make_set d x = if has_key eq d.parents x then d else record d {
    parents = write eq d.parents x x;
    ranks = write eq d.ranks x 0;
    sizes = write eq d.sizes x 1;
    sets = d.sets + 1;
  }

  -- The recursion of `find` on fuel.
  pub find_from : ℕ → Dsu T → T → Dsu T × T
  find_from zero d x = (d, x)
  find_from (suc fuel) d x =
      let d₁ = make_set d x in
      let above = find_from fuel d₁ (read eq d₁.parents x x) in
      if eq (read eq d₁.parents x x) x
      then (d₁, read eq d₁.parents x x)
      else (record (above.0) { parents = write eq above.0.parents x above.1 }, above.1)

  -- A path has no more steps than there are elements, `x` included.
  pub find : Dsu T → T → Dsu T × T
  find d x = find_from (suc (suc (length d.parents))) d x

  abbrev pub attach : Dsu T → T → T → Dsu T
  attach d child root = record d {
    parents = write eq d.parents child root;
    sizes = write eq d.sizes root (read eq d.sizes root 0 + read eq d.sizes child 0);
  }

  pub link : Dsu T → T → T → Dsu T
  link d root_x root_y = elim d.union_strategy [
    | by_rank ↦
        if ltb (read eq d.ranks root_x 0) (read eq d.ranks root_y 0)
        then attach d root_x root_y
        else (if ltb (read eq d.ranks root_y 0) (read eq d.ranks root_x 0)
            then attach d root_y root_x
            else record (attach d root_x root_y) {
              ranks = write eq d.ranks root_y (read eq d.ranks root_y 0 + 1);
            })
    | by_size ↦
        if ltb (read eq d.sizes root_x 0) (read eq d.sizes root_y 0)
        then attach d root_x root_y
        else (if ltb (read eq d.sizes root_y 0) (read eq d.sizes root_x 0)
            then attach d root_y root_x
            else attach d root_x root_y)
  ]

  pub union_sets : Dsu T → T → T → Dsu T × Bool
  union_sets d x y =
      let (d₁, root_x) = find d x in
      let (d₂, root_y) = find d₁ y in
      let linked = link d₂ root_x root_y in
      if eq root_x root_y then (d₂, false) else (record linked { sets = linked.sets - 1 }, true)

  pub connected : Dsu T → T → T → Dsu T × Bool
  connected d x y =
      let (d₁, root_x) = find d x in let (d₂, root_y) = find d₁ y in (d₂, eq root_x root_y)

  pub size : Dsu T → T → Dsu T × ℕ
  size d x = let (d₁, root) = find d x in (d₁, read eq d₁.sizes root 0)

  -- The loops over all keys, in the order in which the map gives them.
  pub compress_keys : List (T × T) → Dsu T → Dsu T
  compress_keys [] d = d
  compress_keys ((x, p) ∷ rest) d = compress_keys rest (find d x).0

  pub compress : Dsu T → Dsu T
  compress d = compress_keys d.parents d

  pub members_from : List (T × T) → Dsu T → T → Dsu T × List T
  members_from [] d root = (d, [])
  members_from ((x, p) ∷ rest) d root =
      let (d₁, r) = find d x in
      let (d₂, others) = members_from rest d₁ root in (d₂, if eq r root then x ∷ others else others)

  pub get_set_members : Dsu T → T → Dsu T × List T
  get_set_members d x = let (d₁, root) = find d x in members_from d₁.parents d₁ root

  pub write_all : List (T × T) → ℕ → List (T × ℕ) → List (T × ℕ)
  write_all [] v m = m
  write_all ((x, p) ∷ rest) v m = write_all rest v (write eq m x v)

  pub reset : Dsu T → Dsu T
  reset d = if length d.parents == 0 then d else record d {
    parents = self_parents d.parents;
    ranks = write_all d.parents 0 d.ranks;
    sizes = write_all d.parents 1 d.sizes;
    sets = length d.parents;
  }
