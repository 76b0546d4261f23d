-- ===== src/SegmentTree.antt =====
-- include/segment_tree.h: `SegmentTree<T, CombineOp>`, an array-backed tree for range queries. The
-- operation, its identity and `T{}` are parameters, as they are of the template.
pub mod Build
pub mod Shape
mod Tests
pub mod Sums
pub mod Query
use av_utils.Base.{
  Bool, List, Outcome, [], get_or, if◌then◌else◌, leb, length, ltb, ok, out_of_range, replicate,
  set, suc, throw, zero, ℕ, ◌%◌, ◌*◌, ◌+◌, ◌-◌, ◌/◌, ◌==◌, ◌||◌, ◌∷◌,
}

pub record SegmentTree {ℓ} (T : Type ℓ) : Type ℓ where
  pub tree : List T
  pub n : ℕ
  pub original_size : ℕ

-- `tree_[i] = initial_values[i - n_]` for the indices of the leaves, from `i` on.
pub fill {ℓ} : {T : Type ℓ} → ℕ → List T → List T → List T
fill i [] tree = tree
fill i (x ∷ xs) tree = fill (suc i) xs (set tree i x)

-- `d` is `T{}`, which `resize` fills the storage with.
module _ {ℓ} {T : Type ℓ} (op : T → T → T) (d : T) where
  -- `tree_[i] = operation_(tree_[2 * i], tree_[2 * i + 1])`
  abbrev pub combine : List T → ℕ → List T
  combine tree i = set tree i (op (get_or tree (2 * i) d) (get_or tree (2 * i + 1) d))

  -- The loop of the constructor from `i` down to 1.
  pub build : ℕ → List T → List T
  build zero tree = tree
  build (suc i) tree = build i (combine tree (suc i))

  pub from_values : List T → SegmentTree T
  from_values values =
      if length values == 0 then record { tree = []; n = 0; original_size = 0 } else record {
        tree =
            build (length values - 1)
              (fill (length values) values (replicate (2 * length values) d));
        n = length values;
        original_size = length values;
      }

  -- The constructor from a size and a value.
  pub from_count : ℕ → T → SegmentTree T
  unfolding from_values
  from_count count default_value = from_values (replicate count default_value)

  -- The loop of `update`: each round halves the index, so the index is fuel enough.
  pub climb : ℕ → ℕ → List T → List T
  climb zero tree_idx tree = tree
  climb (suc fuel) tree_idx tree =
      let rest = climb fuel (tree_idx / 2) (combine tree (tree_idx / 2)) in
      if ltb 1 tree_idx then rest else tree

  pub update : SegmentTree T → ℕ → T → Outcome (SegmentTree T)
  update t original_index new_value =
      if leb t.original_size original_index
      then throw out_of_range
      else ok (record t {
        tree =
            climb (t.n + original_index) (t.n + original_index)
              (set t.tree (t.n + original_index) new_value);
      })

  -- The two tests of the loop of `query`.
  abbrev pub take_left : List T → ℕ → T → T
  take_left tree l result = if l % 2 == 1 then op result (get_or tree l d) else result

  abbrev pub take_right : List T → ℕ → T → T
  take_right tree r result = if r % 2 == 1 then op result (get_or tree (r - 1) d) else result

  -- The loop of `query`: each round halves the right end, so that is fuel enough.
  pub query_loop : ℕ → List T → ℕ → ℕ → T → T
  query_loop zero tree l r result = result
  query_loop (suc fuel) tree l r result =
      let rest =
        query_loop fuel tree ((if l % 2 == 1 then l + 1 else l) / 2)
          ((if r % 2 == 1 then r - 1 else r) / 2) (take_right tree r (take_left tree l result)) in
      if ltb l r then rest else result

module _ {ℓ} {T : Type ℓ} (op : T → T → T) (identity d : T) where
  pub query : SegmentTree T → ℕ → ℕ → Outcome T
  query t range_left range_right =
      if ltb t.original_size range_left
        || ltb t.original_size range_right
        || ltb range_right range_left
      then throw out_of_range
      else (if range_left == range_right
          then ok identity
          else ok (
              query_loop op d (t.n + range_right) t.tree (t.n + range_left) (t.n + range_right)
                identity))

module _ {ℓ} {T : Type ℓ} where
  pub size : SegmentTree T → ℕ
  size t = t.original_size

  pub empty : SegmentTree T → Bool
  empty t = t.original_size == 0
