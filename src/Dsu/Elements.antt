-- ===== src/Dsu/Elements.antt =====
-- The elements of `DisjointSetUnion`: `makeSet` and `reset`.
use av_utils.Base.{
  Bool, Bool-cases, List, [], arith, false, if◌then◌else◌, inl, inr, length, not, refl, ◌&&◌, ◌+◌,
  ◌||◌, ◌∷◌, ◌≡◌,
}
use av_utils.Dsu.{Dsu, contains, count_sets, has_key, make_set, total_elements, write}

module _ {ℓ ℓ'} {T : Type ℓ} {V : Type ℓ'} (eq : T → T → Bool) where
  has_key-write :
      (m : List (T × V)) (k : T) (v : V) (j : T)
      → has_key eq m k ≡ false
      → has_key eq (write eq m k v) j ≡ (has_key eq m j || eq k j)
  has_key-write [] k v j h = ground arith
  has_key-write ((i, u) ∷ m) k v j h = ground (arith, h, has_key-write m k v j)

  length-write :
      (m : List (T × V)) (k : T) (v : V)
      → has_key eq m k ≡ false
      → length (write eq m k v) ≡ length m + 1
  length-write [] k v h = omega arith
  length-write ((i, u) ∷ m) k v h = ground (arith, h, length-write m k v)

module _ {ℓ} {T : Type ℓ} (eq : T → T → Bool) where
  -- `makeSet(x)` adds `x` and one set if `x` is not there, and otherwise nothing; any `y` is there then
  -- if it was, or if it is the element added.
  pub make_set_lem :
      (d : Dsu T) (x y : T)
      → (contains eq (make_set eq d x) y ≡ (contains eq d y || (not (contains eq d x) && eq x y)))
        × (count_sets (make_set eq d x) ≡ count_sets d + (if contains eq d x then 0 else 1))
        × (total_elements (make_set eq d x) ≡ total_elements d + (if contains eq d x then 0 else 1))
  unfolding contains make_set count_sets total_elements
  make_set_lem d x y = elim (Bool-cases (has_key eq d.parents x)) [
    | inl h ↦ rw h (ground arith, omega arith, omega arith)
    | inr h ↦ rw h (has_key-write eq d.parents x x y h, refl, length-write eq d.parents x x h)
  ]
