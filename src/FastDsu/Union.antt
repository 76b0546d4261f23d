-- ===== src/FastDsu/Union.antt =====
-- `union_sets`: which sets it joins, and what it counts.
use native.Mathlib.Decide.{ℕ_discrete}
use av_utils.Base.{
  Bool, Bool-cases, ap, arith, eq→==, false, get_or, get_or-set_at, if◌then◌else◌, inl, inr, length,
  length-set, ltb, ne→==, refl, set, subst, sym, true, ℕ, ◌+◌, ◌-◌, ◌<◌, ◌==◌, ◌||◌, ◌∙◌, ◌≡◌, ◌≢◌,
  ◌⊎◌,
}
use av_utils.FastDsu.{
  FastDsu, UnionStrategy, attach, by_rank, by_size, find, link, union_roots, union_sets,
}
use av_utils.FastDsu.Forest.{Leads, Leads-link, Leads-root, Leads-unique}
use av_utils.FastDsu.Valid.{Leads-in_range}
use av_utils.FastDsu.Link.{link-IsForest}
use av_utils.FastDsu.Find.{IsValid, Keeps, Keeps-trans, find-Found}

UnionStrategy-cases : (s : UnionStrategy) → (s ≡ by_rank) ⊎ (s ≡ by_size)
UnionStrategy-cases by_rank = inl refl
UnionStrategy-cases by_size = inr refl

-- `d'` is `d` with the root `a` below the root `b`, up to ranks.
record Attached (d d' : FastDsu) (a b : ℕ) : Type 0 where
  new_parent : d'.parent ≡ set d.parent a b
  new_size : d'.set_size ≡ set d.set_size b (get_or d.set_size b 0 + get_or d.set_size a 0)
  same_count : d'.num_sets ≡ d.num_sets
  same_range : d'.max_element ≡ d.max_element
  ranked : length d'.rank ≡ length d.rank

attach-Attached : (d : FastDsu) (a b : ℕ) → Attached d (attach d a b) a b
attach-Attached d a b = record {
  new_parent = refl;
  new_size = refl;
  same_count = refl;
  same_range = refl;
  ranked = refl;
}

link_cases : (d : FastDsu) (a b : ℕ) → Attached d (link d a b) a b ⊎ Attached d (link d a b) b a
unfolding link
link_cases d a b = elim (UnionStrategy-cases d.strategy) [
  | inl e ↦ rw e elim (Bool-cases (ltb (get_or d.rank a 0) (get_or d.rank b 0))) [
    | inl f ↦ rw f (inl (attach-Attached _ a b))
    | inr f ↦ rw f elim (Bool-cases (ltb (get_or d.rank b 0) (get_or d.rank a 0))) [
      | inl g ↦ rw g (inr (attach-Attached _ b a))
      | inr g ↦ rw g (
          inl (record {
            new_parent = refl;
            new_size = refl;
            same_count = refl;
            same_range = refl;
            ranked = length-set d.rank b (get_or d.rank b 0 + 1);
          }))
    ]
  ]
  | inr e ↦ rw e elim (Bool-cases (ltb (get_or d.set_size a 0) (get_or d.set_size b 0))) [
    | inl f ↦ rw f (inl (attach-Attached _ a b))
    | inr f ↦ rw f elim (Bool-cases (ltb (get_or d.set_size b 0) (get_or d.set_size a 0))) [
      | inl g ↦ rw g (inr (attach-Attached _ b a))
      | inr g ↦ rw g (inl (attach-Attached _ a b))
    ]
  ]
]

-- The root that is left of two that are joined, the other pointing at it.
pub record Joined (d d' : FastDsu) (r s w : ℕ) : Type 0 where
  pub valid : IsValid d'
  pub leads :
      (z t : ℕ) → Leads d.parent z t → Leads d'.parent z (if (t == r) || (t == s) then w else t)
  pub size : get_or d'.set_size w 0 ≡ get_or d.set_size r 0 + get_or d.set_size s 0
  pub count : d'.num_sets ≡ d.num_sets - 1
  pub same_range : d'.max_element ≡ d.max_element

join_lem :
    {d d' : FastDsu} (a b : ℕ)
    → IsValid d
    → a < d.max_element
    → b < d.max_element
    → a ≢ b
    → get_or d.parent a 0 ≡ a
    → get_or d.parent b 0 ≡ b
    → Attached d d' a b
    → Joined d (record d' { num_sets = d'.num_sets - 1 }) a b b
join_lem {d} {d'} a b v ha hb ne ra rb t = record {
  valid = record {
    forest =
        rw (t.new_parent, t.new_size, t.same_count, t.same_range)
          (link-IsForest a b v.forest ha hb ne ra rb);
    ranked = t.ranked ∙ v.ranked ∙ sym t.same_range;
  };
  leads = λ z s l.
      subst (Leads d'.parent z) (sides s)
        (rw t.new_parent (Leads-link a b (omega (arith, ha, v.forest.parents)) ne ra rb l));
  size =
      ap (λ xs. get_or xs b 0) t.new_size
      ∙ get_or-set_at d.set_size b b _ 0 (omega (arith, hb, v.forest.sizes)) refl
      ∙ omega arith;
  count = ap (λ m. m - 1) t.same_count;
  same_range = t.same_range;
}
  where
    sides : (s : ℕ) → (if s == a then b else s) ≡ (if (s == a) || (s == b) then b else s)
    sides s = ground arith

flip_lem : {d d' : FastDsu} {r s w : ℕ} → Joined d d' s r w → Joined d d' r s w
flip_lem {d} {d'} {r} {s} {w} j = record {
  valid = j.valid;
  leads = λ z t l.
      subst (λ b. Leads d'.parent z (if b then w else t)) (swapped (t == s) (t == r))
        (j.leads z t l);
  size = j.size ∙ omega arith;
  count = j.count;
  same_range = j.same_range;
}
  where
    swapped : (p q : Bool) → (p || q) ≡ (q || p)
    swapped true true = refl
    swapped true false = refl
    swapped false true = refl
    swapped false false = refl

keep_lem : {d e f : FastDsu} {r s w : ℕ} → Keeps d e → Joined e f r s w → Joined d f r s w
keep_lem {r = r} {s} k j = record {
  valid = j.valid;
  leads = λ z t l. j.leads z t (k.leads z t l);
  size = j.size ∙ ap (λ xs. get_or xs r 0 + get_or xs s 0) k.same_size;
  count = j.count ∙ ap (λ m. m - 1) k.same_count;
  same_range = j.same_range ∙ k.same_range;
}

-- Two different roots: one of them is left.
pub union_roots-Joined :
    (d : FastDsu) (r s : ℕ)
    → IsValid d
    → r < d.max_element
    → s < d.max_element
    → r ≢ s
    → get_or d.parent r 0 ≡ r
    → get_or d.parent s 0 ≡ s
    → ((union_roots d r s).1 ≡ true)
      × (w : ℕ) × ((w ≡ r) ⊎ (w ≡ s))
      × Joined d (union_roots d r s).0 r s w
union_roots-Joined d r s v hr hs ne rr rs = rw (ne→== r s ne) elim (link_cases d r s) [
  | inl t ↦ (refl, s, inr refl, join_lem r s v hr hs ne rr rs t)
  | inr t ↦ (refl, r, inl refl, flip_lem (join_lem s r v hs hr (λ z. ne (sym z)) rs rr t))
]

-- What `union_sets` does, by whether the roots of its arguments are the same.
abbrev pub Unites : FastDsu → FastDsu × Bool → ℕ → ℕ → Type 0
Unites d (d', merged) r s =
    ((r ≡ s) × (merged ≡ false) × Keeps d d' × IsValid d')
    ⊎ ((r ≢ s) × (merged ≡ true) × (w : ℕ) × ((w ≡ r) ⊎ (w ≡ s)) × Joined d d' r s w)

union_roots-Unites :
    (d e : FastDsu) (r s : ℕ)
    → Keeps d e
    → IsValid e
    → r < d.max_element
    → s < d.max_element
    → get_or e.parent r 0 ≡ r
    → get_or e.parent s 0 ≡ s
    → Unites d (union_roots e r s) r s
union_roots-Unites d e r s k v hr hs rr rs = elim (ℕ_discrete r s) [
  | yes m ↦ rw (eq→== r s m) (inl (m, refl, k, v))
  | no m ↦
      let (f, w, o, j) =
        union_roots-Joined e r s v (omega (arith, hr, k.same_range))
          (omega (arith, hs, k.same_range)) m rr rs in
      inr (m, f, w, o, keep_lem k j)
]

pub union_sets-Unites :
    (d : FastDsu) (x y r s : ℕ)
    → IsValid d
    → x < d.max_element
    → y < d.max_element
    → Leads d.parent x r
    → Leads d.parent y s
    → Unites d (union_sets d x y) r s
unfolding union_sets
union_sets-Unites d x y r s v hx hy lx ly =
    let (px, k, v') = find-Found d x v hx in
    let (py, k', v'') = find-Found (find d x).0 y v' (omega (arith, hy, k.same_range)) in
    let both = Keeps-trans k k' in
    rw (Leads-unique px lx, Leads-unique py (k.leads y s ly))
      (union_roots-Unites d _ r s both v'' (Leads-in_range v.forest hx lx)
        (Leads-in_range v.forest hy ly) (Leads-root (both.leads x r lx))
        (Leads-root (both.leads y s ly)))
