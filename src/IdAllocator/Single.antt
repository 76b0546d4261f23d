-- ===== src/IdAllocator/Single.antt =====
-- `free` and `reserve` of `IDAllocator`, and ids that wrap round.
use native.Mathlib.Decide.{ℕ_discrete}
use av_utils.Base.{
  Bool-cases, [], ap, arith, false, if◌then◌else◌, inl, inr, invalid_argument, leb, ltb, ltb→le,
  ltb→lt, mem, mem-push_ordered, mem-set_erase, not, ok, push_ordered, refl, set_erase, set_insert,
  subst, throw, true, ℕ, ◌&&◌, ◌+◌, ◌-◌, ◌<◌, ◌==◌, ◌||◌, ◌∷◌, ◌≡◌, ◌≤◌, ◌⊎◌,
}
use av_utils.IdAllocator.{IdAllocator, available, capacity, free, is_allocated, new, reserve, used}
use av_utils.IdAllocator.Allocate.{IsValid, mem-used, used-mem}

-- `new` throws exactly when the bounds are in the wrong order; otherwise the allocator is valid, and
-- no id is in use.
pub new_lem :
    (min_id max_id i : ℕ)
    → ((max_id < min_id) × (new min_id max_id ≡ throw invalid_argument))
      ⊎ ((min_id ≤ max_id)
          × (a : IdAllocator) × (new min_id max_id ≡ ok a)
          × IsValid a
          × (is_allocated a i ≡ false)
          × (available a ≡ max_id - min_id + 1))
unfolding new is_allocated available capacity used
new_lem lo hi i = elim (Bool-cases (ltb hi lo)) [
  | inl h ↦ rw h (inl (ltb→lt hi lo h, refl))
  | inr h ↦ rw h (inr (ltb→le hi lo h, _, refl, valid (ltb→le hi lo h), refl, rw h (omega arith)))
]
  where
    valid :
        lo ≤ hi
        → IsValid (record {
          min_id = lo;
          max_id = hi;
          next_available_id = lo;
          freed_ids = [];
          used_ids = [];
        })
    valid h = record {
      ordered = h;
      next_low = omega arith;
      next_high = omega arith;
      used_in_range = λ i m. absurd cc;
      freed_in_range = λ i m. absurd cc;
      accounted = λ i l k. absurd (omega arith);
    }

pub free-IsValid :
    (a : IdAllocator) (id : ℕ)
    → IsValid a
    → is_allocated a id ≡ true
    → IsValid
        (record a { used_ids = set_erase id a.used_ids; freed_ids = push_ordered id a.freed_ids })
unfolding is_allocated
free-IsValid a id v u = record {
  ordered = v.ordered;
  next_low = v.next_low;
  next_high = v.next_high;
  used_in_range = λ i m. v.used_in_range i (ground (arith, m, mem-set_erase id a.used_ids i));
  freed_in_range = λ i m. elim (ℕ_discrete id i) [
    | yes q ↦ v.used_in_range i (subst (λ j. mem a.used_ids j ≡ true) q u)
    | no q ↦ v.freed_in_range i (ground (arith, m, q, mem-push_ordered id a.freed_ids i))
  ];
  accounted = λ i l h. elim (ℕ_discrete id i) [
    | yes q ↦ inr (ground (arith, q, mem-push_ordered id a.freed_ids i))
    | no q ↦ elim (v.accounted i l h) [
      | inl m ↦ inl (ground (arith, m, q, mem-set_erase id a.used_ids i))
      | inr m ↦ inr (ground (arith, m, mem-push_ordered id a.freed_ids i))
    ]
  ];
}

-- On a valid allocator `free` succeeds exactly for an id in use, which is not in use then, while any other id is as it
-- was; the allocator stays valid.
pub free_lem :
    (a : IdAllocator) (id i : ℕ)
    → IsValid a
    → ((free a id).1 ≡ is_allocated a id)
      × IsValid (free a id).0
      × (is_allocated (free a id).0 i ≡ (not (id == i) && is_allocated a i))
unfolding free is_allocated
free_lem a id i v = elim (Bool-cases (mem a.used_ids id)) [
  | inl h ↦
      let (l, k) = v.used_in_range id h in
      rw (inside l k, h) (refl, free-IsValid a id v h, mem-set_erase id a.used_ids i)
  | inr h ↦ elim (Bool-cases (ltb id a.min_id || ltb a.max_id id)) [
    | inl o ↦ rw (o, h) (refl, v, unused h)
    | inr o ↦ rw (o, h) (refl, v, unused h)
  ]
]
  where
    inside : a.min_id ≤ id → id ≤ a.max_id → (ltb id a.min_id || ltb a.max_id id) ≡ false
    inside l k = ground arith

    unused : mem a.used_ids id ≡ false → mem a.used_ids i ≡ (not (id == i) && mem a.used_ids i)
    unused h = elim (ℕ_discrete id i) [
      | yes q ↦ ground (arith, ap (mem a.used_ids) q, h)
      | no q ↦ ground (arith, q)
    ]

-- On a valid allocator `reserve` succeeds exactly for an id of the range that is not in use, which is in use then, while
-- any other id is as it was; the allocator stays valid.
pub reserve_lem :
    (a : IdAllocator) (id i : ℕ)
    → IsValid a
    → ((reserve a id).1 ≡ (leb a.min_id id && leb id a.max_id && not (is_allocated a id)))
      × IsValid (reserve a id).0
      × (is_allocated (reserve a id).0 i ≡ (((reserve a id).1 && (id == i)) || is_allocated a i))
unfolding reserve is_allocated
reserve_lem a id i v = elim (Bool-cases (ltb id a.min_id || ltb a.max_id id)) [
  | inl o ↦ rw o (outside o, v, refl)
  | inr o ↦ elim (Bool-cases (mem a.used_ids id)) [
    | inl h ↦ rw (o, h) (ground arith, v, refl)
    | inr h ↦
        rw (o, h)
          (
            ground (arith, o),
            subst (λ b. IsValid (record a { used_ids = if b then a.used_ids else id ∷ a.used_ids }))
                h (reserved o),
            refl,
          )
  ]
]
  where
    outside :
        (ltb id a.min_id || ltb a.max_id id) ≡ true
        → false ≡ (leb a.min_id id && leb id a.max_id && not (mem a.used_ids id))
    outside o = ground (arith, o)

    reserved :
        (ltb id a.min_id || ltb a.max_id id) ≡ false
        → IsValid (record a { used_ids = set_insert id a.used_ids })
    reserved o = record {
      ordered = v.ordered;
      next_low = v.next_low;
      next_high = v.next_high;
      used_in_range = λ i m. elim (mem-used id a.used_ids i m) [
        | inl q ↦ (ground (arith, o, q), ground (arith, o, q))
        | inr q ↦ v.used_in_range i q
      ];
      freed_in_range = v.freed_in_range;
      accounted = λ i l h. elim (v.accounted i l h) [
        | inl m ↦ inl (used-mem id a.used_ids i m)
        | inr m ↦ inr m
      ];
    }
