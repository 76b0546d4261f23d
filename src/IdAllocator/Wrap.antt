-- ===== src/IdAllocator/Wrap.antt =====
-- The next id of `IDAllocator` where the highest id is the highest value of the id type.
use native.Mathlib.Nat.{mod_self}
use av_utils.Base.{
  Bool-cases, List, [], ap, arith, false, inl, inr, leb, mem, refl, set_insert, some, suc, true,
  zero, ℕ, ◌%◌, ◌+◌, ◌<◌, ◌^◌, ◌∙◌, ◌≡◌, ◌≤◌,
}
use av_utils.IdAllocator.{
  IdAllocator, allocate, allocate_within, from_freed, is_allocated, scan, take_candidate,
}
use av_utils.IdAllocator.Allocate.{IsValid, mem-used}

scan_first :
    (w rounds : ℕ) (xs : List ℕ) (max_id candidate : ℕ)
    → 0 < rounds
    → candidate ≤ max_id
    → mem xs candidate ≡ false
    → scan w rounds xs max_id candidate ≡ some (some candidate)
unfolding scan
scan_first w zero xs max_id candidate h l m = absurd (omega arith)
scan_first w (suc rounds) xs max_id candidate h l m = rw (within, m) refl
  where
    within : leb candidate max_id ≡ true
    within = ground arith

-- With no freed id, `allocate` takes a free candidate.
allocate_next :
    (w : ℕ) (a : IdAllocator) (id : ℕ)
    → a.freed_ids ≡ []
    → a.next_available_id ≡ id
    → id ≤ a.max_id
    → is_allocated a id ≡ false
    → allocate w a ≡ some (take_candidate w a id, some id)
unfolding allocate_within from_freed is_allocated
allocate_next w a id f e l m =
    rw (f, e, scan_first w (2 ^ w + 1) a.used_ids a.max_id id (omega arith) l m) refl

-- On a valid allocator without freed ids, whose highest id is the highest value of the id type, is not
-- in use and comes next, and whose range does not have 0: `allocate` hands out the highest id, and the
-- next `allocate` hands out 0, which is not in
-- the range.
pub allocate_wraps :
    (w : ℕ) (a : IdAllocator)
    → IsValid a
    → a.max_id + 1 ≡ 2 ^ w
    → 0 < a.min_id
    → a.freed_ids ≡ []
    → a.next_available_id ≡ a.max_id
    → is_allocated a a.max_id ≡ false
    → (a' : IdAllocator) × (a'' : IdAllocator) × (allocate w a ≡ some (a', some a.max_id))
      × (allocate w a' ≡ some (a'', some 0))
unfolding is_allocated
allocate_wraps w a v top low none_freed last fresh =
    let a' = take_candidate w a a.max_id in
    (
      a',
      take_candidate w a' 0,
      allocate_next w a a.max_id none_freed last (omega arith) fresh,
      allocate_next w a' 0 refl (ap (λ m. m % 2 ^ w) top ∙ mod_self (2 ^ w)) (omega arith) unused,
    )
  where
    unused : mem (set_insert a.max_id a.used_ids) 0 ≡ false
    unused = elim (Bool-cases (mem (set_insert a.max_id a.used_ids) 0)) [
      | inr h ↦ h
      | inl h ↦ elim (mem-used a.max_id a.used_ids 0 h) [
        | inl q ↦ absurd (omega (arith, q, v.ordered))
        | inr q ↦ absurd (omega (arith, (v.used_in_range 0 q).0))
      ]
    ]
