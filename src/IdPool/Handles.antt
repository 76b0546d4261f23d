-- ===== src/IdPool/Handles.antt =====
-- include/id_pool.h: what `allocate` and `release` do to the ids that are live.
use av_utils.Base.{
  List, [], ap, arith, false, get_or, get_or-push, get_or-set_at, leb, length, length-append,
  length-set, ltb, ltb→lt, ok, refl, set, subst, sym, true, ℕ, ◌%◌, ◌++◌, ◌+◌, ◌-◌, ◌<◌, ◌==◌, ◌^◌,
  ◌∙◌, ◌∷◌, ◌≡◌,
}
use av_utils.IdPool.{Handle, IdPool, allocate, allocate_from, is_valid, release}
use av_utils.IdPool.Live.{
  IsPool, current-get_or, current-new, current-set, current-without, is_full, is_live, is_live-uses,
  length-without, uses, uses-without, without,
}

abbrev pool : List ℕ → List ℕ → ℕ → IdPool
pool gs free n = record { generations = gs; free_indices = free; active_id_count = n }

-- An index that has no live id.
unused-not_live :
    (id : Handle) (live : List Handle) → uses id.index live ≡ 0 → is_live id live ≡ false
unused-not_live id [] h = refl
unused-not_live id (other ∷ live) h = ground (arith, unused-not_live id live)

reused-IsPool :
    (gs : List ℕ) (index : ℕ) (rest : List ℕ) (n : ℕ) (live : List Handle)
    → IsPool (pool gs (index ∷ rest) n) live
    → (uses index live ≡ 0)
      × IsPool
          (pool gs rest (n + 1))
          (record { index = index; generation = get_or gs index 0 } ∷ live)
reused-IsPool gs index rest n live w = (
  ground (arith, w.shared index),
  record {
    shared = λ i. ground (arith, w.shared i);
    fresh = ground (arith, w.fresh);
    counted = omega (arith, w.counted);
  },
)

grown-IsPool :
    (gs : List ℕ) (n : ℕ) (live : List Handle)
    → IsPool (pool gs [] n) live
    → (uses (length gs) live ≡ 0)
      × IsPool
          (pool (gs ++ 0 ∷ []) [] (n + 1))
          (record { index = length gs; generation = 0 } ∷ live)
grown-IsPool gs n live w = (
  ground (arith, w.shared (length gs)),
  record {
    shared = λ i. ground (arith, w.shared i, length-append gs (0 ∷ []));
    fresh = ground (arith, w.fresh, current-new gs live, get_or-push gs 0 (length gs) 0);
    counted = omega (arith, w.counted);
  },
)

allocated :
    (gs free : List ℕ) (n : ℕ) (live : List Handle)
    → IsPool (pool gs free n) live
    → is_full (pool gs free n) ≡ false
    → (p' : IdPool) × (id : Handle) × (allocate (pool gs free n) ≡ ok (p', id))
      × (is_live id live ≡ false)
      × IsPool p' (id ∷ live)
unfolding allocate_from
allocated gs (index ∷ rest) n live w h =
    let id : Handle = record { index = index; generation = get_or gs index 0 } in
    let (unused, valid) = reused-IsPool gs index rest n live w in
    (pool gs rest (n + 1), id, refl, unused-not_live id live unused, valid)
allocated gs [] n live w h =
    let id : Handle = record { index = length gs; generation = 0 } in
    let (unused, valid) = grown-IsPool gs n live w in
    let room : leb (2 ^ 32 - 1) (length gs) ≡ false = ground arith in
    (pool (gs ++ 0 ∷ []) [] (n + 1), id, rw room refl, unused-not_live id live unused, valid)

-- On a pool that agrees with the live ids and is not full, `allocate` gives an id that is not
-- live, and the pool agrees with the live ids and this one.
pub allocate-IsPool :
    (p : IdPool) (live : List Handle)
    → IsPool p live
    → is_full p ≡ false
    → (p' : IdPool) × (id : Handle) × (allocate p ≡ ok (p', id))
      × (is_live id live ≡ false)
      × IsPool p' (id ∷ live)
allocate-IsPool p live w h = allocated p.generations p.free_indices p.active_id_count live w h

-- The pool that `release` leaves for a valid id.
abbrev released : IdPool → ℕ → IdPool
released p i =
    pool (set p.generations i ((get_or p.generations i 0 + 1) % 2 ^ 32)) (i ∷ p.free_indices)
      (p.active_id_count - 1)

released-IsPool :
    (p : IdPool) (live : List Handle) (id : Handle)
    → IsPool p live
    → is_live id live ≡ true
    → IsPool (released p id.index) (without id live)
released-IsPool p live id w h =
    let next = (get_or p.generations id.index 0 + 1) % 2 ^ 32 in
    let size = length-set p.generations id.index next in
    let used = is_live-uses id live h in
    let split = uses-without id.index id live h in
    let one = w.shared id.index in
    let bound : id.index < length p.generations = ground arith in
    let alone : uses id.index (without id live) ≡ 0 = ground arith in
    record {
      shared = λ i. ground (arith, w.shared i, uses-without i id live h);
      fresh =
          current-set p.generations id.index next (without id live) bound alone
          ∙ current-without p.generations id live w.fresh;
      counted = omega (arith, w.counted, length-without id live h);
    }

-- The generation has changed, also where it wraps.
stale :
    (p : IdPool) (id : Handle)
    → id.index < length p.generations
    → get_or p.generations id.index 0 ≡ id.generation
    → is_valid (released p id.index) id ≡ false
stale p id h own =
    let next = (get_or p.generations id.index 0 + 1) % 2 ^ 32 in
    let written = get_or-set_at p.generations id.index id.index next 0 h refl in
    let other : (next == id.generation) ≡ false = ground arith in
    rw written (ground (arith, length-set p.generations id.index next))

-- On a pool that agrees with the live ids, a live id is valid; `release` makes it stale, and the
-- pool then agrees with the other live ids.
pub release-IsPool :
    (p : IdPool) (live : List Handle) (id : Handle)
    → IsPool p live
    → is_live id live ≡ true
    → (is_valid p id ≡ true)
      × (is_valid (release p id) id ≡ false)
      × IsPool (release p id) (without id live)
unfolding release
release-IsPool p live id w h =
    let used = is_live-uses id live h in
    let one = w.shared id.index in
    let bound : ltb id.index (length p.generations) ≡ true = ground arith in
    let own = current-get_or p.generations id live w.fresh h in
    let valid : is_valid p id ≡ true = ground arith in
    let left : release p id ≡ released p id.index = rw valid refl in
    (
      valid,
      ap (λ q. is_valid q id) left ∙ stale p id (ltb→lt id.index (length p.generations) bound) own,
      subst (λ q. IsPool q (without id live)) (sym left) (released-IsPool p live id w h),
    )
