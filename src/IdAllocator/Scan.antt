-- ===== src/IdAllocator/Scan.antt =====
-- The two loops of `allocate`.
use native.Mathlib.Decide.{dec_le}
use native.Mathlib.Nat.{mod-eq_of_lt}
use av_utils.Base.{
  ==→eq, Bool-cases, List, Option, [], arith, false, inl, inr, leb, mem, none, refl, some, subst,
  suc, sym, true, zero, ℕ, ◌+◌, ◌<◌, ◌^◌, ◌∷◌, ◌≡◌, ◌≤◌, ◌⊎◌,
}
use av_utils.IdAllocator.{from_freed, scan}

-- The queue of freed ids, what is taken from it and what is left: ids in use are dropped.
pub data FromFreed (inuse : List ℕ) : List ℕ → Option ℕ → List ℕ → Type 0 where
  emptied : FromFreed inuse [] none []
  dropped :
      {x : ℕ} {freed rest : List ℕ} {o : Option ℕ}
      → mem inuse x ≡ true
      → FromFreed inuse freed o rest
      → FromFreed inuse (x ∷ freed) o rest
  taken :
      {x : ℕ} {freed : List ℕ} → mem inuse x ≡ false → FromFreed inuse (x ∷ freed) (some x) freed

pub from_freed-FromFreed :
    (inuse freed : List ℕ)
    → FromFreed inuse freed (from_freed inuse freed).0 (from_freed inuse freed).1
unfolding from_freed
from_freed-FromFreed inuse [] = emptied
from_freed-FromFreed inuse (x ∷ freed) = elim (Bool-cases (mem inuse x)) [
  | inl h ↦ rw h (dropped h (from_freed-FromFreed inuse freed))
  | inr h ↦ rw h (taken h)
]

pub FromFreed-none :
    {inuse freed rest : List ℕ} (i : ℕ)
    → FromFreed inuse freed none rest
    → mem freed i ≡ true
    → mem inuse i ≡ true
FromFreed-none i emptied m = absurd cc
FromFreed-none {inuse} i (dropped {x} {freed} h f) m = elim (Bool-cases (mem freed i)) [
  | inl k ↦ FromFreed-none i f k
  | inr k ↦ subst (λ y. mem inuse y ≡ true) (==→eq x i (ground (arith, m, k))) h
]

-- The id that is taken was free and waited; the others wait still, or were in use.
pub FromFreed-some :
    {inuse freed rest : List ℕ} {id : ℕ}
    → FromFreed inuse freed (some id) rest
    → (mem inuse id ≡ false)
      × (mem freed id ≡ true)
      × ((i : ℕ) → mem rest i ≡ true → mem freed i ≡ true)
      × ((i : ℕ) → mem freed i ≡ true → (mem inuse i ≡ true) ⊎ (i ≡ id) ⊎ (mem rest i ≡ true))
FromFreed-some {inuse} (dropped {x} {freed} {rest} h f) =
    let (a, b, c, d) = FromFreed-some f in
    (
      a,
      ground (arith, b),
      λ i m. ground (arith, c i m),
      λ i m. elim (Bool-cases (mem freed i)) [
        | inl k ↦ d i k
        | inr k ↦ inl (subst (λ y. mem inuse y ≡ true) (==→eq x i (ground (arith, m, k))) h)
      ],
    )
FromFreed-some (taken {x} {freed} h) = (
  h,
  ground arith,
  λ i m. ground (arith, m),
  λ i m. elim (Bool-cases (mem freed i)) [
    | inl k ↦ inr (inr k)
    | inr k ↦ inr (inl (sym (==→eq x i (ground (arith, m, k)))))
  ],
)

module _ (w : ℕ) where
  -- Where the highest id is not the highest value of the type, the second loop ends: at the first
  -- free candidate, or past the highest id when there is none.
  pub scan_lem :
      (rounds : ℕ) (inuse : List ℕ) (max_id candidate : ℕ)
      → max_id + 1 < 2 ^ w
      → candidate ≤ max_id + 1
      → max_id + 1 < candidate + rounds
      → ((scan w rounds inuse max_id candidate ≡ some none)
          × ((i : ℕ) → candidate ≤ i → i ≤ max_id → mem inuse i ≡ true))
        ⊎ ((id : ℕ) × (scan w rounds inuse max_id candidate ≡ some (some id))
            × (candidate ≤ id)
            × (id ≤ max_id)
            × (mem inuse id ≡ false)
            × ((i : ℕ) → candidate ≤ i → i < id → mem inuse i ≡ true))
  unfolding scan
  scan_lem zero inuse max_id candidate h g k = absurd (omega arith)
  scan_lem (suc rounds) inuse max_id candidate h g k = elim (dec_le candidate max_id) [
    | no q ↦ rw (not_leb q) (inl (refl, λ i a b. absurd (omega arith)))
    | yes q ↦ rw (yes_leb q) elim (Bool-cases (mem inuse candidate)) [
      | inr m ↦ rw m (inr (candidate, refl, omega arith, q, m, λ i a b. absurd (omega arith)))
      | inl m ↦
          rw (m, mod-eq_of_lt {n = candidate + 1} {m = 2 ^ w} (omega arith))
            elim (scan_lem rounds inuse max_id (candidate + 1) h (omega arith) (omega arith)) [
              | inl (e, f) ↦ inl (e, λ i a b. first i (f i) m a b)
              | inr (id, e, a, b, c, f) ↦
                  inr (id, e, omega arith, b, c, λ i a b. first i (f i) m a b)
            ]
    ]
  ]
    where
      not_leb : ¬ (candidate ≤ max_id) → leb candidate max_id ≡ false
      not_leb q = ground arith

      yes_leb : candidate ≤ max_id → leb candidate max_id ≡ true
      yes_leb q = ground arith

      first :
          {P : Type 0} (i : ℕ)
          → (candidate + 1 ≤ i → P → mem inuse i ≡ true)
          → mem inuse candidate ≡ true
          → candidate ≤ i
          → P
          → mem inuse i ≡ true
      first i f m a b = elim (dec_le (candidate + 1) i) [
        | yes q ↦ f q b
        | no q ↦ subst (λ j. mem inuse j ≡ true) {x = candidate} {y = i} (omega arith) m
      ]
