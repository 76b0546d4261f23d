-- ===== src/SegmentTree/Sums.antt =====
-- Combining the entries of a tree over a range of indices, and how the levels of a tree agree.
use av_utils.Base.{ap, ap₂, arith, refl, suc, sym, zero, ℕ, ◌*◌, ◌+◌, ◌<◌, ◌∙◌, ◌≡◌, ◌≤◌}

-- What a query relies on: the order in which the code combines makes commutativity necessary.
pub record IsCommutativeMonoid {ℓ} {T : Type ℓ} (op : T → T → T) (identity : T) : Type ℓ where
  pub assoc : (a b c : T) → op (op a b) c ≡ op a (op b c)
  pub comm : (a b : T) → op a b ≡ op b a
  pub left_id : (a : T) → op identity a ≡ a

module _ {ℓ} {T : Type ℓ} (op : T → T → T) (identity : T) where
  -- `f l`, `f (l + 1)`, … combined, `k` of them.
  abbrev pub sum : (ℕ → T) → ℕ → ℕ → T
  sum f l zero = identity
  sum f l (suc k) = op (f l) (sum f (suc l) k)

  pub sum_shift : (f : ℕ → T) (n l k : ℕ) → sum f (n + l) k ≡ sum (λ i. f (n + i)) l k
  sum_shift f n l zero = refl
  sum_shift f n l (suc k) =
      ap (op (f (n + l))) (ap (λ m. sum f m k) (omega arith) ∙ sum_shift f n (suc l) k)

  module _ (laws : IsCommutativeMonoid op identity) where
    open laws use {assoc, comm, left_id}

    -- The last entry apart.
    pub sum-last : (f : ℕ → T) (l k : ℕ) → sum f l (suc k) ≡ op (sum f l k) (f (l + k))
    sum-last f l zero = comm (f l) identity ∙ ap (λ n. op identity (f n)) (omega arith)
    sum-last f l (suc k) =
        ap (op (f l)) (sum-last f (suc l) k)
        ∙ sym (assoc (f l) (sum f (suc l) k) (f (suc l + k)))
        ∙ ap (λ n. op (sum f l (suc k)) (f n)) (omega arith)

    -- Two entries of a level make one of the level above.
    pub sum_halves :
        (f : ℕ → T) (a k : ℕ)
        → ((i : ℕ) → a ≤ i → i < a + k → f i ≡ op (f (2 * i)) (f (2 * i + 1)))
        → sum f (2 * a) (2 * k) ≡ sum f a k
    sum_halves f a zero h = refl
    sum_halves f a (suc k) h =
        ap (sum f (2 * a)) count
        ∙ sym (assoc (f (2 * a)) (f (suc (2 * a))) (sum f (suc (suc (2 * a))) (2 * k)))
        ∙ ap₂ op (ap (λ n. op (f (2 * a)) (f n)) next ∙ sym (h a (omega arith) (omega arith))) (
            ap (λ n. sum f n (2 * k)) start
            ∙ sum_halves f (suc a) k λ i p q. h i (omega arith) (omega arith))
      where
        count : 2 * suc k ≡ suc (suc (2 * k))
        count = omega arith

        next : suc (2 * a) ≡ 2 * a + 1
        next = omega arith

        start : suc (suc (2 * a)) ≡ 2 * suc a
        start = omega arith
