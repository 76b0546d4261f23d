-- ===== src/SparseSet/Equality.antt =====
-- `operator==` of `SparseSet` compares the sets of values, whatever the order of the dense vectors.
use av_utils.Base.{
  Bool, Bool-cases, ap, arith, false, get_or, if◌then◌else◌, inl, inr, refl, suc, sym, true, zero,
  ℕ, ◌+◌, ◌<◌, ◌==◌, ◌^◌, ◌↔◌, ◌∙◌, ◌≡◌, ◌≢◌, ◌≤◌,
}
use av_utils.SparseSet.{SparseSet, all_in, contains, equal, find}
use av_utils.SparseSet.Invariant.{IsValid, pigeonhole}
use av_utils.SparseSet.Membership.{contains-find}

all_in_sound :
    (s t : SparseSet) (it n : ℕ)
    → all_in s t it n ≡ true
    → (i : ℕ) → it ≤ i
    → i < it + n
    → contains t (get_or s.dense i 0) ≡ true
unfolding all_in
all_in_sound s t it zero h i l k = absurd (omega arith)
all_in_sound s t it (suc n) h i l k =
    ground (arith, all_in_sound s t (it + 1) n, all_in_sound s t (it + 1) n (ground arith) i)

all_in_complete :
    (s t : SparseSet) (it n : ℕ)
    → ((i : ℕ) → it ≤ i → i < it + n → contains t (get_or s.dense i 0) ≡ true)
    → all_in s t it n ≡ true
unfolding all_in
all_in_complete s t it zero h = refl
all_in_complete s t it (suc n) h =
    ground (arith, h it, all_in_complete s t (it + 1) n (λ i l k. h i (omega arith) (omega arith)))

module _ {s t : SparseSet} (v : IsValid s) (w : IsValid t) where
  -- As many values, each of them in `t`: then `t` holds no other.
  full :
      s.count ≡ t.count
      → ((i : ℕ) → i < s.count → contains t (get_or s.dense i 0) ≡ true)
      → (x : ℕ) → x < 2 ^ 32
      → contains t x ≡ true
      → contains s x ≡ true
  full same sub x u there = elim (Bool-cases (contains s x)) [
    | inl yes' ↦ yes'
    | inr miss ↦ absurd (omega (arith, pigeonhole t.count (suc s.count) f below (inj miss)))
  ]
    where
      g : ℕ → ℕ
      g i = if i == s.count then x else get_or s.dense i 0

      f : ℕ → ℕ
      f i = find t (g i)

      small : (i : ℕ) → i < suc s.count → g i < 2 ^ 32
      small i h = ground (arith, v.in_range i, v.room)

      held : (i : ℕ) → i < suc s.count → contains t (g i) ≡ true
      held i h = ground (arith, sub i)

      below : (i : ℕ) → i < suc s.count → f i < t.count
      below i h = (contains-find (g i) (small i h) w).1.0 (held i h)

      value : (i : ℕ) → i < suc s.count → get_or t.dense (f i) 0 ≡ g i
      value i h = (contains-find (g i) (small i h) w).2 (held i h)

      fresh : contains s x ≡ false → (j : ℕ) → j < s.count → get_or s.dense j 0 ≢ x
      fresh miss j h e = ground (arith, (contains-find x u v).0.1 (j, h, e))

      inj : contains s x ≡ false → (i j : ℕ) → i < suc s.count → j < suc s.count → f i ≡ f j → i ≡ j
      inj miss i j h k e = ground (
        arith,
        value i h,
        value j k,
        fresh miss i,
        fresh miss j,
        v.indexed i,
        v.indexed j,
        ap (λ (y : ℕ). get_or t.dense y 0) e,
        (λ (q : g i ≡ g j). ap (λ (y : ℕ). get_or s.sparse y 0) q),
      )

  small : (i : ℕ) → i < s.count → get_or s.dense i 0 < 2 ^ 32
  small i h = omega (arith, v.in_range i h, v.room)

  dense_held : (i : ℕ) → i < s.count → contains s (get_or s.dense i 0) ≡ true
  dense_held i h = (contains-find (get_or s.dense i 0) (small i h) v).0.1 (i, h, refl)

  -- A set is no larger than one that holds all its values.
  count-le : ((i : ℕ) → i < s.count → contains t (get_or s.dense i 0) ≡ true) → s.count ≤ t.count
  count-le sub = pigeonhole t.count s.count f below inj
    where
      f : ℕ → ℕ
      f i = find t (get_or s.dense i 0)

      below : (i : ℕ) → i < s.count → f i < t.count
      below i h = (contains-find (get_or s.dense i 0) (small i h) w).1.0 (sub i h)

      value : (i : ℕ) → i < s.count → get_or t.dense (f i) 0 ≡ get_or s.dense i 0
      value i h = (contains-find (get_or s.dense i 0) (small i h) w).2 (sub i h)

      inj : (i j : ℕ) → i < s.count → j < s.count → f i ≡ f j → i ≡ j
      inj i j h k e = cc (value i h, value j k, v.indexed i h, v.indexed j k)

  subset :
      ((i : ℕ) → i < s.count → contains t (get_or s.dense i 0) ≡ true)
      → (x : ℕ) → x < 2 ^ 32
      → contains s x ≡ true
      → contains t x ≡ true
  subset sub x u there = let (i, h, e) = (contains-find x u v).0.0 there in rw (← e) (sub i h)

bool_eq : (a b : Bool) → (a ≡ true → b ≡ true) → (b ≡ true → a ≡ true) → a ≡ b
bool_eq a b f g = ground arith

-- Two valid sets are equal exactly when they hold the same values.
pub equal_iff :
    {s t : SparseSet}
    → IsValid s
    → IsValid t
    → (equal s t ≡ true) ↔ ((x : ℕ) → x < 2 ^ 32 → contains s x ≡ contains t x)
unfolding equal
equal_iff {s} {t} v w = (same_values, complete)
  where
    same_values : equal s t ≡ true → (x : ℕ) → x < 2 ^ 32 → contains s x ≡ contains t x
    same_values e x u = bool_eq _ _ (subset v w sub x u) (full v w (ground arith) sub x u)
      where
        sub : (i : ℕ) → i < s.count → contains t (get_or s.dense i 0) ≡ true
        sub i h = all_in_sound s t 0 s.count (ground arith) i (omega arith) (omega arith)

    complete : ((x : ℕ) → x < 2 ^ 32 → contains s x ≡ contains t x) → equal s t ≡ true
    complete h = ground (
      arith,
      count-le v w sub,
      count-le w v back,
      all_in_complete s t 0 s.count (λ i _ k. sub i (omega arith)),
    )
      where
        sub : (i : ℕ) → i < s.count → contains t (get_or s.dense i 0) ≡ true
        sub i k = sym (h (get_or s.dense i 0) (small v w i k)) ∙ dense_held v w i k

        back : (i : ℕ) → i < t.count → contains s (get_or t.dense i 0) ≡ true
        back i k = h (get_or t.dense i 0) (small w v i k) ∙ dense_held w v i k
