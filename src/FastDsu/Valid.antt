-- ===== src/FastDsu/Valid.antt =====
-- The invariant of the parent and size vectors, kept by path compression and by linking two roots.
use native.Mathlib.Decide.{ℕ_discrete}
use av_utils.Base.{
  List, ap, arith, get_or, get_or-set, get_or-set_at, get_or-set_off, if◌then◌else◌, length,
  length-set, ne→==, set, subst, sym, ℕ, ◌<◌, ◌==◌, ◌∙◌, ◌≡◌, ◌≢◌, ◌≤◌,
}
use av_utils.FastDsu.Forest.{Leads, Leads-root, at_root, up}
use av_utils.FastDsu.Sums.{sum_below, sum_below_ext}

-- A weight that only the roots have.
abbrev pub at_roots : List ℕ → (ℕ → ℕ) → ℕ → ℕ
at_roots p w i = if get_or p i 0 == i then w i else 0

-- `n` elements in `k` trees: sizes grow towards the roots, and those of the roots add up to `n`.
pub record IsForest (n : ℕ) (p sz : List ℕ) (k : ℕ) : Type 0 where
  pub parents : length p ≡ n
  pub sizes : length sz ≡ n
  pub in_range : (x : ℕ) → x < n → get_or p x 0 < n
  pub grows : (x : ℕ) → x < n → get_or p x 0 ≢ x → get_or sz x 0 < get_or sz (get_or p x 0) 0
  pub bounded : (x : ℕ) → x < n → get_or sz x 0 ≤ n
  pub positive : (x : ℕ) → x < n → 0 < get_or sz x 0
  pub total : sum_below n (at_roots p (λ i. get_or sz i 0)) ≡ n
  pub counted : sum_below n (at_roots p (λ i. 1)) ≡ k

pub Leads-in_range :
    {n k : ℕ} {p sz : List ℕ} {x r : ℕ} → IsForest n p sz k → x < n → Leads p x r → r < n
Leads-in_range v h (at_root e q) = omega (arith, e)
Leads-in_range v h (up {x = x} e m l) = Leads-in_range v (omega (arith, e, v.in_range x h)) l

pub Leads-le :
    {n k : ℕ} {p sz : List ℕ} {x r : ℕ}
    → IsForest n p sz k
    → x < n
    → Leads p x r
    → get_or sz x 0 ≤ get_or sz r 0
Leads-le {sz = sz} v h (at_root e q) = omega (arith, ap (λ m. get_or sz m 0) e)
Leads-le {sz = sz} v h (up {x = x} e m l) = omega (
  arith,
  v.grows x h (λ z. m (sym e ∙ z)),
  ap (λ i. get_or sz i 0) e,
  Leads-le v (omega (arith, e, v.in_range x h)) l,
)

-- The weights of the roots after pointing a non-root elsewhere, but not at itself.
pub at_roots-inner :
    (p : List ℕ) (x r : ℕ) (w : ℕ → ℕ) (i : ℕ)
    → x < length p
    → get_or p x 0 ≢ x
    → r ≢ x
    → at_roots (set p x r) w i ≡ at_roots p w i
at_roots-inner p x r w i h e f = elim (ℕ_discrete x i) [
  | yes q ↦
      ap (λ b. if b then w i else 0)
        (ne→== (get_or (set p x r) i 0) i (λ z. f (sym (get_or-set_at p x i r 0 h q) ∙ z ∙ sym q))
          ∙ sym (ne→== (get_or p i 0) i (λ z. e (subst (λ m. get_or p m 0 ≡ m) (sym q) z))))
  | no q ↦ ap (λ m. if m == i then w i else 0) (get_or-set_off p x i r 0 h q)
]

pub compress-IsForest :
    {n k : ℕ} {p sz : List ℕ} (x r : ℕ)
    → IsForest n p sz k
    → x < n
    → get_or p x 0 ≢ x
    → Leads p x r
    → IsForest n (set p x r) sz k
compress-IsForest {n} {k} {p} {sz} x r v h inner l = record {
  parents = length-set p x r ∙ v.parents;
  sizes = v.sizes;
  in_range =
      λ y j. ground (arith, get_or-set p x y r 0 below, v.in_range y j, Leads-in_range v h l);
  grows = λ y j m. elim (ℕ_discrete x y) [
    | yes q ↦ omega (
      arith,
      ap (λ i. get_or sz i 0) q,
      ap (λ i. get_or sz i 0) (get_or-set_at p x y r 0 below q),
      strict l,
    )
    | no q ↦ omega (
      arith,
      ap (λ i. get_or sz i 0) (get_or-set_off p x y r 0 below q),
      v.grows y j (λ z. m (get_or-set_off p x y r 0 below q ∙ z)),
    )
  ];
  bounded = v.bounded;
  positive = v.positive;
  total =
      sum_below_ext n _ _ (λ i j. at_roots-inner p x r (λ m. get_or sz m 0) i below inner apart)
      ∙ v.total;
  counted =
      sum_below_ext n _ _ (λ i j. at_roots-inner p x r (λ m. 1) i below inner apart) ∙ v.counted;
}
  where
    below : x < length p
    below = omega (arith, v.parents)

    apart : r ≢ x
    apart z = inner (subst (λ m. get_or p m 0 ≡ m) z (Leads-root l))

    strict : Leads p x r → get_or sz x 0 < get_or sz r 0
    strict (at_root e q) = absurd (inner q)
    strict (up e m l) = omega (
      arith,
      v.grows x h inner,
      ap (λ i. get_or sz i 0) e,
      Leads-le v (omega (arith, e, v.in_range x h)) l,
    )
