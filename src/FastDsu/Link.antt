-- ===== src/FastDsu/Link.antt =====
-- Pointing a root at another and adding its size keeps the invariant, with one tree less.
use native.Mathlib.Decide.{ℕ_discrete}
use av_utils.Base.{
  List, ap, arith, eq→==, get_or, get_or-set, get_or-set_at, get_or-set_off, if◌then◌else◌, length,
  length-set, ne→==, refl, set, subst, sym, ℕ, ◌+◌, ◌-◌, ◌<◌, ◌==◌, ◌∙◌, ◌≡◌, ◌≢◌, ◌≤◌,
}
use av_utils.FastDsu.Forest.{}
use av_utils.FastDsu.Sums.{sum_below, sum_below_change, sum_below_le}
use av_utils.FastDsu.Valid.{IsForest, at_roots}

pub at_roots_yes : (p : List ℕ) (w : ℕ → ℕ) (i : ℕ) → get_or p i 0 ≡ i → at_roots p w i ≡ w i
at_roots_yes p w i h = ap (λ b. if b then w i else 0) (eq→== (get_or p i 0) i h)

pub at_roots_no : (p : List ℕ) (w : ℕ → ℕ) (i : ℕ) → get_or p i 0 ≢ i → at_roots p w i ≡ 0
at_roots_no p w i h = ap (λ b. if b then w i else 0) (ne→== (get_or p i 0) i h)

-- The weight of a root that is pointed at another goes out of the sum.
pub sum-link :
    (n : ℕ) (p : List ℕ) (a b : ℕ) (w : ℕ → ℕ)
    → a < length p
    → a < n
    → get_or p a 0 ≡ a
    → a ≢ b
    → sum_below n (at_roots p w) ≡ sum_below n (at_roots (set p a b) w) + w a
sum-link n p a b w h l ra ne = omega (
  arith,
  sum_below_change n a (at_roots p w) (at_roots (set p a b) w) l (λ i j m.
      ap (λ y. if y == i then w i else 0) (sym (get_or-set_off p a i b 0 h (λ z. m (sym z))))),
  at_roots_yes p w a ra,
  at_roots_no (set p a b) w a (λ z. ne (sym z ∙ get_or-set_at p a a b 0 h refl)),
)

pub link-IsForest :
    {n k : ℕ} {p sz : List ℕ} (a b : ℕ)
    → IsForest n p sz k
    → a < n
    → b < n
    → a ≢ b
    → get_or p a 0 ≡ a
    → get_or p b 0 ≡ b
    → IsForest n (set p a b) (set sz b (get_or sz b 0 + get_or sz a 0)) (k - 1)
link-IsForest {n} {k} {p} {sz} a b v ha hb ne ra rb = record {
  parents = length-set p a b ∙ v.parents;
  sizes = length-set sz b merged ∙ v.sizes;
  in_range = λ y j. ground (arith, get_or-set p a y b 0 in_p, v.in_range y j);
  grows = grows;
  positive = λ y j. ground (arith, get_or-set sz b y merged 0 in_sz, v.positive y j);
  bounded = λ y j. ground (arith, get_or-set sz b y merged 0 in_sz, v.bounded y j, merged_le);
  total = total;
  counted = omega (arith, v.counted, sum-link n p a b (λ i. 1) in_p ha ra ne);
}
  where
    merged : ℕ
    merged = get_or sz b 0 + get_or sz a 0

    p' : List ℕ
    p' = set p a b

    sz' : List ℕ
    sz' = set sz b merged

    in_p : a < length p
    in_p = omega (arith, v.parents)

    in_sz : b < length sz
    in_sz = omega (arith, v.sizes)

    still : get_or p' b 0 ≡ b
    still = get_or-set_off p a b b 0 in_p ne ∙ rb

    total : sum_below n (at_roots p' (λ i. get_or sz' i 0)) ≡ n
    total = omega (
      arith,
      v.total,
      sum-link n p a b (λ i. get_or sz i 0) in_p ha ra ne,
      sum_below_change n b (at_roots p' (λ i. get_or sz i 0)) (at_roots p' (λ i. get_or sz' i 0)) hb
          (λ i j m.
            ap (λ y. if get_or p' i 0 == i then y else 0)
              (sym (get_or-set_off sz b i merged 0 in_sz (λ z. m (sym z))))),
      at_roots_yes p' (λ i. get_or sz i 0) b still,
      at_roots_yes p' (λ i. get_or sz' i 0) b still,
      get_or-set_at sz b b merged 0 in_sz refl,
    )

    merged_le : merged ≤ n
    merged_le = omega (
      arith,
      total,
      sum_below_le n b (at_roots p' (λ i. get_or sz' i 0)) hb,
      at_roots_yes p' (λ i. get_or sz' i 0) b still,
      get_or-set_at sz b b merged 0 in_sz refl,
    )

    larger : (i : ℕ) → get_or sz i 0 ≤ get_or sz' i 0
    larger i = ground (arith, get_or-set sz b i merged 0 in_sz)

    grows : (x : ℕ) → x < n → get_or p' x 0 ≢ x → get_or sz' x 0 < get_or sz' (get_or p' x 0) 0
    grows x j m = elim (ℕ_discrete a x) [
      | yes q ↦ omega (
        arith,
        get_or-set_off sz b x merged 0 in_sz (λ z. ne (q ∙ sym z)),
        ap (λ i. get_or sz' i 0) (get_or-set_at p a x b 0 in_p q),
        get_or-set_at sz b b merged 0 in_sz refl,
        ap (λ i. get_or sz i 0) q,
        v.positive b hb,
      )
      | no q ↦ omega (
        arith,
        get_or-set_off sz b x merged 0 in_sz (λ z. m (subst (λ i. get_or p' i 0 ≡ i) z still)),
        ap (λ i. get_or sz' i 0) (get_or-set_off p a x b 0 in_p q),
        v.grows x j (λ z. m (get_or-set_off p a x b 0 in_p q ∙ z)),
        larger (get_or p x 0),
      )
    ]
