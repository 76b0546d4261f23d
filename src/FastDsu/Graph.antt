-- ===== src/FastDsu/Graph.antt =====
-- A fresh `FastDSU`, `reset` and `compress`, and the graph algorithms: connectivity, cycles and the
-- number of components.
use av_utils.Base.{
  ap, arith, eq→==, get_or, if◌then◌else◌, length, length-replicate, refl, replicate, suc, zero, ℕ,
  ◌+◌, ◌<◌, ◌==◌, ◌∙◌, ◌≡◌,
}
use av_utils.FastDsu.{UnionStrategy, connected, iota, new}
use av_utils.FastDsu.Forest.{Leads, at_root}
use av_utils.FastDsu.Sums.{sum_below, sum_below-const, sum_below_ext}
use av_utils.FastDsu.Valid.{at_roots}
use av_utils.FastDsu.Find.{IsValid, connected-roots}

length-iota : (i n : ℕ) → length (iota i n) ≡ n
unfolding iota
length-iota i zero = refl
length-iota i (suc n) = ap suc (length-iota (suc i) n)

get_or-iota : (i n x : ℕ) → x < n → get_or (iota i n) x 0 ≡ i + x
unfolding iota
get_or-iota i zero x h = absurd (omega arith)
get_or-iota i (suc n) zero h = omega arith
get_or-iota i (suc n) (suc x) h = get_or-iota (suc i) n x (omega arith) ∙ omega arith

get_or-ones : (n x : ℕ) → x < n → ◌≡◌ {A = ℕ} (get_or (replicate n 1) x 0) 1
get_or-ones zero x h = absurd (omega arith)
get_or-ones (suc n) zero h = refl
get_or-ones (suc n) (suc x) h = get_or-ones n x (omega arith)

get_or-identity : (n x : ℕ) → x < n → get_or (iota 0 n) x 0 ≡ x
get_or-identity n x h = omega (arith, get_or-iota 0 n x h)

weights :
    (n : ℕ) (w : ℕ → ℕ) → ((i : ℕ) → i < n → w i ≡ 1) → sum_below n (at_roots (iota 0 n) w) ≡ n
weights n w h =
    sum_below_ext n (at_roots (iota 0 n) w) (λ i. 1)
      (λ i k.
        ap (λ b. if b then w i else 0) (eq→== (get_or (iota 0 n) i 0) i (get_or-identity n i k))
        ∙ h i k)
    ∙ sum_below-const n

pub new-IsValid : (n : ℕ) (strategy : UnionStrategy) → IsValid (new n strategy)
unfolding new
new-IsValid n strategy = record {
  forest = record {
    parents = length-iota 0 n;
    sizes = length-replicate n 1;
    in_range = λ x h. omega (arith, h, get_or-identity n x h);
    grows = λ x h m. absurd (m (get_or-identity n x h));
    bounded = λ x h. omega (arith, h, get_or-ones n x h);
    positive = λ x h. omega (arith, get_or-ones n x h);
    total = weights n _ (get_or-ones n);
    counted = weights n (λ i. 1) (λ i h. refl);
  };
  ranked = length-replicate n 0;
}

-- In a fresh structure every element is alone.
pub connected-new :
    (n : ℕ) (strategy : UnionStrategy) (u v : ℕ)
    → u < n
    → v < n
    → (connected (new n strategy) u v).1 ≡ (u == v)
unfolding new
connected-new n strategy u v hu hv =
    connected-roots (new n strategy) u v u v (new-IsValid n strategy) (range u hu) (range v hv)
      (alone u hu) (alone v hv)
  where
    range : (x : ℕ) → x < n → x < (new n strategy).max_element
    range x h = h

    alone : (x : ℕ) → x < n → Leads (new n strategy).parent x x
    alone x h = at_root refl (get_or-identity n x h)
