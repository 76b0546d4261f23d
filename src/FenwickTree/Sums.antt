-- ===== src/FenwickTree/Sums.antt =====
-- include/fenwick_tree.h: the sums the tree stands for, and what its two loops compute.
use av_utils.Base.{
  List, [], ap, arith, drop, get_or, get_or-set_at, get_or-set_off, if◌then◌else◌, length,
  length-set, ltb, refl, set, suc, zero, ℕ, ◌%◌, ◌+◌, ◌-◌, ◌<◌, ◌^◌, ◌∙◌, ◌∷◌, ◌≡◌, ◌≤◌,
}
use av_utils.FenwickTree.{FenwickTree, add_from, add_word, lsb, sum_from}
use av_utils.FenwickTree.Bits.{covers, covers_step, lsb_bounds}
use native.Mathlib.Decide.{dec_le, dec_lt, ℕ_discrete}

-- The sum of the first `k` values.
abbrev pub total : List ℕ → ℕ → ℕ
total [] k = 0
total (x ∷ xs) zero = 0
total (x ∷ xs) (suc k) = x + total xs k

pub total_le : (a : List ℕ) (j k : ℕ) → j ≤ k → total a j ≤ total a k
total_le [] j k h = omega arith
total_le (x ∷ a) zero k h = omega arith
total_le (x ∷ a) (suc j) zero h = absurd (omega arith)
total_le (x ∷ a) (suc j) (suc k) h = omega (arith, total_le a j k (omega arith))

pub total_split : (a : List ℕ) (j k : ℕ) → total a (j + k) ≡ total a j + total (drop j a) k
total_split [] zero k = omega arith
total_split [] (suc j) k = omega arith
total_split (x ∷ a) zero k = ground arith
total_split (x ∷ a) (suc j) k = ground (arith, total_split a j k)

pub total-suc : (a : List ℕ) (k : ℕ) → total a (suc k) ≡ total a k + get_or a k 0
total-suc [] k = omega arith
total-suc (x ∷ []) zero = omega arith
total-suc (x ∷ y ∷ a) zero = omega arith
total-suc (x ∷ a) (suc k) = omega (arith, total-suc a k)

pub total-set :
    (a : List ℕ) (i v k : ℕ)
    → i < length a
    → total (set a i v) k + (if ltb i k then get_or a i 0 else 0)
      ≡ total a k + (if ltb i k then v else 0)
total-set [] i v k h = absurd (omega arith)
total-set (x ∷ a) zero v zero h = ground arith
total-set (x ∷ a) (suc i) v zero h = ground arith
total-set (x ∷ a) zero v (suc k) h = ground arith
total-set (x ∷ a) (suc i) v (suc k) h = ground (arith, total-set a i v k (omega arith))

pub total-zero : (a : List ℕ) → total a 0 ≡ 0
total-zero [] = refl
total-zero (x ∷ a) = refl

-- The sum, as a word, that entry `j` of the tree holds.
abbrev pub span : List ℕ → ℕ → ℕ
span a j = (total a j - total a (j - lsb j)) % 2 ^ 64

pub record Represents (t : FenwickTree) (a : List ℕ) : Type 0 where
  pub size : length a ≡ t.n
  pub room : length t.tree ≡ suc t.n
  pub small : t.n < 2 ^ 30
  pub spans : (j : ℕ) → 0 < j → j ≤ t.n → get_or t.tree j 0 ≡ span a j

pub length-add_from :
    (fuel n i delta : ℕ) (tree : List ℕ) → length (add_from fuel n i delta tree) ≡ length tree
unfolding add_from
length-add_from zero n i delta tree = refl
length-add_from (suc fuel) n i delta tree = ground (
  arith,
  length-add_from fuel n ((i + lsb i) % 2 ^ 32) delta
      (set tree i (add_word (get_or tree i 0) delta)),
  length-set tree i (add_word (get_or tree i 0) delta),
)

-- The loop of `update` changes exactly the entries that count the index.
pub get_or-add_from :
    (fuel n i delta : ℕ) (tree : List ℕ) (j : ℕ)
    → n < 2 ^ 30
    → length tree ≡ suc n
    → 0 < i
    → n < i + fuel
    → 0 < j
    → j ≤ n
    → get_or (add_from fuel n i delta tree) j 0
      ≡ (if covers j i then add_word (get_or tree j 0) delta else get_or tree j 0)
unfolding add_from
get_or-add_from zero n i delta tree j small room p q pj qj = ground arith
get_or-add_from (suc fuel) n i delta tree j small room p q pj qj = elim (dec_le i n) [
  | no h ↦ ground arith
  | yes h ↦
      let (positive, least) = lsb_bounds i p (omega arith) in
      let next : (i + lsb i) % 2 ^ 32 ≡ i + lsb i = omega arith in
      let tree' = set tree i (add_word (get_or tree i 0) delta) in
      let rest =
        get_or-add_from fuel n ((i + lsb i) % 2 ^ 32) delta tree' j small
          (length-set tree i (add_word (get_or tree i 0) delta) ∙ room) (omega arith) (omega arith)
          pj qj in
      elim (ℕ_discrete i j) [
        | yes e ↦ ground (
          arith,
          rest,
          get_or-set_at tree i j (add_word (get_or tree i 0) delta) 0 (omega arith) e,
          ap (λ k. get_or tree k 0) e,
        )
        | no d ↦ elim (dec_lt i j) [
          | yes l ↦ ground (
            arith,
            rest,
            get_or-set_off tree i j (add_word (get_or tree i 0) delta) 0 (omega arith) d,
            covers_step i j p l (omega arith),
          )
          | no l ↦ ground (
            arith,
            rest,
            get_or-set_off tree i j (add_word (get_or tree i 0) delta) 0 (omega arith) d,
          )
        ]
      ]
]

-- The loop of `prefixSum` adds up the values before the index.
pub sum_from_lem :
    (fuel i sum : ℕ) (t : FenwickTree) (a : List ℕ)
    → Represents t a
    → i ≤ fuel
    → i ≤ t.n
    → sum < 2 ^ 64
    → sum_from fuel i t.tree sum ≡ (sum + total a i) % 2 ^ 64
unfolding sum_from
sum_from_lem zero i sum t a r h q w = ground (arith, total-zero a)
sum_from_lem (suc fuel) i sum t a r h q w = elim (dec_lt 0 i) [
  | no z ↦ ground (arith, total-zero a)
  | yes p ↦
      let (positive, least) = lsb_bounds i p (omega (arith, r.small)) in
      let rest =
        sum_from_lem fuel (i - lsb i) (add_word sum (get_or t.tree i 0)) t a r (omega arith)
          (omega arith) (omega arith) in
      ground (arith, rest, r.spans i p q, total_le a (i - lsb i) i (omega arith))
]
