-- ===== src/FenwickTree/Updates.antt =====
-- include/fenwick_tree.h: the members, on a tree that represents a list of values.
use av_utils.Base.{
  List, [], ap, append_assoc, arith, drop, get_or, get_or-replicate, if◌then◌else◌, leb, length,
  length-append, length-replicate, length-set, ltb, lt→ltb, pos, refl, replicate, set, some, subst,
  suc, true, zero, ℕ, ◌%◌, ◌&&◌, ◌++◌, ◌+◌, ◌-◌, ◌<◌, ◌^◌, ◌∙◌, ◌∷◌, ◌≡◌, ◌≤◌,
}
use av_utils.FenwickTree.{
  FenwickTree, add_from, add_word, get, lsb, of_size, of_values, pred, prefix_sum, query, set_at,
  sub_word, update, update_all,
}
use av_utils.FenwickTree.Bits.{covers, lsb_bounds}
use av_utils.FenwickTree.Sums.{
  Represents, get_or-add_from, length-add_from, span, sum_from_lem, total, total-set, total-suc,
  total-zero, total_le, total_split,
}

-- The spans that count a value move with it.
span-set :
    (a : List ℕ) (i delta j : ℕ)
    → i < length a
    → 0 < j
    → j < 2 ^ 32
    → span (set a i (add_word (get_or a i 0) delta)) j
      ≡ (if covers j (i + 1) then add_word (span a j) delta else span a j)
span-set a i delta j h p q =
    let (positive, least) = lsb_bounds j p q in
    let v = add_word (get_or a i 0) delta in
    ground (
      arith,
      total-set a i v j h,
      total-set a i v (j - lsb j) h,
      total_le a (j - lsb j) j (omega arith),
      total_le a (suc i) j,
      total-suc a i,
      total_le a (j - lsb j) i,
    )

-- On a tree that represents the values `a`, `update(i, delta)` with `i` in range succeeds and
-- leaves a tree that represents `a` with `delta` added to value `i`, in words of 64 bits.
pub update-Represents :
    (t : FenwickTree) (a : List ℕ) (i delta : ℕ)
    → Represents t a
    → i < t.n
    → (t' : FenwickTree) × (update t (pos i) delta ≡ some t')
      × Represents t' (set a i (add_word (get_or a i 0) delta))
unfolding update
update-Represents t a i delta r h = (
  record t { tree = add_from t.n t.n (i + 1) delta t.tree },
  rw (lt→ltb i t.n h) refl,
  record {
    size = length-set a i (add_word (get_or a i 0) delta) ∙ r.size;
    room = length-add_from t.n t.n (i + 1) delta t.tree ∙ r.room;
    small = r.small;
    spans = λ j p q. ground (
      arith,
      get_or-add_from t.n t.n (i + 1) delta t.tree j r.small r.room (omega arith) (omega arith) p q,
      span-set a i delta j (omega (arith, r.size)) p (omega (arith, r.small)),
      r.spans j p q,
    );
  },
)

prefix_sum_lem :
    (t : FenwickTree) (a : List ℕ) (i : ℕ)
    → Represents t a
    → i < t.n
    → prefix_sum t (pos i) ≡ some (total a (suc i) % 2 ^ 64)
unfolding prefix_sum
prefix_sum_lem t a i r h =
    ground (arith, sum_from_lem (i + 1) (i + 1) 0 t a r (omega arith) (omega arith) (omega arith))

prefix_sum-pred :
    (t : FenwickTree) (a : List ℕ) (l : ℕ)
    → Represents t a
    → l < t.n
    → prefix_sum t (pred l) ≡ some (total a l % 2 ^ 64)
unfolding prefix_sum
prefix_sum-pred t a zero r h = ground (arith, total-zero a)
prefix_sum-pred t a (suc l) r h = prefix_sum_lem t a l r (omega arith)

-- On a tree that represents the values `a`, `query(l, r)` with `l ≤ r` in range is the sum of the
-- values from `l` to `r`, as a word of 64 bits.
pub query-total :
    (t : FenwickTree) (a : List ℕ) (l r : ℕ)
    → Represents t a
    → l ≤ r
    → r < t.n
    → query t (pos l) (pos r) ≡ some (total (drop l a) (suc r - l) % 2 ^ 64)
unfolding query
query-total t a l r h p q =
    let split = total_split a l (suc r - l) in
    let whole : l + (suc r - l) ≡ suc r = omega arith in
    let upper = prefix_sum_lem t a r h q in
    let lower = prefix_sum-pred t a l h (omega arith) in
    let test : (leb l r && ltb r t.n) ≡ true = ground arith in
    rw (test, upper, lower) (ap some (omega (arith, split, ap (total a) whole)))

total_single : (a : List ℕ) (i : ℕ) → total (drop i a) (suc i - i) ≡ get_or a i 0
total_single a i =
    let whole : i + (suc i - i) ≡ suc i = omega arith in
    omega (arith, total_split a i (suc i - i), ap (total a) whole, total-suc a i)

-- `get(i)` in range is value `i`, as a word.
pub get-value :
    (t : FenwickTree) (a : List ℕ) (i : ℕ)
    → Represents t a
    → i < t.n
    → get t (pos i) ≡ some (get_or a i 0 % 2 ^ 64)
unfolding get
get-value t a i r h =
    let read = query-total t a i i r (omega arith) h in
    rw (lt→ltb i t.n h, read) (ap (λ v. some (v % 2 ^ 64)) (total_single a i))

-- `set(i, value)` in range succeeds and replaces value `i` alone.
pub set_at-Represents :
    (t : FenwickTree) (a : List ℕ) (i value : ℕ)
    → Represents t a
    → i < t.n
    → value < 2 ^ 64
    → (t' : FenwickTree) × (set_at t (pos i) value ≡ some t') × Represents t' (set a i value)
unfolding set_at
set_at-Represents t a i value r h w =
    let (t', done, represents) =
      update-Represents t a i (sub_word value (total (drop i a) (suc i - i) % 2 ^ 64)) r h in
    let same : add_word (get_or a i 0) (sub_word value (total (drop i a) (suc i - i) % 2 ^ 64))
        ≡ value =
      omega (arith, total_single a i) in
    (
      t',
      rw (lt→ltb i t.n h, query-total t a i i r (omega arith) h) done,
      subst (λ v. Represents t' (set a i v)) same represents,
    )

-- The first value not yet set, in words.
set_next :
    (done rest : List ℕ) (x : ℕ)
    → x < 2 ^ 64
    → set (done ++ 0 ∷ rest) (length done) (add_word (get_or (done ++ 0 ∷ rest) (length done) 0) x)
      ≡ (done ++ x ∷ []) ++ rest
set_next [] rest x h = ap (λ y. y ∷ rest) (omega arith)
set_next (d ∷ done) rest x h = ap (◌∷◌ d) (set_next done rest x h)

-- After the constructor from a vector of at most 2^30 - 1 words has updated the indices below
-- `i`, the rest of its loop succeeds.
update_all-Represents :
    (xs done : List ℕ) (t : FenwickTree)
    → ((k : ℕ) → get_or xs k 0 < 2 ^ 64)
    → Represents t (done ++ replicate (length xs) 0)
    → (t' : FenwickTree) × (update_all (length done) xs t ≡ some t') × Represents t' (done ++ xs)
unfolding update_all
update_all-Represents [] done t w r = (t, refl, r)
update_all-Represents (x ∷ xs) done t w r =
    let (t', stepped, represents) =
      update-Represents t (done ++ 0 ∷ replicate (length xs) 0) (length done) x r
        (omega (arith, r.size, length-append done (0 ∷ replicate (length xs) 0))) in
    let (t'', finished, represents') =
      update_all-Represents xs (done ++ x ∷ []) t' (λ k. w (suc k))
        (subst (Represents t') (set_next done (replicate (length xs) 0) x (w 0)) represents) in
    let next : length (done ++ x ∷ []) ≡ suc (length done) =
      omega (arith, length-append done (x ∷ [])) in
    (
      t'',
      rw stepped (subst (λ k. update_all k xs t' ≡ some t'') next finished),
      subst (Represents t'') (append_assoc done (x ∷ []) xs) represents',
    )

total-zeros : (n k : ℕ) → total (replicate n 0) k ≡ 0
total-zeros zero k = refl
total-zeros (suc n) zero = refl
total-zeros (suc n) (suc k) = omega (arith, total-zeros n k)

-- The constructor from a size below 2^30 makes a tree of zeros.
pub of_size-Represents : (n : ℕ) → n < 2 ^ 30 → Represents (of_size n) (replicate n 0)
unfolding of_size
of_size-Represents n h = record {
  size = length-replicate n 0;
  room = omega (arith, length-replicate {A = ℕ} (n + 1) 0);
  small = h;
  spans = λ j p q. omega (arith, get_or-replicate {A = ℕ} (n + 1) 0 j, total-zeros n j);
}

-- The constructor from a vector of less than 2^30 words of 64 bits succeeds, and the tree it
-- makes represents the vector.
pub of_values-Represents :
    (arr : List ℕ)
    → length arr < 2 ^ 30
    → ((k : ℕ) → get_or arr k 0 < 2 ^ 64)
    → (t : FenwickTree) × (of_values arr ≡ some t) × Represents t arr
unfolding of_values
of_values-Represents arr h w =
    update_all-Represents arr [] (of_size (length arr)) w (of_size-Represents (length arr) h)
