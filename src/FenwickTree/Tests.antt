-- ===== src/FenwickTree/Tests.antt =====
-- include/fenwick_tree.h: the theorems at concrete trees, and runs of the members.
use av_utils.Base.{
  List, [], arith, get_or, negsuc, none, pos, refl, some, some-injective, subst, suc, sym, zero, ℕ,
  ◌<◌, ◌^◌, ◌∙◌, ◌∷◌, ◌≡◌,
}
use av_utils.FenwickTree.{
  FenwickTree, add_from, lsb, of_size, of_values, prefix_sum, query, set_at, sum_from, update,
  update_all,
}
use av_utils.FenwickTree.Sums.{Represents}
use av_utils.FenwickTree.Updates.{
  of_values-Represents, query-total, set_at-Represents, update-Represents,
}

abbrev values : List ℕ
values = 3 ∷ 1 ∷ 4 ∷ 1 ∷ 5 ∷ []

abbrev five : FenwickTree
five = record { tree = 0 ∷ 3 ∷ 4 ∷ 4 ∷ 9 ∷ 5 ∷ []; n = 5 }

five_built : of_values values ≡ some five
unfolding of_values update_all of_size update add_from lsb
five_built = refl

five-query : query five (pos 1) (pos 3) ≡ some 6
unfolding query prefix_sum sum_from lsb
five-query = refl

before_start : query five (negsuc 0) (pos 3) ≡ none
unfolding query
before_start = refl

small_words : (k : ℕ) → get_or values k 0 < 2 ^ 64
small_words zero = omega arith
small_words (suc zero) = omega arith
small_words (suc (suc zero)) = omega arith
small_words (suc (suc (suc zero))) = omega arith
small_words (suc (suc (suc (suc zero)))) = omega arith
small_words (suc (suc (suc (suc (suc k))))) = omega arith

built : (t : FenwickTree) × (of_values values ≡ some t) × Represents t values
built = of_values-Represents values (omega arith) small_words

five-Represents : Represents five values
five-Represents =
    subst (λ t. Represents t values) (sym (some-injective _ _ (sym five_built ∙ built.1))) built.2

of_values-Represents_example : (t : FenwickTree) × (of_values values ≡ some t) × Represents t values
of_values-Represents_example = of_values-Represents values (omega arith) small_words

update-Represents_example :
    (t' : FenwickTree) × (update five (pos 2) 7 ≡ some t') × Represents t' (3 ∷ 1 ∷ 11 ∷ 1 ∷ 5 ∷ [])
update-Represents_example = update-Represents five values 2 7 five-Represents (omega arith)

query-total_example : query five (pos 1) (pos 3) ≡ some 6
query-total_example = query-total five values 1 3 five-Represents (omega arith) (omega arith)

set_at-Represents_example :
    (t' : FenwickTree) × (set_at five (pos 2) 0 ≡ some t') × Represents t' (3 ∷ 1 ∷ 0 ∷ 1 ∷ 5 ∷ [])
set_at-Represents_example =
    set_at-Represents five values 2 0 five-Represents (omega arith) (omega arith)
