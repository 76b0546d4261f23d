-- ===== src/InsertionOrderedMap/Tests.antt =====
-- include/InsertionOrderedMap.h: the theorems at a concrete map, and runs of the members.
use av_utils.Base.{[], arith, false, ok, refl, some, true, ℕ, ◌==◌, ◌∷◌, ◌≡◌}
use av_utils.Linked.{find, key_of, push_back}
use av_utils.Linked.Nodes.{==-IsEquivalence}
use av_utils.Linked.Hints.{}
use av_utils.InsertionOrderedMap.{
  InsertionOrderedMap, at, contains, emplace, emplace_hint, empty, entries, erase,
  erase_at_iterator, insert, insert_all, insert_hint, insert_or_assign, pop_first, pop_last,
  subscript, to_back, to_front,
}
use av_utils.InsertionOrderedMap.Entries.{
  IsValid, at-lookup, insert-entries, insert_or_assign-entries, subscript-entries,
}
use av_utils.InsertionOrderedMap.Changes.{
  erase_iterator-erase, erase_key-remove, pop_first-entries, pop_last-entries, to_front-to_back,
}
use av_utils.InsertionOrderedMap.Hints.{emplace-insert_hint, insert_hint-entries}

abbrev two : InsertionOrderedMap ℕ ℕ
two = record {
  links = record {
    nodes = (0, (7, 70)) ∷ (1, (3, 30)) ∷ [];
    index = (3, 1) ∷ (7, 0) ∷ [];
    next = 2;
  };
}

two_filled : insert_all ◌==◌ empty ((7, 70) ∷ (3, 30) ∷ (7, 71) ∷ []) ≡ two
unfolding insert_all insert push_back
two_filled = refl

two_refuses : entries (emplace ◌==◌ two (3, 31)).0 ≡ (7, 70) ∷ (3, 30) ∷ []
unfolding emplace_hint
two_refuses = refl

two-IsValid : IsValid ◌==◌ ==-IsEquivalence two
two-IsValid = record {
  indexed = λ k. ground arith;
  apart = refl;
  old = refl;
  keyed = refl;
  counted = refl;
}

at-lookup_example : (contains ◌==◌ two 3 ≡ true) × (at ◌==◌ two 3 ≡ ok 30)
at-lookup_example = at-lookup ◌==◌ ==-IsEquivalence two 3 two-IsValid

insert-entries_example :
    (m' : InsertionOrderedMap ℕ ℕ) × (it : ℕ) × (insert ◌==◌ two (5, 50) ≡ (m', it, true))
    × IsValid ◌==◌ ==-IsEquivalence m'
    × (entries m' ≡ (7, 70) ∷ (3, 30) ∷ (5, 50) ∷ [])
    × (find ◌==◌ key_of m'.links 5 ≡ some it)
insert-entries_example = insert-entries ◌==◌ ==-IsEquivalence two (5, 50) two-IsValid

insert_or_assign-entries_example :
    (m' : InsertionOrderedMap ℕ ℕ) × (it : ℕ) × (insert_or_assign ◌==◌ two 7 77 ≡ (m', it, false))
    × IsValid ◌==◌ ==-IsEquivalence m'
    × (entries m' ≡ (7, 77) ∷ (3, 30) ∷ [])
insert_or_assign-entries_example =
    insert_or_assign-entries ◌==◌ ==-IsEquivalence two 7 77 two-IsValid

subscript-entries_example :
    (m' : InsertionOrderedMap ℕ ℕ) × (it : ℕ) × (subscript ◌==◌ 0 two 5 ≡ (m', it))
    × IsValid ◌==◌ ==-IsEquivalence m'
    × (entries m' ≡ (7, 70) ∷ (3, 30) ∷ (5, 0) ∷ [])
    × (find ◌==◌ key_of m'.links 5 ≡ some it)
subscript-entries_example = subscript-entries ◌==◌ ==-IsEquivalence 0 two 5 two-IsValid

erase_key-remove_example :
    (m' : InsertionOrderedMap ℕ ℕ) × (erase ◌==◌ two 7 ≡ (m', 1))
    × IsValid ◌==◌ ==-IsEquivalence m'
    × (entries m' ≡ (3, 30) ∷ [])
erase_key-remove_example = erase_key-remove ◌==◌ ==-IsEquivalence two 7 two-IsValid

erase_iterator-erase_example : erase_at_iterator ◌==◌ two (some 0) ≡ ((erase ◌==◌ two 7).0, some 1)
erase_iterator-erase_example =
    erase_iterator-erase ◌==◌ ==-IsEquivalence two 0 (7, 70) two-IsValid refl

to_front-to_back_example :
    IsValid ◌==◌ ==-IsEquivalence (to_front ◌==◌ two 3)
    × (entries (to_front ◌==◌ two 3) ≡ (3, 30) ∷ (7, 70) ∷ [])
    × IsValid ◌==◌ ==-IsEquivalence (to_back ◌==◌ two 3)
    × (entries (to_back ◌==◌ two 3) ≡ (7, 70) ∷ (3, 30) ∷ [])
to_front-to_back_example = to_front-to_back ◌==◌ ==-IsEquivalence two 3 two-IsValid

pop_first-entries_example :
    (m' : InsertionOrderedMap ℕ ℕ) × (pop_first ◌==◌ two ≡ (m', some (7, 70)))
    × IsValid ◌==◌ ==-IsEquivalence m'
    × (entries m' ≡ (3, 30) ∷ [])
pop_first-entries_example = pop_first-entries ◌==◌ ==-IsEquivalence two two-IsValid

pop_last-entries_example :
    (m' : InsertionOrderedMap ℕ ℕ) × (pop_last ◌==◌ two ≡ (m', some (3, 30)))
    × IsValid ◌==◌ ==-IsEquivalence m'
    × (entries m' ≡ (7, 70) ∷ [])
pop_last-entries_example = pop_last-entries ◌==◌ ==-IsEquivalence two two-IsValid

insert_hint-entries_example :
    (m' : InsertionOrderedMap ℕ ℕ) × (it : ℕ) × (insert_hint ◌==◌ two (some 1) (5, 50) ≡ (m', it))
    × IsValid ◌==◌ ==-IsEquivalence m'
    × (entries m' ≡ (7, 70) ∷ (5, 50) ∷ (3, 30) ∷ [])
insert_hint-entries_example =
    insert_hint-entries ◌==◌ ==-IsEquivalence two (some 1) (5, 50) two-IsValid

emplace-insert_hint_example :
    (m' : InsertionOrderedMap ℕ ℕ) × (emplace_hint ◌==◌ two (some 1) (3, 31)
      ≡ (m', (insert_hint ◌==◌ two (some 1) (3, 31)).1, false))
    × IsValid ◌==◌ ==-IsEquivalence m'
    × (entries m' ≡ entries (insert_hint ◌==◌ two (some 1) (3, 31)).0)
emplace-insert_hint_example =
    emplace-insert_hint ◌==◌ ==-IsEquivalence two (some 1) (3, 31) two-IsValid
