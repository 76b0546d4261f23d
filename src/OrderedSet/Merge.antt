-- ===== src/OrderedSet/Merge.antt =====
-- include/ordered_set.h: merging two sets.
use av_utils.Base.{
  Bool, Bool-cases, List, [], ap, append-nil, append_assoc, arith, if◌then◌else◌, inl, inr, none,
  not, refl, subst, sym, true, ℕ, ◌&&◌, ◌++◌, ◌||◌, ◌∙◌, ◌∷◌, ◌≡◌,
}
use av_utils.Linked.{elements, itself}
use av_utils.Linked.Nodes.{IsEquivalence, address_of-lookup, distinct, is_some, lookup}
use av_utils.Linked.Laws.{}
use av_utils.OrderedSet.{OrderedSet, as_vector, insert_all, merge}
use av_utils.OrderedSet.Order.{IsValid, contains-is_some, insert-as_vector}

module _ {ℓ} {T : Type ℓ} (eq : T → T → Bool) (law : IsEquivalence eq) where
  open law use {same_self, swap, through}

  -- No value twice.
  abbrev pub once : List T → Bool
  once [] = true
  once (x ∷ xs) = not (is_some (lookup eq itself xs x)) && once xs

  -- The values of the second list that the first lacks.
  abbrev pub newcomers : List T → List T → List T
  newcomers es [] = []
  newcomers es (x ∷ xs) =
      if is_some (lookup eq itself es x) then newcomers es xs else x ∷ newcomers es xs

  pub once-elements : (l : List (ℕ × T)) → distinct eq itself l ≡ true → once (elements l) ≡ true
  once-elements [] d = refl
  once-elements (n ∷ l) d = ground (arith, once-elements l, address_of-lookup eq itself l n.1)

  lookup-push :
      (es : List T) (x y : T)
      → is_some (lookup eq itself (es ++ x ∷ []) y) ≡ (is_some (lookup eq itself es y) || eq x y)
  lookup-push [] x y = ground arith
  lookup-push (e ∷ es) x y = ground (arith, lookup-push es x y)

  newcomers-push :
      (es xs : List T) (x : T)
      → lookup eq itself xs x ≡ none
      → newcomers (es ++ x ∷ []) xs ≡ newcomers es xs
  newcomers-push es [] x h = refl
  newcomers-push es (y ∷ xs) x h =
      ground (arith, newcomers-push es xs x, lookup-push es x y, swap y x)

  one_more :
      (es es' : List T) (x : T) (xs : List T)
      → es' ≡ (if is_some (lookup eq itself es x) then es else es ++ x ∷ [])
      → lookup eq itself xs x ≡ none
      → es' ++ newcomers es' xs ≡ es ++ newcomers es (x ∷ xs)
  one_more es es' x xs h n = elim (Bool-cases (is_some (lookup eq itself es x))) [
    | inl b ↦
        let same : es' ≡ es = h ∙ rw b refl in
        rw (newcomers, b) (ap (λ l. l ++ newcomers l xs) same)
    | inr b ↦
        let longer : es' ≡ es ++ x ∷ [] = h ∙ rw b refl in
        rw (newcomers, b)
          (ap (λ l. l ++ newcomers l xs) longer
            ∙ ap (λ l. (es ++ x ∷ []) ++ l) (newcomers-push es xs x n)
            ∙ append_assoc es (x ∷ []) (newcomers es xs))
  ]

  insert_all-newcomers :
      (s : OrderedSet T) (xs : List T)
      → IsValid eq law s
      → once xs ≡ true
      → IsValid eq law (insert_all eq s xs)
        × (as_vector (insert_all eq s xs) ≡ as_vector s ++ newcomers (as_vector s) xs)
  unfolding insert_all
  insert_all-newcomers s [] w d = (w, sym (append-nil (as_vector s)))
  insert_all-newcomers s (x ∷ xs) w d =
      let (s', it, added, valid', elements', at') = insert-as_vector eq law s x w in
      let there = contains-is_some eq law s x w in
      let (valid'', all) = insert_all-newcomers s' xs valid' (ground arith) in
      let whole =
        all
        ∙ one_more (as_vector s) (as_vector s') x xs
            (elements' ∙ ap (λ b. if b then as_vector s else as_vector s ++ x ∷ []) there)
            (ground arith) in
      subst
        (λ u.
          IsValid eq law (insert_all eq u xs)
          × (as_vector (insert_all eq u xs) ≡ as_vector s ++ newcomers (as_vector s) (x ∷ xs)))
        (sym (ap (λ r. r.0) added)) (valid'', whole)

  -- On two sets whose lists and maps agree, `merge` leaves such a set: the elements of the first
  -- in their order, and then those of the second that the first lacks, in theirs.
  pub merge-newcomers :
      (s other : OrderedSet T)
      → IsValid eq law s
      → IsValid eq law other
      → IsValid eq law (merge eq s other)
        × (as_vector (merge eq s other) ≡ as_vector s ++ newcomers (as_vector s) (as_vector other))
  unfolding merge
  merge-newcomers s other w v =
      insert_all-newcomers s (as_vector other) w (once-elements other.links.nodes v.apart)
