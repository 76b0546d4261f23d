-- ===== src/OrderedSet/Order.antt =====
-- include/ordered_set.h: the elements in their order after each member.
use av_utils.Base.{
  Bool, List, Option-cases, [], arith, get_elem?, if◌then◌else◌, inl, inr, length, ne→==, not,
  or_throw, out_of_range, refl, some, suc, sym, throw, ℕ, ◌++◌, ◌==◌, ◌∙◌, ◌∷◌, ◌≡◌,
}
use av_utils.Linked.{erase_node, find, itself, last, push_back}
use av_utils.Linked.Nodes.{
  IsEquivalence, IsLinked, address_of-lookup, find-none, is_some, length-elements, lookup, remove,
  remove_absent,
}
use av_utils.Linked.Laws.{erase_node_lem, find-push_back, push_back_lem}
use av_utils.OrderedSet.{OrderedSet, as_vector, back, contains, erase, front, insert, size}

module _ {ℓ} {T : Type ℓ} (eq : T → T → Bool) (law : IsEquivalence eq) where
  -- List and map agree.
  abbrev pub IsValid : OrderedSet T → Type ℓ
  IsValid s = IsLinked eq itself s.links

  pub contains-is_some :
      (s : OrderedSet T) (v : T)
      → IsValid s
      → contains eq s v ≡ is_some (lookup eq itself (as_vector s) v)
  contains-is_some s v w = ground (arith, w.indexed v, address_of-lookup eq itself s.links.nodes v)

  -- On a set whose list and map agree: `contains` tells whether an element is equal to the value,
  -- `size` is the number of elements, and `front` and `back` raise for an empty set alone.
  pub size-as_vector :
      (s : OrderedSet T) (v : T)
      → IsValid s
      → (contains eq s v ≡ is_some (lookup eq itself (as_vector s) v))
        × (size s ≡ length (as_vector s))
        × (front s ≡ or_throw out_of_range (get_elem? (as_vector s) 0))
        × (back s ≡ or_throw out_of_range (last (as_vector s)))
  unfolding front back
  size-as_vector s v w =
      let counted : size s ≡ length (as_vector s) =
        w.counted ∙ sym (length-elements s.links.nodes) in
      (
        contains-is_some s v w,
        counted,
        rw counted (first (as_vector s)),
        rw counted (final (as_vector s)),
      )
    where
      first :
          (xs : List T)
          → (if length xs == 0 then throw out_of_range else or_throw out_of_range (get_elem? xs 0))
            ≡ or_throw out_of_range (get_elem? xs 0)
      first [] = refl
      first (x ∷ xs) = rw (ne→== (suc (length xs)) 0 (omega arith)) refl

      final :
          (xs : List T)
          → (if length xs == 0 then throw out_of_range else or_throw out_of_range (last xs))
            ≡ or_throw out_of_range (last xs)
      final [] = refl
      final (x ∷ xs) = rw (ne→== (suc (length xs)) 0 (omega arith)) refl

  -- On a set whose list and map agree, `insert` leaves such a set: a new value is added at the
  -- back, a value that is there changes nothing, and the iterator is at the element equal to it.
  pub insert-as_vector :
      (s : OrderedSet T) (v : T)
      → IsValid s
      → (s' : OrderedSet T) × (it : ℕ) × (insert eq s v ≡ (s', it, not (contains eq s v)))
        × IsValid s'
        × (as_vector s' ≡ (if contains eq s v then as_vector s else as_vector s ++ v ∷ []))
        × (find eq itself s'.links v ≡ some it)
  unfolding insert
  insert-as_vector s v w = elim (Option-cases (find eq itself s.links v)) [
    | inr (it, h) ↦ (s, it, rw (insert, contains, h) refl, w, rw (contains, h) refl, h)
    | inl h ↦
        let (linked', longer) = push_back_lem eq itself law s.links v w h in
        (
          record { links = push_back eq itself s.links v },
          s.links.next,
          rw (insert, contains, h) refl,
          linked',
          rw (contains, h) longer,
          find-push_back eq itself law s.links v,
        )
  ]

  -- On a set whose list and map agree, `erase` leaves such a set, says how many elements it
  -- dropped, and keeps the order of the others.
  pub erase-as_vector :
      (s : OrderedSet T) (v : T)
      → IsValid s
      → (s' : OrderedSet T) × (erase eq s v ≡ (s', (if contains eq s v then 1 else 0)))
        × IsValid s'
        × (as_vector s' ≡ remove eq itself (as_vector s) v)
  unfolding erase
  erase-as_vector s v w = elim (Option-cases (find eq itself s.links v)) [
    | inl h ↦
        let absent = find-none eq itself s.links v w h in
        (s, rw (erase, contains, h) refl, w, sym (remove_absent eq itself (as_vector s) v absent))
    | inr (it, h) ↦
        let (linked', kept) = erase_node_lem eq itself law s.links v it w h in
        (
          record { links = erase_node eq itself s.links v it },
          rw (erase, contains, h) refl,
          linked',
          kept,
        )
  ]
