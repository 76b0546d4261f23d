-- ===== src/InsertionOrderedMap/Hints.antt =====
-- include/InsertionOrderedMap.h: entries added before a hint, and `emplace`, which adds the entry
-- to the list before it asks the map.
use av_utils.Base.{
  Bool, Option, Option-cases, arith, if◌then◌else◌, inl, inr, insert_at, not, refl, suc, ℕ, ◌≡◌,
}
use av_utils.Linked.{find, key_of, push_at}
use av_utils.Linked.Nodes.{IsEquivalence, below-element_at, below-suc}
use av_utils.Linked.Laws.{map_erase_absent}
use av_utils.Linked.Hints.{position, push_at_lem, unlink-link_before}
use av_utils.InsertionOrderedMap.{InsertionOrderedMap, contains, emplace_hint, entries, insert_hint}
use av_utils.InsertionOrderedMap.Entries.{IsValid}

module _ {ℓ} {K V : Type ℓ} (eq : K → K → Bool) (law : IsEquivalence eq) where
  -- On a map whose list and index agree, `insert` with a hint leaves such a map: an entry of a new
  -- key stands before the one at the hint, at the end without one; a key that is there keeps its
  -- entry.
  pub insert_hint-entries :
      (m : InsertionOrderedMap K V) (hint : Option ℕ) (e : K × V)
      → IsValid eq law m
      → (m' : InsertionOrderedMap K V) × (it : ℕ) × (insert_hint eq m hint e ≡ (m', it))
        × IsValid eq law m'
        × (entries m' ≡ (
            if contains eq m e.0
            then entries m
            else insert_at (entries m) (position m.links.nodes hint) e))
  unfolding insert_hint
  insert_hint-entries m hint e w = elim (Option-cases (find eq key_of m.links e.0)) [
    | inr (it, h) ↦ (m, it, rw (insert_hint, h) refl, w, rw (contains, h) refl)
    | inl h ↦
        let (linked', placed) = push_at_lem eq key_of law m.links hint e w h in
        (
          record { links = push_at eq key_of m.links hint e },
          m.links.next,
          rw (insert_hint, h) refl,
          linked',
          rw (contains, h) placed,
        )
  ]

  -- On a map whose list and index agree, `emplace` leaves such a map. It takes the node it added
  -- away again when the key is there, so its entries, its iterator and its result are those of
  -- `insert` with the same hint.
  pub emplace-insert_hint :
      (m : InsertionOrderedMap K V) (hint : Option ℕ) (e : K × V)
      → IsValid eq law m
      → (m' : InsertionOrderedMap K V) × (emplace_hint eq m hint e
          ≡ (m', (insert_hint eq m hint e).1, not (contains eq m e.0)))
        × IsValid eq law m'
        × (entries m' ≡ entries (insert_hint eq m hint e).0)
  unfolding emplace_hint insert_hint push_at
  emplace-insert_hint m hint e w = elim (Option-cases (find eq key_of m.links e.0)) [
    | inl h ↦
        let same = map_erase_absent eq law m.links.index e.0 h in
        (
          record { links = push_at eq key_of m.links hint e },
          rw (emplace_hint, insert_hint, contains, h, push_at, same) refl,
          (push_at_lem eq key_of law m.links hint e w h).0,
          rw (insert_hint, h) refl,
        )
    | inr (it, h) ↦
        let fresh = below-element_at m.links.next m.links.nodes m.links.next w.old (omega arith) in
        let undone = unlink-link_before m.links.nodes hint (m.links.next, e) fresh in
        (
          record { links = record m.links { next = suc m.links.next } },
          rw (emplace_hint, insert_hint, contains, h, undone) refl,
          record {
            indexed = w.indexed;
            apart = w.apart;
            old = below-suc m.links.next m.links.nodes w.old;
            keyed = w.keyed;
            counted = w.counted;
          },
          rw (insert_hint, h) refl,
        )
  ]
