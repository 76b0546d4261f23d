-- ===== src/LruCache/Stores.antt =====
-- include/lru_cache.h: what `put` and `erase` leave, and what they give to the callback.
use av_utils.Base.{
  Bool, Bool-cases, List, Option-cases, [], ap, arith, drop_last, false, inl, inr, leb, length,
  length-drop_last, none, refl, some, sym, true, ℕ, ◌<◌, ◌∙◌, ◌∷◌, ◌≡◌,
}
use av_utils.Linked.{
  Linked, assign, elements, erase_node, find, key_of, last, pop_back, push_front, splice_front,
}
use av_utils.Linked.Nodes.{
  IsEquivalence, find-none, length-elements, length-remove, length-remove-le, lookup, lookup-find,
  remove, remove_absent,
}
use av_utils.Linked.Laws.{erase_node_lem, push_front_lem}
use av_utils.Linked.Ends.{pop_back_lem}
use av_utils.Linked.Moves.{move_to_front-splice_front, splice_front_lem}
use av_utils.Linked.Writes.{assign_lem}
use av_utils.LruCache.{LruCache, contains, entries, erase, evict_lru, incremented, put}
use av_utils.LruCache.Methods.{IsValid, evicted, found_some, last_one, stored, update-lookup}

nonempty-last {ℓ} : {A : Type ℓ} (es : List A) → 0 < length es → (e : A) × (last es ≡ some e)
nonempty-last [] h = absurd (omega arith)
nonempty-last (e ∷ []) h = (e, refl)
nonempty-last (e ∷ f ∷ es) h = nonempty-last (f ∷ es) (omega arith)

module _ {ℓ} {K V : Type ℓ} (eq : K → K → Bool) (law : IsEquivalence eq) where
  lookup-drop_last :
      (es : List (K × V)) (key : K)
      → lookup eq key_of es key ≡ none
      → lookup eq key_of (drop_last es) key ≡ none
  lookup-drop_last [] key h = refl
  lookup-drop_last (e ∷ []) key h = refl
  lookup-drop_last (e ∷ f ∷ es) key h = ground (arith, lookup-drop_last (f ∷ es) key)

  put_hit :
      (c : LruCache K V) (key : K) (value : V) (it : ℕ)
      → IsValid eq law c
      → find eq key_of c.links key ≡ some it
      → (c' : LruCache K V) × (put eq c key value ≡ (c', evicted eq law c.max_size (entries c) key))
        × IsValid eq law c'
        × (entries c' ≡ stored eq law c.max_size (entries c) key value)
        × (c'.max_size ≡ c.max_size)
  unfolding put
  put_hit c key value it w h =
      let (e, there) = found_some eq law c key it w h in
      let written : Linked K (K × V) = record c.links {
        nodes = assign (λ e. (e.0, value)) c.links.nodes it;
      } in
      let (linked', changed) =
        assign_lem eq key_of (λ e. (e.0, value)) (λ e. refl) c.links key it w.linked h in
      let (there', rest) = update-lookup eq law value (entries c) key e there in
      let found' : lookup eq key_of (elements written.nodes) key ≡ some (e.0, value) =
        rw changed there' in
      let (linked'', front) =
        splice_front_lem eq key_of law written key it (e.0, value) linked' h found' in
      let whole : elements (splice_front written.nodes it)
          ≡ (e.0, value) ∷ remove eq key_of (entries c) key =
        front ∙ ap (◌∷◌ (e.0, value)) (ap (λ es. remove eq key_of es key) changed ∙ rest) in
      (
        record c { links = record written { nodes = splice_front written.nodes it } },
        rw (put, h, evicted, there, move_to_front-splice_front written.nodes it) refl,
        record {
          linked = linked'';
          bounded =
              omega (
                arith,
                w.bounded,
                ap length whole,
                length-remove eq key_of (entries c) key e there,
              );
          positive = w.positive;
        },
        rw (stored, there) whole,
        refl,
      )

  put_miss :
      (c : LruCache K V) (key : K) (value : V)
      → IsValid eq law c
      → find eq key_of c.links key ≡ none
      → (c' : LruCache K V) × (put eq c key value ≡ (c', evicted eq law c.max_size (entries c) key))
        × IsValid eq law c'
        × (entries c' ≡ stored eq law c.max_size (entries c) key value)
        × (c'.max_size ≡ c.max_size)
  unfolding put evict_lru
  put_miss c key value w h =
      let absent = find-none eq key_of c.links key w.linked h in
      let same_size = length-elements c.links.nodes in
      elim (Bool-cases (leb c.max_size (length c.links.nodes))) [
        | inr room ↦
            let (linked', front) = push_front_lem eq key_of law c.links (key, value) w.linked h in
            let room' : leb c.max_size (length (entries c)) ≡ false = rw same_size room in
            (
              record c { links = push_front eq key_of c.links (key, value) },
              rw (put, h, room, evicted, absent, room') refl,
              record {
                linked = linked';
                bounded = ground (arith, w.bounded, ap length front, room');
                positive = w.positive;
              },
              rw (stored, absent, room') front,
              refl,
            )
        | inl full ↦
            let full' : leb c.max_size (length (entries c)) ≡ true = rw same_size full in
            let (x, final) = nonempty-last (entries c) (ground (arith, w.positive, full')) in
            let (popped, shorter) = pop_back_lem eq key_of law c.links x w.linked final in
            let absent' : lookup eq key_of (elements (pop_back eq key_of c.links).nodes) key
                ≡ none =
              rw shorter (lookup-drop_last (entries c) key absent) in
            let still = lookup-find eq key_of (pop_back eq key_of c.links) key popped absent' in
            let (linked', front) =
              push_front_lem eq key_of law (pop_back eq key_of c.links) (key, value) popped still in
            let whole = front ∙ ap (◌∷◌ (key, value)) shorter in
            (
              record c {
                links = push_front eq key_of (pop_back eq key_of c.links) (key, value);
                stats = record c.stats { evictions = incremented c.stats.evictions };
              },
              rw (put, h, full, evict_lru, evicted, absent, full', last_one, final) refl,
              record {
                linked = linked';
                bounded = ground (
                  arith,
                  w.bounded,
                  w.positive,
                  ap length whole,
                  length-drop_last (entries c),
                  full',
                );
                positive = w.positive;
              },
              rw (stored, absent, full') whole,
              refl,
            )
      ]

  -- On a valid cache, `put` writes and moves the entry of a key that is there, and adds an entry
  -- for a new key at the front; a full cache first gives its last entry to the callback, and no
  -- other entry is evicted. The cache stays valid, so it never has more entries than its maximum.
  pub put-stored :
      (c : LruCache K V) (key : K) (value : V)
      → IsValid eq law c
      → (c' : LruCache K V) × (put eq c key value ≡ (c', evicted eq law c.max_size (entries c) key))
        × IsValid eq law c'
        × (entries c' ≡ stored eq law c.max_size (entries c) key value)
        × (c'.max_size ≡ c.max_size)
  put-stored c key value w = elim (Option-cases (find eq key_of c.links key)) [
    | inl h ↦ put_miss c key value w h
    | inr (it, h) ↦ put_hit c key value it w h
  ]

  -- On a valid cache, `erase` says whether the key was there, drops its entry and keeps the order
  -- of the others.
  pub erase-entries :
      (c : LruCache K V) (key : K)
      → IsValid eq law c
      → (c' : LruCache K V) × (erase eq c key ≡ (c', contains eq c key))
        × IsValid eq law c'
        × (entries c' ≡ remove eq key_of (entries c) key)
        × (c'.stats ≡ c.stats)
  unfolding erase
  erase-entries c key w = elim (Option-cases (find eq key_of c.links key)) [
    | inl h ↦
        let absent = find-none eq key_of c.links key w.linked h in
        (
          c,
          rw (erase, contains, h) refl,
          w,
          sym (remove_absent eq key_of (entries c) key absent),
          refl,
        )
    | inr (it, h) ↦
        let (linked', kept) = erase_node_lem eq key_of law c.links key it w.linked h in
        (
          record c { links = erase_node eq key_of c.links key it },
          rw (erase, contains, h) refl,
          record {
            linked = linked';
            bounded =
                omega
                  (arith, w.bounded, ap length kept, length-remove-le eq key_of (entries c) key);
            positive = w.positive;
          },
          kept,
          refl,
        )
  ]
