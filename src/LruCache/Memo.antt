-- ===== src/LruCache/Memo.antt =====
-- include/lru_cache.h: `CachedFunction` gives what its function gives.
use av_utils.Base.{
  Bool, Bool-cases, List, Option-cases, [], ap, arith, drop_last, false, if◌then◌else◌, inl, inr,
  leb, length, none, refl, some, some-injective, subst, sym, true, ℕ, ◌∙◌, ◌∷◌, ◌≡◌,
}
use av_utils.Linked.{key_of}
use av_utils.Linked.Nodes.{IsEquivalence, lookup, remove}
use av_utils.LruCache.{LruCache, call, entries}
use av_utils.LruCache.Methods.{IsValid, get-lookup, stored, touched}
use av_utils.LruCache.Stores.{put-stored}

module _ {ℓ} {K V : Type ℓ} (eq : K → K → Bool) (law : IsEquivalence eq) (func : K → V) where
  -- Every entry holds the value of the function at its key.
  abbrev pub IsMemo : List (K × V) → Type ℓ
  IsMemo es = (key : K) (e : K × V) → lookup eq key_of es key ≡ some e → e.1 ≡ func key

  lookup-remove :
      (es : List (K × V)) (k q : K) (e : K × V)
      → eq k q ≡ false
      → lookup eq key_of (remove eq key_of es k) q ≡ some e
      → lookup eq key_of es q ≡ some e
  lookup-remove [] k q e n h = h
  lookup-remove (f ∷ es) k q e n h = ground (arith, lookup-remove es k q e n, law.through f.0 k q)

  lookup-drop_last :
      (es : List (K × V)) (q : K) (e : K × V)
      → lookup eq key_of (drop_last es) q ≡ some e
      → lookup eq key_of es q ≡ some e
  lookup-drop_last [] q e h = h
  lookup-drop_last (f ∷ []) q e h = cc
  lookup-drop_last (f ∷ g ∷ es) q e h = ground (arith, lookup-drop_last (g ∷ es) q e)

  module _ (respects : (a b : K) → eq a b ≡ true → func a ≡ func b) where
    front_IsMemo :
        (x : K × V) (es : List (K × V))
        → x.1 ≡ func x.0
        → ((q : K) (e : K × V) → eq x.0 q ≡ false → lookup eq key_of es q ≡ some e → e.1 ≡ func q)
        → IsMemo (x ∷ es)
    front_IsMemo x es v rest q e h = elim (Bool-cases (eq x.0 q)) [
      | inl same ↦
          let first : some x ≡ some e = rw same at h in
          sym (ap (λ y. y.1) (some-injective x e first)) ∙ v ∙ respects x.0 q same
      | inr other ↦ rest q e other (rw other at h)
    ]

    lookup-key :
        (es : List (K × V)) (k : K) (e : K × V) → lookup eq key_of es k ≡ some e → eq e.0 k ≡ true
    lookup-key [] k e h = cc
    lookup-key (f ∷ es) k e h = elim (Bool-cases (eq f.0 k)) [
      | inl same ↦
          let first : some f ≡ some e = rw same at h in
          subst (λ y. eq y.0 k ≡ true) (some-injective f e first) same
      | inr other ↦ lookup-key es k e (rw other at h)
    ]

    touched-IsMemo : (es : List (K × V)) (k : K) → IsMemo es → IsMemo (touched eq law es k)
    touched-IsMemo es k w = elim (Option-cases (lookup eq key_of es k)) [
      | inl h ↦ rw (touched, h) w
      | inr (x, h) ↦
          let same = lookup-key es k x h in
          rw (touched, h)
            (front_IsMemo x (remove eq key_of es k) (w k x h ∙ sym (respects x.0 k same))
              λ q e n p. w q e (lookup-remove es k q e (sym (law.through x.0 k q same) ∙ n) p))
    ]

    missed-IsMemo :
        (max_size : ℕ) (es : List (K × V)) (k : K)
        → lookup eq key_of es k ≡ none
        → IsMemo es
        → IsMemo (stored eq law max_size es k (func k))
    missed-IsMemo max_size es k h w =
        rw (stored, h)
          (front_IsMemo (k, func k) (if leb max_size (length es) then drop_last es else es) refl
            λ q e n p. elim (Bool-cases (leb max_size (length es))) [
              | inl full ↦ w q e (lookup-drop_last es q e (rw full at p))
              | inr room ↦ w q e (rw room at p)
            ])

    -- On a valid cache whose entries hold values of a function that gives the same value for equal
    -- keys, a call gives the value of the function at its argument, and leaves such a cache.
    pub call-func :
        (c : LruCache K V) (k : K)
        → IsValid eq law c
        → IsMemo (entries c)
        → (c' : LruCache K V) × (call eq func c k ≡ (c', func k))
          × IsValid eq law c'
          × IsMemo (entries c')
    unfolding call
    call-func c k w memo =
        let (c₁, got, valid₁, left₁, stats₁) = get-lookup eq law c k w in
        elim (Option-cases (lookup eq key_of (entries c) k)) [
          | inr (e, h) ↦ (
            c₁,
            rw (call, got, h, got) (ap (λ v. (c₁, v)) (memo k e h)),
            valid₁,
            subst IsMemo (sym left₁) (touched-IsMemo (entries c) k memo),
          )
          | inl h ↦
              let same : entries c₁ ≡ entries c = rw (touched, h) at left₁ in
              let (c₂, done, valid₂, left₂, size₂) = put-stored eq law c₁ k (func k) valid₁ in
              (
                c₂,
                rw (call, got, h, got, done) refl,
                valid₂,
                subst IsMemo (sym left₂) (
                    missed-IsMemo c₁.max_size (entries c₁) k
                      (ap (λ es. lookup eq key_of es k) same ∙ h) (subst IsMemo (sym same) memo)),
              )
        ]
