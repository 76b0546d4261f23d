-- ===== src/SegmentTree/Build.antt =====
-- The array of `SegmentTree`: what the constructor's two loops write, and what an inner node holds.
use native.Mathlib.Decide.{dec_lt}
use av_utils.Base.{
  List, [], ap, ap₂, arith, get_or, get_or-set_at, get_or-set_off, length, length-set, refl, set,
  subst, suc, sym, zero, ℕ, ◌*◌, ◌+◌, ◌/◌, ◌<◌, ◌∙◌, ◌∷◌, ◌≡◌, ◌≢◌, ◌≤◌,
}
use av_utils.SegmentTree.{SegmentTree, build, combine, fill}

module _ {ℓ} {T : Type ℓ} where
  pub length-fill : (i : ℕ) (xs tree : List T) → length (fill i xs tree) ≡ length tree
  unfolding fill
  length-fill i [] tree = refl
  length-fill i (x ∷ xs) tree = length-fill (suc i) xs (set tree i x) ∙ length-set tree i x

  -- The leaves are written from `i` on, and nothing before.
  get_or-fill_before :
      (i j : ℕ) (xs tree : List T) (d : T)
      → i + length xs ≤ length tree
      → j < i
      → get_or (fill i xs tree) j d ≡ get_or tree j d
  unfolding fill
  get_or-fill_before i j [] tree d h k = refl
  get_or-fill_before i j (x ∷ xs) tree d h k =
      get_or-fill_before (suc i) j xs (set tree i x) d (omega (arith, length-set tree i x))
        (omega arith)
      ∙ get_or-set_off tree i j x d (omega arith) (omega arith)

  pub get_or-fill :
      (i j : ℕ) (xs tree : List T) (d : T)
      → i + length xs ≤ length tree
      → j < length xs
      → get_or (fill i xs tree) (i + j) d ≡ get_or xs j d
  unfolding fill
  get_or-fill i j [] tree d h k = absurd (omega arith)
  get_or-fill i zero (x ∷ xs) tree d h k =
      get_or-fill_before (suc i) (i + 0) xs (set tree i x) d (omega (arith, length-set tree i x))
        (omega arith)
      ∙ get_or-set_at tree i (i + 0) x d (omega arith) (omega arith)
  get_or-fill i (suc j) (x ∷ xs) tree d h k =
      ap (λ m. get_or (fill (suc i) xs (set tree i x)) m d) (omega arith)
      ∙ get_or-fill (suc i) j xs (set tree i x) d (omega (arith, length-set tree i x)) (omega arith)

module _ {ℓ} {T : Type ℓ} (op : T → T → T) (d : T) where
  -- The node `j` of a tree combines its children.
  abbrev pub Combined : List T → ℕ → Type ℓ
  Combined tree j = get_or tree j d ≡ op (get_or tree (2 * j) d) (get_or tree (2 * j + 1) d)

  pub record IsValid (t : SegmentTree T) : Type ℓ where
    pub sized : t.original_size ≡ t.n
    pub storage : length t.tree ≡ 2 * t.n
    pub inner : (j : ℕ) → 1 ≤ j → j < t.n → Combined t.tree j

  pub length-combine : (tree : List T) (i : ℕ) → length (combine op d tree i) ≡ length tree
  length-combine tree i = length-set tree i _

  -- A node written by the loop combines its children then, if they are written no more.
  pub combine-Combined :
      (tree : List T) (i : ℕ) → 1 ≤ i → 2 * i + 1 < length tree → Combined (combine op d tree i) i
  combine-Combined tree i p q =
      get_or-set_at tree i i _ d (omega arith) refl
      ∙ sym (
          ap₂ op (get_or-set_off tree i (2 * i) _ d (omega arith) (omega arith))
            (get_or-set_off tree i (2 * i + 1) _ d (omega arith) (omega arith)))

  -- Writing neither a node nor its children leaves it as it was.
  pub set-Combined :
      (tree : List T) (i j : ℕ) (x : T)
      → i < length tree
      → i ≢ j
      → i ≢ 2 * j
      → i ≢ 2 * j + 1
      → Combined tree j
      → Combined (set tree i x) j
  set-Combined tree i j x h a b c e =
      get_or-set_off tree i j x d h a
      ∙ e
      ∙ sym (
          ap₂ op (get_or-set_off tree i (2 * j) x d h b)
            (get_or-set_off tree i (2 * j + 1) x d h c))

  pub length-build : (i : ℕ) (tree : List T) → length (build op d i tree) ≡ length tree
  unfolding build
  length-build zero tree = refl
  length-build (suc i) tree = length-build i _ ∙ length-combine tree (suc i)

  -- The loop leaves the nodes behind `i` alone.
  pub get_or-build :
      (i j : ℕ) (tree : List T)
      → i < j
      → i < length tree
      → get_or (build op d i tree) j d ≡ get_or tree j d
  unfolding build
  get_or-build zero j tree h k = refl
  get_or-build (suc i) j tree h k =
      get_or-build i j (combine op d tree (suc i)) (omega arith)
        (omega (arith, length-combine tree (suc i)))
      ∙ get_or-set_off tree (suc i) j _ d k (omega arith)

  pub build-Combined :
      (i j : ℕ) (tree : List T)
      → 1 ≤ j
      → j ≤ i
      → 2 * i + 1 < length tree
      → Combined (build op d i tree) j
  unfolding build
  build-Combined zero j tree p q h = absurd (omega arith)
  build-Combined (suc i) j tree p q h = elim (dec_lt i j) [
    | yes top ↦ last top
    | no low ↦ build-Combined i j next p (omega arith) room
  ]
    where
      next : List T
      next = combine op d tree (suc i)

      room : 2 * i + 1 < length next
      room = omega (arith, length-combine tree (suc i))

      same : (k : ℕ) → i < k → get_or (build op d i next) k d ≡ get_or next k d
      same k l = get_or-build i k next l (omega (arith, room))

      last : i < j → Combined (build op d i next) j
      last l =
          same j l
          ∙ subst (Combined next) {x = suc i} (omega arith)
              (combine-Combined tree (suc i) (omega arith) h)
          ∙ sym (ap₂ op (same (2 * j) (omega arith)) (same (2 * j + 1) (omega arith)))

  -- Every inner node but the parent of `i` combines its children.
  abbrev pub AllBut : ℕ → ℕ → List T → Type ℓ
  AllBut n i tree = (j : ℕ) → 1 ≤ j → j < n → i / 2 ≢ j → Combined tree j
