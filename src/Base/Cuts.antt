-- ===== src/Base/Cuts.antt =====
-- `std::vector` cut at an index, and with an element erased.
use Prim.Native.Nat.{ℕ, zero, suc, ◌+◌, ◌-◌, ◌≤◌, ◌<◌}
use mathlib.Core.Path.{◌≡◌, ◌∙◌, refl, ap}
use mathlib.Core.List.{List, [], ◌∷◌, ◌++◌}
use mathlib.Core.Option.{some}
use native.Mathlib.Omega.{arith}
use av_utils.Base.Lists.{drop, get_elem?, length, take}

module _ {ℓ} {A : Type ℓ} where
  -- `erase(begin() + i)`; out of bounds changes nothing.
  abbrev pub remove_at : ℕ → List A → List A
  remove_at i [] = []
  remove_at zero (x ∷ xs) = xs
  remove_at (suc i) (x ∷ xs) = x ∷ remove_at i xs

  pub length-remove_at :
      (i : ℕ) (xs : List A) → i < length xs → length (remove_at i xs) + 1 ≡ length xs
  length-remove_at i [] h = absurd (omega arith)
  length-remove_at zero (x ∷ xs) h = omega arith
  length-remove_at (suc i) (x ∷ xs) h = omega (arith, length-remove_at i xs (omega arith))

  -- A list cut at an index within it.
  pub drop-cons :
      (i : ℕ) (xs : List A) (x : A) → get_elem? xs i ≡ some x → drop i xs ≡ x ∷ drop (suc i) xs
  drop-cons i [] x h = cc
  drop-cons zero (y ∷ xs) x h = ground arith
  drop-cons (suc i) (y ∷ xs) x h = drop-cons i xs x h

  pub take-suc :
      (i : ℕ) (xs : List A) (x : A)
      → get_elem? xs i ≡ some x
      → take (suc i) xs ≡ take i xs ++ x ∷ []
  take-suc i [] x h = cc
  take-suc zero (y ∷ xs) x h = ground arith
  take-suc (suc i) (y ∷ xs) x h = ap (◌∷◌ y) (take-suc i xs x h)

  pub take-all : (i : ℕ) (xs : List A) → length xs ≤ i → take i xs ≡ xs
  take-all zero [] h = refl
  take-all (suc i) [] h = refl
  take-all zero (x ∷ xs) h = absurd (omega arith)
  take-all (suc i) (x ∷ xs) h = ap (◌∷◌ x) (take-all i xs (omega arith))

  pub drop-all : (i : ℕ) (xs : List A) → length xs ≤ i → drop i xs ≡ []
  drop-all zero [] h = refl
  drop-all (suc i) [] h = refl
  drop-all zero (x ∷ xs) h = absurd (omega arith)
  drop-all (suc i) (x ∷ xs) h = drop-all i xs (omega arith)

  pub drop-append : (i : ℕ) (xs ys : List A) → i ≤ length xs → drop i (xs ++ ys) ≡ drop i xs ++ ys
  drop-append zero xs ys h = refl
  drop-append (suc i) [] ys h = absurd (omega arith)
  drop-append (suc i) (x ∷ xs) ys h = drop-append i xs ys (omega arith)

  pub take-append : (i : ℕ) (xs ys : List A) → i ≤ length xs → take i (xs ++ ys) ≡ take i xs
  take-append zero xs ys h = refl
  take-append (suc i) [] ys h = absurd (omega arith)
  take-append (suc i) (x ∷ xs) ys h = ap (◌∷◌ x) (take-append i xs ys (omega arith))

  -- Removing an element before, at or behind a cut.
  pub drop-remove_at_before :
      (i c : ℕ) (xs : List A) → i ≤ c → c < length xs → drop c (remove_at i xs) ≡ drop (suc c) xs
  drop-remove_at_before i c [] h k = absurd (omega arith)
  drop-remove_at_before zero c (x ∷ xs) h k = refl
  drop-remove_at_before (suc i) zero (x ∷ xs) h k = absurd (omega arith)
  drop-remove_at_before (suc i) (suc c) (x ∷ xs) h k =
      drop-remove_at_before i c xs (omega arith) (omega arith)

  pub take-remove_at_before :
      (i c : ℕ) (xs : List A) → i ≤ c → take c (remove_at i xs) ≡ remove_at i (take (suc c) xs)
  take-remove_at_before i zero [] h = refl
  take-remove_at_before i (suc c) [] h = refl
  take-remove_at_before zero c (x ∷ xs) h = refl
  take-remove_at_before (suc i) zero (x ∷ xs) h = absurd (omega arith)
  take-remove_at_before (suc i) (suc c) (x ∷ xs) h =
      ap (◌∷◌ x) (take-remove_at_before i c xs (omega arith))

  pub drop-remove_at_behind :
      (i c : ℕ) (xs : List A) → drop c (remove_at (c + i) xs) ≡ remove_at i (drop c xs)
  drop-remove_at_behind i zero xs = ap (λ k. remove_at k xs) (omega arith)
  drop-remove_at_behind i (suc c) [] = refl
  drop-remove_at_behind i (suc c) (x ∷ xs) =
      ap (λ k. drop (suc c) (remove_at k (x ∷ xs))) {y = suc (c + i)} (omega arith)
      ∙ drop-remove_at_behind i c xs

  pub take-remove_at_behind : (i c : ℕ) (xs : List A) → c ≤ i → take c (remove_at i xs) ≡ take c xs
  take-remove_at_behind i zero xs h = refl
  take-remove_at_behind i (suc c) [] h = refl
  take-remove_at_behind zero (suc c) (x ∷ xs) h = absurd (omega arith)
  take-remove_at_behind (suc i) (suc c) (x ∷ xs) h =
      ap (◌∷◌ x) (take-remove_at_behind i c xs (omega arith))

  pub get_elem?-drop : (c i : ℕ) (xs : List A) → get_elem? (drop c xs) i ≡ get_elem? xs (c + i)
  get_elem?-drop zero i xs = ap (get_elem? xs) (omega arith)
  get_elem?-drop (suc c) i [] = refl
  get_elem?-drop (suc c) i (x ∷ xs) =
      get_elem?-drop c i xs ∙ ap (get_elem? (x ∷ xs)) {x = suc (c + i)} (omega arith)

  pub get_elem?-take : (c i : ℕ) (xs : List A) → i < c → get_elem? (take c xs) i ≡ get_elem? xs i
  get_elem?-take zero i xs h = absurd (omega arith)
  get_elem?-take (suc c) i [] h = refl
  get_elem?-take (suc c) zero (x ∷ xs) h = refl
  get_elem?-take (suc c) (suc i) (x ∷ xs) h = get_elem?-take c i xs (omega arith)

  pub get_elem?-append_left :
      (i : ℕ) (xs ys : List A) → i < length xs → get_elem? (xs ++ ys) i ≡ get_elem? xs i
  get_elem?-append_left i [] ys h = absurd (omega arith)
  get_elem?-append_left zero (x ∷ xs) ys h = refl
  get_elem?-append_left (suc i) (x ∷ xs) ys h = get_elem?-append_left i xs ys (omega arith)

  pub get_elem?-append_right :
      (i : ℕ) (xs ys : List A)
      → length xs ≤ i
      → get_elem? (xs ++ ys) i ≡ get_elem? ys (i - length xs)
  get_elem?-append_right i [] ys h = ap (get_elem? ys) (omega arith)
  get_elem?-append_right zero (x ∷ xs) ys h = absurd (omega arith)
  get_elem?-append_right (suc i) (x ∷ xs) ys h =
      get_elem?-append_right i xs ys (omega arith) ∙ ap (get_elem? ys) (omega arith)

  pub length-drop : (c : ℕ) (xs : List A) → length (drop c xs) ≡ length xs - c
  length-drop zero xs = omega arith
  length-drop (suc c) [] = omega arith
  length-drop (suc c) (x ∷ xs) = omega (arith, length-drop c xs)
