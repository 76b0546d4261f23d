-- ===== src/Base/Mod.antt =====
-- Indices that go round at a capacity, and lists given by their elements.
use Prim.Native.Nat.{ℕ, zero, suc, ◌+◌, ◌-◌, ◌%◌, ◌≤◌, ◌<◌}
use mathlib.Core.Path.{◌≡◌, ◌∙◌, refl, ap, ap₂}
use mathlib.Core.List.{List, [], ◌∷◌, ◌++◌}
use native.Mathlib.Omega.{arith}
use mathlib.Core.Option.{some, none}
use av_utils.Base.Lists.{drop, drop_last, get_elem?, get_elem?-none, length}
use av_utils.Base.Outcomes.{negsuc, pos, ℤ}
use av_utils.Base.Tests.{if◌then◌else◌, ltb, lt→ltb}
use native.Mathlib.Nat.{mod-eq_of_lt, mod-eq-sub-mod, mod-add-mod}
use native.Mathlib.Decide.{dec_lt}

-- One turn at most: the remainder by a test.
pub wrap_once : (c k : ℕ) → k < c + c → k % c ≡ (if ltb k c then k else k - c)
wrap_once c k h = elim (dec_lt k c) [
  | yes p ↦ ground (arith, mod-eq_of_lt p)
  | no p ↦ ground (
    arith,
    mod-eq-sub-mod {n = k} {m = c} (omega arith),
    mod-eq_of_lt {n = k - c} {m = c} (omega arith),
  )
]

pub mod-add_self : (n c : ℕ) → (n + c) % c ≡ n % c
mod-add_self n c =
    rw (mod-eq-sub-mod {n = n + c} {m = c} (omega arith)) (ap (λ k. k % c) (omega arith))

-- Steps round the ring from a position `a % c` that has gone round already.
pub mod_step : (a b c e : ℕ) → a + b ≡ e → (a % c + b) % c ≡ e % c
mod_step a b c e h = mod-add-mod a c b ∙ ap (λ k. k % c) h

pub mod_turn : (a b c e : ℕ) → a + b ≡ e + c → (a % c + b) % c ≡ e % c
mod_turn a b c e h = mod_step a b c (e + c) h ∙ mod-add_self e c

-- The distance, in steps round a ring of `c`, that a turn by a signed number moves the front.
abbrev pub shift : ℕ → ℤ → ℕ
shift c (pos n) = n
shift c (negsuc n) = c - suc n % c

module _ {ℓ} {A : Type ℓ} where
  -- The list of `f i` for `i` below `n`.
  abbrev pub tabulate : ℕ → (ℕ → A) → List A
  tabulate zero f = []
  tabulate (suc n) f = f 0 ∷ tabulate n (λ i. f (suc i))

  pub tabulate_ext :
      (n : ℕ) (f g : ℕ → A) → ((i : ℕ) → i < n → f i ≡ g i) → tabulate n f ≡ tabulate n g
  tabulate_ext zero f g h = refl
  tabulate_ext (suc n) f g h =
      ap₂ ◌∷◌ (h 0 (omega arith))
        (tabulate_ext n (λ i. f (suc i)) (λ i. g (suc i)) (λ i k. h (suc i) (omega arith)))

  pub tabulate-suc : (n : ℕ) (f : ℕ → A) → tabulate (suc n) f ≡ tabulate n f ++ f n ∷ []
  tabulate-suc zero f = refl
  tabulate-suc (suc n) f = ap (◌∷◌ (f 0)) (tabulate-suc n (λ i. f (suc i)))

  pub length-tabulate : (n : ℕ) (f : ℕ → A) → length (tabulate n f) ≡ n
  length-tabulate zero f = refl
  length-tabulate (suc n) f = ap suc (length-tabulate n (λ i. f (suc i)))

  pub get_elem?-tabulate :
      (n : ℕ) (f : ℕ → A) (i : ℕ)
      → get_elem? (tabulate n f) i ≡ (if ltb i n then some (f i) else none)
  get_elem?-tabulate zero f zero = refl
  get_elem?-tabulate zero f (suc i) = ground arith
  get_elem?-tabulate (suc n) f zero = ground arith
  get_elem?-tabulate (suc n) f (suc i) = ground (arith, get_elem?-tabulate n (λ j. f (suc j)) i)

  pub tabulate_eq :
      (m n : ℕ) (f g : ℕ → A) → m ≡ n → ((i : ℕ) → i < n → f i ≡ g i) → tabulate m f ≡ tabulate n g
  tabulate_eq m n f g e h = rw e (tabulate_ext n f g h)

  pub tabulate_snoc :
      (m n : ℕ) (f g : ℕ → A) (x : A)
      → m ≡ suc n
      → ((i : ℕ) → i < n → f i ≡ g i)
      → f n ≡ x
      → tabulate m f ≡ tabulate n g ++ x ∷ []
  tabulate_snoc m n f g x e h k =
      rw (e, tabulate-suc n f) (ap₂ (λ l y. l ++ y ∷ []) (tabulate_ext n f g h) k)

  pub tabulate_cons :
      (m n : ℕ) (f g : ℕ → A) (x : A)
      → m ≡ suc n
      → f 0 ≡ x
      → ((i : ℕ) → i < n → f (suc i) ≡ g i)
      → tabulate m f ≡ x ∷ tabulate n g
  tabulate_cons m n f g x e k h = rw e (ap₂ ◌∷◌ k (tabulate_ext n (λ i. f (suc i)) g h))

  pub drop-tabulate :
      (n : ℕ) (f : ℕ → A) → drop 1 (tabulate n f) ≡ tabulate (n - 1) (λ i. f (suc i))
  drop-tabulate zero f = refl
  drop-tabulate (suc n) f = ap (λ k. tabulate k (λ i. f (suc i))) (omega arith)

  pub drop_last-tabulate : (n : ℕ) (f : ℕ → A) → drop_last (tabulate n f) ≡ tabulate (n - 1) f
  drop_last-tabulate zero f = refl
  drop_last-tabulate (suc zero) f = refl
  drop_last-tabulate (suc (suc n)) f =
      ap (◌∷◌ (f 0))
        (drop_last-tabulate (suc n) (λ i. f (suc i)) ∙ ap (λ k. tabulate k (λ i. f (suc i))) before)
      ∙ ap (λ k. tabulate k f) after
    where
      before : suc n - 1 ≡ n
      before = omega arith

      after : suc n ≡ suc (suc n) - 1
      after = omega arith

  pub tabulate_read : (n : ℕ) (f : ℕ → A) (i : ℕ) → i < n → get_elem? (tabulate n f) i ≡ some (f i)
  tabulate_read n f i h =
      get_elem?-tabulate n f i ∙ ap (λ b. if b then some (f i) else none) (lt→ltb i n h)

  pub tabulate-none : (n : ℕ) (f : ℕ → A) (i : ℕ) → n ≤ i → get_elem? (tabulate n f) i ≡ none
  tabulate-none n f i h = get_elem?-none (tabulate n f) i (omega (arith, length-tabulate n f))
