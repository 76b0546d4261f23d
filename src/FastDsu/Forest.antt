-- ===== src/FastDsu/Forest.antt =====
-- The forest that a parent vector describes: which root an element leads to.
use native.Mathlib.Decide.{ℕ_discrete}
use av_utils.Base.{
  List, eq→==, get_or, get_or-set_at, get_or-set_off, if◌then◌else◌, length, ne→==, refl, set,
  subst, sym, ℕ, ◌<◌, ◌==◌, ◌∙◌, ◌≡◌, ◌≢◌,
}

-- From `x` the parents lead to the root `r`.
pub data Leads (p : List ℕ) : ℕ → ℕ → Type 0 where
  at_root : {x r : ℕ} → x ≡ r → get_or p x 0 ≡ x → Leads p x r
  up : {x y r : ℕ} → get_or p x 0 ≡ y → y ≢ x → Leads p y r → Leads p x r

pub Leads-root : {p : List ℕ} {x r : ℕ} → Leads p x r → get_or p r 0 ≡ r
Leads-root {p} (at_root e h) = subst (λ m. get_or p m 0 ≡ m) e h
Leads-root (up e n l) = Leads-root l

pub Leads-unique : {p : List ℕ} {x r s : ℕ} → Leads p x r → Leads p x s → r ≡ s
Leads-unique (at_root e h) (at_root f k) = sym e ∙ f
Leads-unique (at_root e h) (up f n l) = absurd (n (sym f ∙ h))
Leads-unique (up e n l) (at_root f k) = absurd (n (sym e ∙ k))
Leads-unique {p} {s = s} (up e n l) (up f m k) =
    Leads-unique l (subst (λ y. Leads p y s) (sym f ∙ e) k)

-- Path compression: pointing an element at its root changes no root.
pub Leads-compress :
    {p : List ℕ} (x r : ℕ) {y s : ℕ}
    → x < length p
    → Leads p x r
    → get_or p x 0 ≢ x
    → Leads p y s
    → Leads (set p x r) y s
Leads-compress {p} x r {y} {s} h path inner (at_root e k) =
    at_root e
      (get_or-set_off p x y r 0 h (λ q. inner (subst (λ m. get_or p m 0 ≡ m) (sym q) k)) ∙ k)
Leads-compress {p} x r {y} {s} h path inner (up e n l) = elim (ℕ_discrete x y) [
  | yes q ↦
      up (get_or-set_at p x y r 0 h q)
        (λ z. inner (subst (λ m. get_or p m 0 ≡ m) (z ∙ sym q) (Leads-root path)))
        (at_root (Leads-unique path (subst (λ m. Leads p m s) (sym q) (up e n l))) (
          get_or-set_off p x r r 0 h
            (λ z. inner (subst (λ m. get_or p m 0 ≡ m) (sym z) (Leads-root path)))
          ∙ Leads-root path))
  | no q ↦ up (get_or-set_off p x y r 0 h q ∙ e) n (Leads-compress x r h path inner l)
]

-- Union: pointing one root at another.
pub Leads-link :
    {p : List ℕ} (a b : ℕ) {y s : ℕ}
    → a < length p
    → a ≢ b
    → get_or p a 0 ≡ a
    → get_or p b 0 ≡ b
    → Leads p y s
    → Leads (set p a b) y (if s == a then b else s)
Leads-link {p} a b {y} {s} h ne ra rb (at_root e k) = elim (ℕ_discrete y a) [
  | yes q ↦ rw (eq→== s a (sym e ∙ q)) (
      up (get_or-set_at p a y b 0 h (sym q)) (λ z. ne (sym (z ∙ q)))
        (at_root refl (get_or-set_off p a b b 0 h ne ∙ rb)))
  | no q ↦
      rw (ne→== s a (λ z. q (e ∙ z))) (at_root e (get_or-set_off p a y b 0 h (λ z. q (sym z)) ∙ k))
]
Leads-link {p} a b {y} {s} h ne ra rb (up e n l) =
    up (get_or-set_off p a y b 0 h (λ z. n (sym e ∙ subst (λ m. get_or p m 0 ≡ m) z ra)) ∙ e) n
      (Leads-link a b h ne ra rb l)
