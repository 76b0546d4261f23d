-- ===== src/CircularBuffer/Iterator.antt =====
-- The iterator class of `CircularBuffer`: a position in one buffer, with 64-bit arithmetic.
use native.Mathlib.Nat.{mod-eq_of_lt}
use av_utils.Base.{
  Bool, List, Outcome, [], ap, ap₂, arith, eq→==, if◌then◌else◌, leb, ltb, negsuc, ne→==, pos, refl,
  suc, zero, ℕ, ℤ, ◌%◌, ◌+◌, ◌-◌, ◌<◌, ◌==◌, ◌^◌, ◌∙◌, ◌∷◌, ◌≡◌, ◌≤◌,
}
use av_utils.Base.Mod.{tabulate, tabulate_ext}
use av_utils.CircularBuffer.{CircularBuffer, at, size}

pub record Iterator : Type 0 where
  pub index : ℕ

-- A signed distance modulo 2^64.
abbrev pub offset : ℤ → ℕ
offset (pos n) = n % 2 ^ 64
offset (negsuc n) = 2 ^ 64 - suc n % 2 ^ 64

pub increment : Iterator → Iterator
increment it = record { index = (it.index + 1) % 2 ^ 64 }

pub decrement : Iterator → Iterator
decrement it = record { index = (it.index + (2 ^ 64 - 1)) % 2 ^ 64 }

pub advance : Iterator → ℤ → Iterator
advance it n = record { index = (it.index + offset n) % 2 ^ 64 }

pub retreat : Iterator → ℤ → Iterator
retreat it n = record { index = (it.index + (2 ^ 64 - offset n)) % 2 ^ 64 }

-- The difference of two positions; the code's type for it is signed.
pub distance : Iterator → Iterator → ℤ
distance it other =
    if leb other.index it.index
    then pos (it.index - other.index)
    else negsuc (other.index - it.index - 1)

pub same_position : Iterator → Iterator → Bool
same_position it other = it.index == other.index

pub before : Iterator → Iterator → Bool
before it other = ltb it.index other.index

module _ {ℓ} {T : Type ℓ} where
  pub begin : CircularBuffer T → Iterator
  begin b = record { index = 0 }

  pub finish : CircularBuffer T → Iterator
  finish b = record { index = b.count }

module _ {ℓ} {T : Type ℓ} (d : T) where
  -- `operator*`, which is `operator[]` of the buffer.
  pub dereference : CircularBuffer T → Iterator → Outcome T
  dereference b it = at d b it.index

  pub subscript : CircularBuffer T → Iterator → ℤ → Outcome T
  subscript b it n = dereference b (advance it n)

  -- A loop from an iterator to another with `!=` and `++`, of that many rounds at most.
  pub walk : ℕ → CircularBuffer T → Iterator → Iterator → List (Outcome T)
  walk zero b it last = []
  walk (suc rounds) b it last =
      let rest = walk rounds b (increment it) last in
      if same_position it last then [] else dereference b it ∷ rest

  walk_from :
      (k rounds i last : ℕ) (b : CircularBuffer T)
      → k ≤ rounds
      → last ≡ i + k
      → last < 2 ^ 64
      → walk rounds b (record { index = i }) (record { index = last })
        ≡ tabulate k (λ j. at d b (i + j))
  unfolding walk increment same_position dereference
  walk_from zero zero i last b r e h = refl
  walk_from zero (suc rounds) i last b r e h = rw (eq→== i last (omega arith)) refl
  walk_from (suc k) zero i last b r e h = absurd (omega arith)
  walk_from (suc k) (suc rounds) i last b r e h =
      rw (ne→== i last (omega arith), mod-eq_of_lt {n = i + 1} {m = 2 ^ 64} (omega arith))
        (ap₂ ◌∷◌ (ap (at d b) (omega arith)) (
          walk_from k rounds (i + 1) last b (omega arith) (omega arith) h
          ∙ tabulate_ext k (λ j. at d b (i + 1 + j)) (λ j. at d b (i + suc j))
              (λ j l. ap (at d b) (omega arith))))

  -- The loop over a whole buffer of fewer than 2^64 elements ends after as many rounds as there are elements, and reads them with
  -- `operator[]` from the first to the last, however many more rounds it might take.
  pub walk_lem :
      (b : CircularBuffer T) (more : ℕ)
      → size b < 2 ^ 64
      → walk (size b + more) b (begin b) (finish b) ≡ tabulate (size b) (λ i. at d b i)
  unfolding begin finish size
  walk_lem b more h =
      walk_from b.count (b.count + more) 0 b.count b (omega arith) (omega arith) h
      ∙ tabulate_ext b.count (λ j. at d b (0 + j)) (at d b) (λ j l. ap (at d b) (omega arith))
