-- ===== src/IdPool/Live.antt =====
-- include/id_pool.h: the ids that are handed out and not released, and the pool that keeps them.
use av_utils.Base.{
  Bool, List, [], arith, false, get_or, get_or-set, if◌then◌else◌, leb, length, ltb, refl, set, suc,
  true, zero, ℕ, ◌&&◌, ◌++◌, ◌+◌, ◌-◌, ◌<◌, ◌==◌, ◌^◌, ◌||◌, ◌∷◌, ◌≡◌,
}
use av_utils.IdPool.{Handle, IdPool}

-- How often an index is free.
abbrev pub tally : ℕ → List ℕ → ℕ
tally i [] = 0
tally i (j ∷ free) = if j == i then suc (tally i free) else tally i free

-- How many live ids have an index.
abbrev pub uses : ℕ → List Handle → ℕ
uses i [] = 0
uses i (id ∷ live) = if id.index == i then suc (uses i live) else uses i live

abbrev pub same_id : Handle → Handle → Bool
same_id a b = (a.index == b.index) && (a.generation == b.generation)

abbrev pub is_live : Handle → List Handle → Bool
is_live id [] = false
is_live id (other ∷ live) = same_id other id || is_live id live

-- The live ids without one.
abbrev pub without : Handle → List Handle → List Handle
without id [] = []
without id (other ∷ live) = if same_id other id then live else other ∷ without id live

-- Each live id has the generation of its index.
abbrev pub current : List ℕ → List Handle → Bool
current generations [] = true
current generations (id ∷ live) =
    (get_or generations id.index 0 == id.generation) && current generations live

-- Each index that was ever handed out is free or has one live id, and no other index is or has.
pub record IsPool (p : IdPool) (live : List Handle) : Type 0 where
  pub shared :
      (i : ℕ)
      → tally i p.free_indices + uses i live ≡ (if ltb i (length p.generations) then 1 else 0)
  pub fresh : current p.generations live ≡ true
  pub counted : p.active_id_count ≡ length live

pub uses-without :
    (i : ℕ) (id : Handle) (live : List Handle)
    → is_live id live ≡ true
    → uses i live
      ≡ (if id.index == i then suc (uses i (without id live)) else uses i (without id live))
uses-without i id [] h = cc
uses-without i id (other ∷ live) h = ground (arith, uses-without i id live)

pub length-without :
    (id : Handle) (live : List Handle)
    → is_live id live ≡ true
    → suc (length (without id live)) ≡ length live
length-without id [] h = cc
length-without id (other ∷ live) h = ground (arith, length-without id live)

pub current-without :
    (gs : List ℕ) (id : Handle) (live : List Handle)
    → current gs live ≡ true
    → current gs (without id live) ≡ true
current-without gs id [] h = refl
current-without gs id (other ∷ live) h = ground (arith, current-without gs id live)

pub current-get_or :
    (gs : List ℕ) (id : Handle) (live : List Handle)
    → current gs live ≡ true
    → is_live id live ≡ true
    → get_or gs id.index 0 ≡ id.generation
current-get_or gs id [] h l = cc
current-get_or gs id (other ∷ live) h l = ground (arith, current-get_or gs id live)

pub current-set :
    (gs : List ℕ) (i g : ℕ) (live : List Handle)
    → i < length gs
    → uses i live ≡ 0
    → current (set gs i g) live ≡ current gs live
current-set gs i g [] b h = refl
current-set gs i g (id ∷ live) b h =
    ground (arith, current-set gs i g live, get_or-set gs i id.index g 0)

get_or-new : (gs : List ℕ) (i : ℕ) → get_or (gs ++ 0 ∷ []) i 0 ≡ get_or gs i 0
get_or-new [] zero = refl
get_or-new [] (suc i) = refl
get_or-new (g ∷ gs) zero = refl
get_or-new (g ∷ gs) (suc i) = get_or-new gs i

pub current-new : (gs : List ℕ) (live : List Handle) → current (gs ++ 0 ∷ []) live ≡ current gs live
current-new gs [] = refl
current-new gs (id ∷ live) = ground (arith, current-new gs live, get_or-new gs id.index)

-- A pool of 2^32 - 1 indices, all in use, is full.
abbrev pub is_full : IdPool → Bool
is_full p = (length p.free_indices == 0) && leb (2 ^ 32 - 1) (length p.generations)

pub is_live-uses :
    (id : Handle) (live : List Handle) → is_live id live ≡ true → ltb 0 (uses id.index live) ≡ true
is_live-uses id [] h = cc
is_live-uses id (other ∷ live) h = ground (arith, is_live-uses id live)
