-- ===== src/IdPool/Tests.antt =====
-- include/id_pool.h: runs of the pool.
use av_utils.Base.{List, [], arith, false, ok, refl, true, ℕ, ◌∷◌, ◌≡◌}
use av_utils.IdPool.{Handle, IdPool, allocate, allocate_from, is_valid, release}
use av_utils.IdPool.Handles.{allocate-IsPool, release-IsPool}
use av_utils.IdPool.Live.{IsPool, is_live, without}

abbrev handle : ℕ → ℕ → Handle
handle i g = record { index = i; generation = g }

-- Index 0 is free again, index 1 is live.
abbrev one_live : IdPool
one_live = record { generations = 1 ∷ 0 ∷ []; free_indices = 0 ∷ []; active_id_count = 1 }

abbrev lives : List Handle
lives = handle 1 0 ∷ []

one_live-IsPool : IsPool one_live lives
one_live-IsPool = record { shared = λ i. ground arith; fresh = refl; counted = refl }

allocate_again :
    allocate one_live
    ≡ ok (record { generations = 1 ∷ 0 ∷ []; free_indices = []; active_id_count = 2 }, handle 0 1)
unfolding allocate_from
allocate_again = refl

stale_release : release one_live (handle 0 0) ≡ one_live
unfolding release
stale_release = refl

-- An id that was never handed out is valid when it has the next generation of a free index, and
-- its release puts the index on the stack twice.
forged :
    (is_valid one_live (handle 0 1) ≡ true)
    × ((release one_live (handle 0 1)).free_indices ≡ 0 ∷ 0 ∷ [])
unfolding release
forged = (refl, refl)

allocate-IsPool_example :
    (p' : IdPool) × (id : Handle) × (allocate one_live ≡ ok (p', id))
    × (is_live id lives ≡ false)
    × IsPool p' (id ∷ lives)
allocate-IsPool_example = allocate-IsPool one_live lives one_live-IsPool refl

release-IsPool_example :
    (is_valid one_live (handle 1 0) ≡ true)
    × (is_valid (release one_live (handle 1 0)) (handle 1 0) ≡ false)
    × IsPool (release one_live (handle 1 0)) (without (handle 1 0) lives)
release-IsPool_example = release-IsPool one_live lives (handle 1 0) one_live-IsPool refl
