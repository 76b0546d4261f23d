-- ===== src/History/Tests.antt =====
-- Runs of `History` on three versions of a number.
use av_utils.Base.{[], arith, ok, out_of_range, refl, throw, ℕ, ◌+◌, ◌∷◌, ◌≡◌, ◌≤◌, ◌⊎◌}
use av_utils.History.{History, commit, get, latest, revert, set_latest, versions}
use av_utils.History.Versions.{revert_lem}

abbrev three_versions : History ℕ
three_versions = record { history = 4 ∷ 5 ∷ 6 ∷ [] }

committed : commit 0 three_versions ≡ record { history = 4 ∷ 5 ∷ 6 ∷ 6 ∷ [] }
unfolding commit latest
committed = refl

revert_lem_example :
    ((versions 0 three_versions ≤ 1)
      × (revert 0 three_versions 1 ≡ throw out_of_range)
      × (get 0 three_versions 1 ≡ throw out_of_range))
    ⊎ ((h' : History ℕ) × (revert 0 three_versions 1 ≡ ok h')
        × (versions 0 h' ≡ versions 0 three_versions + 1)
        × (get 0 three_versions 1 ≡ ok (latest 0 h'))
        × (get 0 h' 2 ≡ get 0 three_versions 2)
        × (get 0 (set_latest 0 h' 9) 2 ≡ get 0 three_versions 2))
unfolding versions
revert_lem_example = revert_lem 0 three_versions 1 2 9 (omega arith)
