-- ===== src/Undo/Tests.antt =====
-- The theorems on `UndoManager` at a list to which one element was pushed.
use av_utils.Base.{Bool, List, [], drop_last, false, refl, some, true, ℕ, ◌++◌, ◌==◌, ◌∷◌, ◌≡◌, ◌⊎◌}
use av_utils.Undo.{
  ContainerCommand, GenericCommand, UndoManager, container_execute, container_undo, generic_execute,
  generic_undo, pop_back, push_back, push_back_moved, push_copy, redo, set_value, undo,
}
use av_utils.Undo.History.{IsValid, after, none_left, redo_lem, start, undo_lem}
use av_utils.Undo.Objects.{container_lem, redo-push_back_moved, set_value_lem}

abbrev execute_of : ContainerCommand ℕ → List ℕ → ContainerCommand ℕ × List ℕ
execute_of = container_execute 0

abbrev undo_of : ContainerCommand ℕ → List ℕ → ContainerCommand ℕ × List ℕ
undo_of = container_undo 0

abbrev pushed_one : UndoManager (ContainerCommand ℕ)
pushed_one = record { undo_stack = push_copy 5 ∷ []; redo_stack = [] }

pushed_one-IsValid : IsValid execute_of undo_of pushed_one (5 ∷ [])
unfolding container_execute container_undo
pushed_one-IsValid = (after (push_copy 5) [] refl refl start, none_left)

same : ℕ → ℕ → Bool
same a b = a == b

abbrev old_value : UndoManager (GenericCommand ℕ)
old_value = record { undo_stack = []; redo_stack = [] }

undo_lem_example :
    IsValid execute_of undo_of
      (undo execute_of undo_of pushed_one (5 ∷ [])).0
      (undo execute_of undo_of pushed_one (5 ∷ [])).1
    × (((pushed_one.undo_stack ≡ [])
          × (undo execute_of undo_of pushed_one (5 ∷ []) ≡ (pushed_one, 5 ∷ [], false)))
        ⊎ (redo execute_of undo_of
              (undo execute_of undo_of pushed_one (5 ∷ [])).0
              (undo execute_of undo_of pushed_one (5 ∷ [])).1
            ≡ (pushed_one, 5 ∷ [], true)))
undo_lem_example = undo_lem execute_of undo_of pushed_one (5 ∷ []) pushed_one-IsValid

redo_lem_example :
    IsValid execute_of undo_of
      (redo execute_of undo_of pushed_one (5 ∷ [])).0
      (redo execute_of undo_of pushed_one (5 ∷ [])).1
    × (((pushed_one.redo_stack ≡ [])
          × (redo execute_of undo_of pushed_one (5 ∷ []) ≡ (pushed_one, 5 ∷ [], false)))
        ⊎ (undo execute_of undo_of
              (redo execute_of undo_of pushed_one (5 ∷ [])).0
              (redo execute_of undo_of pushed_one (5 ∷ [])).1
            ≡ (pushed_one, 5 ∷ [], true)))
redo_lem_example = redo_lem execute_of undo_of pushed_one (5 ∷ []) pushed_one-IsValid

container_lem_example :
    (pushed : UndoManager (ContainerCommand ℕ)) × (left : UndoManager (ContainerCommand ℕ))
    × (push_back 0 7 (some pushed_one) (5 ∷ []) ≡ (some pushed, (5 ∷ []) ++ 7 ∷ []))
    × IsValid execute_of undo_of pushed ((5 ∷ []) ++ 7 ∷ [])
    × (pop_back 0 (some pushed_one) (5 ∷ []) ≡ (some left, drop_last (5 ∷ [])))
    × IsValid execute_of undo_of left (drop_last (5 ∷ []))
container_lem_example = container_lem 0 7 pushed_one (5 ∷ []) pushed_one-IsValid

redo-push_back_moved_example :
    (m₁ : UndoManager (ContainerCommand ℕ)) × (m₂ : UndoManager (ContainerCommand ℕ))
    × (m₃ : UndoManager (ContainerCommand ℕ)) × (push_back_moved 0 7 (some pushed_one) (5 ∷ [])
        ≡ (some m₁, (5 ∷ []) ++ 7 ∷ []))
    × (undo execute_of undo_of m₁ ((5 ∷ []) ++ 7 ∷ []) ≡ (m₂, 5 ∷ [], true))
    × (redo execute_of undo_of m₂ (5 ∷ []) ≡ (m₃, (5 ∷ []) ++ 0 ∷ [], true))
redo-push_back_moved_example = redo-push_back_moved 0 7 pushed_one (5 ∷ [])

set_value_lem_example :
    (m' : UndoManager (GenericCommand ℕ)) × (set_value same 8 (some old_value) 5 ≡ (some m', 8))
    × (((same 8 5 ≡ true) × (m' ≡ old_value))
        ⊎ (IsValid generic_execute generic_undo m' 8
            × ((undo generic_execute generic_undo m' 8).1 ≡ 5)))
set_value_lem_example = set_value_lem same 8 5 old_value (start, none_left)
