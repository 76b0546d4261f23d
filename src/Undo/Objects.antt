-- ===== src/Undo/Objects.antt =====
-- `UndoableValue` and `UndoableContainer` with a manager.
use av_utils.Base.{
  Bool, Bool-cases, List, [], ap, drop_last, get_or, inl, inr, length, refl, some, true, ◌++◌, ◌∙◌,
  ◌∷◌, ◌≡◌, ◌⊎◌,
}
use av_utils.Undo.{
  ContainerCommand, GenericCommand, UndoManager, container_execute, container_undo, execute_command,
  execute_functions, generic_execute, generic_undo, pop_back, pop_last, push_back, push_back_moved,
  push_copy, push_moved, redo, redo_top, run_command, set_value, undo, undo_top,
}
use av_utils.Undo.History.{IsValid, after, none_left}

module _ {ℓ} {T : Type ℓ} (same : T → T → Bool) where
  -- `set` with a valid manager gives the value. If the value differs, the manager is valid for it and
  -- `undo` gives the old one; otherwise the manager is as it was.
  pub set_value_lem :
      (new_value value : T) (m : UndoManager (GenericCommand T))
      → IsValid generic_execute generic_undo m value
      → (m' : UndoManager (GenericCommand T)) × (set_value same new_value (some m) value
          ≡ (some m', new_value))
        × (((same new_value value ≡ true) × (m' ≡ m))
            ⊎ (IsValid generic_execute generic_undo m' new_value
                × ((undo generic_execute generic_undo m' new_value).1 ≡ value)))
  unfolding set_value execute_functions execute_command undo undo_top
  set_value_lem new_value value m (p, f) = elim (Bool-cases (same new_value value)) [
    | inl h ↦ rw h (m, refl, inl (refl, refl))
    | inr h ↦ rw h (
      _,
      refl,
      inr (
        (
          after (record { execute_func = λ v. new_value; undo_func = λ v. value }) value refl refl
              p,
          none_left,
        ),
        refl,
      ),
    )
  ]

module _ {ℓ} {T : Type ℓ} (moved_from : T) where
  last_back :
      (x : T) (xs : List T) → drop_last (x ∷ xs) ++ get_or (x ∷ xs) (length xs) x ∷ [] ≡ x ∷ xs
  last_back x [] = refl
  last_back x (y ∷ ys) =
      ap (◌∷◌ x) (ap (λ z. drop_last (y ∷ ys) ++ z ∷ []) (inside y ys x y) ∙ last_back y ys)
    where
      inside :
          (y : T) (ys : List T) (d e : T)
          → get_or (y ∷ ys) (length ys) d ≡ get_or (y ∷ ys) (length ys) e
      inside y [] d e = refl
      inside y (z ∷ ys) d e = inside z ys d e

  drop_last-push : (xs : List T) (x : T) → drop_last (xs ++ x ∷ []) ≡ xs
  drop_last-push [] x = refl
  drop_last-push (y ∷ []) x = refl
  drop_last-push (y ∷ z ∷ xs) x = ap (◌∷◌ y) (drop_last-push (z ∷ xs) x)

  -- `push_back` of an lvalue and `pop_back` with a valid manager leave a manager that is valid for the
  -- new contents, with the element behind the others, or without the last element.
  pub container_lem :
      (value : T) (m : UndoManager (ContainerCommand T)) (xs : List T)
      → IsValid (container_execute moved_from) (container_undo moved_from) m xs
      → (pushed : UndoManager (ContainerCommand T)) × (left : UndoManager (ContainerCommand T))
        × (push_back moved_from value (some m) xs ≡ (some pushed, xs ++ value ∷ []))
        × IsValid
            (container_execute moved_from)
            (container_undo moved_from)
            pushed
            (xs ++ value ∷ [])
        × (pop_back moved_from (some m) xs ≡ (some left, drop_last xs))
        × IsValid (container_execute moved_from) (container_undo moved_from) left (drop_last xs)
  unfolding push_back pop_back run_command execute_command container_execute container_undo
  container_lem value m [] (p, f) =
      (_, m, refl, (after (push_copy value) [] refl refl p, none_left), refl, (p, f))
  container_lem value m (x ∷ xs) (p, f) = (
    _,
    _,
    refl,
    (
      after (push_copy value) (x ∷ xs)
          (ap (λ ys. (push_copy value, ys)) (drop_last-push (x ∷ xs) value)) refl p,
      none_left,
    ),
    refl,
    (
      after (pop_last (get_or (x ∷ xs) (length xs) x)) (x ∷ xs)
          (ap (λ ys. (pop_last (get_or (x ∷ xs) (length xs) x), ys)) (last_back x xs)) refl p,
      none_left,
    ),
  )

  -- `push_back` of an rvalue, undone and redone, does not bring the element back: what is left of the
  -- element after it was moved from stands in its place.
  pub redo-push_back_moved :
      (value : T) (m : UndoManager (ContainerCommand T)) (xs : List T)
      → (m₁ : UndoManager (ContainerCommand T)) × (m₂ : UndoManager (ContainerCommand T))
        × (m₃ : UndoManager (ContainerCommand T)) × (push_back_moved moved_from value (some m) xs
            ≡ (some m₁, xs ++ value ∷ []))
        × (undo (container_execute moved_from) (container_undo moved_from) m₁ (xs ++ value ∷ [])
            ≡ (m₂, xs, true))
        × (redo (container_execute moved_from) (container_undo moved_from) m₂ xs
            ≡ (m₃, xs ++ moved_from ∷ [], true))
  unfolding push_back_moved run_command execute_command container_execute container_undo undo
      undo_top redo redo_top
  redo-push_back_moved value m xs = (
    record { undo_stack = push_moved moved_from ∷ m.undo_stack; redo_stack = [] },
    record { undo_stack = m.undo_stack; redo_stack = push_moved moved_from ∷ [] },
    record { undo_stack = push_moved moved_from ∷ m.undo_stack; redo_stack = [] },
    refl,
    ap
        (λ ys.
          (record { undo_stack = m.undo_stack; redo_stack = push_moved moved_from ∷ [] }, ys, true))
        (drop_last-push xs value),
    refl,
  )
