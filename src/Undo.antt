-- ===== src/Undo.antt =====
-- include/undo.h: `UndoManager` and its two stacks of commands (the head of a list is the top of the
-- stack), `UndoableValue` and `UndoableContainer`. A command is a type with the two member functions
-- of `Command` as arguments; they may change the command itself and what it refers to.
pub mod History
pub mod Objects
mod Tests
use av_utils.Base.{
  Bool, List, Option, [], drop_last, false, get_or, if◌then◌else◌, length, none, not, some, true,
  ◌++◌, ◌==◌, ◌∷◌,
}

pub record UndoManager {ℓ} (C : Type ℓ) : Type ℓ where
  pub undo_stack : List C
  pub redo_stack : List C

-- `GenericCommand`: two functions on what the closures refer to.
pub record GenericCommand {ℓ} (S : Type ℓ) : Type ℓ where
  pub execute_func : S → S
  pub undo_func : S → S

module _ {ℓ} {S : Type ℓ} where
  abbrev pub generic_execute : GenericCommand S → S → GenericCommand S × S
  generic_execute c s = (c, c.execute_func s)

  abbrev pub generic_undo : GenericCommand S → S → GenericCommand S × S
  generic_undo c s = (c, c.undo_func s)

module _ {ℓ} {C : Type ℓ} where
  pub can_undo : UndoManager C → Bool
  can_undo m = not (length m.undo_stack == 0)

  pub can_redo : UndoManager C → Bool
  can_redo m = not (length m.redo_stack == 0)

  pub clear : UndoManager C → UndoManager C
  clear m = record { undo_stack = []; redo_stack = [] }

module _ {ℓ ℓ'} {C : Type ℓ} {S : Type ℓ'} (execute undo_of : C → S → C × S) where
  pub execute_command : C → UndoManager C → S → UndoManager C × S
  execute_command cmd m s =
      (record { undo_stack = (execute cmd s).0 ∷ m.undo_stack; redo_stack = [] }, (execute cmd s).1)

  -- `undo`, by its stack.
  pub undo_top : List C → UndoManager C → S → UndoManager C × S × Bool
  undo_top [] m s = (m, s, false)
  undo_top (cmd ∷ rest) m s = (
    record { undo_stack = rest; redo_stack = (undo_of cmd s).0 ∷ m.redo_stack },
    (undo_of cmd s).1,
    true,
  )

  pub undo : UndoManager C → S → UndoManager C × S × Bool
  undo m s = undo_top m.undo_stack m s

  pub redo_top : List C → UndoManager C → S → UndoManager C × S × Bool
  redo_top [] m s = (m, s, false)
  redo_top (cmd ∷ rest) m s = (
    record { undo_stack = (execute cmd s).0 ∷ m.undo_stack; redo_stack = rest },
    (execute cmd s).1,
    true,
  )

  pub redo : UndoManager C → S → UndoManager C × S × Bool
  redo m s = redo_top m.redo_stack m s

-- `execute`, which makes the command of two functions.
pub execute_functions {ℓ} :
    {S : Type ℓ}
    → (S → S)
    → (S → S)
    → UndoManager (GenericCommand S)
    → S
    → UndoManager (GenericCommand S) × S
execute_functions exec_func undo_func m s =
    execute_command generic_execute generic_undo
      (record { execute_func = exec_func; undo_func = undo_func }) m s

-- `UndoableValue`: the value and, unless the pointer is null, its manager.
module _ {ℓ} {T : Type ℓ} (same : T → T → Bool) where
  pub set_value :
      T → Option (UndoManager (GenericCommand T)) → T → Option (UndoManager (GenericCommand T)) × T
  set_value new_value none value = (none, new_value)
  set_value new_value (some m) value =
      let (m', value') = execute_functions (λ v. new_value) (λ v. value) m value in
      if not (same new_value value) then (some m', value') else (some m, new_value)

-- The commands of `UndoableContainer`: both overloads of `push_back`, and `pop_back` with the element
-- it took. The closure of the second overload moves its element out when it is executed.
pub data ContainerCommand {ℓ} (T : Type ℓ) : Type ℓ where
  push_copy : T → ContainerCommand T
  push_moved : T → ContainerCommand T
  pop_last : T → ContainerCommand T

module _ {ℓ} {T : Type ℓ} (moved_from : T) where
  pub container_execute : ContainerCommand T → List T → ContainerCommand T × List T
  container_execute (push_copy value) xs = (push_copy value, xs ++ value ∷ [])
  container_execute (push_moved value) xs = (push_moved moved_from, xs ++ value ∷ [])
  container_execute (pop_last last) xs = (pop_last last, drop_last xs)

  pub container_undo : ContainerCommand T → List T → ContainerCommand T × List T
  container_undo (push_copy value) xs = (push_copy value, drop_last xs)
  container_undo (push_moved value) xs = (push_moved value, drop_last xs)
  container_undo (pop_last last) xs = (pop_last last, xs ++ last ∷ [])

  abbrev pub Manager : Type ℓ
  Manager = UndoManager (ContainerCommand T)

  -- A command of a container runs through the manager, or at once where there is none.
  pub run_command : ContainerCommand T → Option Manager → List T → Option Manager × List T
  run_command cmd none xs = (none, (container_execute cmd xs).1)
  run_command cmd (some m) xs =
      let (m', xs') = execute_command container_execute container_undo cmd m xs in (some m', xs')

  pub push_back : T → Option Manager → List T → Option Manager × List T
  push_back value m xs = run_command (push_copy value) m xs

  pub push_back_moved : T → Option Manager → List T → Option Manager × List T
  push_back_moved value m xs = run_command (push_moved value) m xs

  pub pop_back : Option Manager → List T → Option Manager × List T
  pop_back m [] = (m, [])
  pop_back m (x ∷ xs) = run_command (pop_last (get_or (x ∷ xs) (length xs) x)) m (x ∷ xs)
