-- ===== src/Undo/History.antt =====
-- The stacks of `UndoManager` as the past and the future of what its commands refer to.
use av_utils.Base.{List, [], ap, false, inl, inr, refl, subst, sym, true, ◌∷◌, ◌≡◌, ◌⊎◌}
use av_utils.Undo.{UndoManager, execute_command, redo, redo_top, undo, undo_top}

module _ {ℓ ℓ'} {C : Type ℓ} {S : Type ℓ'} (execute undo_of : C → S → C × S) where
  -- Undoing the command after executing it brings back both the state and the command.
  abbrev pub Reverts : C → S → Type (ℓ ⊔ ℓ')
  Reverts c s = undo_of (execute c s).0 (execute c s).1 ≡ (c, s)

  -- Commands that led to the state, the last one first.
  pub data Past : List C → S → Type (ℓ ⊔ ℓ') where
    start : {s : S} → Past [] s
    after :
        {cs : List C} {c' : C} {s' : S} (c : C) (s : S)
        → Reverts c s
        → execute c s ≡ (c', s')
        → Past cs s
        → Past (c' ∷ cs) s'

  -- Commands that may be executed again, the next one first.
  pub data Future : List C → S → Type (ℓ ⊔ ℓ') where
    none_left : {s : S} → Future [] s
    then_next :
        {c : C} {cs : List C} {s : S} → Reverts c s → Future cs (execute c s).1 → Future (c ∷ cs) s

  abbrev pub IsValid : UndoManager C → S → Type (ℓ ⊔ ℓ')
  IsValid m s = Past m.undo_stack s × Future m.redo_stack s

  -- Executing a command that can be reverted leaves a valid manager with nothing to redo; undoing it
  -- at once brings back the state and the undo stack, and leaves the command to be redone.
  pub execute_command_lem :
      (c : C) (m : UndoManager C) (s : S)
      → IsValid m s
      → Reverts c s
      → IsValid (execute_command execute undo_of c m s).0 (execute_command execute undo_of c m s).1
        × (undo execute undo_of
              (execute_command execute undo_of c m s).0
              (execute_command execute undo_of c m s).1
            ≡ (record { undo_stack = m.undo_stack; redo_stack = c ∷ [] }, s, true))
  unfolding execute_command undo undo_top
  execute_command_lem c m s (p, f) r = (
    (after c s r refl p, none_left),
    ap (λ q. (record { undo_stack = m.undo_stack; redo_stack = q.0 ∷ [] }, q.1, true)) r,
  )

  undo_top_lem :
      (past : List C) (m : UndoManager C) (s : S)
      → m.undo_stack ≡ past
      → Past past s
      → Future m.redo_stack s
      → IsValid (undo_top execute undo_of past m s).0 (undo_top execute undo_of past m s).1
        × (((past ≡ []) × (undo_top execute undo_of past m s ≡ (m, s, false)))
            ⊎ (redo execute undo_of
                  (undo_top execute undo_of past m s).0
                  (undo_top execute undo_of past m s).1
                ≡ (m, s, true)))
  unfolding undo_top redo redo_top
  undo_top_lem [] m s e p f = ((subst (λ xs. Past xs s) (sym e) p, f), inl (refl, refl))
  undo_top_lem (c' ∷ cs) m s e (after c s₀ r q p) f = rw back (
    (p, then_next r (subst (λ x. Future m.redo_stack x.1) (sym q) f)),
    inr (rw q (ap (λ xs. (record m { undo_stack = xs }, s, true)) (sym e))),
  )
    where
      back : undo_of c' s ≡ (c, s₀)
      back = subst (λ x. undo_of x.0 x.1 ≡ (c, s₀)) q r

  -- On a valid manager `undo` leaves a valid manager. With nothing to undo it changes nothing;
  -- otherwise `redo` then brings back the manager and the state as they were.
  pub undo_lem :
      (m : UndoManager C) (s : S)
      → IsValid m s
      → IsValid (undo execute undo_of m s).0 (undo execute undo_of m s).1
        × (((m.undo_stack ≡ []) × (undo execute undo_of m s ≡ (m, s, false)))
            ⊎ (redo execute undo_of (undo execute undo_of m s).0 (undo execute undo_of m s).1
                ≡ (m, s, true)))
  unfolding undo
  undo_lem m s (p, f) = undo_top_lem m.undo_stack m s refl p f

  redo_top_lem :
      (future : List C) (m : UndoManager C) (s : S)
      → m.redo_stack ≡ future
      → Past m.undo_stack s
      → Future future s
      → IsValid (redo_top execute undo_of future m s).0 (redo_top execute undo_of future m s).1
        × (((future ≡ []) × (redo_top execute undo_of future m s ≡ (m, s, false)))
            ⊎ (undo execute undo_of
                  (redo_top execute undo_of future m s).0
                  (redo_top execute undo_of future m s).1
                ≡ (m, s, true)))
  unfolding redo_top undo undo_top
  redo_top_lem [] m s e p f = ((p, subst (λ xs. Future xs s) (sym e) f), inl (refl, refl))
  redo_top_lem (c ∷ cs) m s e p (then_next r f) = (
    (after c s r refl p, f),
    inr (rw r (ap (λ xs. (record m { redo_stack = xs }, s, true)) (sym e))),
  )

  -- On a valid manager `redo` leaves a valid manager. With nothing to redo it changes nothing;
  -- otherwise `undo` then brings back the manager and the state as they were.
  pub redo_lem :
      (m : UndoManager C) (s : S)
      → IsValid m s
      → IsValid (redo execute undo_of m s).0 (redo execute undo_of m s).1
        × (((m.redo_stack ≡ []) × (redo execute undo_of m s ≡ (m, s, false)))
            ⊎ (undo execute undo_of (redo execute undo_of m s).0 (redo execute undo_of m s).1
                ≡ (m, s, true)))
  unfolding redo
  redo_lem m s (p, f) = redo_top_lem m.redo_stack m s refl p f
