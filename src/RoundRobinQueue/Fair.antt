-- ===== src/RoundRobinQueue/Fair.antt =====
-- include/round_robin_queue.h: what successive calls of `next` give.
use av_utils.Base.{
  List, [], ap, append-nil, append_assoc, ap₂, inl, inr, ok, some, sym, ◌++◌, ◌∙◌, ◌∷◌, ◌≡◌,
}
use av_utils.RoundRobinQueue.{RoundRobinQueue, next}
use av_utils.RoundRobinQueue.Order.{IsValid, next_lem, order}

module _ {ℓ} {T : Type ℓ} where
  -- Calls of `next` from one queue to another, with the elements they give.
  pub data Serves : RoundRobinQueue T → List T → RoundRobinQueue T → Type ℓ where
    idle : (q : RoundRobinQueue T) → Serves q [] q
    turn :
        (q q' q'' : RoundRobinQueue T) (x : T) (xs : List T)
        → next q ≡ ok (some x, q')
        → Serves q' xs q''
        → Serves q (x ∷ xs) q''

  serves_from :
      (xs after : List T) (q : RoundRobinQueue T)
      → IsValid q
      → order q ≡ xs ++ after
      → (q' : RoundRobinQueue T) × Serves q xs q' × (order q' ≡ after ++ xs) × IsValid q'
  serves_from [] after q v e = (q, idle q, e ∙ sym (append-nil after), v)
  serves_from (x ∷ xs) after q v e = elim (next_lem q v) [
    | inl (none_left, n, p) ↦ absurd (cc)
    | inr (y, rest, q', n, p, now, later, v') ↦
        let same : y ≡ x = cc in
        let left : rest ≡ xs ++ after = cc in
        let turned : order q' ≡ xs ++ (after ++ x ∷ []) =
          later ∙ ap₂ (λ r z. r ++ z ∷ []) left same ∙ append_assoc xs after (x ∷ []) in
        let (q'', served, last, v'') = serves_from xs (after ++ x ∷ []) q' v' turned in
        (
          q'',
          turn q q' q'' x xs (n ∙ ap (λ z. ok (some z, q')) same) served,
          last ∙ append_assoc after (x ∷ []) xs,
          v'',
        )
  ]

  -- On a valid queue, as many calls of `next` as there are elements all succeed and give every
  -- element, each once and in the order of the queue, and then the order is what it was.
  pub next-Serves :
      (q : RoundRobinQueue T)
      → IsValid q
      → (q' : RoundRobinQueue T) × Serves q (order q) q' × (order q' ≡ order q) × IsValid q'
  next-Serves q v = serves_from (order q) [] q v (sym (append-nil (order q)))
