-- ===== src/History/Versions.antt =====
-- `revert` and `commit` of `History`, and the versions before them.
use av_utils.Base.{
  Bool-cases, List, [], ap, arith, false, get_or, get_or-push, get_or-set_off, inl, inr, leb,
  length, length-append, length-set, ok, out_of_range, refl, set, sym, throw, ℕ, ◌++◌, ◌+◌, ◌-◌,
  ◌<◌, ◌∙◌, ◌∷◌, ◌≡◌, ◌≤◌, ◌⊎◌,
}
use av_utils.History.{History, get, latest, revert, set_latest, versions}

module _ {ℓ} {T : Type ℓ} (default_value : T) where
  get_in :
      (xs : List T) (i : ℕ)
      → i < length xs
      → get default_value (record { history = xs }) i ≡ ok (get_or xs i default_value)
  unfolding get
  get_in xs i h = rw (within (length xs) i h) refl
    where
      within : (n i : ℕ) → i < n → leb n i ≡ false
      within n i h = ground arith

  -- A version that was there, after one more was added and that one written.
  get-push :
      (xs : List T) (x value : T) (i : ℕ)
      → i < length xs
      → (get default_value (record { history = xs ++ x ∷ [] }) i
          ≡ get default_value (record { history = xs }) i)
        × (get default_value
              (record { history = set (xs ++ x ∷ []) (length (xs ++ x ∷ []) - 1) value })
              i
            ≡ get default_value (record { history = xs }) i)
  get-push xs x value i h = (
    get_in (xs ++ x ∷ []) i (omega (arith, size)) ∙ ap ok pushed ∙ sym (get_in xs i h),
    get_in (set (xs ++ x ∷ []) (length (xs ++ x ∷ []) - 1) value) i
          (omega (arith, size, length-set (xs ++ x ∷ []) (length (xs ++ x ∷ []) - 1) value))
        ∙ ap ok (
            get_or-set_off (xs ++ x ∷ []) (length (xs ++ x ∷ []) - 1) i value default_value
              (omega (arith, size)) (λ q. before q)
            ∙ pushed)
        ∙ sym (get_in xs i h),
  )
    where
      size : length (xs ++ x ∷ []) ≡ length xs + 1
      size = length-append xs (x ∷ []) ∙ omega arith

      pushed : get_or (xs ++ x ∷ []) i default_value ≡ get_or xs i default_value
      pushed = ground (arith, get_or-push xs x i default_value)

      before : length (xs ++ x ∷ []) - 1 ≡ i → ⊥
      before q = omega (arith, q, size)

  -- `revert(v)` throws exactly when there is no version `v`, as `get(v)` does. Otherwise it makes a new
  -- latest version that is the same as `v`; every version `i` of those there were is as it was, even after
  -- the new latest version is written.
  pub revert_lem :
      (h : History T) (v i : ℕ) (value : T)
      → i < versions default_value h
      → ((versions default_value h ≤ v)
          × (revert default_value h v ≡ throw out_of_range)
          × (get default_value h v ≡ throw out_of_range))
        ⊎ ((h' : History T) × (revert default_value h v ≡ ok h')
            × (versions default_value h' ≡ versions default_value h + 1)
            × (get default_value h v ≡ ok (latest default_value h'))
            × (get default_value h' i ≡ get default_value h i)
            × (get default_value (set_latest default_value h' value) i ≡ get default_value h i))
  unfolding revert get versions latest set_latest
  revert_lem h v i value l = elim (Bool-cases (leb (length h.history) v)) [
    | inl k ↦ rw k (inl (ground (arith, k), refl, refl))
    | inr k ↦ rw k (
        inr (
          record { history = h.history ++ get_or h.history v default_value ∷ [] },
          refl,
          length-append h.history (get_or h.history v default_value ∷ []),
          ap ok (
              ground (
                arith,
                length-append h.history (get_or h.history v default_value ∷ []),
                get_or-push h.history (get_or h.history v default_value) (length h.history)
                    default_value,
              )),
          (get-push h.history (get_or h.history v default_value) value i l).0,
          (get-push h.history (get_or h.history v default_value) value i l).1,
        ))
  ]
