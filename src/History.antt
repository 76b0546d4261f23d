-- ===== src/History.antt =====
-- include/history.h: `History`, the versions of a value. The vector of versions is never empty; the
-- default value of the type is an argument. `latest()` gives a reference, which `set_latest` writes.
pub mod Versions
mod Tests
use av_utils.Base.{
  List, Outcome, [], get_or, if◌then◌else◌, leb, length, ok, out_of_range, set, throw, ℕ, ◌++◌, ◌-◌,
  ◌∷◌,
}

pub record History {ℓ} (T : Type ℓ) : Type ℓ where
  pub history : List T

module _ {ℓ} {T : Type ℓ} (default_value : T) where
  pub new : History T
  new = record { history = default_value ∷ [] }

  pub from_value : T → History T
  from_value initial_value = record { history = initial_value ∷ [] }

  -- `back()`
  pub latest : History T → T
  latest h = get_or h.history (length h.history - 1) default_value

  pub set_latest : History T → T → History T
  set_latest h value = record { history = set h.history (length h.history - 1) value }

  pub commit : History T → History T
  commit h = record { history = h.history ++ latest h ∷ [] }

  pub get : History T → ℕ → Outcome T
  get h version =
      if leb (length h.history) version
      then throw out_of_range
      else ok (get_or h.history version default_value)

  pub revert : History T → ℕ → Outcome (History T)
  revert h version =
      if leb (length h.history) version
      then throw out_of_range
      else ok (record { history = h.history ++ get_or h.history version default_value ∷ [] })

  pub versions : History T → ℕ
  versions h = length h.history

  pub current_version : History T → ℕ
  current_version h = length h.history - 1

  pub clear : History T → History T
  clear h = record { history = latest h ∷ [] }

  pub reset : History T → History T
  reset h = record { history = default_value ∷ [] }
