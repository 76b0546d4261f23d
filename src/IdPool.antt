-- ===== src/IdPool.antt =====
-- include/id_pool.h: `IdPool`, handles (the struct `Id`) of an index and a generation, which a
-- release makes stale.
-- The stack of free indices has its top first.
pub mod Live
pub mod Handles
mod Tests
use av_utils.Base.{
  Bool, List, Outcome, [], false, get_or, if◌then◌else◌, leb, length, ok, runtime_error, set, throw,
  ℕ, ◌%◌, ◌++◌, ◌+◌, ◌-◌, ◌==◌, ◌^◌, ◌∷◌,
}

pub record Handle : Type 0 where
  pub index : ℕ
  pub generation : ℕ

pub record IdPool : Type 0 where
  pub generations : List ℕ
  pub free_indices : List ℕ
  pub active_id_count : ℕ

abbrev pub new : IdPool
new = record { generations = []; free_indices = []; active_id_count = 0 }

-- With a free index, the generation was incremented when it was released.
unfoldable pub allocate_from : IdPool → List ℕ → Outcome (IdPool × Handle)
allocate_from p (index ∷ rest) = ok (
  record p { free_indices = rest; active_id_count = p.active_id_count + 1 },
  record { index = index; generation = get_or p.generations index 0 },
)
allocate_from p [] =
    if leb (2 ^ 32 - 1) (length p.generations)
    then throw runtime_error
    else ok (
      record p { generations = p.generations ++ 0 ∷ []; active_id_count = p.active_id_count + 1 },
      record { index = length p.generations; generation = 0 },
    )

abbrev pub allocate : IdPool → Outcome (IdPool × Handle)
allocate p = allocate_from p p.free_indices

abbrev pub is_valid : IdPool → Handle → Bool
is_valid p id =
    if leb (length p.generations) id.index
    then false
    else get_or p.generations id.index 0 == id.generation

unfoldable pub release : IdPool → Handle → IdPool
release p id =
    if is_valid p id
    then record {
      generations = set p.generations id.index ((get_or p.generations id.index 0 + 1) % 2 ^ 32);
      free_indices = id.index ∷ p.free_indices;
      active_id_count = p.active_id_count - 1;
    }
    else p

abbrev pub size : IdPool → ℕ
size p = p.active_id_count
