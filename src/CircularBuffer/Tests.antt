-- ===== src/CircularBuffer/Tests.antt =====
-- Runs of `CircularBuffer`, and its theorems at concrete buffers.
use av_utils.Base.{
  [], arith, get_elem?, invalid_argument, ok, pos, refl, runtime_error, some, throw, ℕ, ◌+◌, ◌∷◌,
  ◌≡◌, ◌⊎◌,
}
use av_utils.Base.Mod.{tabulate}
use av_utils.CircularBuffer.{
  CircularBuffer, at, back, front, new, pop_back, pop_front, push_back, push_front, rotate, size,
}
use av_utils.CircularBuffer.Ring.{IsValid, contents}
use av_utils.CircularBuffer.Contents.{
  new_lem, pop_back_lem, pop_front_lem, push_back_lem, push_front_lem, reads_lem,
}
use av_utils.CircularBuffer.Iterator.{begin, finish, walk, walk_lem}
use av_utils.CircularBuffer.Rotate.{rotate_full, rotate_stale}

-- 8 and 9 round the end of three slots, of which one holds a leftover 7.
abbrev wrapped : CircularBuffer ℕ
wrapped = record { data_ = 9 ∷ 7 ∷ 8 ∷ []; head = 2; tail = 1; count = 2; capacity = 3 }

-- The five elements of the header's documentation.
abbrev filled : CircularBuffer ℕ
filled = record { data_ = 1 ∷ 2 ∷ 3 ∷ 4 ∷ 5 ∷ []; head = 0; tail = 0; count = 5; capacity = 5 }

wrapped-IsValid : IsValid wrapped
wrapped-IsValid = omega arith

filled-IsValid : IsValid filled
filled-IsValid = omega arith

-- The documentation shows 4 5 1 2 3 here.
rotate_two : contents 0 (rotate filled (pos 2)) ≡ 3 ∷ 4 ∷ 5 ∷ 1 ∷ 2 ∷ []
unfolding rotate
rotate_two = refl

new_lem_example :
    ((◌≡◌ {A = ℕ} 3 0) × (new {T = ℕ} 0 3 ≡ throw invalid_argument))
    ⊎ ((b : CircularBuffer ℕ) × (new {T = ℕ} 0 3 ≡ ok b)
        × IsValid b
        × (contents 0 b ≡ [])
        × (b.capacity ≡ 3))
new_lem_example = new_lem 0 3 (omega arith)

push_back_lem_example :
    IsValid (push_back wrapped 4) × (contents 0 (push_back wrapped 4) ≡ 8 ∷ 9 ∷ 4 ∷ [])
push_back_lem_example = push_back_lem 0 4 wrapped-IsValid

push_front_lem_example :
    IsValid (push_front filled 0) × (contents 0 (push_front filled 0) ≡ 0 ∷ 1 ∷ 2 ∷ 3 ∷ 4 ∷ [])
push_front_lem_example = push_front_lem 0 0 filled-IsValid

pop_front_lem_example :
    ((contents 0 wrapped ≡ []) × (pop_front wrapped ≡ throw runtime_error))
    ⊎ ((b' : CircularBuffer ℕ) × (pop_front wrapped ≡ ok b')
        × IsValid b'
        × (contents 0 b' ≡ 9 ∷ [])
        × (b'.count + 1 ≡ 2))
pop_front_lem_example = pop_front_lem 0 wrapped-IsValid

pop_back_lem_example :
    ((contents 0 wrapped ≡ []) × (pop_back wrapped ≡ throw runtime_error))
    ⊎ ((b' : CircularBuffer ℕ) × (pop_back wrapped ≡ ok b')
        × IsValid b'
        × (contents 0 b' ≡ 8 ∷ [])
        × (b'.count + 1 ≡ 2))
pop_back_lem_example = pop_back_lem 0 wrapped-IsValid

reads_lem_example : (at 0 wrapped 1 ≡ ok 9) × (front 0 wrapped ≡ ok 8) × (back 0 wrapped ≡ ok 9)
reads_lem_example = reads_lem 0 1 wrapped-IsValid

rotate_full_example :
    IsValid (rotate filled (pos 2)) × (get_elem? (contents 0 (rotate filled (pos 2))) 0 ≡ some 3)
rotate_full_example = rotate_full 0 (pos 2) 0 filled-IsValid refl (omega arith) (omega arith)

rotate_stale_example : contents 0 (rotate wrapped (pos 1)) ≡ 9 ∷ 7 ∷ []
rotate_stale_example = rotate_stale 0 wrapped-IsValid (omega arith) (omega arith)

walk_lem_example :
    walk 0 (size wrapped + 1) wrapped (begin wrapped) (finish wrapped)
    ≡ tabulate (size wrapped) (λ i. at 0 wrapped i)
unfolding size
walk_lem_example = walk_lem 0 wrapped 1 (omega arith)
