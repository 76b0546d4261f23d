-- ===== src/LruCache/Tests.antt =====
-- include/lru_cache.h: the theorems at a concrete cache, and runs of the methods.
use av_utils.Base.{[], arith, invalid_argument, refl, some, throw, true, ℕ, ◌+◌, ◌==◌, ◌∷◌, ◌≡◌}
use av_utils.Linked.{move_to_front}
use av_utils.Linked.Nodes.{==-IsEquivalence}
use av_utils.LruCache.{LruCache, call, entries, erase, evict_lru, get, of_max_size, put}
use av_utils.LruCache.Methods.{IsValid, get-lookup}
use av_utils.LruCache.Stores.{erase-entries, put-stored}
use av_utils.LruCache.Memo.{IsMemo, call-func}

abbrev double : ℕ → ℕ
double n = n + n

-- A full cache of two doubles.
abbrev doubles : LruCache ℕ ℕ
doubles = record {
  max_size = 2;
  links = record {
    nodes = (1, (9, 18)) ∷ (0, (7, 14)) ∷ [];
    index = (9, 1) ∷ (7, 0) ∷ [];
    next = 2;
  };
  stats = record { hits = 0; misses = 2; evictions = 0 };
}

doubles_kept : (get ◌==◌ doubles 7).1 ≡ some 14
unfolding get move_to_front
doubles_kept = refl

doubles_evicts : (put ◌==◌ doubles 4 8).1 ≡ (7, 14) ∷ []
unfolding put evict_lru
doubles_evicts = refl

nothing_kept : of_max_size {K = ℕ} {V = ℕ} 0 ≡ throw invalid_argument
unfolding of_max_size
nothing_kept = refl

doubles-IsValid : IsValid ◌==◌ ==-IsEquivalence doubles
doubles-IsValid = record {
  linked = record {
    indexed = λ k. ground arith;
    apart = refl;
    old = refl;
    keyed = refl;
    counted = refl;
  };
  bounded = omega arith;
  positive = omega arith;
}

doubles-IsMemo : IsMemo ◌==◌ ==-IsEquivalence double (entries doubles)
doubles-IsMemo q e h = ground arith

get-lookup_example :
    (c' : LruCache ℕ ℕ) × (get ◌==◌ doubles 7 ≡ (c', some 14))
    × IsValid ◌==◌ ==-IsEquivalence c'
    × (entries c' ≡ (7, 14) ∷ (9, 18) ∷ [])
    × (c'.stats ≡ record { hits = 1; misses = 2; evictions = 0 })
get-lookup_example = get-lookup ◌==◌ ==-IsEquivalence doubles 7 doubles-IsValid

put-stored_example :
    (c' : LruCache ℕ ℕ) × (put ◌==◌ doubles 4 8 ≡ (c', (7, 14) ∷ []))
    × IsValid ◌==◌ ==-IsEquivalence c'
    × (entries c' ≡ (4, 8) ∷ (9, 18) ∷ [])
    × (c'.max_size ≡ 2)
put-stored_example = put-stored ◌==◌ ==-IsEquivalence doubles 4 8 doubles-IsValid

erase-entries_example :
    (c' : LruCache ℕ ℕ) × (erase ◌==◌ doubles 9 ≡ (c', true))
    × IsValid ◌==◌ ==-IsEquivalence c'
    × (entries c' ≡ (7, 14) ∷ [])
    × (c'.stats ≡ doubles.stats)
erase-entries_example = erase-entries ◌==◌ ==-IsEquivalence doubles 9 doubles-IsValid

double_respects : (a b : ℕ) → (a == b) ≡ true → double a ≡ double b
double_respects a b h = ground arith

call-func_example :
    (c' : LruCache ℕ ℕ) × (call ◌==◌ double doubles 5 ≡ (c', 10))
    × IsValid ◌==◌ ==-IsEquivalence c'
    × IsMemo ◌==◌ ==-IsEquivalence double (entries c')
call-func_example =
    call-func ◌==◌ ==-IsEquivalence double double_respects doubles 5 doubles-IsValid doubles-IsMemo
