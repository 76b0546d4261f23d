-- ===== src/LruCache.antt =====
-- include/lru_cache.h: `LRUCache<Key, Value>`, the entries from the most to the least recently
-- used, and `CachedFunction`, a function with such a cache. The calls of the eviction callback are
-- a result; values are copied, not moved.
pub mod Methods
pub mod Stores
pub mod Memo
mod Tests
use av_utils.Base.{
  Bool, List, Option, Outcome, [], false, if◌then◌else◌, invalid_argument, leb, length, none, ok,
  some, suc, throw, true, ℕ, ◌%◌, ◌==◌, ◌^◌, ◌∷◌,
}
use av_utils.Linked.{
  Linked, assign, element_at, elements, erase_node, find, key_of, last, move_to_front, pop_back,
  push_front, value_of,
}

pub record Stats : Type 0 where
  pub hits : ℕ
  pub misses : ℕ
  pub evictions : ℕ

pub record LruCache {ℓ} (K V : Type ℓ) : Type ℓ where
  pub max_size : ℕ
  -- `cache_items_list_` and `cache_items_map_`
  pub links : Linked K (K × V)
  pub stats : Stats

-- `++` of a `size_t`
abbrev pub incremented : ℕ → ℕ
incremented n = suc n % 2 ^ 64

module _ {ℓ} {K V : Type ℓ} where
  abbrev pub entries : LruCache K V → List (K × V)
  entries c = elements c.links.nodes

  abbrev pub size : LruCache K V → ℕ
  size c = length c.links.index

  -- The constructor.
  unfoldable pub of_max_size : ℕ → Outcome (LruCache K V)
  of_max_size max_size =
      if max_size == 0
      then throw invalid_argument
      else ok (record {
        max_size = max_size;
        links = record { nodes = []; index = []; next = 0 };
        stats = record { hits = 0; misses = 0; evictions = 0 };
      })

  -- The statistics stay.
  unfoldable pub clear : LruCache K V → LruCache K V
  clear c = record c { links = record c.links { nodes = []; index = [] } }

  abbrev pub reset_stats : LruCache K V → LruCache K V
  reset_stats c = record c { stats = record { hits = 0; misses = 0; evictions = 0 } }

-- `eq` is `operator==` of the keys.
module _ {ℓ} {K V : Type ℓ} (eq : K → K → Bool) where
  abbrev pub contains : LruCache K V → K → Bool
  contains c key = elim (find eq key_of c.links key) [ none ↦ false | some it ↦ true ]

  unfoldable pub get : LruCache K V → K → LruCache K V × Option V
  get c key = elim (find eq key_of c.links key) [
    | none ↦ (record c { stats = record c.stats { misses = incremented c.stats.misses } }, none)
    | some it ↦
        let moved = record c.links { nodes = move_to_front c.links.nodes it } in
        (
          record c { links = moved; stats = record c.stats { hits = incremented c.stats.hits } },
          value_of (element_at moved.nodes it),
        )
  ]

  -- The entries given to the callback besides.
  unfoldable pub evict_lru : LruCache K V → LruCache K V × List (K × V)
  evict_lru c = elim (last (entries c)) [
    | none ↦ (c, [])
    | some lru_item ↦ (
      record c {
        links = pop_back eq key_of c.links;
        stats = record c.stats { evictions = incremented c.stats.evictions };
      },
      lru_item ∷ [],
    )
  ]

  unfoldable pub put : LruCache K V → K → V → LruCache K V × List (K × V)
  put c key value = elim (find eq key_of c.links key) [
    | some it ↦
        let written = assign (λ e. (e.0, value)) c.links.nodes it in
        (record c { links = record c.links { nodes = move_to_front written it } }, [])
    | none ↦
        let (c', evicted) =
          if leb c.max_size (length c.links.nodes) then evict_lru c else (c, []) in
        (record c' { links = push_front eq key_of c'.links (key, value) }, evicted)
  ]

  unfoldable pub erase : LruCache K V → K → LruCache K V × Bool
  erase c key = elim (find eq key_of c.links key) [
    | none ↦ (c, false)
    | some it ↦ (record c { links = erase_node eq key_of c.links key it }, true)
  ]

  -- `CachedFunction::operator()`
  unfoldable pub call : (K → V) → LruCache K V → K → LruCache K V × V
  call func cache key =
      let (cache', cached) = get cache key in
      elim cached [
        | some value ↦ (cache', value)
        | none ↦ ((put cache' key (func key)).0, func key)
      ]
