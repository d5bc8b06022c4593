-- ===== src/Router/Cache.antt =====
-- internal/router/slm_cache.go: the cache of the routing model's answers. Each reading of the clock, in
-- nanoseconds, is given to the call, and so is the answer of the embedder. `sort` is sort.Slice. The
-- observers, the background evictions and the wait for them are left out.
pub mod Similar
pub mod Embedder
mod Sweep
pub mod Calls
pub mod Capped
pub mod Latest
mod Examples
use nexus_proxy.Shared.{
  ℕ, suc, ◌+◌, ◌-◌, Bool, true, false, String, Option, none, some, List, [], ◌∷◌, ◌++◌, ltb, leb,
  length, if◌then◌else◌, ◌&&◌,
}
use nexus_proxy.Shared.Int.{ℤ, pos, pos_part, nonpos}
use nexus_proxy.Shared.Assoc.{string_eq, lookup, insert, delete}
use nexus_proxy.Router.Types.{Route}

-- `cachedDecision`, with the embedding that it may have.
pub record CachedDecision (E : Type 0) : Type 0 where
  pub route : Route
  pub stamp : ℕ
  pub emb : Option E

-- `SLMCacheWarmEntry`.
pub record WarmEntry : Type 0 where
  pub prompt : String
  pub warm_route : Route
  pub timestamp : ℕ

abbrev pub default_ttl : ℕ
default_ttl = 30000000000

abbrev pub default_max_entries : ℕ
default_max_entries = 512

module _ (E : Type 0) (sort : (String → String → Bool) → List String → List String) where
  -- The parts of `SLMCache` that hold the entries.
  pub record SlmCache : Type 0 where
    pub ttl : ℕ
    pub max_entries : ℕ
    pub entries : List (String × CachedDecision E)
    pub expiry : List String
    pub ttl_evictions : ℕ
    pub lru_evictions : ℕ
    pub stale_count : ℕ

  -- `NewSLMCache`.
  unfoldable pub new_slm_cache : ℤ → ℤ → SlmCache
  new_slm_cache ttl max_entries = record {
    ttl = if nonpos ttl then default_ttl else pos_part ttl;
    max_entries = if nonpos max_entries then default_max_entries else pos_part max_entries;
    entries = [];
    expiry = [];
    ttl_evictions = 0;
    lru_evictions = 0;
    stale_count = 0;
  }

  -- `now.Sub(entry.stamp) > c.ttl`.
  abbrev pub stale : ℕ → ℕ → ℕ → Bool
  stale ttl now stamp = ltb (stamp + ttl) now

  -- The order of `sortExpiry`: keys without an entry first, then by stamp.
  unfoldable pub sooner : List (String × CachedDecision E) → String → String → Bool
  sooner entries i j = elim (lookup i entries) [
    | none ↦ true
    | some x ↦ elim (lookup j entries) [ none ↦ false | some y ↦ ltb x.stamp y.stamp ]
  ]

  -- `sortExpiry`.
  unfoldable pub sort_expiry : SlmCache → SlmCache
  sort_expiry c = record c { expiry = sort (sooner c.entries) c.expiry }

  -- What the loop of `evictExpired` leaves: the entries, the keys that it keeps and how many it removed.
  pub record Swept : Type 0 where
    pub left : List (String × CachedDecision E)
    pub keep : List String
    pub removed : ℕ

  -- Whether the loop finds an entry, and a stale one.
  pub data Met : Type 0 where
    missing fresh expired : Met

  unfoldable pub meet : ℕ → ℕ → Option (CachedDecision E) → Met
  meet ttl now none = missing
  meet ttl now (some e) = if stale ttl now e.stamp then expired else fresh

  unfoldable pub noted : String → Met → Swept → Swept
  noted key missing s = s
  noted key fresh s = record s { keep = key ∷ s.keep }
  noted key expired s = record s { removed = suc s.removed }

  unfoldable pub without_met :
      String → Met → List (String × CachedDecision E) → List (String × CachedDecision E)
  without_met key missing entries = entries
  without_met key fresh entries = entries
  without_met key expired entries = delete key entries

  -- The loop of `evictExpired`.
  unfoldable pub sweep : ℕ → ℕ → List String → List (String × CachedDecision E) → Swept
  unfolding meet noted without_met
  sweep ttl now [] entries = record { left = entries; keep = []; removed = 0 }
  sweep ttl now (key ∷ keys) entries =
      let met = meet ttl now (lookup key entries) in
      noted key met (sweep ttl now keys (without_met key met entries))

  -- `evictExpired` and `evictExpiredLocked`.
  unfoldable pub evict_expired : SlmCache → ℕ → SlmCache
  unfolding sort_expiry sweep
  evict_expired c now =
      let s = sweep c.ttl now c.expiry c.entries in
      sort_expiry (record c {
        entries = s.left;
        expiry = s.keep;
        ttl_evictions = c.ttl_evictions + s.removed;
        stale_count = c.stale_count - s.removed;
      })

  unfoldable pub evict_oldest : SlmCache → List String → SlmCache
  evict_oldest c [] = c
  evict_oldest c (key ∷ keys) = record c {
    entries = delete key c.entries;
    expiry = keys;
    lru_evictions = suc c.lru_evictions;
  }

  -- `evictLru` and `evictLruLocked`.
  unfoldable pub evict_lru_entry : SlmCache → SlmCache
  unfolding evict_oldest
  evict_lru_entry c = evict_oldest c c.expiry

  -- `Set`, `SetEmbedding` and `Warm`, the eviction of a cache that is full.
  unfoldable pub make_space : SlmCache → ℕ → SlmCache
  unfolding evict_expired evict_lru_entry
  make_space c now =
      let swept = evict_expired c now in
      if ltb 0 c.max_entries && leb c.max_entries (length c.entries)
      then (if leb c.max_entries (length swept.entries) then evict_lru_entry swept else swept)
      else c

  -- The entry written, and its key put last.
  unfoldable pub write : SlmCache → String → CachedDecision E → SlmCache
  write c prompt d = record c {
    entries = insert prompt d c.entries;
    expiry = c.expiry ++ (prompt ∷ []);
    stale_count = suc c.stale_count;
  }

  -- `SetEmbedding`, and `Set` behind the call of the embedder: the clock is read for the eviction and again
  -- for the stamp.
  unfoldable pub set_embedding : SlmCache → String → Route → Option E → ℕ → ℕ → SlmCache
  unfolding make_space write
  set_embedding c prompt route emb now stamp =
      write (make_space c now) prompt (record { route = route; stamp = stamp; emb = emb })

  -- `Get`, by the prompt itself.
  unfoldable pub get_exact : SlmCache → String → ℕ → Option Route
  get_exact c prompt now = elim (lookup prompt c.entries) [
    | none ↦ none
    | some e ↦ if stale c.ttl now e.stamp then none else some e.route
  ]

  -- `Warm`, one entry: the cache, and whether it was loaded.
  unfoldable pub warm_entry : SlmCache → ℕ → WarmEntry → ℕ → SlmCache × Bool
  unfolding make_space write
  warm_entry c now e later = if stale c.ttl now e.timestamp then (c, false) else (
    write (make_space c later) e.prompt
        (record { route = e.warm_route; stamp = e.timestamp; emb = none }),
    true,
  )

  -- `Warm`, the loop; the clock is read anew by each eviction.
  unfoldable pub warm_loop : SlmCache → ℕ → List (WarmEntry × ℕ) → SlmCache
  unfolding warm_entry
  warm_loop c now [] = c
  warm_loop c now ((e, later) ∷ es) = warm_loop (warm_entry c now e later).0 now es

  -- `Warm`.
  unfoldable pub warm : SlmCache → ℕ → List (WarmEntry × ℕ) → SlmCache
  unfolding sort_expiry warm_loop
  warm c now [] = c
  warm c now (e ∷ es) = sort_expiry (warm_loop c now (e ∷ es))
