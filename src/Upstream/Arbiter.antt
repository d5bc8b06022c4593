-- ===== src/Upstream/Arbiter.antt =====
-- internal/upstream/arbiter_cache.go: the cache of what the arbiter made of two answers. A hash is a text,
-- the time is in nanoseconds and given to each call, and the observer of evictions and the getters are left
-- out.
pub mod Order
pub mod Bounded
pub mod Lookup
mod Examples
use Prim.Native.String.{◌++◌}
use mathlib.Core.List.{◌++◌ as append_list}
use text.Mathlib.Text.{◌==◌ as str_eq}
use nexus_proxy.Shared.{
  ℕ, ◌+◌, ◌≡◌, refl, String, Bool, true, false, not, ◌&&◌, List, [], ◌∷◌, Option, none, some, ltb,
  leb, length, if◌then◌else◌, ◌==◌,
}
use nexus_proxy.Shared.Int.{ℤ, pos, nonpos, pos_part, ltb_ℤ, ◌-ℤ◌}
use nexus_proxy.Shared.Assoc.{string_eq, lookup, insert, delete}

pub record ArbiterCacheEntry : Type 0 where
  pub synthesis : String
  pub cached_at : ℤ
  pub ttl_duration : ℤ

pub record ArbiterCache : Type 0 where
  pub items : List (String × ArbiterCacheEntry)
  pub ttl : ℤ
  pub max_entries : ℕ
  pub lru : List String

-- `NewArbiterCache`, with the default of 512 entries.
unfoldable pub new_arbiter_cache : ℤ → ℤ → ArbiterCache
new_arbiter_cache ttl max_entries = record {
  items = [];
  ttl = ttl;
  max_entries = if nonpos max_entries then 512 else pos_part max_entries;
  lru = [];
}

-- `cacheKey` with `canonicalize`, of SHA-256 and the order of its hashes.
unfoldable pub cache_key : (String → String) → (String → String → Bool) → String → String → String
cache_key sha256 less r1 r2 =
    let h1 = sha256 r1 in
    let h2 = sha256 r2 in
    if str_eq r1 r2
    then sha256 (r1 ++ "|SAME|")
    else (if less h1 h2 then sha256 (h1 ++ h2) else sha256 (h2 ++ h1))

abbrev pub member : String → List String → Bool
member k [] = false
member k (j ∷ js) = if str_eq j k then true else member k js

-- The first occurrence of a key taken out.
abbrev pub without : String → List String → List String
without k [] = []
without k (j ∷ js) = let rest = without k js in if str_eq j k then js else j ∷ rest

abbrev pub present : Option ArbiterCacheEntry → Bool
present none = false
present (some e) = true

-- `touch`.
unfoldable pub touch : ArbiterCache → String → ArbiterCache
touch c key =
    if present (lookup key c.items)
    then record c { lru = append_list (without key c.lru) (key ∷ []) }
    else c

unfoldable pub evict_first : List String → ArbiterCache → ArbiterCache
evict_first [] c = c
evict_first (key ∷ rest) c = record c { lru = rest; items = delete key c.items }

-- `evictLru`.
unfoldable pub evict_lru : ArbiterCache → ArbiterCache
unfolding evict_first
evict_lru c = evict_first c.lru c

-- The eviction that opens `Set`, and each insertion of `Warm`.
unfoldable pub make_room : ArbiterCache → ArbiterCache
unfolding evict_lru
make_room c = if ltb 0 c.max_entries && leb c.max_entries (length c.items) then evict_lru c else c

unfoldable pub put : ArbiterCache → String → ArbiterCacheEntry → ArbiterCache
unfolding make_room touch
put c key entry =
    let c' = make_room c in touch (record c' { items = insert key entry c'.items }) key

-- `Set`, of the key.
unfoldable pub set : ArbiterCache → String → ℤ → String → ℤ → ArbiterCache
unfolding put
set c key now synthesis ttl =
    put c key (record { synthesis = synthesis; cached_at = now; ttl_duration = ttl })

-- `Get` behind the lookup.
unfoldable pub get_entry :
    ArbiterCache → String → ℤ → Option ArbiterCacheEntry → ArbiterCache × Option String
unfolding touch
get_entry c key now none = (c, none)
get_entry c key now (some entry) =
    if ltb_ℤ entry.ttl_duration (now -ℤ entry.cached_at)
    then (c, none)
    else (touch c key, some entry.synthesis)

-- `Get`, of the key.
unfoldable pub get : ArbiterCache → String → ℤ → ArbiterCache × Option String
unfolding get_entry
get c key now = get_entry c key now (lookup key c.items)

-- `Delete`, of the key.
unfoldable pub remove : ArbiterCache → String → ArbiterCache
remove c key = record c { items = delete key c.items; lru = without key c.lru }

-- One entry of `Warm`, without its counters; a stale one is skipped.
unfoldable pub warm_one : ArbiterCache → ℤ → String → String → ℤ → ArbiterCache
unfolding put
warm_one c now key synthesis written_at =
    if ltb_ℤ c.ttl (now -ℤ written_at)
    then c
    else put c key (record { synthesis = synthesis; cached_at = written_at; ttl_duration = c.ttl })

-- `Purge`.
unfoldable pub purge : ArbiterCache → ArbiterCache
purge c = record c { items = []; lru = [] }
