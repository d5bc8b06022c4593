-- ===== src/Upstream/Coalescer.antt =====
-- internal/upstream/coalesce.go: the answers that concurrent requests share. singleflight is a parameter: a
-- call of `Do` is told whether its goroutine was the leader, with the answer of `fn`, or waited for one. Each
-- reading of the clock, in nanoseconds, is given to the call.
pub mod Order
pub mod Capped
pub mod Repeat
mod Examples
use mathlib.Core.List.{◌++◌ as append_list}
use nexus_proxy.Shared.{
  ℕ, suc, ◌+◌, Bool, true, false, ◌&&◌, String, Option, none, some, List, [], ◌∷◌, ltb, leb, length,
  if◌then◌else◌,
}
use nexus_proxy.Shared.Assoc.{string_eq, lookup, insert, delete}

-- `coalesceEntry`, with the `coalesceResult` in it.
pub record CoalesceEntry (R : Type 0) : Type 0 where
  pub result : R
  pub expiry : ℕ

-- The counters of hits and misses stand here too. A cap of 0 is the disabled one, a `ttl` of 0 stores what
-- is expired at once.
pub record Coalescer (R : Type 0) : Type 0 where
  pub cache : List (String × CoalesceEntry R)
  pub order : List String
  pub ttl : ℕ
  pub max_entries : ℕ
  pub hits : ℕ
  pub misses : ℕ

-- What singleflight makes of a call: its own run of `fn`, with the readings of the clock by the eviction and
-- by the store, or the answer of another goroutine's run.
pub data Flight (R : Type 0) : Type 0 where
  leads : R → ℕ → ℕ → Flight R
  waits : R → Flight R

module _ (R : Type 0) where
  -- `NewCoalescer`.
  unfoldable pub new_coalescer : ℕ → ℕ → Coalescer R
  new_coalescer ttl max_entries = record {
    cache = [];
    order = [];
    ttl = ttl;
    max_entries = max_entries;
    hits = 0;
    misses = 0;
  }

  -- `Do`, the check of the cache.
  unfoldable pub fresh_result : ℕ → Option (CoalesceEntry R) → Option R
  fresh_result now none = none
  fresh_result now (some e) = if ltb now e.expiry then some e.result else none

  -- `evictExpiredLocked`, the test of a key.
  unfoldable pub is_expired : ℕ → Option (CoalesceEntry R) → Bool
  is_expired now none = false
  is_expired now (some e) = leb e.expiry now

  unfoldable pub kept_unless : Bool → String → List String → List String
  kept_unless true key keys = keys
  kept_unless false key keys = key ∷ keys

  unfoldable pub deleted_if :
      Bool → String → List (String × CoalesceEntry R) → List (String × CoalesceEntry R)
  deleted_if true key cache = delete key cache
  deleted_if false key cache = cache

  -- Its loop over the order: a key without an entry stays.
  unfoldable pub expire_keys :
      ℕ
      → List String
      → List (String × CoalesceEntry R)
      → List String × List (String × CoalesceEntry R)
  unfolding is_expired kept_unless deleted_if
  expire_keys now [] cache = ([], cache)
  expire_keys now (key ∷ keys) cache =
      let gone = is_expired now (lookup key cache) in
      let (order, left) = expire_keys now keys (deleted_if gone key cache) in
      (kept_unless gone key order, left)

  -- `evictExpiredLocked`.
  unfoldable pub coalesce_evict_expired : Coalescer R → ℕ → Coalescer R
  unfolding expire_keys
  coalesce_evict_expired c now =
      let (order, cache) = expire_keys now c.order c.cache in
      record c { order = order; cache = cache }

  -- `evictOldestLocked`.
  unfoldable pub evict_head : Coalescer R → List String → Coalescer R
  evict_head c [] = c
  evict_head c (oldest ∷ rest) = record c { cache = delete oldest c.cache; order = rest }

  unfoldable pub coalesce_evict_oldest : Coalescer R → Coalescer R
  unfolding evict_head
  coalesce_evict_oldest c = evict_head c c.order

  -- `Do`, the test of the cap.
  unfoldable pub coalesce_make_room : Coalescer R → Coalescer R
  unfolding coalesce_evict_oldest
  coalesce_make_room c =
      if ltb 0 c.max_entries && leb c.max_entries (length c.cache)
      then coalesce_evict_oldest c
      else c

  -- `Do`, what the leader does behind its run of `fn`.
  unfoldable pub keep_result : Coalescer R → String → R → ℕ → ℕ → Coalescer R
  unfolding coalesce_evict_expired coalesce_make_room
  keep_result c key result now stamp =
      let swept = coalesce_evict_expired c now in
      let room = coalesce_make_room swept in
      record room {
        cache = insert key (record { result = result; expiry = stamp + c.ttl }) room.cache;
        order = append_list room.order (key ∷ []);
      }

  -- `Do`, behind the check of the cache.
  unfoldable pub fly : Coalescer R → String → Flight R → Coalescer R × R
  unfolding keep_result
  fly c key (leads r now stamp) =
      let kept = keep_result c key r now stamp in (record kept { misses = suc kept.misses }, r)
  fly c key (waits r) = (record c { hits = suc c.hits }, r)

  -- `Do`, the return on a hit, and the rest of it.
  unfoldable pub hit_or_fly : Option R → Coalescer R → String → Flight R → Coalescer R × R
  unfolding fly
  hit_or_fly (some r) c key flight = (record c { hits = suc c.hits }, r)
  hit_or_fly none c key flight = fly c key flight

  -- `Do`, with nothing of another goroutine in between the check and the flight.
  unfoldable pub do_call : Coalescer R → String → ℕ → Flight R → Coalescer R × R
  unfolding fresh_result hit_or_fly
  do_call c key now flight = hit_or_fly (fresh_result now (lookup key c.cache)) c key flight

-- A call: the key, the reading of the clock by the check, and its flight.
pub record CoalesceCall (R : Type 0) : Type 0 where
  pub key : String
  pub checked : ℕ
  pub flight : Flight R

-- Calls one after another.
unfoldable pub do_calls : (R : Type 0) → Coalescer R → List (CoalesceCall R) → Coalescer R
unfolding do_call
do_calls R c [] = c
do_calls R c (call ∷ calls) = do_calls R (do_call R c call.key call.checked call.flight).0 calls
