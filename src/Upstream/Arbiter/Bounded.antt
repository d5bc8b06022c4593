-- ===== src/Upstream/Arbiter/Bounded.antt =====
-- internal/upstream/arbiter_cache.go, the number of entries.
use nexus_proxy.Shared.{
  ◌≤◌, ◌<◌, ◌≡◌, refl, ◌∙◌, String, true, ◌&&◌, List, [], ◌∷◌, Option, none, some, ltb, leb, length,
  arith, Bool-cases, inl, inr,
}
use nexus_proxy.Shared.Int.{ℤ, ltb_ℤ, ◌-ℤ◌}
use nexus_proxy.Shared.Assoc.{
  string_eq, lookup, insert, lookup-insert, length-insert-le, length-delete-le,
}
use nexus_proxy.Upstream.Arbiter.{
  ArbiterCache, ArbiterCacheEntry, new_arbiter_cache, present, touch, evict_first, make_room, put,
  set, get, get_entry, remove, warm_one, purge,
}
use nexus_proxy.Upstream.Arbiter.Order.{
  Distinct, Tidy, str_eq_refl, Tidy-touch, TidyBut-weaken, Tidy-evict_first, Tidy-remove,
  TidyBut-insert, evict_first-shorter,
}

-- A cache that keeps to its cap.
record Fits (c : ArbiterCache) : Type 0 where
  tidy : Tidy c
  capped : 0 < c.max_entries
  within : length c.items ≤ c.max_entries

evict_first-cap :
    (c : ArbiterCache) (keys : List String) → (evict_first keys c).max_entries ≡ c.max_entries
unfolding evict_first
evict_first-cap c [] = refl
evict_first-cap c (key ∷ rest) = refl

make_room-Fits :
    (c : ArbiterCache)
    → Fits c
    → Tidy (make_room c)
      × (length (make_room c).items < c.max_entries)
      × ((make_room c).max_entries ≡ c.max_entries)
unfolding make_room
make_room-Fits c v = elim (Bool-cases (ltb 0 c.max_entries && leb c.max_entries (length c.items))) [
  | inl full ↦
      let some_items : 0 < length c.items = let p = v.capped in ground arith in
      let shorter = evict_first-shorter c c.lru refl v.tidy some_items in
      rw full (
        Tidy-evict_first c c.lru refl v.tidy,
        let w = v.within in omega arith,
        evict_first-cap c c.lru,
      )
  | inr room ↦ rw room (v.tidy, (let p = v.capped in ground arith), refl)
]

pub touch_items :
    (c : ArbiterCache) (key : String)
    → ((touch c key).items ≡ c.items) × ((touch c key).max_entries ≡ c.max_entries)
unfolding touch
touch_items c key = ground arith

put-Fits : (c : ArbiterCache) (key : String) (e : ArbiterCacheEntry) → Fits c → Fits (put c key e)
unfolding put
put-Fits c key e v =
    let (t, room, cap_same) = make_room-Fits c v in
    let c' = make_room c in
    let d = record c' { items = insert key e c'.items } in
    let (same, kept) = touch_items d key in
    let longer = length-insert-le key e c'.items in
    let old = v.capped in
    record {
      tidy =
          Tidy-touch key d (TidyBut-insert c' key e t)
            (rw (lookup-insert key key e c'.items, str_eq_refl key));
      capped = rw (kept ∙ cap_same) old;
      within = rw (same) (rw (kept ∙ cap_same) (omega arith));
    }

touch-Fits :
    (c : ArbiterCache) (key : String)
    → present (lookup key c.items) ≡ true
    → Fits c
    → Fits (touch c key)
touch-Fits c key h v =
    let (same, kept) = touch_items c key in
    record {
      tidy = Tidy-touch key c (TidyBut-weaken key c v.tidy) h;
      capped = rw kept v.capped;
      within = rw same (rw kept v.within);
    }

get_entry-Fits :
    (c : ArbiterCache) (key : String) (now : ℤ) (o : Option ArbiterCacheEntry)
    → lookup key c.items ≡ o
    → Fits c
    → Fits (get_entry c key now o).0
unfolding get_entry
get_entry-Fits c key now none e v = v
get_entry-Fits c key now (some entry) e v =
    elim (Bool-cases (ltb_ℤ entry.ttl_duration (now -ℤ entry.cached_at))) [
      | inl stale ↦ rw stale v
      | inr live ↦ rw live (touch-Fits c key (rw e) v)
    ]

get-Fits : (c : ArbiterCache) (key : String) (now : ℤ) → Fits c → Fits (get c key now).0
unfolding get
get-Fits c key now v = get_entry-Fits c key now (lookup key c.items) refl v

remove-Fits : (c : ArbiterCache) (key : String) → Fits c → Fits (remove c key)
unfolding remove
remove-Fits c key v = record {
  tidy = Tidy-remove c key v.tidy;
  capped = v.capped;
  within = let le = length-delete-le key c.items in let w = v.within in omega arith;
}

-- The calls of the cache.
pub data Call : Type 0 where
  sets : String → ℤ → String → ℤ → Call
  gets : String → ℤ → Call
  removes : String → Call
  warms : ℤ → String → String → ℤ → Call
  purges : Call

abbrev pub call : ArbiterCache → Call → ArbiterCache
call c (sets key now synthesis ttl) = set c key now synthesis ttl
call c (gets key now) = (get c key now).0
call c (removes key) = remove c key
call c (warms now key synthesis written_at) = warm_one c now key synthesis written_at
call c purges = purge c

unfoldable pub calls : ArbiterCache → List Call → ArbiterCache
calls c [] = c
calls c (o ∷ os) = calls (call c o) os

call-Fits : (c : ArbiterCache) (o : Call) → Fits c → Fits (call c o)
unfolding set warm_one purge Distinct lookup
call-Fits c (sets key now synthesis ttl) v = put-Fits c key _ v
call-Fits c (gets key now) v = get-Fits c key now v
call-Fits c (removes key) v = remove-Fits c key v
call-Fits c (warms now key synthesis written_at) v =
    elim (Bool-cases (ltb_ℤ c.ttl (now -ℤ written_at))) [
      | inl stale ↦ rw stale v
      | inr live ↦ rw live (put-Fits c key _ v)
    ]
call-Fits c purges v = record {
  tidy = record { distinct = tt; matches = λ k. refl };
  capped = v.capped;
  within = omega arith;
}

calls-Fits : (c : ArbiterCache) (os : List Call) → Fits c → Fits (calls c os)
unfolding calls
calls-Fits c [] v = v
calls-Fits c (o ∷ os) v = calls-Fits (call c o) os (call-Fits c o v)

new_arbiter_cache-Fits : (ttl cap : ℤ) → Fits (new_arbiter_cache ttl cap)
unfolding new_arbiter_cache Distinct lookup
new_arbiter_cache-Fits ttl cap = record {
  tidy = record { distinct = tt; matches = λ k. refl };
  capped = ground arith;
  within = omega arith;
}

-- Through any calls of Set, Get, Delete, Warm and Purge, at any times and with any keys, a cache never
-- holds more entries than its cap, which is positive.
pub entries_capped :
    (ttl cap : ℤ) (os : List Call)
    → let c = calls (new_arbiter_cache ttl cap) os in
      (length c.items ≤ c.max_entries) × (0 < c.max_entries)
entries_capped ttl cap os =
    let v = calls-Fits (new_arbiter_cache ttl cap) os (new_arbiter_cache-Fits ttl cap) in
    (v.within, v.capped)
