-- ===== src/Upstream/Coalescer/Capped.antt =====
-- internal/upstream/coalesce.go: how many answers are held while calls come one after another.
use mathlib.Core.List.{◌++◌ as append_list}
use nexus_proxy.Shared.{
  ℕ, suc, ◌+◌, ◌≡◌, ◌≤◌, ◌<◌, refl, ◌∙◌, true, String, Option, none, some, List, [], ◌∷◌, ltb, leb,
  length, arith, Bool-cases, inl, inr,
}
use nexus_proxy.Shared.Assoc.{string_eq, lookup, insert, lookup-delete, length-insert-le}
use nexus_proxy.Upstream.Arbiter.Order.{Distinct}
use nexus_proxy.Upstream.Arbiter.{member}
use nexus_proxy.Upstream.Coalescer.{
  CoalesceEntry, Coalescer, Flight, leads, waits, new_coalescer, fresh_result,
  coalesce_evict_expired, evict_head, coalesce_evict_oldest, coalesce_make_room, keep_result, fly,
  hit_or_fly, do_call, CoalesceCall, do_calls,
}
use nexus_proxy.Upstream.Coalescer.Order.{
  InStep, InStep-coalesce_evict_expired, InStep-evict_head, InStep-store, evict_head-length,
  coalesce_evict_expired-length, stale-gone, is_held,
}

module _ (R : Type 0) where
  -- In step, and no more entries than the cap.
  record Within (c : Coalescer R) : Type 0 where
    in_step : InStep R c
    capped : length c.cache ≤ c.max_entries

  -- The store behind an eviction that made room.
  Within-store :
      (room : Coalescer R) (key : String) (e : CoalesceEntry R)
      → InStep R room
      → lookup key room.cache ≡ none
      → length room.cache < room.max_entries
      → Within (record room {
        cache = insert key e room.cache;
        order = append_list room.order (key ∷ []);
      })
  Within-store room key e v h l = record {
    in_step = InStep-store R room key e v h;
    capped = ground (arith, length-insert-le key e room.cache);
  }

  evict_head-absent :
      (c : Coalescer R) (keys : List String) (key : String)
      → lookup key c.cache ≡ none
      → lookup key (evict_head R c keys).cache ≡ none
  unfolding evict_head
  evict_head-absent c [] key h = h
  evict_head-absent c (k ∷ ks) key h = ground (arith, lookup-delete k key c.cache)

  evict_head-max_entries :
      (c : Coalescer R) (keys : List String) → (evict_head R c keys).max_entries ≡ c.max_entries
  unfolding evict_head
  evict_head-max_entries c [] = refl
  evict_head-max_entries c (k ∷ ks) = refl

  -- Ready for the store of a key.
  record Ready (max_entries : ℕ) (key : String) (c : Coalescer R) : Type 0 where
    in_step : InStep R c
    absent : lookup key c.cache ≡ none
    room : length c.cache < max_entries
    same_cap : c.max_entries ≡ max_entries

  Ready-coalesce_make_room :
      (c : Coalescer R) (key : String)
      → InStep R c
      → lookup key c.cache ≡ none
      → 0 < c.max_entries
      → length c.cache ≤ c.max_entries
      → Ready c.max_entries key (coalesce_make_room R c)
  unfolding coalesce_make_room coalesce_evict_oldest
  Ready-coalesce_make_room c key v h p l =
      let holds : ltb 0 c.max_entries ≡ true = ground arith in
      elim (Bool-cases (leb c.max_entries (length c.cache))) [
        | inl full ↦ rw holds (
            rw full record {
              in_step = InStep-evict_head R c c.order refl v;
              absent = evict_head-absent c c.order key h;
              room = ground (arith, evict_head-length R c c.order refl v (ground arith));
              same_cap = evict_head-max_entries c c.order;
            })
        | inr free ↦
            rw holds
              (rw free record { in_step = v; absent = h; room = ground arith; same_cap = refl })
      ]

  -- A led call, behind a check that found nothing fresh.
  Within-keep_result :
      (c : Coalescer R) (key : String) (r : R) (checked now stamp : ℕ)
      → Within c
      → 0 < c.max_entries
      → fresh_result R checked (lookup key c.cache) ≡ none
      → checked ≤ now
      → Within (keep_result R c key r now stamp)
        × ((keep_result R c key r now stamp).max_entries ≡ c.max_entries)
  unfolding keep_result
  Within-keep_result c key r checked now stamp w p f t =
      let swept = coalesce_evict_expired R c now in
      let ready =
        Ready-coalesce_make_room swept key (InStep-coalesce_evict_expired R c now w.in_step)
          (stale-gone R c key checked now w.in_step f t) p
          (ground (arith, coalesce_evict_expired-length R c now, w.capped)) in
      (
        Within-store (coalesce_make_room R swept) key
            (record { result = r; expiry = stamp + c.ttl }) ready.in_step ready.absent
            (ground (arith, ready.room, ready.same_cap)),
        ready.same_cap,
      )

  Within-counted :
      (c : Coalescer R) (h m : ℕ) → Within c → Within (record c { hits = h; misses = m })
  Within-counted c h m w = record {
    in_step = record { distinct = w.in_step.distinct; matches = w.in_step.matches };
    capped = w.capped;
  }

  -- The clock does not run backwards between the check and the eviction.
  unfoldable pub Timely : ℕ → Flight R → Type 0
  Timely checked (leads r now stamp) = checked ≤ now
  Timely checked (waits r) = Unit {0}

  Within-fly :
      (c : Coalescer R) (key : String) (checked : ℕ) (flight : Flight R)
      → Within c
      → 0 < c.max_entries
      → fresh_result R checked (lookup key c.cache) ≡ none
      → Timely checked flight
      → Within (fly R c key flight).0 × ((fly R c key flight).0.max_entries ≡ c.max_entries)
  unfolding fly Timely
  Within-fly c key checked (leads r now stamp) w p f t =
      let (kept, same) = Within-keep_result c key r checked now stamp w p f t in
      (
        Within-counted (keep_result R c key r now stamp) (keep_result R c key r now stamp).hits
            (suc (keep_result R c key r now stamp).misses) kept,
        same,
      )
  Within-fly c key checked (waits r) w p f t = (Within-counted c (suc c.hits) c.misses w, refl)

  Within-hit_or_fly :
      (hit : Option R) (c : Coalescer R) (key : String) (checked : ℕ) (flight : Flight R)
      → fresh_result R checked (lookup key c.cache) ≡ hit
      → Within c
      → 0 < c.max_entries
      → Timely checked flight
      → Within (hit_or_fly R hit c key flight).0
        × ((hit_or_fly R hit c key flight).0.max_entries ≡ c.max_entries)
  unfolding hit_or_fly
  Within-hit_or_fly none c key checked flight f w p t = Within-fly c key checked flight w p f t
  Within-hit_or_fly (some r) c key checked flight f w p t =
      (Within-counted c (suc c.hits) c.misses w, refl)

  Within-do_call :
      (c : Coalescer R) (key : String) (checked : ℕ) (flight : Flight R)
      → Within c
      → 0 < c.max_entries
      → Timely checked flight
      → Within (do_call R c key checked flight).0
        × ((do_call R c key checked flight).0.max_entries ≡ c.max_entries)
  unfolding do_call
  Within-do_call c key checked flight w p t =
      Within-hit_or_fly (fresh_result R checked (lookup key c.cache)) c key checked flight refl w p
        t

  unfoldable pub AllTimely : List (CoalesceCall R) → Type 0
  unfolding Timely
  AllTimely [] = Unit {0}
  AllTimely (call ∷ calls) = Timely call.checked call.flight × AllTimely calls

  Within-do_calls :
      (c : Coalescer R) (calls : List (CoalesceCall R))
      → Within c
      → 0 < c.max_entries
      → AllTimely calls
      → Within (do_calls R c calls) × ((do_calls R c calls).max_entries ≡ c.max_entries)
  unfolding do_calls AllTimely
  Within-do_calls c [] w p t = (w, refl)
  Within-do_calls c (call ∷ calls) w p (t, ts) =
      let (next, same) = Within-do_call c call.key call.checked call.flight w p t in
      let after = (do_call R c call.key call.checked call.flight).0 in
      let (last, cap) = Within-do_calls after calls next (ground (arith, same)) ts in
      (last, cap ∙ same)

  -- A coalescer with a cap that starts empty and serves any calls one after another, where no clock runs
  -- backwards between the check and the eviction of a call, holds at most as many entries as the cap, lists no
  -- key twice in its order, and lists a key exactly if it holds an entry of it.
  pub coalesce_in_step :
      (ttl max_entries : ℕ) (calls : List (CoalesceCall R))
      → 0 < max_entries
      → AllTimely calls
      → (length (do_calls R (new_coalescer R ttl max_entries) calls).cache ≤ max_entries)
        × (Distinct (do_calls R (new_coalescer R ttl max_entries) calls).order
            × ((k : String)
                → member k (do_calls R (new_coalescer R ttl max_entries) calls).order
                  ≡ is_held R
                      (lookup k (do_calls R (new_coalescer R ttl max_entries) calls).cache)))
  unfolding new_coalescer is_held Distinct lookup
  coalesce_in_step ttl max_entries calls p t =
      let empty : Within (new_coalescer R ttl max_entries) = record {
        in_step = record { distinct = tt; matches = λ k. refl };
        capped = omega arith;
      } in
      let (w, same) = Within-do_calls (new_coalescer R ttl max_entries) calls empty p t in
      (ground (arith, w.capped, same), (w.in_step.distinct, w.in_step.matches))
