-- ===== src/Upstream/Coalescer/Repeat.antt =====
-- internal/upstream/coalesce.go: for how long the result of one call answers those behind it.
use nexus_proxy.Shared.{ℕ, suc, ◌+◌, ◌≡◌, ◌<◌, refl, ap, ◌∙◌, String, none, some, arith}
use nexus_proxy.Shared.Assoc.{string_eq, lookup, lookup-insert}
use nexus_proxy.Upstream.Arbiter.Order.{str_eq_refl}
use nexus_proxy.Upstream.Coalescer.{
  Coalescer, Flight, leads, fresh_result, coalesce_evict_expired, coalesce_make_room, keep_result,
  fly, hit_or_fly, do_call,
}

module _ (R : Type 0) where
  keep_result-lookup :
      (c : Coalescer R) (key : String) (r : R) (now stamp : ℕ)
      → lookup key (keep_result R c key r now stamp).cache
        ≡ some (record { result = r; expiry = stamp + c.ttl })
  unfolding keep_result
  keep_result-lookup c key r now stamp =
      lookup-insert key key (record { result = r; expiry = stamp + c.ttl })
        (coalesce_make_room R (coalesce_evict_expired R c now)).cache
      ∙ rw (str_eq_refl key) refl

  still_fresh :
      (later expiry : ℕ) (r : R)
      → later < expiry
      → fresh_result R later (some (record { result = r; expiry = expiry })) ≡ some r
  unfolding fresh_result
  still_fresh later expiry r h = ground arith

  -- A call that finds nothing fresh and leads its flight returns the result of `fn`; while the clock stands
  -- before the time of its store plus the TTL, the next call with its key returns the same result whatever its
  -- own flight would bring, and of the coalescer only its hits change, by one.
  pub coalesce_repeat :
      (c : Coalescer R) (key : String) (checked : ℕ) (r : R) (now stamp later : ℕ)
      (flight : Flight R)
      → fresh_result R checked (lookup key c.cache) ≡ none
      → later < stamp + c.ttl
      → let first = do_call R c key checked (leads r now stamp) in
        (first.1 ≡ r)
        × (do_call R first.0 key later flight ≡ (record first.0 { hits = suc first.0.hits }, r))
  unfolding do_call hit_or_fly fly
  coalesce_repeat c key checked r now stamp later flight f h =
      let seen =
        ap (fresh_result R later) (keep_result-lookup c key r now stamp)
        ∙ still_fresh later (stamp + c.ttl) r h in
      rw f (refl, rw seen refl)
