-- ===== src/Upstream/Coalescer/Examples.antt =====
-- internal/upstream/coalesce.go: calls on concrete coalescers.
use nexus_proxy.Shared.{ℕ, ◌≡◌, ◌≤◌, refl, String, suc, List, [], ◌∷◌, length, arith}
use nexus_proxy.Upstream.Coalescer.{
  Coalescer, fresh_result, CoalesceCall, leads, waits, new_coalescer, keep_result, do_call,
  do_calls,
}
use nexus_proxy.Upstream.Coalescer.Capped.{coalesce_in_step, AllTimely}
use nexus_proxy.Upstream.Coalescer.Repeat.{coalesce_repeat}
use nexus_proxy.Shared.Assoc.{string_eq, lookup, insert, delete}
use nexus_proxy.Upstream.Coalescer.Order.{is_held}
use nexus_proxy.Upstream.Arbiter.{member}
use nexus_proxy.Upstream.Arbiter.Order.{Distinct}

-- Two goroutines that both found nothing fresh, of which the second flies when the flight of the first is
-- over: its key stands twice in the order.
abbrev doubled : Coalescer ℕ
doubled = keep_result ℕ (keep_result ℕ (new_coalescer ℕ 100 2) "a" 1 10 10) "a" 2 11 11

doubled_order : doubled.order ≡ ("a" ∷ "a" ∷ [])
unfolding keep_result new_coalescer lookup insert delete
doubled_order = refl

-- Three keys later the cache holds one entry more than its cap: the eviction of the oldest deleted what
-- was gone before.
over_cap :
    length
      (keep_result ℕ
        (keep_result ℕ (keep_result ℕ doubled "b" 3 12 12) "c" 4 13 13)
        "d"
        5
        14
        14).cache
    ≡ 3
unfolding keep_result new_coalescer lookup insert delete
over_cap = refl

abbrev five_calls : List (CoalesceCall ℕ)
five_calls =
    record { key = "a"; checked = 1; flight = leads 7 2 3 }
    ∷ record { key = "a"; checked = 4; flight = leads 8 5 6 }
    ∷ record { key = "b"; checked = 7; flight = waits 9 }
    ∷ record { key = "b"; checked = 20; flight = leads 10 21 22 }
    ∷ record { key = "c"; checked = 23; flight = leads 11 24 25 }
    ∷ []

coalesce_in_step_example :
    (length (do_calls ℕ (new_coalescer ℕ 100 2) five_calls).cache ≤ 2)
    × (Distinct (do_calls ℕ (new_coalescer ℕ 100 2) five_calls).order
        × ((k : String)
            → member k (do_calls ℕ (new_coalescer ℕ 100 2) five_calls).order
              ≡ is_held ℕ (lookup k (do_calls ℕ (new_coalescer ℕ 100 2) five_calls).cache)))
unfolding AllTimely
coalesce_in_step_example =
    coalesce_in_step ℕ 100 2 five_calls (omega arith)
      (omega arith, (omega arith, (tt, (omega arith, (omega arith, tt)))))

abbrev first_call : Coalescer ℕ
first_call = (do_call ℕ (new_coalescer ℕ 100 2) "a" 1 (leads 7 2 3)).0

coalesce_repeat_example :
    ((do_call ℕ (new_coalescer ℕ 100 2) "a" 1 (leads 7 2 3)).1 ≡ 7)
    × (do_call ℕ first_call "a" 50 (leads 8 51 52)
        ≡ (record first_call { hits = suc first_call.hits }, 7))
unfolding new_coalescer fresh_result lookup
coalesce_repeat_example =
    coalesce_repeat ℕ (new_coalescer ℕ 100 2) "a" 1 7 2 3 50 (leads 8 51 52) refl (omega arith)
