-- ===== src/Limiter/Wakeups/Lost.antt =====
-- internal/concurrencylimit/limiter.go, whether a wake-up of the condition variable can be lost.
use nexus_proxy.Shared.{ℕ, suc, ◌+◌, ◌≤◌, ◌≡◌, refl, true, false, arith, ◌⊎◌}
use nexus_proxy.Shared.Int.{ℤ, pos, ltb_ℤ, nonpos, ◌≤ℤ◌}
use nexus_proxy.Limiter.{
  Limiter, effective, try_acquire, release, try_acquire-acquired, try_acquire-waits,
}
use nexus_proxy.Limiter.Wakeups.{
  System, Step, Reach, here, next, start, Bounded, reach_Bounded, arrive, turn, give_up,
  give_up_stopped, done_ready, done_parked, start_callback, start_parked, done_late, call_back,
  release_all, release_live, release_expired, release_unstarted, release_none,
}

-- A slot that is free is matched by a goroutine that will try for it, unless nobody waits, a callback is to
-- start or to broadcast, or `stop` has held one back.
pub record Alert (slots : ℤ) (s : System) : Type 0 where
  pub matched :
      (s.parked ≡ 0)
      ⊎ ((1 ≤ s.broadcasts)
          ⊎ ((1 ≤ s.unstarted + s.parked_unstarted + s.stopped)
              ⊎ (slots ≤ℤ pos (s.limiter.in_flight + s.ready))))
  pub expired_announced : (s.parked_expired ≡ 0) ⊎ (1 ≤ s.broadcasts)

abbrev pub Steady : Limiter → ℤ → ℤ → Type 0
Steady l slots free = effective l free ≡ slots

effective-same :
    (l m : Limiter) (free : ℤ)
    → m.ceiling ≡ l.ceiling
    → m.bytes_per_slot ≡ l.bytes_per_slot
    → effective m free ≡ effective l free
unfolding effective
effective-same l m free h k = rw h (rw k)

Alert-Step :
    (l : Limiter) (slots : ℤ) {s t : System}
    → Bounded l s
    → Alert slots s
    → Step (Steady l slots) s t
    → Alert slots t
unfolding try_acquire release
Alert-Step l slots b v arrive = ground arith
Alert-Step l slots {s} b v (turn free p e) =
    ground (arith, effective-same l s.limiter free b.same_ceiling b.same_bytes)
Alert-Step l slots b v (give_up e) = ground arith
Alert-Step l slots b v (give_up_stopped e) = ground arith
Alert-Step l slots b v (done_ready e) = ground arith
Alert-Step l slots b v (done_parked e) = ground arith
Alert-Step l slots b v (start_callback e) = ground arith
Alert-Step l slots b v (start_parked e) = ground arith
Alert-Step l slots b v done_late = ground arith
Alert-Step l slots b v (call_back e) = ground arith
Alert-Step l slots b v (release_all f g p q e w) = ground arith
Alert-Step l slots b v (release_live f g p q e w k) = ground arith
Alert-Step l slots b v (release_expired f g p q e w k) = ground arith
Alert-Step l slots b v (release_unstarted f g p q e w k) = ground arith
Alert-Step l slots b v (release_none f g p q e w k m n) = ground arith

reach_Alert :
    (l : Limiter) (slots : ℤ) {s : System}
    → nonpos l.ceiling ≡ false
    → l.in_flight ≡ 0
    → Reach (Steady l slots) (start l) s
    → Alert slots s
unfolding start
reach_Alert l slots h z here = ground arith
reach_Alert l slots h z (next r step) =
    Alert-Step l slots (reach_Bounded l h z r) (reach_Alert l slots h z r) step

-- From a limiter with a positive ceiling and nothing in flight, while the readings all allow the same
-- number of slots and no `stop` has yet held the callback of a context back: whenever a goroutine with a live
-- context waits although a slot is free, another one is about to try, or a callback is to broadcast, or a
-- goroutine is there whose context is done and whose callback is still to start.
pub no_lost_wakeup :
    (l : Limiter) (slots : ℤ) {s : System}
    → nonpos l.ceiling ≡ false
    → l.in_flight ≡ 0
    → Reach (Steady l slots) (start l) s
    → s.stopped ≡ 0
    → 1 ≤ s.parked
    → ltb_ℤ (pos s.limiter.in_flight) slots ≡ true
    → (1 ≤ s.ready) ⊎ ((1 ≤ s.broadcasts) ⊎ (1 ≤ s.unstarted + s.parked_unstarted))
no_lost_wakeup l slots h z r n k free = ground (arith, reach_Alert l slots h z r)

-- A limiter's state with `n` slots taken by as many holders, `r` goroutines about to try and `p` that wait.
abbrev pub crowd : Limiter → ℕ → ℕ → ℕ → System
crowd l n r p = record (start (record l { in_flight = n })) { ready = r; parked = p; holders = n }

turn-acquires :
    (l : Limiter) (f : ℤ) (n r p : ℕ)
    → ltb_ℤ (pos n) (effective l f) ≡ true
    → Step (λ free. free ≡ f) (crowd l n (suc r) p) (crowd l (n + 1) r p)
unfolding start
turn-acquires l f n r p h =
    let step : Step (λ free. free ≡ f) (crowd l n (suc r) p) _ = turn f refl refl in
    rw
      (try_acquire-acquired (record l { in_flight = n }) f
        (rw (effective-same l (record l { in_flight = n }) f refl refl) h))
      at step

turn-waits :
    (l : Limiter) (f : ℤ) (n r p : ℕ)
    → ltb_ℤ (pos n) (effective l f) ≡ false
    → Step (λ free. free ≡ f) (crowd l n (suc r) p) (crowd l n r (p + 1))
unfolding start
turn-waits l f n r p h =
    let step : Step (λ free. free ≡ f) (crowd l n (suc r) p) _ = turn f refl refl in
    rw
      (try_acquire-waits (record l { in_flight = n }) f
        (rw (effective-same l (record l { in_flight = n }) f refl refl) h))
      at step

arrives :
    (l : Limiter) (f : ℤ) (n r p : ℕ)
    → Step (λ free. free ≡ f) (crowd l n r p) (crowd l n (r + 1) p)
unfolding start
arrives l f n r p = arrive

-- Nobody is woken when the slots grow: with a reading that allows one slot, a state can be reached in
-- which one goroutine holds it and another waits, with no goroutine about to try and no broadcast to come,
-- and it is the same state when a later reading allows more.
pub growth_unnoticed :
    (l : Limiter) (f g : ℤ)
    → effective l f ≡ pos 1
    → pos 2 ≤ℤ effective l g
    → Reach (λ free. free ≡ f) (crowd l 0 0 0) (crowd l 1 0 1)
      × (ltb_ℤ (pos 1) (effective (record l { in_flight = 1 }) g) ≡ true)
growth_unnoticed l f g e more = (
  next
      (next (next (next here (arrives l f 0 0 0)) (turn-acquires l f 0 0 0 (rw e)))
        (arrives l f 1 0 0))
      (turn-waits l f 1 0 0 (rw e)),
  rw (effective-same l (record l { in_flight = 1 }) g refl refl) (ground arith),
)
