-- ===== src/Limiter/Examples.antt =====
-- internal/concurrencylimit/limiter.go at concrete inputs: a ceiling of 4 with slots of 2 bytes, and five
-- slots on two GPUs.
use nexus_proxy.Shared.{◌+◌, ◌≡◌, ◌≤◌, ◌%◌, ◌⊎◌, refl, [], ◌∷◌, arith}
use nexus_proxy.Shared.Int.{pos}
use nexus_proxy.Limiter.{Limiter, effective, try_acquire, release}
use nexus_proxy.Limiter.Wakeups.{
  System, arrive, Reach, here, next, start, Bounded, reach_Bounded, turn, release_live,
  release_unstarted, done_parked, give_up_stopped,
}
use nexus_proxy.Limiter.Wakeups.Lost.{Steady, crowd, growth_unnoticed, no_lost_wakeup}
use nexus_proxy.Limiter.Gpu.{new_vram_limiter, attempt, got, turns, first_gpu_only}

abbrev limiter : Limiter
limiter = record { ceiling = pos 4; bytes_per_slot = pos 2; in_flight = 0 }

-- One goroutine holds the one slot that 3 bytes allow, one waits, and the holder's context is done late.
abbrev busy : Reach (λ f. f ≡ pos 3) (start limiter) (crowd limiter 1 0 1)
unfolding start effective
busy = (growth_unnoticed limiter (pos 3) (pos 8) refl (omega arith)).0

reach_Bounded_example : Bounded limiter (crowd limiter 1 0 1)
reach_Bounded_example = reach_Bounded {P = λ f. f ≡ pos 3} limiter refl refl busy

first_gpu_only_example :
    (turns 2 3 ((new_vram_limiter (pos 5) (pos 2) 2, λ i. pos 0) ∷ []) (attempt 0) ≡ attempt 0)
    ⊎ (turns 2 3 ((new_vram_limiter (pos 5) (pos 2) 2, λ i. pos 0) ∷ []) (attempt 0) ≡ got (3 % 2))
first_gpu_only_example =
    first_gpu_only 2 3 ((new_vram_limiter (pos 5) (pos 2) 2, λ i. pos 0) ∷ []) (omega arith)

-- One goroutine holds the slot and two wait; the release wakes one of them.
abbrev woken : System
woken = record (crowd limiter 0 1 1) { holders = 0 }

woken_reached : Reach (Steady limiter (pos 1)) (start limiter) woken
unfolding start effective try_acquire release
woken_reached =
    next
      (next
        (next (next (next (next (next here arrive) (turn (pos 3) refl refl)) arrive) arrive)
          (turn (pos 3) refl refl))
        (turn (pos 3) refl refl))
      (release_live (pos 3) (pos 3) refl refl refl refl refl)

no_lost_wakeup_example :
    (1 ≤ woken.ready) ⊎ ((1 ≤ woken.broadcasts) ⊎ (1 ≤ woken.unstarted + woken.parked_unstarted))
unfolding start
no_lost_wakeup_example =
    no_lost_wakeup limiter (pos 1) refl refl woken_reached refl (omega arith) refl

-- The release wakes the waiter whose context is done; it leaves, and its `stop` holds back the callback that
-- would have woken the other one, which waits beside the free slot with nobody to wake it.
abbrev stranded : System
stranded = record (crowd limiter 0 0 1) { holders = 0; stopped = 1 }

stranded_reached : Reach (Steady limiter (pos 1)) (start limiter) stranded
unfolding start effective try_acquire release
stranded_reached =
    next
      (next
        (next
          (next
            (next (next (next (next (next here arrive) (turn (pos 3) refl refl)) arrive) arrive)
              (turn (pos 3) refl refl))
            (turn (pos 3) refl refl))
          (done_parked refl))
        (release_unstarted (pos 3) (pos 3) refl refl refl refl refl))
      (give_up_stopped refl)
