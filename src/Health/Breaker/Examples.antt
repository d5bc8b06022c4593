-- ===== src/Health/Breaker/Examples.antt =====
-- internal/health/breaker.go at concrete inputs: a breaker with threshold 3 and a cooldown of 10.
use nexus_proxy.Shared.{◌≡◌, ◌≤◌, ◌<◌, ◌↔◌, refl, false, List, [], ◌∷◌, arith}
use nexus_proxy.Shared.Int.{pos, ◌+ℤ◌, wrap_int32}
use nexus_proxy.Health.Breaker.{
  Breaker, closed, half_open, opened, new, is_open, record_failure, record_success,
}
use nexus_proxy.Health.Breaker.Sequential.{
  ask_all, AllTrue, Event, failure, success, asked, tell, single_probe, tell_tripped,
}
use nexus_proxy.Health.Breaker.Race.{
  Reach, load_state, add_count, answered, finished, both, raced, race_reaches,
}

abbrev counting : Breaker
counting = record (new (pos 3) (pos 10)) { failure_count = pos 2 }

abbrev tripped : Breaker
tripped = record (new (pos 3) (pos 10)) {
  state = opened;
  failure_count = pos 3;
  cooldown_until = pos 31;
}

single_probe_example :
    ((is_open tripped (pos 31)).1 ≡ false)
    × AllTrue (ask_all (is_open tripped (pos 31)).0 (pos 32 ∷ pos 90 ∷ [])).1
unfolding new
single_probe_example = single_probe tripped (pos 31) (pos 32 ∷ pos 90 ∷ []) refl refl refl refl

-- Three failures trip the breaker, a caller is admitted as the probe, and the next failure trips it again.
abbrev probed : List Event
probed =
    failure (pos 1)
    ∷ success
    ∷ failure (pos 2)
    ∷ asked (pos 2)
    ∷ failure (pos 3)
    ∷ failure (pos 4)
    ∷ asked (pos 5)
    ∷ asked (pos 20)
    ∷ []

probed_half_open : (tell (new (pos 3) (pos 10)) probed).state ≡ half_open
unfolding tell record_failure record_success is_open new wrap_int32 ◌+ℤ◌
probed_half_open = refl

tell_tripped_example :
    let b = tell (new (pos 3) (pos 10)) probed in
    ((b.state ≡ closed) ↔ (3 < 3))
    × (((record_failure b (pos 21)).0.state ≡ opened)
        × ((3 < 3 → is_open b (pos 21) ≡ (b, false))
            × (3 ≤ 3
                → (is_open b (pos 21)).1 ≡ false
                → (b.state ≡ opened) × ((is_open b (pos 21)).0.state ≡ half_open))))
tell_tripped_example =
    tell_tripped 3 (pos 10) probed (pos 21) (omega arith) (omega arith) (omega arith)

race_reaches_example :
    Reach (both tripped load_state add_count) (both (raced tripped) (answered false) finished)
    × AllTrue (ask_all (raced tripped) (pos 41 ∷ pos 900000 ∷ [])).1
    × AllTrue (ask_all (record_failure (raced tripped) (pos 50)).0 (pos 41 ∷ pos 900000 ∷ [])).1
unfolding new
race_reaches_example =
    race_reaches tripped 3 (pos 40) (pos 50) (pos 41 ∷ pos 900000 ∷ []) refl (omega arith)
      (omega arith) refl refl refl
