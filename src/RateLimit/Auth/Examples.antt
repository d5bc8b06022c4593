-- ===== src/RateLimit/Auth/Examples.antt =====
-- internal/ratelimit/auth.go at concrete inputs: a burst of 2 within 10 nanoseconds.
use nexus_proxy.Shared.{◌≡◌, refl, true, false, ◌||◌, some, List, [], ◌∷◌, leb, arith}
use nexus_proxy.Shared.Int.{pos}
use nexus_proxy.Shared.Assoc.{lookup, insert}
use nexus_proxy.RateLimit.Auth.{
  new_auth_limiter, is_blocked, blocked_live, fail_live, record_auth_failure, failure_at, note_time,
  count_of, with_reason, prune_times, prune_failure, over_burst, wrap_auth, told_reason,
}
use nexus_proxy.RateLimit.Auth.Window.{
  AuthEvent, fails, asks, reaps, auth_step, auth_steps, failed_within,
}
use nexus_proxy.RateLimit.Auth.Exact.{auth_exact}

abbrev events : List AuthEvent
events =
    fails "a" "missing" 1
    ∷ fails "b" "invalid" 2
    ∷ asks "a" 3
    ∷ reaps ("b" ∷ []) 4
    ∷ fails "a" "missing" 5
    ∷ []

auth_exact_example :
    (is_blocked (auth_steps (new_auth_limiter (pos 5) (pos 2) (pos 10)) events) "a" 11).1 ≡ (
      leb 2 (failed_within 10 11 "a" "missing" events)
      || leb 2 (failed_within 10 11 "a" "invalid" events))
auth_exact_example =
    auth_exact 5 2 10 5 11 "a" events (omega arith) (omega arith) (omega arith)
      (omega arith, (omega arith, (omega arith, (omega arith, (omega arith, omega arith)))))
      (omega arith)

-- Two failures far apart are told as a block, though the address is not blocked.
told_unblocked :
    let al = auth_steps (new_auth_limiter (pos 5) (pos 2) (pos 10)) (fails "a" "missing" 1 ∷ []) in
    ((record_auth_failure al "a" "missing" 100).1 ≡ true)
    × ((is_blocked (record_auth_failure al "a" "missing" 100).0 "a" 100).1 ≡ false)
unfolding auth_steps auth_step new_auth_limiter is_blocked blocked_live fail_live
    record_auth_failure failure_at note_time count_of with_reason prune_times prune_failure
    over_burst lookup insert
told_unblocked = (refl, refl)

-- The reason that is told stays the first one.
stale_reason :
    (wrap_auth
      (auth_steps
        (new_auth_limiter (pos 5) (pos 1) (pos 10))
        (fails "a" "missing" 1 ∷ fails "a" "invalid" 100 ∷ []))
      "a"
      101).1
    ≡ some "missing"
unfolding auth_steps auth_step new_auth_limiter is_blocked blocked_live fail_live
    record_auth_failure failure_at note_time count_of with_reason prune_times prune_failure
    over_burst lookup insert wrap_auth told_reason
stale_reason = refl
