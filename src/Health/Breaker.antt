-- ===== src/Health/Breaker.antt =====
-- internal/health/breaker.go. Time is in nanoseconds since the epoch and given to each call; it is not
-- held to the range of int64, which ends in the year 2262. The counter is an int32.
pub mod Sequential
pub mod Race
mod Examples
use nexus_proxy.Shared.{ℕ, Bool, true, false, ◌||◌, List, [], ◌∷◌, not, if◌then◌else◌}
use nexus_proxy.Shared.Int.{ℤ, pos, negsuc, ltb_ℤ, is_zero, ◌+ℤ◌, wrap_int32}

pub data State : Type 0 where
  closed half_open opened : State

pub record Breaker : Type 0 where
  pub threshold : ℤ
  pub cooldown : ℤ
  pub state : State
  pub failure_count : ℤ
  pub cooldown_until : ℤ

unfoldable pub new : ℤ → ℤ → Breaker
new threshold cooldown = record {
  threshold = threshold;
  cooldown = cooldown;
  state = closed;
  failure_count = pos 0;
  cooldown_until = pos 0;
}

-- The cases of the switch in `IsOpen`, with no other call in between.
unfoldable pub ask : State → Breaker → ℤ → Breaker × Bool
ask closed b now = (b, false)
ask half_open b now = (b, true)
ask opened b now =
    if is_zero b.cooldown_until || ltb_ℤ now b.cooldown_until
    then (b, true)
    else (record b { state = half_open; failure_count = pos 0; cooldown_until = pos 0 }, false)

-- `IsOpen`.
unfoldable pub is_open : Breaker → ℤ → Breaker × Bool
unfolding ask
is_open b now = if is_zero b.threshold then (b, false) else ask b.state b now

abbrev pub is_half_open : State → Bool
is_half_open half_open = true
is_half_open closed = false
is_half_open opened = false

abbrev pub is_opened : State → Bool
is_opened opened = true
is_opened closed = false
is_opened half_open = false

-- `RecordFailure`; the flag says that the trip callback is due.
unfoldable pub record_failure : Breaker → ℤ → Breaker × Bool
record_failure b now =
    let count = wrap_int32 (b.failure_count +ℤ pos 1) in
    let counted = record b { failure_count = count } in
    let after_trip = record counted {
      cooldown_until = now +ℤ b.cooldown +ℤ pos 1;
      state = opened;
    } in
    if is_zero b.threshold
    then (b, false)
    else (if is_half_open b.state || not (ltb_ℤ count (wrap_int32 b.threshold))
        then (after_trip, not (is_opened b.state))
        else (counted, false))

-- `RecordSuccess`.
unfoldable pub record_success : Breaker → Breaker
record_success b =
    if is_zero b.threshold
    then b
    else record b { failure_count = pos 0; cooldown_until = pos 0; state = closed }
