-- ===== src/Budget/Tracker/History.antt =====
-- internal/budget/tracker.go, what a tracker is asked and told in the order of the clock, and the amounts
-- recorded within a window.
use nexus_proxy.Shared.{ℕ, ◌+◌, ◌≤◌, List, [], ◌∷◌, Option, if◌then◌else◌, ltb}
use nexus_proxy.Shared.Int.{ℤ, pos_part}
use nexus_proxy.Budget.Tracker.{
  Spend, SpendTracker, tracker_would_exceed, tracker_record, current_spend, tracker_retry_after,
}

pub data Call : Type 0 where
  records : ℕ → ℤ → Call
  asks : ℕ → ℤ → Call
  reads : ℕ → Call
  waits : ℕ → ℕ → Call

unfoldable pub after : Option SpendTracker → Call → Option SpendTracker
after t (records now amount) = tracker_record t now amount
after t (asks now amount) = (tracker_would_exceed t now amount).0
after t (reads now) = (current_spend t now).0
after t (waits now later) = (tracker_retry_after t now later).0

unfoldable pub after_all : Option SpendTracker → List Call → Option SpendTracker
after_all t [] = t
after_all t (c ∷ cs) = after_all (after t c) cs

abbrev pub time_of : Call → ℕ
time_of (records now amount) = now
time_of (asks now amount) = now
time_of (reads now) = now
time_of (waits now later) = now

-- The readings of the clock never go back, from `from` to `until`.
abbrev pub InOrder : ℕ → ℕ → List Call → Type 0
InOrder from until [] = from ≤ until
InOrder from until (c ∷ cs) = (from ≤ time_of c) × InOrder (time_of c) until cs

-- What of the entries is not older than `age` at `now`.
unfoldable pub within : ℕ → ℕ → List Spend → ℕ
within age now [] = 0
within age now (e ∷ es) = (if ltb (e.at + age) now then 0 else e.amount) + within age now es

abbrev pub spent_by : ℕ → ℕ → Call → ℕ
spent_by age now (records at amount) = if ltb (at + age) now then 0 else pos_part amount
spent_by age now (asks at amount) = 0
spent_by age now (reads at) = 0
spent_by age now (waits at later) = 0

-- What the calls recorded that is not older than `age` at `now`.
unfoldable pub recorded_within : ℕ → ℕ → List Call → ℕ
recorded_within age now [] = 0
recorded_within age now (c ∷ cs) = spent_by age now c + recorded_within age now cs
