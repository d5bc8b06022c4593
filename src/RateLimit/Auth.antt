-- ===== src/RateLimit/Auth.antt =====
-- internal/ratelimit/auth.go: the block of an address behind too many failed authentications. Each reading of
-- the clock, in nanoseconds, is given to the call. The setters of the configuration reload and of the
-- callbacks, the goroutine of the reaper and the logs are left out.
pub mod Window
mod Kept
mod Told
pub mod Exact
mod Examples
use text.Mathlib.Text.{◌==◌ as str_eq}
use nexus_proxy.Shared.{
  ℕ, zero, suc, ◌+◌, Bool, true, false, ◌&&◌, ◌||◌, String, Option, none, some, List, [], ◌∷◌, ◌++◌,
  ltb, leb, length, if◌then◌else◌,
}
use nexus_proxy.Shared.Int.{ℤ, pos_part, nonpos}
use nexus_proxy.Shared.Assoc.{string_eq, lookup, insert, delete}

pub record AuthFailure : Type 0 where
  pub missing_ts : List ℕ
  pub invalid_ts : List ℕ
  pub block_reason : String
  pub last_seen : ℕ

-- A disabled limiter has rpm 0.
pub record AuthLimiter : Type 0 where
  pub enabled : Bool
  pub burst : ℕ
  pub window : ℕ
  pub failures : List (String × AuthFailure)

-- `NewAuthLimiter`: a burst of 3 and a window of 5 minutes are the defaults.
unfoldable pub new_auth_limiter : ℤ → ℤ → ℤ → AuthLimiter
new_auth_limiter rpm burst window =
    if nonpos rpm
    then record { enabled = false; burst = 0; window = 0; failures = [] }
    else record {
      enabled = true;
      burst = if nonpos burst then 3 else pos_part burst;
      window = if nonpos window then 300000000000 else pos_part window;
      failures = [];
    }

-- `Before(cutoff)`.
abbrev pub outside_window : ℕ → ℕ → ℕ → Bool
outside_window window now t = ltb (t + window) now

-- `pruneLocked`, one of its loops.
unfoldable pub prune_times : ℕ → ℕ → List ℕ → List ℕ
prune_times window now [] = []
prune_times window now (t ∷ ts) =
    let rest = prune_times window now ts in if outside_window window now t then rest else t ∷ ts

-- `pruneLocked`.
unfoldable pub prune_failure : ℕ → ℕ → AuthFailure → AuthFailure
unfolding prune_times
prune_failure window now f = record f {
  missing_ts = prune_times window now f.missing_ts;
  invalid_ts = prune_times window now f.invalid_ts;
}

-- The test of `IsBlocked` and `BlockedCount`.
unfoldable pub over_burst : ℕ → AuthFailure → Bool
over_burst burst f = leb burst (length f.missing_ts) || leb burst (length f.invalid_ts)

-- `IsBlocked`, behind its guard.
unfoldable pub blocked_live : AuthLimiter → String → ℕ → AuthLimiter × Bool
unfolding prune_failure over_burst
blocked_live al ip now = elim (lookup ip al.failures) [
  | none ↦ (al, false)
  | some f ↦
      let g = prune_failure al.window now f in
      (record al { failures = insert ip g al.failures }, over_burst al.burst g)
]

-- `IsBlocked`.
unfoldable pub is_blocked : AuthLimiter → String → ℕ → AuthLimiter × Bool
unfolding blocked_live
is_blocked al ip now = if al.enabled then blocked_live al ip now else (al, false)

-- `RecordFailure`, the failure under the address.
unfoldable pub failure_at : Option AuthFailure → AuthFailure
failure_at none = record { missing_ts = []; invalid_ts = []; block_reason = ""; last_seen = 0 }
failure_at (some f) = f

-- `RecordFailure`, the time noted under its reason.
unfoldable pub note_time : String → ℕ → AuthFailure → AuthFailure
note_time reason now f =
    if str_eq reason "missing"
    then record f { missing_ts = f.missing_ts ++ (now ∷ []); last_seen = now }
    else (if str_eq reason "invalid"
        then record f { invalid_ts = f.invalid_ts ++ (now ∷ []); last_seen = now }
        else record f { last_seen = now })

-- `RecordFailure`, the count that is tested: of the times that are held, expired ones included.
unfoldable pub count_of : String → AuthFailure → ℕ
count_of reason f = if str_eq reason "invalid" then length f.invalid_ts else length f.missing_ts

unfoldable pub with_reason : String → AuthFailure → AuthFailure
with_reason reason f = if str_eq f.block_reason "" then record f { block_reason = reason } else f

-- `RecordFailure`, behind its guard.
unfoldable pub fail_live : AuthLimiter → String → String → ℕ → AuthLimiter × Bool
unfolding failure_at note_time count_of with_reason
fail_live al ip reason now =
    let f = note_time reason now (failure_at (lookup ip al.failures)) in
    let full = leb al.burst (count_of reason f) in
    (
      record al { failures = insert ip (if full then with_reason reason f else f) al.failures },
      full,
    )

-- `RecordFailure`: the limiter, and whether `onBlock` is called.
unfoldable pub record_auth_failure : AuthLimiter → String → String → ℕ → AuthLimiter × Bool
unfolding fail_live
record_auth_failure al ip reason now =
    if al.enabled then fail_live al ip reason now else (al, false)

-- The test of `Reap` and `reaper`, behind the pruning: idle for 10 minutes and no failure left.
unfoldable pub is_idle : ℕ → AuthFailure → Bool
is_idle now f =
    ltb (f.last_seen + 600000000000) now
    && (leb (length f.missing_ts) 0 && leb (length f.invalid_ts) 0)

-- `Reap` and one tick of `reaper`: one address of the map.
unfoldable pub reap_failure :
    ℕ → ℕ → String → List (String × AuthFailure) → List (String × AuthFailure)
unfolding prune_failure is_idle
reap_failure window now ip fs = elim (lookup ip fs) [
  | none ↦ fs
  | some f ↦
      let g = prune_failure window now f in if is_idle now g then delete ip fs else insert ip g fs
]

-- Their loop over the addresses that the map has, in any order.
unfoldable pub reap_failures :
    ℕ → ℕ → List String → List (String × AuthFailure) → List (String × AuthFailure)
unfolding reap_failure
reap_failures window now [] fs = fs
reap_failures window now (ip ∷ ips) fs =
    reap_failures window now ips (reap_failure window now ip fs)

-- `Reap`.
unfoldable pub reap_auth : AuthLimiter → ℕ → List String → AuthLimiter
unfolding reap_failures
reap_auth al now ips =
    if al.enabled then record al { failures = reap_failures al.window now ips al.failures } else al

-- `BlockedCount`, without what it prunes.
unfoldable pub blocked_count : ℕ → ℕ → ℕ → List (String × AuthFailure) → ℕ
unfolding prune_failure over_burst
blocked_count burst window now [] = 0
blocked_count burst window now ((ip, f) ∷ fs) =
    let rest = blocked_count burst window now fs in
    if over_burst burst (prune_failure window now f) then suc rest else rest

-- `Wrap`, the reason that `onBlock` is told.
unfoldable pub told_reason : Option AuthFailure → String
told_reason none = "missing"
told_reason (some f) = if str_eq f.block_reason "" then "missing" else f.block_reason

-- `Wrap`: whether a request from this address is refused, and the reason that `onBlock` is told.
unfoldable pub wrap_auth : AuthLimiter → String → ℕ → AuthLimiter × Option String
unfolding is_blocked told_reason
wrap_auth al ip now =
    let (next, blocked) = is_blocked al ip now in
    if blocked then (next, some (told_reason (lookup ip next.failures))) else (next, none)
