-- ===== src/Health/Frontier.antt =====
-- internal/health/frontier.go: the circuits of the frontier's providers. The map of the states is an
-- association list, and what the HTTP client makes of a probe is given to the probe. The probes of one round
-- run at the same time and record under one mutex: the model takes them in the order in which they record.
-- The logs, the callbacks' bodies and the goroutine's start and end are left out.
pub mod Isolated
mod Examples
use nexus_proxy.Shared.{
  ℕ, Bool, true, false, not, String, Option, none, some, List, [], ◌∷◌, ◌++◌, leb, if◌then◌else◌,
}
use nexus_proxy.Shared.Int.{ℤ, pos, ltb_ℤ, nonpos, ◌+ℤ◌, wrap_int32}
use nexus_proxy.Shared.Assoc.{string_eq, lookup, insert}
use nexus_proxy.Health.Poller.{Reply, unanswered, status}

pub record ProviderState : Type 0 where
  pub healthy : Bool
  pub failure_count : ℤ

pub record FrontierHealth : Type 0 where
  pub breaker_threshold : ℤ
  pub states : List (String × ProviderState)

-- The calls of `onTrip` and `onRecovery`.
pub data Notice : Type 0 where
  tripped recovered : String → Notice

abbrev pub fresh_state : ProviderState
fresh_state = record { healthy = true; failure_count = pos 0 }

-- `NewFrontierHealth`, the loop over the targets.
unfoldable pub register :
    List String → List (String × ProviderState) → List (String × ProviderState)
register [] states = states
register (name ∷ names) states = register names (insert name fresh_state states)

-- `NewFrontierHealth`, without the interval, the timeout and the client.
unfoldable pub new_frontier_health : List String → ℤ → FrontierHealth
unfolding register
new_frontier_health targets breaker_threshold = record {
  breaker_threshold = wrap_int32 (if nonpos breaker_threshold then pos 3 else breaker_threshold);
  states = register targets [];
}

-- `recordFailure`: the state, and whether `onTrip` is called.
unfoldable pub frontier_failure : ℤ → ProviderState → ProviderState × Bool
frontier_failure threshold st =
    let count = wrap_int32 (st.failure_count +ℤ pos 1) in
    if not (ltb_ℤ count threshold)
    then (record { healthy = false; failure_count = count }, st.healthy)
    else (record st { failure_count = count }, false)

-- `recordSuccess`: the state, and whether `onRecovery` is called.
unfoldable pub frontier_success : ProviderState → ProviderState × Bool
frontier_success st = (record { healthy = true; failure_count = pos 0 }, not st.healthy)

-- `probeOne`: whether the probe fails.
unfoldable pub probe_fails : Reply → Bool
probe_fails unanswered = true
probe_fails (status code) = leb 500 code

unfoldable pub noticed : Bool → Notice → List Notice
noticed true n = n ∷ []
noticed false n = []

unfoldable pub recorded : String → Reply → ℤ → ProviderState → ProviderState × List Notice
unfolding frontier_failure frontier_success probe_fails noticed
recorded name reply threshold st =
    let (down, tell_trip) = frontier_failure threshold st in
    let (up, tell_recovery) = frontier_success st in
    if probe_fails reply
    then (down, noticed tell_trip (tripped name))
    else (up, noticed tell_recovery (recovered name))

-- `probeOne`, of a provider that is registered.
unfoldable pub probe_one : FrontierHealth → String → Reply → FrontierHealth × List Notice
unfolding recorded
probe_one fh name reply = elim (lookup name fh.states) [
  | none ↦ (fh, [])
  | some st ↦
      let (next, notices) = recorded name reply fh.breaker_threshold st in
      (record fh { states = insert name next fh.states }, notices)
]

-- `probeAll`, round after round, in the order in which the probes record.
unfoldable pub probe_all : FrontierHealth → List (String × Reply) → FrontierHealth × List Notice
unfolding probe_one
probe_all fh [] = (fh, [])
probe_all fh ((name, reply) ∷ probes) =
    let (next, first) = probe_one fh name reply in
    let (last, rest) = probe_all next probes in (last, first ++ rest)

-- `IsHealthy`; no states is the nil one.
unfoldable pub is_healthy : Option FrontierHealth → String → Bool
is_healthy none name = true
is_healthy (some fh) name = elim (lookup name fh.states) [ none ↦ true | some st ↦ st.healthy ]

-- `UnhealthyProviders`.
unfoldable pub unhealthy_names : List (String × ProviderState) → List String
unhealthy_names [] = []
unhealthy_names ((name, st) ∷ states) =
    let rest = unhealthy_names states in if st.healthy then rest else name ∷ rest

unfoldable pub unhealthy_providers : Option FrontierHealth → List String
unfolding unhealthy_names
unhealthy_providers none = []
unhealthy_providers (some fh) = unhealthy_names fh.states
