-- ===== src/Lib.antt =====
-- nexus-proxy: a gateway between a coding agent and its model providers. This library models the parts of
-- it that decide: where a request goes, how it falls back over endpoints, and what protects the endpoints,
-- the local model and the budget.
--
-- How the parts interact. A request is first counted for its client (internal/ratelimit): the address is
-- resolved from the peer and the forwarded headers, and the client's token bucket lets it through or not.
-- The planner (internal/router) then chooses among the local model, a fusion panel and the frontier: the
-- VRAM guardrail, the budget, promoted patterns, the pattern fast-pass, the cache of earlier decisions and
-- at last the routing model, whose answer may be overridden by a confidence threshold. A local request
-- takes a slot of the concurrency limiter (internal/concurrencylimit), unless the poller
-- (internal/health) or the cooldown (internal/circuit) says that the endpoint is down, and is sent through
-- a cascade of steps (internal/upstream), each with its own timeout; the first step that answers is
-- written to the client. What a frontier call cost is recorded with the budget guard (internal/budget).
-- Outgoing connections are checked by the egress guard (internal/transport) where it is enabled.
-- The components are modelled one by one; the chat handler that calls them is not.
--
-- The files:
--   Shared, Shared/Tests, Shared/Lists, Shared/Int, Shared/Assoc: Boolean tests, lists measured by native
--     numbers, signed integers with Go's wrap-around, Go's maps as association lists.
--   Router/Types: routes, sources, decisions, and what the planner is given: float operations (`Floats`)
--     and the functions of the environment (`Env`).
--   Router/Dsl, Router/Dsl/Lowering: internal/router/dsl.go (Guardrail, DSL, toUnicodeLower) and
--     Categorize of internal/router/confidence.go.
--   Router/Slm: internal/router/slm.go. Slm itself has the system prompts, Slm/Scan and Slm/Parse read the
--     routing model's answer (extractFirstJSONObject, extractFencedJSON, parseSLMDecision, and decide behind the
--     HTTP call); texts
--     are lists of bytes. Slm/Balanced says what a balanced object is without a scanner, Slm/Sound and
--     Slm/First compare, Slm/Answers and Slm/Returns join.
--   Router/Cache, Cache/Calls, Cache/Sweep, Cache/Capped, Cache/Latest, Cache/Similar, Cache/Embedder:
--     internal/router/slm_cache.go, the memory of SLMDecisionCache with its evictions, the similarity search
--     and the breaker around the embedder.
--   Router/Selector, Selector/Order, Selector/Best: internal/router/selector.go, the choice among frontier
--     providers by score.
--   Router/Planner: internal/router/planner.go, `plan` for Planner.Plan, stage by stage; Planner/Stages
--     and Planner/Safety prove, Planner/Examples runs.
--   Upstream/Retry, Upstream/Fetch, Upstream/Cascade, Upstream/Prompt, Upstream/Timeout:
--     internal/upstream/cascade.go, with CountTokens of internal/tokenizer/tokenizer.go; `run` and
--     `run_buffered` for Cascade.Run and Cascade.RunBuffered, `do_fetch_cascade_step` for one attempt,
--     `effective_timeout` and `estimate_prompt_tokens` for the methods of these names.
--   Upstream/Arbiter, Arbiter/Order, Arbiter/Bounded, Arbiter/Lookup: internal/upstream/arbiter_cache.go.
--   Upstream/Coalescer, Coalescer/Order, Coalescer/Capped, Coalescer/Repeat: internal/upstream/coalesce.go,
--     `do_call` for Coalescer.Do; what singleflight makes of a call is an argument of it (`Flight`).
--   Health/Breaker, Breaker/Sequential, Breaker/Race: internal/health/breaker.go, as whole calls and as
--     atomic steps of two goroutines.
--   Health/Poller, Poller/Backoff: internal/health/health.go (probe, recordFailure, recordSuccess,
--     calcBackoffInterval, one tick of loop).
--   Health/Frontier, Frontier/Isolated: internal/health/frontier.go, a round of probes over the providers.
--   Health/Cooldown: internal/circuit/cooldown.go.
--   Limiter, Limiter/Wakeups, Wakeups/Lost, Limiter/Gpu, Gpu/Total:
--     internal/concurrencylimit/limiter.go; one function for each passage under a mutex, and a step relation for the goroutines around the condition
--     variable.
--   RateLimit, RateLimit/Rate, RateLimit/Reaper, RateLimit/Interval: internal/ratelimit/middleware.go;
--     RateLimit/ClientIp:
--     internal/ratelimit/clientip.go.
--   RateLimit/Auth, Auth/Window, Auth/Kept, Auth/Told, Auth/Exact: internal/ratelimit/auth.go; Auth/Exact has
--     the count of failures in a list of events that the limiter is compared with.
--   Budget, Budget/Window, Budget/Refines: internal/budget/budget.go.
--   Budget/Tracker, Tracker/History, Tracker/Buckets, Tracker/Filing, Tracker/Bounds:
--     internal/budget/tracker.go, the buckets by the minute, compared with the list of what was recorded.
--   Transport, Transport/Egress: internal/transport/egressguard.go; what package net computes is a record of
--     functions.
-- The modules named Examples hold runs at concrete inputs.
--
-- How the code is represented. A record holds the state of a component, and each operation returns the
-- new state with its result. The clock, the readings of the video memory, the answers of endpoints, JSON,
-- regular expressions, the encoder of tokens and the functions of net and strings are arguments. Loops
-- run over lists or are one turn of a step relation, so there is no fuel and every definition is total.
-- An int32, an int64 and a time.Duration wrap round where the code could reach their ends
-- (`wrap_int32`, `wrap_int64`); times are not held to the range that ends in the year 2262. The floats of
-- the planner and of the selector are records of operations; those of the rate limiter and of the
-- budget are exact numbers of a smallest unit, so their rounding is not modelled. Texts of errors, logs,
-- spans and metrics are left out, and so are the callbacks to observers, where no state depends on them.
--
-- What is not modelled: the chat handler, the promoter of the router, the fusion panel, the budget alerter,
-- the middleware, the providers, the judge, retrieval, authentication, configuration, the databases and the
-- observability packages.
pub mod Budget
pub mod Health
pub mod Limiter
pub mod RateLimit
pub mod Router
pub mod Shared
pub mod Transport
pub mod Upstream
