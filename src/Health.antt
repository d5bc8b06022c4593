-- ===== src/Health.antt =====
-- internal/health and internal/circuit: what is known of the endpoints' state. `Breaker` is the
-- three-state breaker of the embedders (breaker.go), `Poller` the poller of the local server (health.go),
-- `Frontier` the probes of the frontier providers (frontier.go),
-- `Cooldown` the pause of the local route after a failure (internal/circuit/cooldown.go).
pub mod Breaker
pub mod Cooldown
pub mod Poller
pub mod Frontier
