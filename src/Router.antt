-- ===== src/Router.antt =====
-- internal/router: where a request is executed. `Types` has the routes and decisions, `Dsl` the guardrail
-- and the pattern fast-pass (dsl.go), `Slm` the prompts and the answers of the routing model (slm.go),
-- `Cache` the cache of its decisions (slm_cache.go), `Selector` the choice among frontier providers
-- (selector.go), `Planner` the pipeline that joins them (planner.go).
pub mod Types
pub mod Dsl
pub mod Slm
pub mod Cache
pub mod Selector
pub mod Planner
