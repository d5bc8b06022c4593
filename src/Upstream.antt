-- ===== src/Upstream.antt =====
-- internal/upstream: the calls of the model endpoints. `Retry` classifies failures, `Fetch` is one call of
-- one endpoint, `Cascade` the ordered fallback over endpoints, `Timeout` the time given to each, `Arbiter`
-- the cache of arbitrated answers, `Coalescer` what concurrent requests share.
pub mod Retry
pub mod Fetch
pub mod Cascade
pub mod Prompt
pub mod Timeout
pub mod Arbiter
pub mod Coalescer
mod Examples
