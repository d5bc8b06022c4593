-- ===== src/Health/Frontier/Examples.antt =====
-- internal/health/frontier.go at concrete inputs: two providers, of which one fails three times in a row.
use nexus_proxy.Shared.{◌≡◌, refl, String, some, List, [], ◌∷◌, ltb, arith}
use nexus_proxy.Shared.Int.{pos, ◌+ℤ◌, wrap_int32}
use nexus_proxy.Shared.Assoc.{lookup, insert}
use nexus_proxy.Health.Poller.{Reply, unanswered, status}
use nexus_proxy.Health.Frontier.{
  tripped, new_frontier_health, register, probe_all, probe_one, recorded, frontier_failure,
  frontier_success, probe_fails, noticed, is_healthy, unhealthy_providers, unhealthy_names,
}
use nexus_proxy.Health.Frontier.Isolated.{streak, frontier_isolated, listed}

abbrev targets : List String
targets = "deepseek" ∷ "openai" ∷ []

abbrev rounds : List (String × Reply)
rounds =
    ("deepseek", unanswered)
    ∷ ("openai", status 200)
    ∷ ("openai", status 401)
    ∷ ("deepseek", status 503)
    ∷ ("deepseek", status 500)
    ∷ ("openai", unanswered)
    ∷ []

frontier_isolated_example :
    is_healthy (some (probe_all (new_frontier_health targets (pos 3)) rounds).0) "deepseek"
    ≡ ltb (streak "deepseek" 0 rounds) 3
unfolding listed
frontier_isolated_example =
    frontier_isolated targets 3 "deepseek" rounds (omega arith) (omega arith) refl (omega arith)

-- The third failure is told once, and only this provider is unhealthy.
told_once :
    ((probe_all (new_frontier_health targets (pos 3)) rounds).1 ≡ tripped "deepseek" ∷ [])
    × (unhealthy_providers (some (probe_all (new_frontier_health targets (pos 3)) rounds).0)
        ≡ "deepseek" ∷ [])
unfolding probe_all probe_one recorded frontier_failure frontier_success probe_fails noticed
    new_frontier_health register lookup insert wrap_int32 ◌+ℤ◌ unhealthy_providers unhealthy_names
told_once = (refl, refl)
