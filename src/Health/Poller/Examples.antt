-- ===== src/Health/Poller/Examples.antt =====
-- internal/health/health.go at concrete inputs: a poller with an interval of 30 s and a threshold of 3.
use nexus_proxy.Shared.{◌≡◌, true, false, [], ◌∷◌, ltb, arith, if◌then◌else◌}
use nexus_proxy.Shared.Int.{pos}
use nexus_proxy.Health.Poller.{Health, new_health, calc_backoff_interval}
use nexus_proxy.Health.Poller.Backoff.{tell, trailing, tell_healthy}

abbrev poller : Health
poller = new_health (pos 30000000000) (pos 3)

tell_healthy_example :
    let es = true ∷ false ∷ false ∷ false ∷ [] in
    let h = tell poller es in
    let n = trailing 0 es in
    (h.healthy ≡ ltb n 3)
    × (h.current_interval ≡ (if ltb n 3 then pos 30000000000 else calc_backoff_interval h (pos n)))
tell_healthy_example =
    tell_healthy 30000000000 3 (true ∷ false ∷ false ∷ false ∷ []) (omega arith) (omega arith)
      (omega arith) (omega arith)
