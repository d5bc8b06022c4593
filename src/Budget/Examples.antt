-- ===== src/Budget/Examples.antt =====
-- internal/budget/budget.go at concrete inputs: a limit of 100, a spend of 60 that expires and one of 50.
use nexus_proxy.Shared.{◌≡◌, ◌+◌, ◌-◌, [], ◌∷◌, ltb, List, arith}
use nexus_proxy.Shared.Int.{pos}
use nexus_proxy.Budget.{new_guard, check, would_exceed, remaining}
use nexus_proxy.Budget.Window.{Event, spends, checks, steps, spent_recently}
use nexus_proxy.Budget.Refines.{check_exact}

abbrev events : List Event
events = spends 1 2 60 "frontier" ∷ checks 3 10 ∷ spends 5 5 50 "judge" ∷ []

check_exact_example :
    let g = steps (new_guard (pos 100)) events in
    ((check g 86400000000004 51).1 ≡ ltb 100 (spent_recently 86400000000004 events + 51))
    × ((would_exceed g 86400000000004 51).1 ≡ ltb 100 (spent_recently 86400000000004 events + 51))
    × ((remaining g 86400000000004).1 ≡ 100 - spent_recently 86400000000004 events)
check_exact_example =
    check_exact 100 5 86400000000004 51 events (omega arith)
      (omega arith, (omega arith, (omega arith, (omega arith, (omega arith, omega arith)))))
      (omega arith)
