-- ===== src/Router/Selector/Examples.antt =====
-- internal/router/selector.go: a choice among three providers, with scores that are natural numbers.
use nexus_proxy.Shared.{
  ℕ, ◌+◌, ◌*◌, ◌/◌, ◌≡◌, ◌↔◌, refl, true, false, none, some, List, [], ◌∷◌, ltb, ◌==◌, arith,
}
use nexus_proxy.Shared.Int.{pos, pos_part, wrap_int64, ◌-ℤ◌}
use nexus_proxy.Router.Selector.{
  SelectorFloats, ProviderStats, new_provider_selector, tail_blend, skipped, provider_score,
  bytes_before, select_frontier,
}
use nexus_proxy.Router.Selector.Order.{NoNan}
use nexus_proxy.Router.Selector.Best.{Among, select_frontier_best}

abbrev exact : SelectorFloats
exact = record {
  F = ℕ;
  less_than = ltb;
  equal = ◌==◌;
  add = ◌+◌;
  mul = ◌*◌;
  div = ◌/◌;
  of_int64 = pos_part;
  zero = 0;
  one = 1000000;
  default_max_error_rate = 3;
  epsilon = 1;
}

exact-NoNan : NoNan exact
exact-NoNan = record {
  equal_exact = λ a b. ground arith;
  asymmetric = λ a b h. ground arith;
  comparable = λ a b c h k. ground arith;
}

-- The second is the fastest but fails too often; the third and the first have equal scores.
abbrev three_stats : List (ProviderStats exact)
three_stats =
    record {
      name = 98 ∷ [];
      p50_latency_ms = pos 100;
      p95_latency_ms = pos 300;
      avg_cost_usd = 9;
      sample_count = pos 5;
      error_rate = 0;
    }
    ∷ record {
      name = 99 ∷ [];
      p50_latency_ms = pos 10;
      p95_latency_ms = pos 20;
      avg_cost_usd = 9;
      sample_count = pos 50;
      error_rate = 4;
    }
    ∷ record {
      name = 97 ∷ [];
      p50_latency_ms = pos 100;
      p95_latency_ms = pos 900;
      avg_cost_usd = 9;
      sample_count = pos 7;
      error_rate = 3;
    }
    ∷ []

abbrev third : ProviderStats exact
third = record {
  name = 97 ∷ [];
  p50_latency_ms = pos 100;
  p95_latency_ms = pos 900;
  avg_cost_usd = 9;
  sample_count = pos 7;
  error_rate = 3;
}

chooses_third : select_frontier exact (new_provider_selector exact) three_stats ≡ some third
unfolding select_frontier new_provider_selector tail_blend wrap_int64 ◌-ℤ◌
chooses_third = refl

abbrev blend : ℕ
blend = tail_blend exact (new_provider_selector exact)

select_frontier_best_example :
    ((w : ProviderStats exact)
      → select_frontier exact (new_provider_selector exact) three_stats ≡ some w
      → Among exact w three_stats
        × ((skipped exact (new_provider_selector exact) w ≡ false)
            × ((p : ProviderStats exact)
                → Among exact p three_stats
                → skipped exact (new_provider_selector exact) p ≡ false
                → (ltb (provider_score exact w blend) (provider_score exact p blend) ≡ false)
                  × ((provider_score exact p blend == provider_score exact w blend) ≡ true
                      → bytes_before p.name w.name ≡ false))))
    × ((select_frontier exact (new_provider_selector exact) three_stats ≡ none) ↔ (
        (p : ProviderStats exact)
        → Among exact p three_stats
        → skipped exact (new_provider_selector exact) p ≡ true))
select_frontier_best_example =
    select_frontier_best exact (new_provider_selector exact) exact-NoNan three_stats
