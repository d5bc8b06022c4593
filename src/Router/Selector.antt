-- ===== src/Router/Selector.antt =====
-- internal/router/selector.go: the choice among the frontier providers. Float64 is a record of operations; a
-- name is the list of its bytes, as Go compares strings. The cache of the statistics is here too, with each
-- reading of the clock and each reply of the source given to the call.
mod Order
pub mod Best
mod Examples
use nexus_proxy.Shared.{
  ℕ, Bool, true, false, not, ◌&&◌, ◌||◌, Option, none, some, List, [], ◌∷◌, ltb, ◌==◌,
  if◌then◌else◌,
}
use nexus_proxy.Shared.Int.{ℤ, pos, ltb_ℤ, nonpos, ◌-ℤ◌, wrap_int64}

-- The operations on float64 that the selector uses, and its constants.
pub record SelectorFloats : Type 1 where
  pub F : Type 0
  pub less_than : F → F → Bool
  pub equal : F → F → Bool
  pub add : F → F → F
  pub mul : F → F → F
  pub div : F → F → F
  pub of_int64 : ℤ → F
  pub zero : F
  pub one : F
  pub default_max_error_rate : F
  pub epsilon : F

unfoldable pub bytes_before : List ℕ → List ℕ → Bool
bytes_before [] [] = false
bytes_before [] (d ∷ t) = true
bytes_before (c ∷ s) [] = false
bytes_before (c ∷ s) (d ∷ t) = let rest = bytes_before s t in ltb c d || ((c == d) && rest)

module _ (f : SelectorFloats) where
  pub record ProviderStats : Type 0 where
    pub name : List ℕ
    pub p50_latency_ms : ℤ
    pub p95_latency_ms : ℤ
    pub avg_cost_usd : f.F
    pub sample_count : ℤ
    pub error_rate : f.F

  pub record ProviderSelector : Type 0 where
    pub min_samples : ℤ
    pub max_error_rate : f.F
    pub tail_weight : f.F
    pub health : Option (List ℕ → Bool)

  -- `NewProviderSelector`.
  unfoldable pub new_provider_selector : ProviderSelector
  new_provider_selector = record {
    min_samples = pos 5;
    max_error_rate = f.default_max_error_rate;
    tail_weight = f.zero;
    health = none;
  }

  -- `SelectFrontier`, the three thresholds.
  unfoldable pub floor_samples : ProviderSelector → ℤ
  floor_samples s = if nonpos s.min_samples then pos 5 else s.min_samples

  unfoldable pub error_ceiling : ProviderSelector → f.F
  error_ceiling s =
      if f.less_than s.max_error_rate f.zero then f.default_max_error_rate else s.max_error_rate

  unfoldable pub tail_blend : ProviderSelector → f.F
  tail_blend s = if f.less_than s.tail_weight f.zero then f.zero else s.tail_weight

  unfoldable pub circuit_open : Option (List ℕ → Bool) → List ℕ → Bool
  circuit_open none name = false
  circuit_open (some is_healthy) name = not (is_healthy name)

  -- `SelectFrontier`, the four tests by which a provider is skipped.
  unfoldable pub skipped : ProviderSelector → ProviderStats → Bool
  unfolding floor_samples error_ceiling circuit_open
  skipped s p =
      ltb_ℤ p.sample_count (floor_samples s)
      || (f.less_than (error_ceiling s) p.error_rate
          || (nonpos p.p50_latency_ms || circuit_open s.health p.name))

  unfoldable pub candidates : ProviderSelector → List ProviderStats → List ProviderStats
  unfolding skipped
  candidates s [] = []
  candidates s (p ∷ ps) = let rest = candidates s ps in if skipped s p then rest else p ∷ rest

  -- `providerScore`.
  unfoldable pub provider_score : ProviderStats → f.F → f.F
  provider_score p tail_weight =
      let p50 = f.of_int64 p.p50_latency_ms in
      let drag = f.of_int64 (wrap_int64 (p.p95_latency_ms -ℤ p.p50_latency_ms)) in
      let tail = if f.less_than drag f.zero then f.zero else drag in
      let effective = f.add p50 (f.mul tail_weight tail) in
      f.div f.one (f.mul effective (f.add p.avg_cost_usd f.epsilon))

  -- `SelectFrontier`, the order it sorts by.
  unfoldable pub ranks_before : f.F → ProviderStats → ProviderStats → Bool
  unfolding provider_score bytes_before
  ranks_before tail_weight p q =
      let si = provider_score p tail_weight in
      let sj = provider_score q tail_weight in
      if not (f.equal si sj) then f.less_than sj si else bytes_before p.name q.name

  -- `sort.SliceStable`, as the insertion that keeps equal elements in their order.
  unfoldable pub stable_insert :
      (ProviderStats → ProviderStats → Bool)
      → ProviderStats
      → List ProviderStats
      → List ProviderStats
  stable_insert less p [] = p ∷ []
  stable_insert less p (q ∷ qs) =
      let later = stable_insert less p qs in if less q p then q ∷ later else p ∷ (q ∷ qs)

  unfoldable pub slice_stable :
      (ProviderStats → ProviderStats → Bool) → List ProviderStats → List ProviderStats
  unfolding stable_insert
  slice_stable less [] = []
  slice_stable less (p ∷ ps) = stable_insert less p (slice_stable less ps)

  unfoldable pub first_of : List ProviderStats → Option ProviderStats
  first_of [] = none
  first_of (p ∷ ps) = some p

  -- `SelectFrontier`; `none` is the empty name with the zero statistics.
  unfoldable pub select_frontier : ProviderSelector → List ProviderStats → Option ProviderStats
  unfolding candidates ranks_before slice_stable first_of
  select_frontier s stats =
      first_of (slice_stable (ranks_before (tail_blend s)) (candidates s stats))

  -- `ProviderStatsCache`, with whether it has a source. What `Refresh` records of the source's error is a
  -- flag of its own.
  pub record ProviderStatsCache : Type 0 where
    pub selector : ProviderSelector
    pub has_source : Bool
    pub stats : List ProviderStats
    pub last_error : Option Bool
    pub updated : ℕ

  -- `Refresh`, by the reply of the source and the time behind it; a `last_error` of `some true` is
  -- ErrSelectorDisabled, of `some false` the source's.
  unfoldable pub store_reply :
      ProviderStatsCache → Option (List ProviderStats) → ℕ → ProviderStatsCache
  store_reply c none now = record c { last_error = some false }
  store_reply c (some stats) now = record c { stats = stats; last_error = none; updated = now }

  unfoldable pub refresh_stats :
      ProviderStatsCache → Option (List ProviderStats) → ℕ → ProviderStatsCache
  unfolding store_reply
  refresh_stats c reply now =
      if not c.has_source then record c { last_error = some true } else store_reply c reply now

  -- The cache's `SelectFrontier`, over its `Snapshot`, which is a copy.
  unfoldable pub cached_select : ProviderStatsCache → Option ProviderStats
  unfolding select_frontier
  cached_select c = select_frontier c.selector c.stats
