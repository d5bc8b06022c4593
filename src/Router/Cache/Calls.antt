-- ===== src/Router/Cache/Calls.antt =====
-- internal/router/slm_cache.go: the calls that change the cache.
use nexus_proxy.Shared.{ℕ, Bool, String, Option, List, [], ◌∷◌}
use nexus_proxy.Router.Types.{Route}
use nexus_proxy.Router.Cache.{WarmEntry, SlmCache, set_embedding, warm}

module _ (E : Type 0) (sort : (String → String → Bool) → List String → List String) where
  -- `Set` or `SetEmbedding` with the readings of the clock, and `Warm`.
  pub data Call : Type 0 where
    sets : String → Route → Option E → ℕ → ℕ → Call
    warms : ℕ → List (WarmEntry × ℕ) → Call

  unfoldable pub after : SlmCache E sort → Call → SlmCache E sort
  after c (sets prompt route emb now stamp) = set_embedding E sort c prompt route emb now stamp
  after c (warms now es) = warm E sort c now es

  unfoldable pub after_all : SlmCache E sort → List Call → SlmCache E sort
  after_all c [] = c
  after_all c (x ∷ xs) = after_all (after c x) xs
