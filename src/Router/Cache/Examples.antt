-- ===== src/Router/Cache/Examples.antt =====
-- internal/router/slm_cache.go at concrete inputs: a cache of two entries in which keys are written again, and
-- the failures of an embedder.
use nexus_proxy.Shared.{
  ℕ, ◌+◌, ◌*◌, ◌≡◌, ◌≤◌, refl, Bool, true, String, none, some, List, [], ◌∷◌, ltb, leb, length,
  if◌then◌else◌,
}
use nexus_proxy.Shared.Int.{pos, pos_part, nonpos}
use nexus_proxy.Shared.Assoc.{lookup, insert, delete}
use nexus_proxy.Router.Types.{local, frontier, fusion}
use nexus_proxy.Router.Cache.{
  default_ttl, default_max_entries, CachedDecision, new_slm_cache, sort_expiry, sweep, meet, noted,
  without_met, evict_expired, evict_oldest, evict_lru_entry, make_space, write, set_embedding,
  get_exact, warm_entry, warm_loop, warm,
}
use nexus_proxy.Router.Cache.Calls.{Call, sets, warms, after, after_all}
use nexus_proxy.Router.Cache.Sweep.{Moves}
use nexus_proxy.Router.Cache.Capped.{slm_entries_capped}
use nexus_proxy.Router.Cache.Latest.{store_all, slm_get_latest, slm_get-set}
use nexus_proxy.Router.Cache.Similar.{
  Reals, FromEntry, get_semantic, semantic_scan, verdict, compared, better, cosine_similarity,
  cosine_loop, get_semantic_sound,
}
use nexus_proxy.Router.Cache.Embedder.{
  new_embed_breaker, note_failure, put_slot, failures, two_failures_all, embed_once,
  embed_breaker_two,
}

-- Keys that already stand in the order of their stamps.
abbrev keep_order : (String → String → Bool) → List String → List String
keep_order less ks = ks

keep_order-Moves : Moves keep_order
keep_order-Moves less k ks = refl

abbrev calls : List (Call ℕ keep_order)
calls =
    sets "a" local none 1 1
    ∷ sets "a" fusion none 2 2
    ∷ sets "b" frontier none 3 3
    ∷ warms 4 ((record { prompt = "c"; warm_route = local; timestamp = 3 }, 4) ∷ [])
    ∷ []

slm_entries_capped_example :
    length (after_all ℕ keep_order (new_slm_cache ℕ keep_order (pos 10) (pos 2)) calls).entries
    ≤ (if nonpos (pos 2) then default_max_entries else pos_part (pos 2))
slm_entries_capped_example = slm_entries_capped ℕ keep_order (pos 10) (pos 2) calls keep_order-Moves

slm_get_latest_example :
    let live = if nonpos (pos 10) then default_ttl else pos_part (pos 10) in
    (stamp : ℕ) × ((store_all ℕ keep_order live calls (λ k. none) "b" ≡ some (frontier, stamp))
      × (9 ≤ stamp + live))
unfolding after_all after set_embedding warm warm_loop warm_entry make_space evict_lru_entry
    evict_oldest evict_expired sort_expiry sweep meet noted without_met write new_slm_cache
    get_exact lookup insert delete
slm_get_latest_example = slm_get_latest ℕ keep_order (pos 10) (pos 2) calls "b" 9 frontier refl

slm_get-set_example :
    get_exact ℕ keep_order
      (set_embedding ℕ keep_order
        (after_all ℕ keep_order (new_slm_cache ℕ keep_order (pos 10) (pos 2)) calls)
        "d"
        local
        none
        5
        6)
      "d"
      16
    ≡ (if ltb
          (6 + (after_all ℕ keep_order (new_slm_cache ℕ keep_order (pos 10) (pos 2)) calls).ttl)
          16
        then none
        else some local)
slm_get-set_example =
    slm_get-set ℕ keep_order
      (after_all ℕ keep_order (new_slm_cache ℕ keep_order (pos 10) (pos 2)) calls) "d" local none 5
      6 16

-- Of two entries, writing the key of one again removes the other one.
rewrite_loses :
    get_exact ℕ keep_order
      (after_all ℕ keep_order
        (new_slm_cache ℕ keep_order (pos 10) (pos 2))
        (sets "a" local none 1 1 ∷ sets "b" frontier none 2 2 ∷ sets "b" frontier none 3 3 ∷ []))
      "a"
      4
    ≡ none
unfolding after_all after set_embedding make_space evict_lru_entry evict_oldest evict_expired
    sort_expiry sweep meet noted without_met write new_slm_cache get_exact lookup insert delete
rewrite_loses = refl

-- A key that is written again counts as another entry that will be stale: the count exceeds the entries.
stale_count_drifts :
    let c =
      after_all ℕ keep_order
        (new_slm_cache ℕ keep_order (pos 10) (pos 2))
        (sets "a" local none 1 1 ∷ sets "a" local none 2 2 ∷ sets "a" local none 3 3 ∷ []) in
    (c.stale_count ≡ 3) × (length c.entries ≡ 1)
unfolding after_all after set_embedding make_space evict_lru_entry evict_oldest evict_expired
    sort_expiry sweep meet noted without_met write new_slm_cache lookup insert delete
stale_count_drifts = (refl, refl)

-- Natural numbers with a square root of squares, for vectors along one axis.
abbrev root : ℕ → ℕ
root n = if leb n 0 then 0 else (if leb n 1 then 1 else (if leb n 4 then 2 else 3))

abbrev naturals : Reals
naturals = record {
  F = ℕ;
  add = λ a b. a + b;
  mul = λ a b. a * b;
  div = λ a b. if ltb a b then 0 else 1;
  sqrt = root;
  is_null = λ a. leb a 0;
  less = ltb;
  at_least = λ a b. leb b a;
  null = 0;
  one = 1;
  minus_one = 0;
}

abbrev stored : List (CachedDecision (List ℕ))
stored =
    record { route = frontier; stamp = 1; emb = some (1 ∷ []) }
    ∷ record { route = fusion; stamp = 2; emb = some (0 ∷ 2 ∷ []) }
    ∷ record { route = local; stamp = 2; emb = some (2 ∷ 0 ∷ []) }
    ∷ []

get_semantic_sound_example :
    (s : ℕ) × (FromEntry naturals 10 5 (1 ∷ 0 ∷ []) stored local s × (leb 1 s ≡ true))
unfolding get_semantic semantic_scan verdict compared better cosine_similarity cosine_loop
get_semantic_sound_example = get_semantic_sound naturals 10 5 1 (1 ∷ 0 ∷ []) stored local refl refl

-- Failures at 0 s, an hour later and a second after that.
abbrev spread : List ℕ
spread = 0 ∷ 3600000000000 ∷ 3601000000000 ∷ []

embed_breaker_two_example :
    (failures new_embed_breaker spread).cooldown_until
    ≡ (two_failures_all (record { count = 0; last = 0; until = 0 }) spread).until
embed_breaker_two_example = embed_breaker_two spread

-- The breaker trips although the three failures span more than an hour.
spread_trips :
    ((failures new_embed_breaker spread).cooldown_until ≡ 3631000000000)
    × ((embed_once {E = ℕ} (failures new_embed_breaker spread) 3602000000000 (some 1)).1 ≡ none)
unfolding failures note_failure put_slot embed_once
spread_trips = (refl, refl)
