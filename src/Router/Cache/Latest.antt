-- ===== src/Router/Cache/Latest.antt =====
-- internal/router/slm_cache.go: the cache against a store that forgets nothing. A hit is what was last
-- written for the prompt.
use text.Mathlib.Text.{◌==◌ as str_eq}
use nexus_proxy.Shared.{
  ℕ, ◌+◌, ◌≡◌, ◌≤◌, refl, sym, ap, ◌∙◌, Bool, true, String, Option, none, some, List, [], ◌∷◌, ltb,
  leb, length, arith, Bool-cases, Option-cases, inl, inr, ◌&&◌, if◌then◌else◌,
}
use nexus_proxy.Shared.Int.{ℤ, pos_part, nonpos}
use nexus_proxy.Shared.Assoc.{string_eq, lookup, lookup-insert, lookup-delete}
use nexus_proxy.Router.Types.{Route}
use nexus_proxy.Router.Cache.{
  default_ttl, CachedDecision, WarmEntry, SlmCache, new_slm_cache, stale, sort_expiry,
  evict_expired, evict_oldest, evict_lru_entry, make_space, write, set_embedding, get_exact,
  warm_entry, warm_loop, warm,
}
use nexus_proxy.Router.Cache.Calls.{Call, sets, warms, after, after_all}
use nexus_proxy.Router.Cache.Sweep.{sweep-le}

-- What was last written for each prompt, with its time.
abbrev pub Store : Type 0
Store = String → Option (Route × ℕ)

unfoldable pub store : String → Route → ℕ → Store → Store
store prompt route stamp s k = if str_eq prompt k then some (route, stamp) else s k

module _ (E : Type 0) (sort : (String → String → Bool) → List String → List String) where
  -- An entry that is already stale when `Warm` starts is not loaded.
  unfoldable pub store_warm : ℕ → ℕ → List (WarmEntry × ℕ) → Store → Store
  store_warm ttl now [] s = s
  store_warm ttl now ((e, later) ∷ es) s =
      store_warm ttl now es
        (if stale E sort ttl now e.timestamp then s else store e.prompt e.warm_route e.timestamp s)

  unfoldable pub store_call : ℕ → Call E sort → Store → Store
  store_call ttl (sets prompt route emb now stamp) s = store prompt route stamp s
  store_call ttl (warms now es) s = store_warm ttl now es s

  unfoldable pub store_all : ℕ → List (Call E sort) → Store → Store
  store_all ttl [] s = s
  store_all ttl (x ∷ xs) s = store_all ttl xs (store_call ttl x s)

  -- Each entry of the cache is in the store.
  record Agrees (ttl : ℕ) (c : SlmCache E sort) (s : Store) : Type 0 where
    ttl_kept : c.ttl ≡ ttl
    agrees :
        (k : String) (e : CachedDecision E)
        → lookup k c.entries ≡ some e
        → s k ≡ some (e.route, e.stamp)

  -- A cache with no other entries than another one.
  record Within (c d : SlmCache E sort) : Type 0 where
    same_ttl : c.ttl ≡ d.ttl
    older :
        (k : String) (e : CachedDecision E)
        → lookup k c.entries ≡ some e
        → lookup k d.entries ≡ some e

  Within-evict_expired : (c : SlmCache E sort) (now : ℕ) → Within (evict_expired E sort c now) c
  unfolding evict_expired sort_expiry
  Within-evict_expired c now = record {
    same_ttl = refl;
    older = λ k e h. sweep-le E sort c.ttl now k e c.expiry c.entries h;
  }

  Within-evict_oldest :
      (c : SlmCache E sort) (keys : List String) → Within (evict_oldest E sort c keys) c
  unfolding evict_oldest
  Within-evict_oldest c [] = record { same_ttl = refl; older = λ k e h. h }
  Within-evict_oldest c (key ∷ keys) = record {
    same_ttl = refl;
    older = λ k e h. ground (arith, lookup-delete key k c.entries);
  }

  Within-make_space : (c : SlmCache E sort) (now : ℕ) → Within (make_space E sort c now) c
  unfolding make_space evict_lru_entry
  Within-make_space c now =
      let swept = evict_expired E sort c now in
      let w = Within-evict_expired c now in
      elim (Bool-cases (ltb 0 c.max_entries && leb c.max_entries (length c.entries))) [
        | inr n ↦ rw n (record { same_ttl = refl; older = λ k e h. h })
        | inl f ↦ elim (Bool-cases (leb c.max_entries (length swept.entries))) [
          | inl g ↦
              let v = Within-evict_oldest swept swept.expiry in
              rw (f, g)
                (record {
                  same_ttl = v.same_ttl ∙ w.same_ttl;
                  older = λ k e h. w.older k e (v.older k e h);
                })
          | inr g ↦ rw (f, g) w
        ]
      ]

  Agrees-write :
      (ttl : ℕ) (c d : SlmCache E sort) (s : Store) (prompt : String) (x : CachedDecision E)
      → Within c d
      → Agrees ttl d s
      → Agrees ttl (write E sort c prompt x) (store prompt x.route x.stamp s)
  unfolding write store
  Agrees-write ttl c d s prompt x w a = record {
    ttl_kept = w.same_ttl ∙ a.ttl_kept;
    agrees = λ k e h.
        let l = sym (lookup-insert prompt k x c.entries) ∙ h in
        elim (Bool-cases (str_eq prompt k)) [
          | inl same ↦
              let z : some x ≡ some e = sym (rw same refl) ∙ l in
              rw same (ap (λ o. elim o [ none ↦ none | some y ↦ some (y.route, y.stamp) ]) z)
          | inr n ↦ rw n (a.agrees k e (w.older k e (sym (rw n refl) ∙ l)))
        ];
  }

  Agrees-warm_loop :
      (ttl : ℕ) (c : SlmCache E sort) (s : Store) (now : ℕ) (es : List (WarmEntry × ℕ))
      → Agrees ttl c s
      → Agrees ttl (warm_loop E sort c now es) (store_warm ttl now es s)
  unfolding warm_loop warm_entry store_warm
  Agrees-warm_loop ttl c s now [] a = a
  Agrees-warm_loop ttl c s now ((e, later) ∷ es) a =
      let t = ap (λ n. stale E sort n now e.timestamp) a.ttl_kept in
      elim (Bool-cases (stale E sort ttl now e.timestamp)) [
        | inl h ↦ rw (t ∙ h, h) (Agrees-warm_loop ttl c s now es a)
        | inr h ↦
            let d : CachedDecision E = record {
              route = e.warm_route;
              stamp = e.timestamp;
              emb = none;
            } in
            let room = make_space E sort c later in
            rw (t ∙ h, h)
              (Agrees-warm_loop ttl (write E sort room e.prompt d)
                (store e.prompt e.warm_route e.timestamp s) now es
                (Agrees-write ttl room c s e.prompt d (Within-make_space c later) a))
      ]

  Agrees-after :
      (ttl : ℕ) (c : SlmCache E sort) (s : Store) (x : Call E sort)
      → Agrees ttl c s
      → Agrees ttl (after E sort c x) (store_call ttl x s)
  unfolding after set_embedding warm sort_expiry store_call store_warm
  Agrees-after ttl c s (sets prompt route emb now stamp) a =
      Agrees-write ttl (make_space E sort c now) c s prompt _ (Within-make_space c now) a
  Agrees-after ttl c s (warms now []) a = a
  Agrees-after ttl c s (warms now (e ∷ es)) a =
      let b = Agrees-warm_loop ttl c s now (e ∷ es) a in
      record { ttl_kept = b.ttl_kept; agrees = b.agrees }

  Agrees-after_all :
      (ttl : ℕ) (c : SlmCache E sort) (s : Store) (xs : List (Call E sort))
      → Agrees ttl c s
      → Agrees ttl (after_all E sort c xs) (store_all ttl xs s)
  unfolding after_all store_all
  Agrees-after_all ttl c s [] a = a
  Agrees-after_all ttl c s (x ∷ xs) a =
      Agrees-after_all ttl (after E sort c x) (store_call ttl x s) xs (Agrees-after ttl c s x a)

  get_exact_cases :
      (c : SlmCache E sort) (prompt : String) (now : ℕ) (r : Route)
      → get_exact E sort c prompt now ≡ some r
      → (e : CachedDecision E) × ((lookup prompt c.entries ≡ some e)
          × ((e.route ≡ r) × (now ≤ e.stamp + c.ttl)))
  unfolding get_exact
  get_exact_cases c prompt now r h = elim (Option-cases (lookup prompt c.entries)) [
    | inl n ↦ ground arith
    | inr (e, n) ↦ elim (Bool-cases (stale E sort c.ttl now e.stamp)) [
      | inl s ↦ ground arith
      | inr s ↦ (e, (n, (ground arith, ground arith)))
    ]
  ]

  Agrees-new :
      (ttl max_entries : ℤ)
      → Agrees
          (if nonpos ttl then default_ttl else pos_part ttl)
          (new_slm_cache E sort ttl max_entries)
          (λ k. none)
  unfolding new_slm_cache lookup
  Agrees-new ttl max_entries = record { ttl_kept = refl; agrees = λ k e h. ground arith }

  -- After any calls of `Set`, `SetEmbedding` and `Warm` on a new cache, a route that `Get` finds by the
  -- prompt itself is the one that was last written for this prompt, and it was written no longer than the
  -- time to live before the reading of the clock by `Get`.
  pub slm_get_latest :
      (ttl max_entries : ℤ) (xs : List (Call E sort)) (prompt : String) (now : ℕ) (r : Route)
      → get_exact E sort (after_all E sort (new_slm_cache E sort ttl max_entries) xs) prompt now
        ≡ some r
      → let live = if nonpos ttl then default_ttl else pos_part ttl in
        (stamp : ℕ) × ((store_all live xs (λ k. none) prompt ≡ some (r, stamp))
          × (now ≤ stamp + live))
  slm_get_latest ttl max_entries xs prompt now r h =
      let live = if nonpos ttl then default_ttl else pos_part ttl in
      let new = new_slm_cache E sort ttl max_entries in
      let a = Agrees-after_all live new (λ k. none) xs (Agrees-new ttl max_entries) in
      let (e, (l, (q, w))) = get_exact_cases (after_all E sort new xs) prompt now r h in
      let k = a.ttl_kept in
      (e.stamp, (a.agrees prompt e l ∙ ap (λ x. some (x, e.stamp)) q, omega arith))

  get_exact-some :
      (c : SlmCache E sort) (prompt : String) (d : CachedDecision E) (now : ℕ)
      → lookup prompt c.entries ≡ some d
      → get_exact E sort c prompt now ≡ (if ltb (d.stamp + c.ttl) now then none else some d.route)
  unfolding get_exact
  get_exact-some c prompt d now h = rw (h, get_exact) refl

  -- A Get by the prompt itself directly after a `Set` or `SetEmbedding` under it, with no other write in
  -- between, finds the route that was stored while it is not older than the time to live, and nothing
  -- afterwards, whatever the cache held before and evicted to make room.
  pub slm_get-set :
      (c : SlmCache E sort) (prompt : String) (route : Route) (emb : Option E) (now stamp later : ℕ)
      → get_exact E sort (set_embedding E sort c prompt route emb now stamp) prompt later
        ≡ (if ltb (stamp + c.ttl) later then none else some route)
  unfolding set_embedding write
  slm_get-set c prompt route emb now stamp later =
      let w = Within-make_space c now in
      let self : str_eq prompt prompt ≡ true = (string_eq.beq_iff prompt prompt).1 refl in
      let d : CachedDecision E = record { route = route; stamp = stamp; emb = emb } in
      let l = lookup-insert prompt prompt d (make_space E sort c now).entries ∙ rw self refl in
      get_exact-some (write E sort (make_space E sort c now) prompt d) prompt d later l
      ∙ (ap (λ n. if ltb (stamp + n) later then none else some route) w.same_ttl)
