-- ===== src/Router/Cache/Capped.antt =====
-- internal/router/slm_cache.go: how many entries the cache holds.
use text.Mathlib.Text.{◌==◌ as str_eq}
use nexus_proxy.Shared.{
  ℕ, ◌≡◌, ◌≤◌, ◌<◌, inl, inr, refl, sym, ◌∙◌, Bool, true, false, String, none, some, List, [], ◌∷◌,
  ◌++◌, ltb, leb, length, arith, Bool-cases, if◌then◌else◌, ◌||◌, ◌&&◌,
}
use nexus_proxy.Shared.Int.{ℤ, pos, negsuc, pos_part, nonpos}
use nexus_proxy.Shared.Assoc.{
  string_eq, lookup, lookup-insert, lookup-delete, length-insert-le, length-delete_present,
}
use nexus_proxy.Router.Cache.{
  default_max_entries, CachedDecision, WarmEntry, SlmCache, new_slm_cache, stale, sweep,
  sort_expiry, sooner, evict_expired, evict_oldest, evict_lru_entry, make_space, write,
  set_embedding, warm_entry, warm_loop, warm,
}
use nexus_proxy.Router.Cache.Calls.{Call, sets, warms, after, after_all}
use nexus_proxy.Router.Cache.Sweep.{
  holds, key-cases, Moves, Listed, Present, sweep-Listed, sweep-Present, sweep-length, sweep-le,
}

cap_positive : (z : ℤ) → 0 < (if nonpos z then default_max_entries else pos_part z)
cap_positive (pos n) = ground arith
cap_positive (negsuc n) = omega arith

module _ (E : Type 0) (sort : (String → String → Bool) → List String → List String) where
  -- A cache within its cap, with every entry's key listed.
  record Bounded (cap : ℕ) (c : SlmCache E sort) : Type 0 where
    cap_kept : c.max_entries ≡ cap
    within : length c.entries ≤ cap
    listed : Listed E sort c.entries c.expiry

  Listed-evict_expired :
      (c : SlmCache E sort) (now : ℕ)
      → Moves sort
      → Listed E sort c.entries c.expiry
      → Listed E sort (evict_expired E sort c now).entries (evict_expired E sort c now).expiry
  unfolding evict_expired sort_expiry
  Listed-evict_expired c now v l k e h =
      let s = sweep E sort c.ttl now c.expiry c.entries in
      v (sooner E sort s.left) k s.keep
      ∙ sweep-Listed E sort c.ttl now k e c.expiry c.entries h
          (l k e (sweep-le E sort c.ttl now k e c.expiry c.entries h))

  evict_expired-length :
      (c : SlmCache E sort) (now : ℕ)
      → ((evict_expired E sort c now).max_entries ≡ c.max_entries)
        × (length (evict_expired E sort c now).entries ≤ length c.entries)
  unfolding evict_expired sort_expiry
  evict_expired-length c now = (refl, sweep-length E sort c.ttl now c.expiry c.entries)

  Present-evict_expired :
      (c : SlmCache E sort) (now : ℕ)
      → Moves sort
      → Present E sort (evict_expired E sort c now).entries (evict_expired E sort c now).expiry
  unfolding evict_expired sort_expiry
  Present-evict_expired c now v k h =
      let s = sweep E sort c.ttl now c.expiry c.entries in
      sweep-Present E sort c.ttl now c.expiry c.entries k
        (sym (v (sooner E sort s.left) k s.keep) ∙ h)

  -- A cache with room below its cap.
  record Roomy (cap : ℕ) (c : SlmCache E sort) : Type 0 where
    cap_same : c.max_entries ≡ cap
    room : length c.entries < cap
    still_listed : Listed E sort c.entries c.expiry

  some_entry :
      (es : List (String × CachedDecision E))
      → 0 < length es
      → (k : String) × ((e : CachedDecision E) × (lookup k es ≡ some e))
  unfolding lookup
  some_entry [] h = absurd (omega arith)
  some_entry ((k, e) ∷ es) h = (k, (e, rw ((string_eq.beq_iff k k).1 refl) refl))

  Roomy-evict_oldest :
      (cap : ℕ) (c : SlmCache E sort) (keys : List String)
      → c.max_entries ≡ cap
      → length c.entries ≤ cap
      → 0 < length c.entries
      → Listed E sort c.entries keys
      → Present E sort c.entries keys
      → Roomy cap (evict_oldest E sort c keys)
  unfolding evict_oldest holds
  Roomy-evict_oldest cap c [] q h p l v =
      let (k, (e, f)) = some_entry c.entries p in
      absurd (let z : false ≡ true = l k e f in ground arith)
  Roomy-evict_oldest cap c (key ∷ keys) q h p l v =
      let self : str_eq key key ≡ true = (string_eq.beq_iff key key).1 refl in
      let (e, f) = v key (rw self refl) in
      record {
        cap_same = q;
        room = let s = length-delete_present key e c.entries f in omega arith;
        still_listed = λ k d r. elim (key-cases key k) [
          | inl same ↦
              let z : none ≡ some d =
                sym (lookup-delete key k c.entries ∙ rw ((string_eq.beq_iff key k).1 same) refl)
                ∙ r in
              absurd (ground arith)
          | inr (n, o) ↦
              let w = sym (lookup-delete key k c.entries ∙ rw n refl) ∙ r in
              let m = l k d w in ground arith
        ];
      }

  Roomy-make_space :
      (cap : ℕ) (c : SlmCache E sort) (now : ℕ)
      → Moves sort
      → 0 < cap
      → Bounded cap c
      → Roomy cap (make_space E sort c now)
  unfolding make_space evict_lru_entry
  Roomy-make_space cap c now v p b =
      let swept = evict_expired E sort c now in
      elim (Bool-cases (ltb 0 c.max_entries && leb c.max_entries (length c.entries))) [
        | inr n ↦ rw n (record {
          cap_same = b.cap_kept;
          room = let q = b.cap_kept in let w = b.within in ground arith;
          still_listed = b.listed;
        })
        | inl f ↦
            let l = Listed-evict_expired c now v b.listed in
            let s = evict_expired-length c now in
            elim (Bool-cases (leb c.max_entries (length swept.entries))) [
              | inl g ↦
                  rw (f, g)
                    (Roomy-evict_oldest cap swept swept.expiry (s.0 ∙ b.cap_kept)
                      (let w = b.within in let u = s.1 in omega arith)
                      (let q = b.cap_kept in ground arith) l (Present-evict_expired c now v))
              | inr g ↦
                  rw (f, g)
                    (record {
                      cap_same = s.0 ∙ b.cap_kept;
                      room = let q = b.cap_kept in ground arith;
                      still_listed = l;
                    })
            ]
      ]

  holds-snoc :
      (j k : String) (ks : List String)
      → (str_eq j k || holds k ks) ≡ true
      → holds k (ks ++ (j ∷ [])) ≡ true
  unfolding holds
  holds-snoc j k [] h = h
  holds-snoc j k (i ∷ is) h = ground (arith, holds-snoc j k is)

  Bounded-write :
      (cap : ℕ) (c : SlmCache E sort) (prompt : String) (d : CachedDecision E)
      → Roomy cap c
      → Bounded cap (write E sort c prompt d)
  unfolding write
  Bounded-write cap c prompt d r = record {
    cap_kept = r.cap_same;
    within = let m = r.room in omega (arith, length-insert-le prompt d c.entries);
    listed = λ k e h. holds-snoc prompt k c.expiry (elim (Bool-cases (str_eq prompt k)) [
      | inl same ↦ rw same refl
      | inr n ↦
          let old = sym (lookup-insert prompt k d c.entries ∙ rw n refl) ∙ h in
          let l = r.still_listed k e old in ground arith
    ]);
  }

  Bounded-warm_entry :
      (cap : ℕ) (c : SlmCache E sort) (now : ℕ) (e : WarmEntry) (later : ℕ)
      → Moves sort
      → 0 < cap
      → Bounded cap c
      → Bounded cap (warm_entry E sort c now e later).0
  unfolding warm_entry
  Bounded-warm_entry cap c now e later v p b =
      elim (Bool-cases (stale E sort c.ttl now e.timestamp)) [
        | inl s ↦ rw s b
        | inr s ↦ rw s (
            Bounded-write cap (make_space E sort c later) e.prompt _
              (Roomy-make_space cap c later v p b))
      ]

  Bounded-warm_loop :
      (cap : ℕ) (c : SlmCache E sort) (now : ℕ) (es : List (WarmEntry × ℕ))
      → Moves sort
      → 0 < cap
      → Bounded cap c
      → Bounded cap (warm_loop E sort c now es)
  unfolding warm_loop
  Bounded-warm_loop cap c now [] v p b = b
  Bounded-warm_loop cap c now ((e, later) ∷ es) v p b =
      Bounded-warm_loop cap (warm_entry E sort c now e later).0 now es v p
        (Bounded-warm_entry cap c now e later v p b)

  Bounded-sort :
      (cap : ℕ) (c : SlmCache E sort)
      → Moves sort
      → Bounded cap c
      → Bounded cap (sort_expiry E sort c)
  unfolding sort_expiry
  Bounded-sort cap c v b = record {
    cap_kept = b.cap_kept;
    within = b.within;
    listed = λ k e h. v (sooner E sort c.entries) k c.expiry ∙ b.listed k e h;
  }

  Bounded-after :
      (cap : ℕ) (c : SlmCache E sort) (x : Call E sort)
      → Moves sort
      → 0 < cap
      → Bounded cap c
      → Bounded cap (after E sort c x)
  unfolding after set_embedding warm
  Bounded-after cap c (sets prompt route emb now stamp) v p b =
      Bounded-write cap (make_space E sort c now) prompt _ (Roomy-make_space cap c now v p b)
  Bounded-after cap c (warms now []) v p b = b
  Bounded-after cap c (warms now (e ∷ es)) v p b =
      Bounded-sort cap (warm_loop E sort c now (e ∷ es)) v
        (Bounded-warm_loop cap c now (e ∷ es) v p b)

  Bounded-after_all :
      (cap : ℕ) (c : SlmCache E sort) (xs : List (Call E sort))
      → Moves sort
      → 0 < cap
      → Bounded cap c
      → Bounded cap (after_all E sort c xs)
  unfolding after_all
  Bounded-after_all cap c [] v p b = b
  Bounded-after_all cap c (x ∷ xs) v p b =
      Bounded-after_all cap (after E sort c x) xs v p (Bounded-after cap c x v p b)

  Bounded-new :
      (ttl max_entries : ℤ)
      → let cap = if nonpos max_entries then default_max_entries else pos_part max_entries in
        (0 < cap) × Bounded cap (new_slm_cache E sort ttl max_entries)
  unfolding new_slm_cache lookup
  Bounded-new ttl max_entries = (
    cap_positive max_entries,
    record { cap_kept = refl; within = omega arith; listed = λ k e h. ground arith },
  )

  -- Where sort.Slice only moves keys, the cache holds at most its cap of entries through any calls of `Set`,
  -- `SetEmbedding` and `Warm`, however often keys are written again and whatever the clock shows.
  pub slm_entries_capped :
      (ttl max_entries : ℤ) (xs : List (Call E sort))
      → Moves sort
      → length (after_all E sort (new_slm_cache E sort ttl max_entries) xs).entries
        ≤ (if nonpos max_entries then default_max_entries else pos_part max_entries)
  slm_entries_capped ttl max_entries xs v =
      let (p, b) = Bounded-new ttl max_entries in
      let c = Bounded-after_all _ (new_slm_cache E sort ttl max_entries) xs v p b in c.within
