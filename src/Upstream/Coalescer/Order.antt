-- ===== src/Upstream/Coalescer/Order.antt =====
-- internal/upstream/coalesce.go, the order against the map.
use mathlib.Core.Path.{subst}
use mathlib.Core.List.{◌++◌ as append_list}
use text.Mathlib.Text.{◌==◌ as str_eq}
use nexus_proxy.Shared.{
  ℕ, ◌≡◌, ◌≤◌, ◌<◌, refl, ap, ◌∙◌, Bool, true, false, not, ◌&&◌, String, Option, none, some, List,
  [], ◌∷◌, length, arith, Bool-cases, Option-cases, inl, inr, if◌then◌else◌,
}
use nexus_proxy.Shared.Assoc.{
  string_eq, lookup, insert, delete, lookup-insert, lookup-delete, length-delete-le,
  length-delete_present,
}
use nexus_proxy.Upstream.Arbiter.{member}
use nexus_proxy.Upstream.Arbiter.Order.{Distinct, member-append, Distinct-append, str_eq_refl}
use nexus_proxy.Upstream.Coalescer.{
  CoalesceEntry, Coalescer, fresh_result, is_expired, expire_keys, coalesce_evict_expired,
  evict_head,
}

module _ (R : Type 0) where
  unfoldable pub is_held : Option (CoalesceEntry R) → Bool
  is_held none = false
  is_held (some e) = true

  same_key :
      (now : ℕ) (k j : String) (cache : List (String × CoalesceEntry R)) (b : Bool)
      → is_expired R now (lookup k cache) ≡ b
      → str_eq k j ≡ true
      → is_expired R now (lookup j cache) ≡ b
  same_key now k j cache b h e =
      subst (λ i. is_expired R now (lookup i cache) ≡ b) ((string_eq.beq_iff k j).0 e) h

  delete-same :
      (k j : String) (cache : List (String × CoalesceEntry R))
      → str_eq k j ≡ true
      → lookup j (delete k cache) ≡ none
  delete-same k j cache e = ground (arith, lookup-delete k j cache)

  delete-other :
      (k j : String) (cache : List (String × CoalesceEntry R))
      → str_eq k j ≡ false
      → lookup j (delete k cache) ≡ lookup j cache
  delete-other k j cache e = ground (arith, lookup-delete k j cache)

  -- What the loop leaves under a key, and whether it keeps the key.
  expire-lookup :
      (now : ℕ) (j : String) (keys : List String) (cache : List (String × CoalesceEntry R))
      → Distinct keys
      → (lookup j (expire_keys R now keys cache).1
          ≡ (if member j keys && is_expired R now (lookup j cache) then none else lookup j cache))
        × (member j (expire_keys R now keys cache).0
            ≡ (member j keys && not (is_expired R now (lookup j cache))))
  unfolding expire_keys Distinct is_expired
  expire-lookup now j [] cache d = (refl, refl)
  expire-lookup now j (k ∷ ks) cache (a, d) =
      let dropped = expire-lookup now j ks (delete k cache) d in
      let kept = expire-lookup now j ks cache d in
      let same_member : str_eq k j ≡ true → member j ks ≡ false =
        λ e. subst (λ i. member i ks ≡ false) ((string_eq.beq_iff k j).0 e) a in
      let here = same_key now k j cache in
      elim (Bool-cases (is_expired R now (lookup k cache))) [
        | inl g ↦ elim (Bool-cases (str_eq k j)) [
          | inl e ↦
              rw g (
                rw e (rw (here true g e) (ground (arith, rw (delete-same k j cache e) at dropped))))
          | inr e ↦ rw g (rw e (rw (delete-other k j cache e) at dropped))
        ]
        | inr g ↦ elim (Bool-cases (str_eq k j)) [
          | inl e ↦ rw g (rw e (rw (here false g e) (ground (arith, kept, same_member e))))
          | inr e ↦ rw g (rw e kept)
        ]
      ]

  expire-Distinct :
      (now : ℕ) (keys : List String) (cache : List (String × CoalesceEntry R))
      → Distinct keys
      → Distinct (expire_keys R now keys cache).0
  unfolding expire_keys Distinct
  expire-Distinct now [] cache d = tt
  expire-Distinct now (k ∷ ks) cache (a, d) =
      elim (Bool-cases (is_expired R now (lookup k cache))) [
        | inl g ↦ rw g (expire-Distinct now ks (delete k cache) d)
        | inr g ↦
            rw g
              (ground (arith, (expire-lookup now k ks cache d).1), expire-Distinct now ks cache d)
      ]

  expire-length :
      (now : ℕ) (keys : List String) (cache : List (String × CoalesceEntry R))
      → length (expire_keys R now keys cache).1 ≤ length cache
  unfolding expire_keys
  expire-length now [] cache = omega arith
  expire-length now (k ∷ ks) cache = elim (Bool-cases (is_expired R now (lookup k cache))) [
    | inl g ↦ rw g (ground (arith, expire-length now ks (delete k cache), length-delete-le k cache))
    | inr g ↦ rw g (expire-length now ks cache)
  ]

  held_left :
      (m gone : Bool) (e : Option (CoalesceEntry R))
      → m ≡ is_held e
      → (m && not gone) ≡ is_held (if m && gone then none else e)
  unfolding is_held
  held_left true true e h = refl
  held_left true false e h = h
  held_left false gone e h = h

  key_absent :
      (m : Bool) (checked now : ℕ) (e : Option (CoalesceEntry R))
      → m ≡ is_held e
      → fresh_result R checked e ≡ none
      → checked ≤ now
      → (if m && is_expired R now e then none else e) ≡ none
  unfolding is_held fresh_result is_expired
  key_absent m checked now none h f t = ground (arith, h)
  key_absent m checked now (some e) h f t = ground (arith, h, f, t)

  -- The order lists each key of the cache once, and nothing else.
  pub record InStep (c : Coalescer R) : Type 0 where
    pub distinct : Distinct c.order
    pub matches : (k : String) → member k c.order ≡ is_held (lookup k c.cache)

  pub InStep-coalesce_evict_expired :
      (c : Coalescer R) (now : ℕ) → InStep c → InStep (coalesce_evict_expired R c now)
  unfolding coalesce_evict_expired
  InStep-coalesce_evict_expired c now v = record {
    distinct = expire-Distinct now c.order c.cache v.distinct;
    matches = λ k.
        let (l, m) = expire-lookup now k c.order c.cache v.distinct in
        let e = lookup k c.cache in
        rw l (rw m (held_left (member k c.order) (is_expired R now e) e (v.matches k)));
  }

  pub InStep-evict_head :
      (c : Coalescer R) (keys : List String)
      → c.order ≡ keys
      → InStep c
      → InStep (evict_head R c keys)
  unfolding evict_head Distinct is_held
  InStep-evict_head c [] e v = v
  InStep-evict_head c (k ∷ ks) e v =
      let (a, d) : Distinct (k ∷ ks) = subst Distinct e v.distinct in
      record {
        distinct = d;
        matches = λ j.
            let m : member j (k ∷ ks) ≡ is_held (lookup j c.cache) = rw e at (v.matches j) in
            elim (Bool-cases (str_eq k j)) [
              | inl s ↦
                  rw (delete-same k j c.cache s)
                    (subst (λ i. member i ks ≡ false) ((string_eq.beq_iff k j).0 s) a)
              | inr o ↦ rw (delete-other k j c.cache o) (rw o at m)
            ];
      }

  pub InStep-store :
      (c : Coalescer R) (key : String) (e : CoalesceEntry R)
      → InStep c
      → lookup key c.cache ≡ none
      → InStep (record c { cache = insert key e c.cache; order = append_list c.order (key ∷ []) })
  unfolding is_held
  InStep-store c key e v h = record {
    distinct = Distinct-append key c.order (v.matches key ∙ ap is_held h) v.distinct;
    matches = λ j. rw (member-append j key c.order) (
        rw (lookup-insert key j e c.cache)
          (elim (Bool-cases (str_eq key j)) [ inl s ↦ rw s refl | inr o ↦ rw o (v.matches j) ]));
  }

  held-head :
      (cache : List (String × CoalesceEntry R))
      → 0 < length cache
      → (k : String) × (is_held (lookup k cache) ≡ true)
  unfolding lookup is_held
  held-head [] h = ground arith
  held-head ((k, e) ∷ cache) h = (k, rw (str_eq_refl k) refl)

  pub evict_head-length :
      (c : Coalescer R) (keys : List String)
      → c.order ≡ keys
      → InStep c
      → 0 < length c.cache
      → length (evict_head R c keys).cache < length c.cache
  unfolding evict_head is_held
  evict_head-length c [] o v h =
      let (k, e) = held-head c.cache h in
      let m : member k [] ≡ is_held (lookup k c.cache) = rw o at (v.matches k) in
      ground (arith, m, e)
  evict_head-length c (k ∷ ks) o v h =
      let m : member k (k ∷ ks) ≡ is_held (lookup k c.cache) = rw o at (v.matches k) in
      elim (Option-cases (lookup k c.cache)) [
        | inl n ↦ ground (arith, m, n, str_eq_refl k)
        | inr (e, held) ↦ length-delete_present k e c.cache held
      ]

  pub coalesce_evict_expired-length :
      (c : Coalescer R) (now : ℕ) → length (coalesce_evict_expired R c now).cache ≤ length c.cache
  unfolding coalesce_evict_expired
  coalesce_evict_expired-length c now = expire-length now c.order c.cache

  -- An entry that was not fresh before is gone behind the eviction.
  pub stale-gone :
      (c : Coalescer R) (key : String) (checked now : ℕ)
      → InStep c
      → fresh_result R checked (lookup key c.cache) ≡ none
      → checked ≤ now
      → lookup key (coalesce_evict_expired R c now).cache ≡ none
  unfolding coalesce_evict_expired
  stale-gone c key checked now v f t =
      let (l, m) = expire-lookup now key c.order c.cache v.distinct in
      rw l (key_absent (member key c.order) checked now (lookup key c.cache) (v.matches key) f t)
