-- ===== src/Upstream/Arbiter/Lookup.antt =====
-- internal/upstream/arbiter_cache.go, what is found behind a write, and the key of two answers.
use Prim.Native.String.{◌++◌}
use text.Mathlib.Text.{◌==◌ as str_eq}
use nexus_proxy.Shared.{
  ◌≡◌, ◌∙◌, String, Bool, true, false, some, arith, Bool-cases, inl, inr, if◌then◌else◌,
}
use nexus_proxy.Shared.Int.{ℤ, ltb_ℤ, ◌-ℤ◌}
use nexus_proxy.Shared.Assoc.{string_eq, lookup, insert, lookup-insert}
use nexus_proxy.Upstream.Arbiter.{
  ArbiterCache, ArbiterCacheEntry, cache_key, make_room, put, set, get, get_entry,
}
use nexus_proxy.Upstream.Arbiter.Order.{str_eq_refl}
use nexus_proxy.Upstream.Arbiter.Bounded.{touch_items}

-- The order of the hashes, as `bytes.Compare` gives it.
pub record Order (less : String → String → Bool) : Type 0 where
  pub asymmetric : (a b : String) → less a b ≡ true → less b a ≡ false
  pub total : (a b : String) → less a b ≡ false → less b a ≡ false → a ≡ b

str_eq_sym : (a b : String) → str_eq a b ≡ str_eq b a
str_eq_sym a b = ground (arith, string_eq.beq_iff a b, string_eq.beq_iff b a)

pair_comm :
    (less : String → String → Bool) (join : String → String → String) (h k : String)
    → Order less
    → (if less h k then join h k else join k h) ≡ (if less k h then join k h else join h k)
pair_comm less join h k o = elim (Bool-cases (less h k)) [
  | inl below ↦ rw (below, o.asymmetric h k below)
  | inr above ↦ elim (Bool-cases (less k h)) [
    | inl below ↦ rw (above, below)
    | inr level ↦ rw (o.total h k above level)
  ]
]

cache_key_comm :
    (sha256 : String → String) (less : String → String → Bool) (a b : String)
    → Order less
    → cache_key sha256 less a b ≡ cache_key sha256 less b a
unfolding cache_key
cache_key_comm sha256 less a b o = elim (Bool-cases (str_eq a b)) [
  | inl same ↦ rw ((string_eq.beq_iff a b).0 same)
  | inr other ↦
      rw (other, str_eq_sym b a ∙ other)
        (pair_comm less (λ h k. sha256 (h ++ k)) (sha256 a) (sha256 b) o)
]

lookup-set :
    (c : ArbiterCache) (key : String) (now : ℤ) (synthesis : String) (ttl : ℤ)
    → lookup key (set c key now synthesis ttl).items
      ≡ some (record { synthesis = synthesis; cached_at = now; ttl_duration = ttl })
unfolding set put
lookup-set c key now synthesis ttl =
    let c' = make_room c in
    let e : ArbiterCacheEntry = record {
      synthesis = synthesis;
      cached_at = now;
      ttl_duration = ttl;
    } in
    rw ((touch_items (record c' { items = insert key e c'.items }) key).0)
      (rw (lookup-insert key key e c'.items, str_eq_refl key))

-- A synthesis that was stored for two answers is found for them in either order, until its time to live
-- has passed.
pub get-set :
    (sha256 : String → String) (less : String → String → Bool) (c : ArbiterCache) (a b : String)
    (now later ttl : ℤ) (synthesis : String)
    → Order less
    → ltb_ℤ ttl (later -ℤ now) ≡ false
    → (get
        (set c (cache_key sha256 less a b) now synthesis ttl)
        (cache_key sha256 less b a)
        later).1
      ≡ some synthesis
unfolding get get_entry
get-set sha256 less c a b now later ttl synthesis o live =
    let key = cache_key sha256 less a b in
    rw (← (cache_key_comm sha256 less a b o)) (rw (lookup-set c key now synthesis ttl) (rw live))
