-- ===== src/RateLimit/Reaper.antt =====
-- internal/ratelimit/middleware.go, the removal of idle buckets.
use native.Mathlib.Nat.{mul-le-mul_right}
use nexus_proxy.Shared.{
  ℕ, ◌+◌, ◌-◌, ◌*◌, ◌≤◌, ◌<◌, ◌≡◌, refl, sym, ◌∙◌, String, true, List, [], ◌∷◌, Option, none, some,
  ltb, arith, Bool-cases, ltb→lt, ◌⊎◌, inl, inr,
}
use nexus_proxy.Shared.Assoc.{string_eq, lookup, insert, delete, lookup-insert, lookup-delete}
use nexus_proxy.RateLimit.{
  unit, Bucket, Middleware, or_fresh, bucket_for, refill, allow, reap_one, reap_keys, reap,
  full_bucket,
}

-- Whether a bucket is gone behind the reaper.
abbrev pub Reaped : ℕ → ℕ → Option Bucket → Option Bucket → Type 0
Reaped ttl now before none =
    (before ≡ none) ⊎ ((b : Bucket) × ((before ≡ some b) × (ttl < now - b.last_seen)))
Reaped ttl now before (some b) = before ≡ some b

Reaped-refl : (ttl now : ℕ) (o : Option Bucket) → Reaped ttl now o o
Reaped-refl ttl now none = inl refl
Reaped-refl ttl now (some b) = refl

Reaped-same :
    (ttl now : ℕ) (b : Bucket) (o : Option Bucket) {before : Option Bucket}
    → before ≡ some b
    → ttl < now - b.last_seen
    → Reaped ttl now none o
    → Reaped ttl now before o
Reaped-same ttl now b none found idle r = inr (b, (found, idle))
Reaped-same ttl now b (some c) found idle r = ground arith

Reaped-delete :
    (ttl now : ℕ) (key k : String) (b : Bucket) (m : List (String × Bucket)) (o : Option Bucket)
    → lookup k m ≡ some b
    → ltb ttl (now - b.last_seen) ≡ true
    → Reaped ttl now (lookup key (delete k m)) o
    → Reaped ttl now (lookup key m) o
Reaped-delete ttl now key k b m o found idle r = elim (Bool-cases (string_eq.beq k key)) [
  | inl same ↦
      Reaped-same ttl now b o (rw (← ((string_eq.beq_iff k key).0 same)) found)
        (ltb→lt ttl (now - b.last_seen) idle) (rw (lookup-delete k key m, same) at r)
  | inr differs ↦ rw (lookup-delete k key m, differs) at r
]

Reaped-one :
    (ttl now : ℕ) (key k : String) (m : List (String × Bucket)) (at o : Option Bucket)
    → lookup k m ≡ at
    → Reaped ttl now (lookup key (reap_one ttl now k at m)) o
    → Reaped ttl now (lookup key m) o
unfolding reap_one
Reaped-one ttl now key k m none o found r = r
Reaped-one ttl now key k m (some b) o found r = elim (Bool-cases (ltb ttl (now - b.last_seen))) [
  | inl idle ↦ Reaped-delete ttl now key k b m o found idle (rw idle at r)
  | inr busy ↦ rw busy at r
]

pub reap_keys-Reaped :
    (ttl now : ℕ) (key : String) (entries m : List (String × Bucket))
    → Reaped ttl now (lookup key m) (lookup key (reap_keys ttl now entries m))
unfolding reap_keys
reap_keys-Reaped ttl now key [] m = Reaped-refl ttl now (lookup key m)
reap_keys-Reaped ttl now key ((k, seen) ∷ entries) m =
    Reaped-one ttl now key k m (lookup k m) _ refl
      (reap_keys-Reaped ttl now key entries (reap_one ttl now k (lookup k m) m))

-- A client that has been idle for the whole retention has its bucket refilled to the burst.
refill-idle :
    (rpm burst ttl now later : ℕ) (b : Bucket)
    → burst * unit ≤ ttl * rpm
    → b.last_refill ≤ b.last_seen
    → ttl < now - b.last_seen
    → now ≤ later
    → refill rpm burst b later ≡ full_bucket burst later
unfolding refill
refill-idle rpm burst ttl now later b enough order idle h =
    let long = mul-le-mul_right {m = ttl} {n = later - b.last_refill} rpm (omega arith) in
    let filled : burst * unit ≤ b.tokens + (later - b.last_refill) * rpm = omega arith in
    let after : b.last_refill < later = omega arith in ground arith

refill-fresh :
    (rpm burst later : ℕ)
    → refill rpm burst (full_bucket burst later) later ≡ full_bucket burst later
unfolding refill
refill-fresh rpm burst later = ground arith

-- Every bucket was last seen at its last refill or later, as `allow` leaves it.
abbrev pub SeenLast : Option Bucket → Type 0
SeenLast none = Unit {0}
SeenLast (some b) = b.last_refill ≤ b.last_seen

refill-Reaped :
    (rpm burst ttl now later : ℕ) (before after : Option Bucket)
    → burst * unit ≤ ttl * rpm
    → SeenLast before
    → now ≤ later
    → Reaped ttl now before after
    → refill rpm burst (or_fresh (full_bucket burst later) after) later
      ≡ refill rpm burst (or_fresh (full_bucket burst later) before) later
refill-Reaped rpm burst ttl now later before (some b) enough seen h r = rw r
refill-Reaped rpm burst ttl now later before none enough seen h (inl r) = rw r
refill-Reaped rpm burst ttl now later before none enough seen h (inr (b, (found, idle))) =
    rw found (
      refill-fresh rpm burst later
      ∙ sym (refill-idle rpm burst ttl now later b enough (rw found at seen) idle h))

lookup-own :
    (key : String) (b : Bucket) (m : List (String × Bucket)) → lookup key (insert key b m) ≡ some b
lookup-own key b m = rw (lookup-insert key key b m, (string_eq.beq_iff key key).1 refl)

-- With a burst of at most what the rate brings in the retention time, the reaper cannot be observed: a
-- request after it is decided as it would have been without it, and its client is left with the same
-- bucket. The client's bucket, if it has one, was last seen at its last refill or later.
pub reap-allow :
    (m : Middleware) (key : String) (now later : ℕ)
    → m.burst * unit ≤ m.ttl * m.rpm
    → SeenLast (lookup key m.buckets)
    → now ≤ later
    → ((allow (reap m now) key later).1 ≡ (allow m key later).1)
      × (lookup key (allow (reap m now) key later).0.buckets
          ≡ lookup key (allow m key later).0.buckets)
unfolding allow reap bucket_for
reap-allow m key now later enough seen h =
    let same =
      refill-Reaped m.rpm m.burst m.ttl now later (lookup key m.buckets)
        (lookup key (reap_keys m.ttl now m.buckets m.buckets)) enough seen h
        (reap_keys-Reaped m.ttl now key m.buckets m.buckets) in
    rw same (
      refl,
      lookup-own key _ (reap_keys m.ttl now m.buckets m.buckets) ∙ sym (lookup-own key _ m.buckets),
    )
