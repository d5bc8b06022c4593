-- ===== src/RateLimit/Interval.antt =====
-- internal/ratelimit/middleware.go: how many requests of one client are let through in an interval, with the
-- reaper at work.
use mathlib.Core.Path.{subst}
use native.Mathlib.Nat.{mul-add, mul_comm, mul-le-mul_left}
use nexus_proxy.Shared.{
  ℕ, suc, ◌+◌, ◌-◌, ◌*◌, ◌≤◌, ◌≡◌, refl, ap, String, true, false, List, [], ◌∷◌, Option, none, some,
  arith, Bool-cases, Option-cases, inl, inr, if◌then◌else◌,
}
use nexus_proxy.Shared.Assoc.{string_eq, lookup}
use nexus_proxy.RateLimit.{unit, Bucket, Middleware, bucket_for, allow, reap}
use nexus_proxy.RateLimit.Rate.{
  request, request_bound, request_times, lookup-allow, allow_rest, granted_from, counted, own_key,
}
use nexus_proxy.RateLimit.Reaper.{Reaped, reap_keys-Reaped}

-- A request of a client, or a run of the reaper, with its time.
pub data Event : Type 0 where
  asks : String → ℕ → Event
  reaps : ℕ → Event

abbrev pub time_of : Event → ℕ
time_of (asks client now) = now
time_of (reaps now) = now

-- The requests of the client `key` that are let through, among requests of all clients and runs of the reaper.
unfoldable pub granted : String → Middleware → List Event → ℕ
granted key m [] = 0
granted key m (asks client now ∷ events) =
    let (m', ok) = allow m client now in
    let rest = granted key m' events in
    if string_eq.beq client key then (if ok then suc rest else rest) else rest
granted key m (reaps now ∷ events) = granted key (reap m now) events

-- Between two times, each event no earlier than the one before it.
abbrev pub Chronological : ℕ → ℕ → List Event → Type 0
Chronological from until [] = Unit {0}
Chronological from until (e ∷ events) =
    (from ≤ time_of e) × ((time_of e ≤ until) × Chronological (time_of e) until events)

-- A bucket holds no more than the burst, was refilled no later than `last`, and was seen no earlier than that.
abbrev pub Plausible : ℕ → ℕ → Option Bucket → Type 0
Plausible limit last none = Unit {0}
Plausible limit last (some b) =
    (b.tokens ≤ limit) × ((b.last_refill ≤ last) × (b.last_refill ≤ b.last_seen))

-- What a client can still spend until `until`.
budget : Middleware → ℕ → ℕ → Option Bucket → ℕ
budget m last until none = m.burst * unit + m.rpm * (until - last)
budget m last until (some b) = b.tokens + m.rpm * (until - b.last_refill)

less_time : (rpm until last now : ℕ) → last ≤ now → rpm * (until - now) ≤ rpm * (until - last)
less_time rpm until last now h =
    mul-le-mul_left {m = until - now} {n = until - last} rpm (omega arith)

Plausible-later :
    (limit last later : ℕ) (o : Option Bucket)
    → last ≤ later
    → Plausible limit last o
    → Plausible limit later o
Plausible-later limit last later none h p = tt
Plausible-later limit last later (some b) h (p, (q, r)) = (p, (omega arith, r))

Plausible-Reaped :
    (limit last ttl now : ℕ) (o after : Option Bucket)
    → Reaped ttl now o after
    → Plausible limit last o
    → Plausible limit last after
Plausible-Reaped limit last ttl now o none r p = tt
Plausible-Reaped limit last ttl now o (some b) r p = rw r at p

-- An idle bucket that is removed would have been full by then.
budget-Reaped :
    (m : Middleware) (last until now : ℕ) (o after : Option Bucket)
    → m.burst * unit ≤ m.ttl * m.rpm
    → last ≤ now
    → now ≤ until
    → Plausible (m.burst * unit) last o
    → Reaped m.ttl now o after
    → budget m now until after ≤ budget m last until o
unfolding budget
budget-Reaped m last until now o (some b) enough h k p r = rw r (omega arith)
budget-Reaped m last until now o none enough h k p (inl r) =
    rw r (omega (arith, less_time m.rpm until last now h))
budget-Reaped m last until now o none enough h k p (inr (b, (found, idle))) = rw found (
    let times : m.ttl + (until - now) ≤ until - b.last_refill = ground (arith, rw found at p) in
    let whole =
      mul-le-mul_left {m = m.ttl + (until - now)} {n = until - b.last_refill} m.rpm times in
    omega (arith, whole, mul-add m.rpm m.ttl (until - now), mul_comm m.ttl m.rpm))

bucket_for_lem :
    (m : Middleware) (key : String) (last now until : ℕ)
    → last ≤ now
    → Plausible (m.burst * unit) last (lookup key m.buckets)
    → let b = bucket_for m key now in
      (b.tokens ≤ m.burst * unit)
      × ((b.last_refill ≤ now)
          × (b.tokens + m.rpm * (until - b.last_refill)
              ≤ budget m last until (lookup key m.buckets)))
unfolding bucket_for budget
bucket_for_lem m key last now until h p = elim (Option-cases (lookup key m.buckets)) [
  | inl absent ↦
      rw absent (omega arith, (omega arith, omega (arith, less_time m.rpm until last now h)))
  | inr (b, found) ↦ let (c, (d, e)) = rw found at p in rw found (c, (omega arith, omega arith))
]

budget-later :
    (m : Middleware) (last now until : ℕ) (o : Option Bucket)
    → last ≤ now
    → budget m now until o ≤ budget m last until o
unfolding budget
budget-later m last now until none h = omega (arith, less_time m.rpm until last now h)
budget-later m last now until (some b) h = omega arith

granted-own :
    (key : String) (m : Middleware) (client : String) (now : ℕ) (events : List Event)
    → string_eq.beq client key ≡ true
    → granted key m (asks client now ∷ events)
      ≡ counted
          (request m (bucket_for m client now) now).1
          (granted key (allow m client now).0 events)
unfolding granted counted
granted-own key m client now events e = rw e (rw (allow_rest m client now).2 (ground arith))

granted-other :
    (key : String) (m : Middleware) (client : String) (now : ℕ) (events : List Event)
    → string_eq.beq client key ≡ false
    → granted key m (asks client now ∷ events) ≡ granted key (allow m client now).0 events
unfolding granted
granted-other key m client now events e = rw e

-- The client's bucket behind its own request.
Plausible-request :
    (m : Middleware) (b : Bucket) (now until : ℕ)
    → b.tokens ≤ m.burst * unit
    → b.last_refill ≤ now
    → now ≤ until
    → Plausible (m.burst * unit) now (some (request m b now).0)
Plausible-request m b now until capped early h =
    let (h1, h2, h3, h4) = request_bound m b now until capped (omega arith) h in
    let (t1, t2) = request_times m b now early in (omega arith, (omega arith, omega arith))

found_own :
    (m : Middleware) (key client : String) (now : ℕ)
    → string_eq.beq client key ≡ true
    → lookup key (allow m client now).0.buckets ≡ some (request m (bucket_for m client now) now).0
found_own m key client now own = rw (lookup-allow m key client now, own) refl

found_other :
    (m : Middleware) (key client : String) (now : ℕ)
    → string_eq.beq client key ≡ false
    → lookup key (allow m client now).0.buckets ≡ lookup key m.buckets
found_other m key client now other = rw (lookup-allow m key client now, other) refl

granted_budget :
    (key : String) (m : Middleware) (last until : ℕ) (events : List Event)
    → m.burst * unit ≤ m.ttl * m.rpm
    → Plausible (m.burst * unit) last (lookup key m.buckets)
    → Chronological last until events
    → granted key m events * unit ≤ budget m last until (lookup key m.buckets)
unfolding granted allow reap budget
granted_budget key m last until [] enough p within = omega arith
granted_budget key m last until (asks client now ∷ events) enough p (w1, (w2, w3)) =
    let m' = (allow m client now).0 in
    elim (Bool-cases (string_eq.beq client key)) [
      | inl own ↦
          let b = bucket_for m client now in
          let (capped, (early, cost)) =
            bucket_for_lem m client last now until w1 (rw (own_key own) p) in
          let (h1, h2, h3, h4) = request_bound m b now until capped (omega arith) w2 in
          let found = found_own m key client now own in
          let after =
            granted_budget key m' now until events enough
              (rw found (Plausible-request m b now until capped early w2)) w3 in
          let spent =
            subst
              (λ c.
                b.tokens + m.rpm * (until - b.last_refill)
                ≤ budget m last until (lookup c m.buckets))
              (own_key own) cost in
          rw (granted-own key m client now events own) (
            granted_from key m client b now (granted key m' events)
              (budget m last until (lookup key m.buckets)) until refl (rw found at after)
              (omega arith))
      | inr other ↦
          let found = found_other m key client now other in
          let after =
            granted_budget key m' now until events enough
              (rw found (Plausible-later (m.burst * unit) last now (lookup key m.buckets) w1 p))
              w3 in
          let same = rw found at after in
          rw (granted-other key m client now events other)
            (omega (arith, same, budget-later m last now until (lookup key m.buckets) w1))
    ]
granted_budget key m last until (reaps now ∷ events) enough p (w1, (w2, w3)) =
    let o = lookup key m.buckets in
    let left = lookup key (reap m now).buckets in
    let gone = reap_keys-Reaped m.ttl now key m.buckets m.buckets in
    let q =
      Plausible-later (m.burst * unit) last now left w1
        (Plausible-Reaped (m.burst * unit) last m.ttl now o left gone p) in
    let after = granted_budget key (reap m now) now until events enough q w3 in
    let less = budget-Reaped m last until now o left enough w1 w2 p gone in
    omega (arith, after, less)

-- With a burst of at most what the rate brings in the time that the reaper keeps an idle bucket: among
-- requests of any clients and runs of the reaper between two times, in the order of their times, the requests of
-- one client that are let through cost no more than the burst and what the rate brings in that time, at most
-- `burst + rpm * (until - from) / (60 * 10 ^ 9)` requests. The client's bucket, if it has one before, holds no
-- more than the burst, was refilled no later than `from` and seen no earlier than it was refilled.
pub granted_bound :
    (key : String) (m : Middleware) (from until : ℕ) (events : List Event)
    → m.burst * unit ≤ m.ttl * m.rpm
    → Plausible (m.burst * unit) from (lookup key m.buckets)
    → Chronological from until events
    → granted key m events * unit ≤ m.burst * unit + m.rpm * (until - from)
unfolding granted allow reap budget
granted_bound key m from until [] enough p within = omega arith
granted_bound key m from until (asks client now ∷ events) enough p (w1, (w2, w3)) =
    let m' = (allow m client now).0 in
    let time = less_time m.rpm until from now w1 in
    elim (Bool-cases (string_eq.beq client key)) [
      | inl own ↦
          let b = bucket_for m client now in
          let (capped, (early, cost)) =
            bucket_for_lem m client from now until w1 (rw (own_key own) p) in
          let (h1, h2, h3, h4) = request_bound m b now until capped (omega arith) w2 in
          let (t1, t2) = request_times m b now early in
          let found = found_own m key client now own in
          let after =
            granted_budget key m' now until events enough
              (rw found (Plausible-request m b now until capped early w2)) w3 in
          let left : m.rpm * (until - (request m b now).0.last_refill) ≡ m.rpm * (until - now) =
            ap (λ t. m.rpm * (until - t)) t1 in
          rw (granted-own key m client now events own) (
            granted_from key m client b now (granted key m' events)
              (m.burst * unit + m.rpm * (until - from)) until refl (rw found at after)
              (omega arith))
      | inr other ↦
          let found = found_other m key client now other in
          let after =
            granted_bound key m' now until events enough
              (rw found (Plausible-later (m.burst * unit) from now (lookup key m.buckets) w1 p))
              w3 in
          rw (granted-other key m client now events other) (omega arith)
    ]
granted_bound key m from until (reaps now ∷ events) enough p (w1, (w2, w3)) =
    let o = lookup key m.buckets in
    let left = lookup key (reap m now).buckets in
    let gone = reap_keys-Reaped m.ttl now key m.buckets m.buckets in
    let q =
      Plausible-later (m.burst * unit) from now left w1
        (Plausible-Reaped (m.burst * unit) from m.ttl now o left gone p) in
    let after = granted_bound key (reap m now) now until events enough q w3 in
    let time = less_time m.rpm until from now w1 in omega (arith, after)
