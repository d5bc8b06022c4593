-- ===== src/RateLimit/Rate.antt =====
-- internal/ratelimit/middleware.go, what one request costs its client.
use native.Mathlib.Nat.{mul-add, mul_comm}
use nexus_proxy.Shared.{
  ℕ, suc, ◌+◌, ◌-◌, ◌*◌, ◌≤◌, ◌≡◌, refl, sym, ap, String, Bool, true, false, some, ltb, arith,
  Bool-cases, ltb→lt, ltb-false→le, ◌⊎◌, inl, inr, if◌then◌else◌,
}
use nexus_proxy.Shared.Assoc.{string_eq, lookup, lookup-insert}
use nexus_proxy.RateLimit.{
  or_fresh, unit, Bucket, Middleware, bucket_for, refill, take_token, allow,
}

-- What one request does to its bucket: what it takes and what is left stay within what was there and
-- what the time brought.
pub used : Bool → ℕ
used true = unit
used false = 0

refill_bound :
    (rpm burst : ℕ) (b : Bucket) (now : ℕ)
    → b.tokens ≤ burst * unit
    → let r = refill rpm burst b now in
      (r.tokens ≤ burst * unit)
      × (r.tokens ≤ b.tokens + rpm * (r.last_refill - b.last_refill))
      × (b.last_refill ≤ r.last_refill)
      × (now ≤ r.last_refill)
      × ((r.last_refill ≡ now) ⊎ (r.last_refill ≡ b.last_refill))
unfolding refill
refill_bound rpm burst b now h = elim (Bool-cases (ltb b.last_refill now)) [
  | inl later ↦
      let order = ltb→lt b.last_refill now later in
      rw later (ground (arith, mul_comm rpm (now - b.last_refill)))
  | inr same ↦ let order = ltb-false→le b.last_refill now same in rw same (ground arith)
]

take_bound :
    (b : Bucket)
    → let (t, ok) = take_token b in
      (t.tokens + used ok ≤ b.tokens) × (t.last_refill ≡ b.last_refill)
unfolding take_token used
take_bound b = ground arith

split-time : (rpm a b c : ℕ) → a ≤ b → b ≤ c → rpm * (b - a) + rpm * (c - b) ≡ rpm * (c - a)
split-time rpm a b c h k =
    let whole : c - a ≡ (b - a) + (c - b) = omega arith in
    rw whole (sym (mul-add rpm (b - a) (c - b)))

-- One request on a bucket.
unfoldable pub request : Middleware → Bucket → ℕ → Bucket × Bool
request m b now = take_token (refill m.rpm m.burst b now)

pub request_bound :
    (m : Middleware) (b : Bucket) (now until : ℕ)
    → b.tokens ≤ m.burst * unit
    → b.last_refill ≤ until
    → now ≤ until
    → let (t, ok) = request m b now in
      (t.tokens + used ok + m.rpm * (until - t.last_refill)
        ≤ b.tokens + m.rpm * (until - b.last_refill))
      × (t.tokens + used ok ≤ m.burst * unit)
      × (now ≤ t.last_refill)
      × (t.last_refill ≤ until)
unfolding request
request_bound m b now until capped early h =
    let r = refill m.rpm m.burst b now in
    let (f1, f2, f3, f4, f5) = refill_bound m.rpm m.burst b now capped in
    let (g1, g2) = take_bound r in
    let late : r.last_refill ≤ until = ground (arith, f5) in
    let time = split-time m.rpm b.last_refill r.last_refill until f3 late in
    rw g2 (omega arith, omega arith, f4, late)

pub lookup-allow :
    (m : Middleware) (key client : String) (now : ℕ)
    → lookup key (allow m client now).0.buckets ≡ (
        if string_eq.beq client key
        then some (request m (bucket_for m client now) now).0
        else lookup key m.buckets)
unfolding allow request
lookup-allow m key client now =
    lookup-insert client key (request m (bucket_for m client now) now).0 m.buckets

pub allow_rest :
    (m : Middleware) (client : String) (now : ℕ)
    → ((allow m client now).0.rpm ≡ m.rpm)
      × ((allow m client now).0.burst ≡ m.burst)
      × ((allow m client now).1 ≡ (request m (bucket_for m client now) now).1)
unfolding allow request
allow_rest m client now = (refl, refl, refl)

pub bucket_for-some :
    (m : Middleware) (key : String) (now : ℕ) (b : Bucket)
    → lookup key m.buckets ≡ some b
    → bucket_for m key now ≡ b
unfolding bucket_for
bucket_for-some m key now b e = ap (or_fresh _) e

-- What one request adds to the count.
unfoldable pub counted : Bool → ℕ → ℕ
counted true n = suc n
counted false n = n

counted_bound :
    (ok : Bool) (n left budget : ℕ)
    → n * unit ≤ left
    → left + used ok ≤ budget
    → counted ok n * unit ≤ budget
unfolding counted used
counted_bound ok n left budget h k = ground arith

pub own_key : {client key : String} → string_eq.beq client key ≡ true → client ≡ key
own_key {client} {key} h = (string_eq.beq_iff client key).0 h

-- The first request of the client on its bucket `b`, with a bound on what follows.
pub granted_from :
    (key : String) (m : Middleware) (client : String) (b : Bucket) (now rest budget until : ℕ)
    → bucket_for m client now ≡ b
    → let (t, ok) = request m b now in
      (rest * unit ≤ t.tokens + m.rpm * (until - t.last_refill))
      → t.tokens + used ok + m.rpm * (until - t.last_refill) ≤ budget
      → counted (request m (bucket_for m client now) now).1 rest * unit ≤ budget
granted_from key m client b now rest budget until e h k = rw e (
    counted_bound (request m b now).1 rest
      ((request m b now).0.tokens + m.rpm * (until - (request m b now).0.last_refill)) budget h
      (omega arith))

-- A request that comes no earlier than the last refill is the new refill, and the bucket was seen then.
pub request_times :
    (m : Middleware) (b : Bucket) (now : ℕ)
    → b.last_refill ≤ now
    → ((request m b now).0.last_refill ≡ now) × ((request m b now).0.last_seen ≡ now)
unfolding request refill take_token
request_times m b now h = ground arith
