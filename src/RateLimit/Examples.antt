-- ===== src/RateLimit/Examples.antt =====
-- internal/ratelimit at concrete inputs: 60 requests a minute with a burst of 2, and a proxy at 10.0.0.1.
use mathlib.Core.Path.{subst}
use text.Mathlib.Text.{◌==◌ as str_eq}
use nexus_proxy.Shared.{
  ◌≡◌, ◌≤◌, ◌+◌, ◌*◌, ◌-◌, refl, sym, true, String, List, [], ◌∷◌, none, some, arith, inl, inr,
  if◌then◌else◌,
}
use nexus_proxy.Shared.Assoc.{string_eq, lookup, insert, delete}
use nexus_proxy.RateLimit.{unit, Bucket, Middleware, allow, reap, take_token, refill}
use nexus_proxy.RateLimit.Interval.{Event, asks, reaps, granted, granted_bound}
use nexus_proxy.RateLimit.Reaper.{reap-allow}
use nexus_proxy.RateLimit.ClientIp.{
  NetLib, Request, any_trusted, peer_ip, untrusted_hop, Trusted, resolve, resolve_leftmost,
}

abbrev bucket : Bucket
bucket = record { tokens = 0; last_refill = 5; last_seen = 5 }

abbrev middleware : Middleware
middleware = record {
  rpm = 60;
  burst = 2;
  ttl = 600000000000;
  buckets = ("a", bucket) ∷ [];
  hits_total = [];
  rejections_total = 0;
}

abbrev four_events : List Event
four_events = asks "a" 10 ∷ asks "b" 11 ∷ reaps 600000000012 ∷ asks "a" 600000000013 ∷ []

granted_bound_example :
    granted "a" middleware four_events * unit ≤ 2 * unit + 60 * (600000000020 - 10)
unfolding lookup
granted_bound_example =
    granted_bound "a" middleware 10 600000000020 four_events (omega arith)
      (omega arith, (omega arith, omega arith))
      (
        omega arith,
        (
          omega arith,
          (
            omega arith,
            (omega arith, (omega arith, (omega arith, (omega arith, (omega arith, tt))))),
          ),
        ),
      )

reap-allow_example :
    ((allow (reap middleware 700000000000) "a" 700000000001).1
      ≡ (allow middleware "a" 700000000001).1)
    × (lookup "a" (allow (reap middleware 700000000000) "a" 700000000001).0.buckets
        ≡ lookup "a" (allow middleware "a" 700000000001).0.buckets)
unfolding lookup
reap-allow_example =
    reap-allow middleware "a" 700000000000 700000000001 (omega arith) (omega arith) (omega arith)

-- With a burst of 100 at 1 request a minute the reaper gives an idle client a full bucket again.
abbrev slow : Middleware
slow = record middleware { rpm = 1; burst = 100 }

reaped_early :
    ((lookup "a" (allow (reap slow 600000000006) "a" 600000000007).0.buckets)
      ≡ some (record { tokens = 99 * unit; last_refill = 600000000007; last_seen = 600000000007 }))
    × (lookup "a" (allow slow "a" 600000000007).0.buckets
        ≡ some (record {
          tokens = 540000000002;
          last_refill = 600000000007;
          last_seen = 600000000007;
        }))
unfolding lookup allow reap insert delete take_token refill
reaped_early = (refl, refl)

-- Addresses are texts; the proxy 10.0.0.1 is trusted.
abbrev lib : NetLib String String
lib = record {
  parse_ip = λ s. if str_eq s "?" then none else some s;
  parse_cidr = λ s. none;
  host_net = λ s. s;
  ip_string = λ s. s;
  contains = str_eq;
  split_comma =
      λ s. if str_eq s "?,1.1.1.1,9.9.9.9" then "?" ∷ "1.1.1.1" ∷ "9.9.9.9" ∷ [] else s ∷ [];
  trim_space = λ s. s;
  split_host_port = λ s. none;
}

abbrev request : Request
request = record { remote_addr = "10.0.0.1"; forwarded_for = "?,1.1.1.1,9.9.9.9"; real_ip = "" }

outside : Trusted lib ("10.0.0.1" ∷ []) "1.1.1.1" → ⊥
outside (ip, (e, inl h)) =
    let same : "1.1.1.1" ≡ ip = ground (arith, e) in
    let met : str_eq "10.0.0.1" "1.1.1.1" ≡ true =
      subst (λ s. str_eq "10.0.0.1" s ≡ true) (sym same) h in
    ground (arith, met)
outside (ip, (e, inr h)) = h

resolve_leftmost_example : resolve lib ("10.0.0.1" ∷ []) request ≡ "1.1.1.1"
unfolding any_trusted peer_ip untrusted_hop
resolve_leftmost_example =
    resolve_leftmost lib ("10.0.0.1" ∷ []) request ("?" ∷ []) "1.1.1.1" ("9.9.9.9" ∷ []) "1.1.1.1"
      ("10.0.0.1", (refl, inl refl)) refl refl (inr (inl refl), tt)
      ("1.1.1.1", (refl, (refl, (refl, outside)))) refl
